-- ===== src/Threading.antt =====
-- The exercise on threads: assignments-3-and-later-saloni1307-master/examples/threading/threading.c.
-- Whether the system calls succeed are arguments; the waits only have their length passed on.
mod Tests
use advanced_embedded_softwa.Base.{
  ℕ, ◌*◌, ◌%◌, ◌^◌, Bool, true, false, Option, none, some, if◌then◌else◌,
}

-- `struct thread_data`, less the pointer to the mutex.
pub record ThreadData : Type 0 where
  pub wait_to_obtain_ms : ℕ
  pub wait_to_release_ms : ℕ
  pub thread_complete_success : Bool

-- What the calls of a thread give: `sleeps` is whether usleep succeeds for so many microseconds,
-- at the first and at the second call.
pub record ThreadCalls : Type 0 where
  pub sleeps : ℕ → Bool
  pub locks : Bool
  pub sleeps_again : ℕ → Bool
  pub unlocks : Bool

-- What a thread leaves: its data, and whether it still holds the mutex.
pub record Finished : Type 0 where
  pub thread_data : ThreadData
  pub holds_mutex : Bool

-- The argument of usleep, an `int` product of a time that is not negative, in its 32 bits.
abbrev pub micros : ℕ → ℕ
micros ms = ms * 1000 % 2 ^ 32

-- `threadfunc`
unfoldable pub threadfunc : ThreadCalls → ThreadData → Finished
threadfunc calls d =
    if calls.sleeps (micros d.wait_to_obtain_ms)
    then (if calls.locks
        then (if calls.sleeps_again (micros d.wait_to_release_ms)
            then (if calls.unlocks
                then record {
                  thread_data = record d { thread_complete_success = true };
                  holds_mutex = false;
                }
                else record { thread_data = d; holds_mutex = true })
            else record { thread_data = d; holds_mutex = true })
        else record { thread_data = d; holds_mutex = false })
    else record { thread_data = d; holds_mutex = false }

-- What `start_thread_obtaining_mutex` returns, and the data of the thread that runs, if one does.
pub record Started : Type 0 where
  pub ret : Bool
  pub running : Option ThreadData

-- `start_thread_obtaining_mutex`: whether malloc and pthread_create succeed. Nothing comes of it
-- where malloc fails, since the block is then written through NULL.
unfoldable pub start_thread : Bool → Bool → ℕ → ℕ → Option Started
start_thread allocated created obtain release =
    let d : ThreadData = record {
      wait_to_obtain_ms = obtain;
      wait_to_release_ms = release;
      thread_complete_success = false;
    } in
    if allocated
    then (if created
        then some record { ret = true; running = some d }
        else some record { ret = false; running = none })
    else none
