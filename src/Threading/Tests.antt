-- ===== src/Threading/Tests.antt =====
-- The exercise on threads at concrete inputs.
use advanced_embedded_softwa.Base.{◌≡◌, refl, true, false, some, ltb}
use advanced_embedded_softwa.Threading.{ThreadData, ThreadCalls, micros, threadfunc, start_thread}

abbrev data_of_thread : ThreadData
data_of_thread = record {
  wait_to_obtain_ms = 2;
  wait_to_release_ms = 1000;
  thread_complete_success = false;
}

started : start_thread true true 2 1000 ≡ some record { ret = true; running = some data_of_thread }
unfolding start_thread
started = refl

-- A system on which usleep refuses a second and more.
abbrev calls : ThreadCalls
calls = record {
  sleeps = λ n. ltb n 1000000;
  locks = true;
  sleeps_again = λ n. ltb n 1000000;
  unlocks = true;
}

-- A thread whose second wait fails, with the mutex locked, keeps it and does not mark success.
keeps_mutex : (threadfunc calls data_of_thread).holds_mutex ≡ true
unfolding threadfunc
keeps_mutex = refl

-- One whose waits are short enough marks success and gives the mutex back.
abbrev short : ThreadData
short = record data_of_thread { wait_to_release_ms = 3 }

gives_back :
    threadfunc calls short
    ≡ record { thread_data = record short { thread_complete_success = true }; holds_mutex = false }
unfolding threadfunc
gives_back = refl

-- A time of 4294968 ms wraps around to 704 microseconds.
wraps : micros 4294968 ≡ 704
wraps = refl
