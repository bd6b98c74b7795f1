-- ===== src/ScullPipe/Blocking.antt =====
-- The waiting of reads and writes, and what poll says of it.
use advanced_embedded_softwa.Base.{
  ℕ, ◌+◌, ◌-◌, ◌≤◌, ◌<◌, ◌≡◌, ◌≢◌, refl, Bool, true, false, inl, inr, Option, none, some, List, [],
  ◌∷◌, arith, length, take, ltb, ◌==◌, not, Bool-cases, ◌⊎◌,
}
use advanced_embedded_softwa.Base.Chain.{if_cases}
use advanced_embedded_softwa.Kernel.{erestartsys, eagain, fail}
use advanced_embedded_softwa.ScullPipe.{
  Pipe, Wake, Wait, ready, stopped, asleep, wait_while, is_empty, is_full, Result, read_count,
  read_data, stop, read, write_count, write_data, write, poll, spacefree,
}
use advanced_embedded_softwa.ScullPipe.Inv.{
  IsValid, contents, read_count_bounds, write_count_bounds, length-contents, used_cases,
  spacefree-contents,
}
use advanced_embedded_softwa.ScullPipe.Fifo.{Took, read-Took}
use advanced_embedded_softwa.ScullPipe.Put.{Put, write-Put}

-- Every pipe that a wake-up meets is valid.
abbrev pub AllValid : List Wake → Type 0
AllValid [] = Unit
AllValid (w ∷ wakes) = IsValid w.dev × AllValid wakes

-- How many bytes wait, and how many there is room for.
abbrev pub waiting : Pipe → ℕ
waiting dev = length (contents dev)

abbrev pub room : Pipe → ℕ
room dev = dev.buffersize - 1 - length (contents dev)

-- A call that may block sleeps, through pipes with nothing of what it waits for, and wakes without a
-- signal and with the lock: from the first pipe, before these wake-ups, to the second, before those.
pub data Sleeps (amount : Pipe → ℕ) (nonblock : Bool)
    : Pipe → List Wake → Pipe → List Wake → Type 0 where
  here : {dev : Pipe} {wakes : List Wake} → Sleeps amount nonblock dev wakes dev wakes
  slept :
      {dev dev' : Pipe} {w : Wake} {wakes left : List Wake}
      → nonblock ≡ false
      → amount dev ≡ 0
      → w.signalled ≡ false
      → w.locks ≡ true
      → Sleeps amount nonblock w.dev wakes dev' left
      → Sleeps amount nonblock dev (w ∷ wakes) dev' left

-- How a call ends at a pipe to which it has come, with the wake-ups that are left: it does its work,
-- which `Works` describes, only where there is something to work on.
pub data Answer (amount : Pipe → ℕ) (Works : Pipe → Result → Type 0) (nonblock : Bool) (dev : Pipe)
    : List Wake → Option Result → Type 0 where
  works :
      {left : List Wake} {r : Result}
      → amount dev ≢ 0
      → Works dev r
      → Answer amount Works nonblock dev left (some r)
  refused :
      {left : List Wake}
      → amount dev ≡ 0
      → nonblock ≡ true
      → Answer amount Works nonblock dev left
          (some (record { ret = fail eagain; delivered = []; dev = dev }))
  interrupted :
      {w : Wake} {left : List Wake}
      → amount dev ≡ 0
      → nonblock ≡ false
      → (w.signalled ≡ true) ⊎ (w.locks ≡ false)
      → Answer amount Works nonblock dev
          (w ∷ left)
          (some (record { ret = fail erestartsys; delivered = []; dev = w.dev }))
  sleeps_on : amount dev ≡ 0 → nonblock ≡ false → Answer amount Works nonblock dev [] none

-- The answer to a call at a pipe, before these wake-ups.
pub record Ends (amount : Pipe → ℕ) (Works : Pipe → Result → Type 0) (nonblock : Bool) (dev : Pipe)
    (wakes : List Wake) (r : Option Result) : Type 0 where
  pub arrived : Pipe
  pub left : List Wake
  pub sleeps : Sleeps amount nonblock dev wakes arrived left
  pub answer : Answer amount Works nonblock arrived left r

-- A call that does `work` once its waiting is over.
abbrev continue_with : (Pipe → Result) → Wait → Option Result
continue_with work (ready dev) = some (work dev)
continue_with work (stopped e dev) = some (stop e dev)
continue_with work (asleep dev) = none

module _ (amount : Pipe → ℕ) (Works : Pipe → Result → Type 0) (busy : Pipe → Bool)
    (work : Pipe → Result) (same : (dev : Pipe) → IsValid dev → busy dev ≡ (amount dev == 0))
    (does : (dev : Pipe) → IsValid dev → amount dev ≢ 0 → Works dev (work dev)) where
  none_there : (dev : Pipe) → IsValid dev → busy dev ≡ true → amount dev ≡ 0
  none_there dev v b = ground (arith, same dev v)

  some_there : (dev : Pipe) → IsValid dev → busy dev ≡ false → amount dev ≢ 0
  some_there dev v b = ground (arith, same dev v)

  at_once :
      (nonblock : Bool) (wakes : List Wake) (dev : Pipe)
      → IsValid dev
      → busy dev ≡ false
      → Ends amount Works nonblock dev wakes (some (work dev))
  at_once nonblock wakes dev v b = record {
    arrived = dev;
    left = wakes;
    sleeps = here;
    answer = works (some_there dev v b) (does dev v (some_there dev v b));
  }

  stays_here :
      (nonblock : Bool) (wakes : List Wake) (dev : Pipe) (r : Option Result)
      → Answer amount Works nonblock dev wakes r
      → Ends amount Works nonblock dev wakes r
  stays_here nonblock wakes dev r a = record {
    arrived = dev;
    left = wakes;
    sleeps = here;
    answer = a;
  }

  wait_while-Ends :
      (nonblock : Bool) (wakes : List Wake) (dev : Pipe)
      → IsValid dev
      → AllValid wakes
      → Ends amount Works nonblock dev wakes
          (continue_with work (wait_while busy nonblock wakes dev))
  unfolding wait_while
  wait_while-Ends true [] dev v all =
      if_cases (λ w. Ends amount Works true dev [] (continue_with work w)) (busy dev)
        (λ b. stays_here true [] dev _ (refused (none_there dev v b) refl))
        (λ b. at_once true [] dev v b)
  wait_while-Ends false [] dev v all =
      if_cases (λ w. Ends amount Works false dev [] (continue_with work w)) (busy dev)
        (λ b. stays_here false [] dev _ (sleeps_on (none_there dev v b) refl))
        (λ b. at_once false [] dev v b)
  wait_while-Ends true (w ∷ wakes) dev v all =
      if_cases (λ x. Ends amount Works true dev (w ∷ wakes) (continue_with work x)) (busy dev)
        (λ b. stays_here true (w ∷ wakes) dev _ (refused (none_there dev v b) refl))
        (λ b. at_once true (w ∷ wakes) dev v b)
  wait_while-Ends false (w ∷ wakes) dev v all =
      let again = wait_while-Ends false wakes w.dev all.0 all.1 in
      let P : Wait → Type 0 = λ x. Ends amount Works false dev (w ∷ wakes) (continue_with work x) in
      if_cases P (busy dev)
        (λ b.
          if_cases P w.signalled
            (λ sig.
              stays_here false (w ∷ wakes) dev _ (interrupted (none_there dev v b) refl (inl sig)))
            (λ sig.
              if_cases P w.locks
                (λ held. record {
                  arrived = again.arrived;
                  left = again.left;
                  sleeps = slept refl (none_there dev v b) sig held again.sleeps;
                  answer = again.answer;
                })
                (λ held.
                  stays_here false (w ∷ wakes) dev _
                    (interrupted (none_there dev v b) refl (inr held)))))
        (λ b. at_once false (w ∷ wakes) dev v b)

-- A read that takes the oldest bytes, at least one of those asked for.
pub record ReadsSome (count : ℕ) (dev : Pipe) (r : Result) : Type 0 where
  pub n : ℕ
  pub asked : n ≤ count
  pub some_byte : 0 < count → 0 < n
  pub took : Took dev n r

-- A write that puts bytes of `buf` behind those that wait, at least one of those given.
pub record WritesSome (buf : List ℕ) (count : ℕ) (dev : Pipe) (r : Result) : Type 0 where
  pub n : ℕ
  pub asked : n ≤ count
  pub some_byte : 0 < count → 0 < n
  pub put : Put dev (take n buf) r

empty_same : (dev : Pipe) → IsValid dev → is_empty dev ≡ (waiting dev == 0)
unfolding is_empty
empty_same dev v = let size = length-contents dev in let held = used_cases dev v in ground arith

full_same : (dev : Pipe) → IsValid dev → is_full dev ≡ (room dev == 0)
unfolding is_full
full_same dev v =
    let size = length-contents dev in
    let spare = spacefree-contents dev v in let held = used_cases dev v in ground arith

read_data-ReadsSome :
    (count space : ℕ)
    → count ≤ space
    → (dev : Pipe) → IsValid dev
    → waiting dev ≢ 0
    → ReadsSome count dev (read_data dev count space)
read_data-ReadsSome count space fits dev v some_wait =
    let size = length-contents dev in
    let held = used_cases dev v in
    let waits : dev.rp ≢ dev.wp = ground arith in
    let (asked, _, _, some_byte) = read_count_bounds dev count v in
    record {
      n = read_count dev count;
      asked = omega arith;
      some_byte = λ c. ground arith;
      took = read-Took dev count space v waits (omega arith);
    }

write_data-WritesSome :
    (buf : List ℕ) (count readable : ℕ)
    → count ≤ length buf
    → count ≤ readable
    → (dev : Pipe) → IsValid dev
    → room dev ≢ 0
    → WritesSome buf count dev (write_data dev buf count readable)
write_data-WritesSome buf count readable given fits dev v some_room =
    let size = length-contents dev in
    let spare = spacefree-contents dev v in
    let held = used_cases dev v in
    let (asked, _, _, some_byte) = write_count_bounds dev count v in
    record {
      n = write_count dev count;
      asked = omega arith;
      some_byte = λ c. ground arith;
      put = write-Put dev buf count readable v given (omega arith);
    }

-- A read at a valid pipe whose lock it gets, by a process with space for `count` bytes, where every
-- wake-up meets a valid pipe. It sleeps, if it may, while no byte waits, through wake-ups without a
-- signal and with the lock. At the first pipe where bytes wait it takes the oldest of them, `count` at
-- most and at least one if `count` is not 0, and leaves the others in order. At one where none waits it
-- ends with EAGAIN if it may not block, with ERESTARTSYS if a signal or the lock stops it, and else it
-- is asleep.
pub read_lem :
    (nonblock : Bool) (wakes : List Wake) (dev : Pipe) (count space : ℕ)
    → IsValid dev
    → AllValid wakes
    → count ≤ space
    → Ends waiting (ReadsSome count) nonblock dev wakes (read true nonblock wakes dev count space)
unfolding read
read_lem nonblock wakes dev count space v all fits =
    wait_while-Ends waiting (ReadsSome count) is_empty (λ d. read_data d count space) empty_same
      (read_data-ReadsSome count space fits) nonblock wakes dev v all

-- A write at a valid pipe whose lock it gets, of the first `count` bytes of a buffer, all of which can
-- be read, where every wake-up meets a valid pipe. It sleeps, if it may, while there is no room,
-- through wake-ups without a signal and with the lock. At the first pipe with room it puts first bytes
-- of the buffer behind those that wait, `count` at most and at least one if `count` is not 0. At one
-- without room it ends with EAGAIN if it may not block, with ERESTARTSYS if a signal or the lock stops
-- it, and else it is asleep.
pub write_lem :
    (nonblock : Bool) (wakes : List Wake) (dev : Pipe) (buf : List ℕ) (count readable : ℕ)
    → IsValid dev
    → AllValid wakes
    → count ≤ length buf
    → count ≤ readable
    → Ends room
        (WritesSome buf count)
        nonblock
        dev
        wakes
        (write true nonblock wakes dev buf count readable)
unfolding write
write_lem nonblock wakes dev buf count readable v all given fits =
    wait_while-Ends room (WritesSome buf count) is_full (λ d. write_data d buf count readable)
      full_same (write_data-WritesSome buf count readable given fits) nonblock wakes dev v all

-- What a call that may not block does at a pipe: it works just if `poll` says so, and then moves a
-- byte, and else it is refused with EAGAIN and leaves the pipe.
abbrev pub Polled : Bool → (Result → Type 0) → Pipe → Option Result → Type 0
Polled says Works dev none = false ≡ true
Polled true Works dev (some r) = Works r
Polled false Works dev (some r) = r ≡ record { ret = fail eagain; delivered = []; dev = dev }

-- What `scull_p_poll` reports of a valid pipe: it says readable just when bytes wait, and writable
-- just when there is room for another. A read or a write that gets the lock and may not block, of at
-- least one byte that the process can take or give, takes the oldest bytes or puts bytes behind the
-- others, at least one and `count` at most, if it was reported so, and is otherwise refused with EAGAIN.
pub poll_lem :
    (dev : Pipe) (buf : List ℕ) (count : ℕ)
    → IsValid dev
    → 0 < count
    → count ≤ length buf
    → ((poll dev).0 ≡ not (length (contents dev) == 0))
      × ((poll dev).1 ≡ ltb (length (contents dev) + 1) dev.buffersize)
      × Polled (poll dev).0 (ReadsSome count dev) dev (read true true [] dev count count)
      × Polled (poll dev).1 (WritesSome buf count dev) dev (write true true [] dev buf count count)
unfolding poll read write wait_while is_empty is_full
poll_lem dev buf count v some_bytes given =
    let size = length-contents dev in
    let spare = spacefree-contents dev v in
    let held = used_cases dev v in
    (
      ground arith,
      ground arith,
      elim (Bool-cases (dev.rp == dev.wp)) [
        | inl e ↦ rw e refl
        | inr e ↦ rw e (read_data-ReadsSome count count (omega arith) dev v (ground arith))
      ],
      elim (Bool-cases (spacefree dev == 0)) [
        | inl e ↦ rw e refl
        | inr e ↦
            rw e (write_data-WritesSome buf count count given (omega arith) dev v (ground arith))
      ],
    )
