-- ===== src/ScullAccess/Waits.antt =====
-- The open that waits for the user of the device.
use advanced_embedded_softwa.Base.{
  ℕ, ◌+◌, ◌≡◌, ◌≢◌, ◌⊎◌, refl, arith, Bool, true, false, inl, inr, Option, none, some, List, [],
  ◌∷◌, ◌==◌, Bool-cases,
}
use advanced_embedded_softwa.Base.Chain.{if_cases}
use advanced_embedded_softwa.Kernel.{Ret, done, fail, eagain, erestartsys}
use advanced_embedded_softwa.ScullAccess.{
  Owned, Caller, lets_in, available, grab, Woken, blocking_open,
}
use advanced_embedded_softwa.ScullAccess.Held.{Entitled, lets_in-Entitled}

-- The device is free for the caller: nobody has it open, or its owner admits the caller.
abbrev pub Free : Owned → Caller → Type 0
Free s c = (s.count ≡ 0) ⊎ Entitled s.owner c

-- It is not.
pub record Taken (s : Owned) (c : Caller) : Type 0 where
  pub opened : s.count ≢ 0
  pub not_user : c.uid ≢ s.owner
  pub not_for_user : c.euid ≢ s.owner
  pub no_override : c.override ≡ false

-- A caller that may wait sleeps through states in which the device is taken, without a signal: from
-- the first state, before these wake-ups, to the second, before those.
pub data Sleeps (nonblock : Bool) (c : Caller)
    : Owned → List Woken → Owned → List Woken → Type 0 where
  here : {s : Owned} {woken : List Woken} → Sleeps nonblock c s woken s woken
  slept :
      {s s' : Owned} {w : Woken} {woken left : List Woken}
      → nonblock ≡ false
      → Taken s c
      → w.signalled ≡ false
      → Sleeps nonblock c w.state woken s' left
      → Sleeps nonblock c s (w ∷ woken) s' left

-- How the open ends in a state `s` at which the caller has arrived, with the wake-ups that are left.
pub data Answer (nonblock : Bool) (c : Caller) (s : Owned)
    : List Woken → Option (Ret × Owned) → Type 0 where
  admitted :
      {left : List Woken} {owner : ℕ}
      → Free s c
      → (s.count ≡ 0 → owner ≡ c.uid)
      → (s.count ≢ 0 → owner ≡ s.owner)
      → Answer nonblock c s left (some (done 0, record { count = s.count + 1; owner = owner }))
  refused :
      {left : List Woken}
      → Taken s c
      → nonblock ≡ true
      → Answer nonblock c s left (some (fail eagain, s))
  interrupted :
      {w : Woken} {left : List Woken}
      → Taken s c
      → nonblock ≡ false
      → w.signalled ≡ true
      → Answer nonblock c s (w ∷ left) (some (fail erestartsys, w.state))
  asleep : Taken s c → nonblock ≡ false → Answer nonblock c s [] none

-- The answer to an open in the state `s`, before the wake-ups `woken`.
pub record OpenEnds (nonblock : Bool) (c : Caller) (s : Owned) (woken : List Woken)
    (r : Option (Ret × Owned)) : Type 0 where
  pub arrived : Owned
  pub left : List Woken
  pub sleeps : Sleeps nonblock c s woken arrived left
  pub answer : Answer nonblock c arrived left r

available-Free : (s : Owned) (c : Caller) → available s c ≡ true → Free s c
unfolding available
available-Free s c e = elim (Bool-cases (s.count == 0)) [
  | inl z ↦ inl (ground arith)
  | inr z ↦ inr (lets_in-Entitled s.owner c (ground arith))
]

unavailable-Taken : (s : Owned) (c : Caller) → available s c ≡ false → Taken s c
unfolding available lets_in
unavailable-Taken s c e = record {
  opened = ground arith;
  not_user = ground arith;
  not_for_user = ground arith;
  no_override = ground arith;
}

grabs :
    (nonblock : Bool) (woken : List Woken) (s : Owned) (c : Caller)
    → available s c ≡ true
    → OpenEnds nonblock c s woken (some (done 0, grab s c))
unfolding grab
grabs nonblock woken s c a = record {
  arrived = s;
  left = woken;
  sleeps = here;
  answer =
      admitted (available-Free s c a) (λ z. rw z refl)
        (λ some_user. let e : (s.count == 0) ≡ false = ground arith in rw e refl);
}

-- The open sleeps, if it may, through wake-ups without a signal while the device is taken: somebody has
-- it open, and the owner is neither the user nor the effective user of the caller, who may not override.
-- In the first state where that is not so, it lets the caller in, counts the opening, and makes the
-- user the owner if nobody had the device open. In one where it is so, it ends with EAGAIN if it may
-- not wait, with ERESTARTSYS, and what the others left, if a signal wakes it, and else it is asleep.
pub blocking_open_lem :
    (nonblock : Bool) (woken : List Woken) (s : Owned) (c : Caller)
    → OpenEnds nonblock c s woken (blocking_open nonblock woken s c)
unfolding blocking_open
blocking_open_lem true [] s c = elim (Bool-cases (available s c)) [
  | inl a ↦ rw a (grabs true [] s c a)
  | inr a ↦ rw a record {
    arrived = s;
    left = [];
    sleeps = here;
    answer = refused (unavailable-Taken s c a) refl;
  }
]
blocking_open_lem false [] s c = elim (Bool-cases (available s c)) [
  | inl a ↦ rw a (grabs false [] s c a)
  | inr a ↦ rw a record {
    arrived = s;
    left = [];
    sleeps = here;
    answer = asleep (unavailable-Taken s c a) refl;
  }
]
blocking_open_lem true (w ∷ woken) s c = elim (Bool-cases (available s c)) [
  | inl a ↦ rw a (grabs true (w ∷ woken) s c a)
  | inr a ↦ rw a record {
    arrived = s;
    left = w ∷ woken;
    sleeps = here;
    answer = refused (unavailable-Taken s c a) refl;
  }
]
blocking_open_lem false (w ∷ woken) s c =
    let again = blocking_open_lem false woken w.state c in
    if_cases (OpenEnds false c s (w ∷ woken)) (available s c) (λ a. grabs false (w ∷ woken) s c a)
      (λ a.
        if_cases (OpenEnds false c s (w ∷ woken)) w.signalled
          (λ sig. record {
            arrived = s;
            left = w ∷ woken;
            sleeps = here;
            answer = interrupted (unavailable-Taken s c a) refl sig;
          })
          (λ sig. record {
            arrived = again.arrived;
            left = again.left;
            sleeps = slept refl (unavailable-Taken s c a) sig again.sleeps;
            answer = again.answer;
          }))
