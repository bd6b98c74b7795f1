-- ===== src/ScullPipe/Buffer.antt =====
-- Opening and releasing the pipe.
use native.Mathlib.Nat.{mod_self}
use advanced_embedded_softwa.Base.{
  ℕ, ◌+◌, ◌-◌, ◌%◌, ◌≤◌, ◌<◌, ◌≡◌, refl, ap, ◌∙◌, Bool, true, false, Option, none, some, List, [],
  arith, length, ◌==◌, if◌then◌else◌,
}
use advanced_embedded_softwa.Kernel.{done}
use advanced_embedded_softwa.ScullPipe.{Pipe, present, count_if, uncount_if, open_pipe, release}
use advanced_embedded_softwa.ScullPipe.Inv.{IsValid, contents}

-- An open that gets the lock, where the buffer that is there, or else the one that `kmalloc` gives,
-- has `scull_p_buffer` bytes and that is not 0: the pipe is valid and empty, and the opening is
-- counted.
pub open_pipe_lem :
    (size : ℕ) (fresh : Option (List ℕ)) (bytes : List ℕ) (reads writes : Bool) (dev : Pipe)
    → present dev.buffer fresh ≡ some bytes
    → 0 < size
    → size ≤ length bytes
    → ((open_pipe true size fresh reads writes dev).0 ≡ done 0)
      × IsValid (open_pipe true size fresh reads writes dev).1
      × (contents (open_pipe true size fresh reads writes dev).1 ≡ [])
      × ((open_pipe true size fresh reads writes dev).1.nreaders
          ≡ (if reads then dev.nreaders + 1 else dev.nreaders))
      × ((open_pipe true size fresh reads writes dev).1.nwriters
          ≡ (if writes then dev.nwriters + 1 else dev.nwriters))
unfolding open_pipe contents
open_pipe_lem size fresh bytes reads writes dev e positive fits =
    let held : (0 + size - 0) % size ≡ 0 = ap (λ k. k % size) (omega arith) ∙ mod_self size in
    rw (e, held)
      (
        refl,
        record { room = fits; positive = positive; rp_range = positive; wp_range = positive },
        refl,
        refl,
        refl,
      )

uncount_if-count_if : (b : Bool) (n : ℕ) → uncount_if b (count_if b n) ≡ n
uncount_if-count_if true n = omega arith
uncount_if-count_if false n = refl

-- Openings are balanced by releases: after an open that succeeds, a release in the same modes gives
-- back the counts, and it frees the buffer just if no other opening was left.
pub release-open_pipe :
    (size : ℕ) (fresh : Option (List ℕ)) (bytes : List ℕ) (queued reads writes : Bool) (dev : Pipe)
    → present dev.buffer fresh ≡ some bytes
    → ((release queued reads writes (open_pipe true size fresh reads writes dev).1).nreaders
        ≡ dev.nreaders)
      × ((release queued reads writes (open_pipe true size fresh reads writes dev).1).nwriters
          ≡ dev.nwriters)
      × ((release queued reads writes (open_pipe true size fresh reads writes dev).1).buffer
          ≡ (if dev.nreaders + dev.nwriters == 0 then none else some bytes))
unfolding open_pipe release
release-open_pipe size fresh bytes queued reads writes dev e =
    let readers = uncount_if-count_if reads dev.nreaders in
    let writers = uncount_if-count_if writes dev.nwriters in
    rw (e, readers, writers) (refl, refl, refl)
