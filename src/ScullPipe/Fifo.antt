-- ===== src/ScullPipe/Fifo.antt =====
-- Reads and writes of the pipe against a queue of bytes.
use mathlib.Core.List.{append-nil, append_assoc}
use native.Mathlib.Nat.{mod-eq_of_lt, mod-eq-sub-mod, mod-add-mod}
use advanced_embedded_softwa.Base.{
  ℕ, suc, ◌+◌, ◌-◌, ◌%◌, ◌≤◌, ◌<◌, ◌≡◌, ◌≢◌, refl, sym, ap, ◌∙◌, true, false, inl, inr, List, [],
  ◌∷◌, ◌++◌, arith, length, length-set, set, take, drop, ltb, ◌==◌, if◌then◌else◌, Bool-cases,
  length-take, length-drop,
}
use advanced_embedded_softwa.Base.Window.{window, window-split, window-take, window-set_end}
use advanced_embedded_softwa.Kernel.{done, fail, efault}
use advanced_embedded_softwa.ScullPipe.{Pipe, block, copy_in, read_count, Result, read_data}
use advanced_embedded_softwa.ScullPipe.Inv.{IsValid, used, contents, used_cases, read_count_bounds}

-- Bytes that are copied in behind a window, without passing the end of the array, extend it.
pub window-copy_in :
    (src bytes : List ℕ) (cap h u i n : ℕ)
    → cap ≤ length bytes
    → h < cap
    → n ≡ u + length src
    → n < cap
    → i ≡ (h + u) % cap
    → i + length src ≤ cap
    → window (copy_in bytes i src) 0 cap h n ≡ window bytes 0 cap h u ++ src
unfolding copy_in
window-copy_in [] bytes cap h u i n size hh e small at fits =
    let same : n ≡ u = omega arith in rw (same, append-nil)
window-copy_in (c ∷ []) bytes cap h u i n size hh e small at fits =
    let same : n ≡ suc u = omega arith in
    rw same (window-set_end bytes 0 c cap u h i size hh (omega arith) at)
window-copy_in (c ∷ d ∷ src) bytes cap h u i n size hh e small at fits =
    let round : ((h + u) % cap + 1) % cap ≡ (h + suc u) % cap =
      rw mod-add-mod (ap (λ k. k % cap) (omega arith)) in
    let next : i + 1 ≡ (h + suc u) % cap =
      sym (mod-eq_of_lt {n = i + 1} {m = cap} (omega arith)) ∙ ap (λ k. (k + 1) % cap) at ∙ round in
    window-copy_in (d ∷ src) (set bytes i c) cap h (suc u) (i + 1) n
      (omega (arith, length-set bytes i c)) hh (omega arith) small next (omega arith)
    ∙ ap (λ w. w ++ (d ∷ src)) (window-set_end bytes 0 c cap u h i size hh (omega arith) at)
    ∙ append_assoc (window bytes 0 cap h u) (c ∷ []) (d ∷ src)

-- An offset after a step that may reach the end of the buffer.
unfoldable pub wrap : ℕ → ℕ → ℕ
wrap next size = if next == size then 0 else next

pub wrap_lem : (h n size : ℕ) → h + n ≤ size → 0 < size → (h + n) % size ≡ wrap (h + n) size
unfolding wrap
wrap_lem h n size fits positive = elim (Bool-cases (h + n == size)) [
  | inl e ↦
      let full : h + n ≡ size = ground arith in
      rw (e, full)
        (mod-eq-sub-mod {n = size} {m = size} (omega arith)
          ∙ ap (λ k. k % size) {y = 0} (omega arith)
          ∙ mod-eq_of_lt positive)
  | inr e ↦ rw e (mod-eq_of_lt {n = h + n} {m = size} (ground arith))
]

-- A read that gives `n` bytes: they are the oldest, and leave the queue.
pub record Took (dev : Pipe) (n : ℕ) (r : Result) : Type 0 where
  pub ret : r.ret ≡ done n
  pub size : length r.delivered ≡ n
  pub queue : contents dev ≡ r.delivered ++ contents r.dev
  pub valid : IsValid r.dev

pub wrap_range : (h n size : ℕ) → h + n ≤ size → 0 < size → wrap (h + n) size < size
unfolding wrap
wrap_range h n size fits positive = ground arith

advance_read :
    (dev : Pipe) (n : ℕ)
    → IsValid dev
    → dev.rp + n ≤ dev.buffersize
    → IsValid (record dev { rp = wrap (dev.rp + n) dev.buffersize })
advance_read dev n v fits = record {
  room = v.room;
  positive = v.positive;
  rp_range = wrap_range dev.rp n dev.buffersize fits v.positive;
  wp_range = v.wp_range;
}

used_after_read :
    (dev : Pipe) (n : ℕ)
    → IsValid dev
    → dev.rp + n ≤ dev.buffersize
    → n ≤ used dev
    → used (record dev { rp = wrap (dev.rp + n) dev.buffersize }) ≡ used dev - n
unfolding wrap
used_after_read dev n v fits waits =
    let before = used_cases dev v in
    rw
      (
        used_cases (record dev { rp = wrap (dev.rp + n) dev.buffersize })
            (advance_read dev n v fits),
        before,
      )
      (ground arith)

-- The data path of a read at an offset and length of its own, for `read-Took`.
read_parts :
    (dev : Pipe) (n : ℕ)
    → IsValid dev
    → dev.rp + n ≤ dev.buffersize
    → n ≤ used dev
    → contents dev
      ≡ take n (drop dev.rp (block dev.buffer))
        ++ contents (record dev { rp = wrap (dev.rp + n) dev.buffersize })
unfolding contents
read_parts dev n v fits waits =
    let bytes = block dev.buffer in
    let size = dev.buffersize in
    let next : (dev.rp + n) % size ≡ wrap (dev.rp + n) size =
      wrap_lem dev.rp n size fits v.positive in
    let split : window bytes 0 size dev.rp (used dev)
        ≡ window bytes 0 size dev.rp n ++ window bytes 0 size ((dev.rp + n) % size) (used dev - n) =
      window-split bytes 0 size n (used dev - n) (used dev) dev.rp (omega arith) v.rp_range in
    let first : window bytes 0 size dev.rp n ≡ take n (drop dev.rp bytes) =
      window-take bytes 0 size n dev.rp fits v.room in
    rw (split, first, next, used_after_read dev n v fits waits)

pub read-Took :
    (dev : Pipe) (count room : ℕ)
    → IsValid dev
    → dev.rp ≢ dev.wp
    → read_count dev count ≤ room
    → Took dev (read_count dev count) (read_data dev count room)
unfolding read_data wrap
read-Took dev count room v waits fits =
    let n = read_count dev count in
    let (_, inside, held, _) = read_count_bounds dev count v in
    let ok : ltb room n ≡ false = ground arith in
    let parts = read_parts dev n v inside (held waits) in
    let valid = advance_read dev n v inside in
    rw ok record {
      ret = refl;
      size =
          length-take n (drop dev.rp (block dev.buffer))
          ∙ omega (arith, length-drop dev.rp (block dev.buffer), v.room);
      queue = parts;
      valid = valid;
    }

-- A read whose copy fails leaves the pipe.
pub read_fault :
    (dev : Pipe) (count room : ℕ)
    → room < read_count dev count
    → ((read_data dev count room).ret ≡ fail efault) × ((read_data dev count room).dev ≡ dev)
unfolding read_data
read_fault dev count room short =
    let bad : ltb room (read_count dev count) ≡ true = ground arith in rw bad (refl, refl)
