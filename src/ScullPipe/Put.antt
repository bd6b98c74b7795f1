-- ===== src/ScullPipe/Put.antt =====
-- Writes of the pipe against a queue of bytes.
use native.Mathlib.Nat.{mod-eq_of_lt, mod-eq-sub-mod}
use advanced_embedded_softwa.Base.{
  ℕ, ◌+◌, ◌-◌, ◌%◌, ◌≤◌, ◌<◌, ◌≡◌, refl, sym, ap, ◌∙◌, true, false, inl, inr, Option, none, some,
  List, [], ◌∷◌, ◌++◌, arith, length, take, ltb, Bool-cases, length-take, take-append_length,
}
use advanced_embedded_softwa.Base.Window.{window, length-window, window-split}
use advanced_embedded_softwa.Kernel.{done, fail, efault}
use advanced_embedded_softwa.ScullPipe.{
  Pipe, block, copy_in, fill, spacefree, write_count, Result, write_data,
}
use advanced_embedded_softwa.ScullPipe.Inv.{
  IsValid, used, contents, length-contents, used_cases, spacefree_cases, spacefree-contents,
  length-fill, write_count_bounds,
}
use advanced_embedded_softwa.ScullPipe.Fifo.{window-copy_in, wrap, wrap_range}

copy_in-nil : (i : ℕ) (src : List ℕ) → copy_in [] i src ≡ []
unfolding copy_in
copy_in-nil i [] = refl
copy_in-nil i (c ∷ src) = copy_in-nil (i + 1) src

block-fill :
    (buffer : Option (List ℕ)) (i : ℕ) (src : List ℕ)
    → block (fill buffer i src) ≡ copy_in (block buffer) i src
block-fill none i src = sym (copy_in-nil i src)
block-fill (some bytes) i src = refl

-- `wp` lies behind the bytes that wait.
wp_lem : (dev : Pipe) → IsValid dev → dev.wp ≡ (dev.rp + used dev) % dev.buffersize
wp_lem dev v = elim (Bool-cases (ltb dev.wp dev.rp)) [
  | inl behind ↦
      let held : used dev ≡ dev.wp + dev.buffersize - dev.rp = used_cases dev v ∙ rw behind refl in
      let back : (dev.rp + used dev) % dev.buffersize
          ≡ (dev.rp + used dev - dev.buffersize) % dev.buffersize =
        mod-eq-sub-mod {n = dev.rp + used dev} {m = dev.buffersize} (ground arith) in
      let same : dev.rp + used dev - dev.buffersize ≡ dev.wp = ground arith in
      sym (back ∙ rw same (mod-eq_of_lt v.wp_range))
  | inr ahead ↦
      let held : used dev ≡ dev.wp - dev.rp = used_cases dev v ∙ rw ahead refl in
      let same : dev.rp + used dev ≡ dev.wp = ground arith in
      rw same (sym (mod-eq_of_lt v.wp_range))
]

-- A copy of bytes that fit into the free space, behind the bytes that wait.
copy_parts :
    (dev : Pipe) (src : List ℕ)
    → IsValid dev
    → dev.wp + length src ≤ dev.buffersize
    → length src ≤ spacefree dev
    → window (block (fill dev.buffer dev.wp src)) 0 dev.buffersize dev.rp (used dev + length src)
      ≡ contents dev ++ src
unfolding contents
copy_parts dev src v inside free =
    let spare = spacefree-contents dev v in
    let held = length-contents dev in
    rw block-fill (
      window-copy_in src (block dev.buffer) dev.buffersize dev.rp (used dev) dev.wp
        (used dev + length src) v.room v.rp_range refl (omega arith) (wp_lem dev v) inside)

-- The front of a window that is known.
window-front :
    (bytes : List ℕ) (d cap h u k : ℕ) (front back : List ℕ)
    → h < cap
    → length front ≡ u
    → window bytes d cap h (u + k) ≡ front ++ back
    → window bytes d cap h u ≡ front
window-front bytes d cap h u k front back hh size e =
    let split : window bytes d cap h (u + k)
        ≡ window bytes d cap h u ++ window bytes d cap ((h + u) % cap) k =
      window-split bytes d cap u k (u + k) h refl hh in
    let length_front = length-window bytes d cap h u in
    sym (
      take-append_length u (window bytes d cap h u) (window bytes d cap ((h + u) % cap) k)
        (sym length_front))
    ∙ ap (take u) (sym split ∙ e)
    ∙ take-append_length u front back (sym size)

-- A write that accepts `taken`: they come behind the bytes that wait.
pub record Put (dev : Pipe) (taken : List ℕ) (r : Result) : Type 0 where
  pub ret : r.ret ≡ done (length taken)
  pub queue : contents r.dev ≡ contents dev ++ taken
  pub valid : IsValid r.dev

-- The pipe once `src`, of length `n`, is in its buffer and `wp` behind it.
after_put : Pipe → List ℕ → ℕ → Pipe
after_put dev src n = record dev {
  buffer = fill dev.buffer dev.wp src;
  wp = wrap (dev.wp + n) dev.buffersize;
}

after_put-IsValid :
    (dev : Pipe) (src : List ℕ) (n : ℕ)
    → length src ≡ n
    → IsValid dev
    → dev.wp + n ≤ dev.buffersize
    → IsValid (after_put dev src n)
unfolding after_put
after_put-IsValid dev src n size v inside = record {
  room = omega (arith, length-fill dev.buffer dev.wp src, v.room);
  positive = v.positive;
  rp_range = v.rp_range;
  wp_range = wrap_range dev.wp n dev.buffersize inside v.positive;
}

used-after_put :
    (dev : Pipe) (src : List ℕ) (n : ℕ)
    → length src ≡ n
    → IsValid dev
    → dev.wp + n ≤ dev.buffersize
    → n ≤ spacefree dev
    → used (after_put dev src n) ≡ used dev + n
unfolding after_put wrap
used-after_put dev src n size v inside free =
    let spare = spacefree_cases dev v in
    rw
      (
        used_cases (after_put dev src n) (after_put-IsValid dev src n size v inside),
        used_cases dev v,
      )
      (ground arith)

contents-after_put :
    (dev : Pipe) (src : List ℕ) (n : ℕ)
    → length src ≡ n
    → IsValid dev
    → dev.wp + n ≤ dev.buffersize
    → n ≤ spacefree dev
    → contents (after_put dev src n) ≡ contents dev ++ src
unfolding contents after_put
contents-after_put dev src n size v inside free =
    rw (used-after_put dev src n size v inside free, ← size)
      (copy_parts dev src v (omega arith) (omega arith))

pub write-Put :
    (dev : Pipe) (buf : List ℕ) (count readable : ℕ)
    → IsValid dev
    → count ≤ length buf
    → write_count dev count ≤ readable
    → Put dev (take (write_count dev count) buf) (write_data dev buf count readable)
unfolding write_data after_put wrap
write-Put dev buf count readable v given fits =
    let n = write_count dev count in
    let (asked, inside, free, _) = write_count_bounds dev count v in
    let ok : ltb readable n ≡ false = ground arith in
    let size : length (take n buf) ≡ n = length-take n buf ∙ omega arith in
    let queue = contents-after_put dev (take n buf) n size v inside free in
    let valid = after_put-IsValid dev (take n buf) n size v inside in
    rw ok record { ret = ap done (sym size); queue = queue; valid = valid }

-- A write whose copy fails leaves the bytes that wait, and the offsets.
pub write_fault :
    (dev : Pipe) (buf : List ℕ) (count readable : ℕ)
    → IsValid dev
    → readable < write_count dev count
    → ((write_data dev buf count readable).ret ≡ fail efault)
      × (contents (write_data dev buf count readable).dev ≡ contents dev)
      × IsValid (write_data dev buf count readable).dev
unfolding write_data contents
write_fault dev buf count readable v short =
    let n = write_count dev count in
    let (asked, inside, free, _) = write_count_bounds dev count v in
    let bad : ltb readable n ≡ true = ground arith in
    let src = take readable buf in
    let size : length src ≤ readable = omega (arith, length-take readable buf) in
    let longer = copy_parts dev src v (omega arith) (omega arith) in
    let same =
      window-front _ 0 dev.buffersize dev.rp (used dev) (length src) (contents dev) src v.rp_range
        (length-contents dev) longer in
    rw bad (
      refl,
      same,
      record {
        room = omega (arith, length-fill dev.buffer dev.wp src, v.room);
        positive = v.positive;
        rp_range = v.rp_range;
        wp_range = v.wp_range;
      },
    )
