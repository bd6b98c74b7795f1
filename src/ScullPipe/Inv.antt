-- ===== src/ScullPipe/Inv.antt =====
-- The invariant of the pipe, and the bytes that it holds, oldest first.
use advanced_embedded_softwa.Base.{
  ℕ, ◌+◌, ◌-◌, ◌%◌, ◌≤◌, ◌<◌, ◌≡◌, ◌≢◌, refl, ◌∙◌, Option, none, some, List, [], ◌∷◌, arith, length,
  length-set, set, ltb, ◌==◌, if◌then◌else◌,
}
use advanced_embedded_softwa.Base.Window.{window, length-window, round_distance}
use advanced_embedded_softwa.ScullPipe.{
  Pipe, block, copy_in, fill, spacefree, read_count, write_count,
}

pub record IsValid (dev : Pipe) : Type 0 where
  pub room : dev.buffersize ≤ length (block dev.buffer)
  pub positive : 0 < dev.buffersize
  pub rp_range : dev.rp < dev.buffersize
  pub wp_range : dev.wp < dev.buffersize

-- How many bytes wait in the buffer.
abbrev pub used : Pipe → ℕ
used dev = (dev.wp + dev.buffersize - dev.rp) % dev.buffersize

unfoldable pub contents : Pipe → List ℕ
contents dev = window (block dev.buffer) 0 dev.buffersize dev.rp (used dev)

pub length-contents : (dev : Pipe) → length (contents dev) ≡ used dev
unfolding contents
length-contents dev = length-window (block dev.buffer) 0 dev.buffersize dev.rp (used dev)

pub used_cases :
    (dev : Pipe)
    → IsValid dev
    → used dev ≡ (if ltb dev.wp dev.rp then dev.wp + dev.buffersize - dev.rp else dev.wp - dev.rp)
used_cases dev v = round_distance dev.wp dev.rp dev.buffersize v.wp_range v.rp_range

pub spacefree_cases :
    (dev : Pipe)
    → IsValid dev
    → spacefree dev ≡ (
        if ltb dev.rp dev.wp
        then dev.rp + dev.buffersize - dev.wp - 1
        else if dev.rp == dev.wp
        then dev.buffersize - 1
        else dev.rp - dev.wp - 1)
unfolding spacefree
spacefree_cases dev v =
    let round = round_distance dev.rp dev.wp dev.buffersize v.rp_range v.wp_range in
    rw round (ground arith)

-- One slot stays empty: the free space and the bytes that wait make up the buffer less one.
pub spacefree-contents :
    (dev : Pipe) → IsValid dev → spacefree dev + length (contents dev) + 1 ≡ dev.buffersize
spacefree-contents dev v =
    rw (spacefree_cases dev v, length-contents dev, used_cases dev v) (ground arith)

pub length-copy_in :
    (bytes : List ℕ) (i : ℕ) (src : List ℕ) → length (copy_in bytes i src) ≡ length bytes
unfolding copy_in
length-copy_in bytes i [] = refl
length-copy_in bytes i (c ∷ src) = length-copy_in (set bytes i c) (i + 1) src ∙ length-set bytes i c

pub length-fill :
    (buffer : Option (List ℕ)) (i : ℕ) (src : List ℕ)
    → length (block (fill buffer i src)) ≡ length (block buffer)
length-fill none i src = refl
length-fill (some bytes) i src = length-copy_in bytes i src

-- `scull_p_read` reads inside the buffer, at most up to its end, and takes no more than waits;
-- something is taken if something waits and was asked for.
pub read_count_bounds :
    (dev : Pipe) (count : ℕ)
    → IsValid dev
    → (read_count dev count ≤ count)
      × (dev.rp + read_count dev count ≤ dev.buffersize)
      × (dev.rp ≢ dev.wp → read_count dev count ≤ used dev)
      × (count ≢ 0 → read_count dev count ≢ 0)
unfolding read_count
read_count_bounds dev count v = rw (used_cases dev v) (ground arith)

-- `scull_p_write` writes inside the buffer, at most up to its end, and no more than is free.
pub write_count_bounds :
    (dev : Pipe) (count : ℕ)
    → IsValid dev
    → (write_count dev count ≤ count)
      × (dev.wp + write_count dev count ≤ dev.buffersize)
      × (write_count dev count ≤ spacefree dev)
      × (count ≢ 0 → spacefree dev ≢ 0 → write_count dev count ≢ 0)
unfolding write_count
write_count_bounds dev count v = rw (spacefree_cases dev v) (ground arith)
