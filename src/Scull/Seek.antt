-- ===== src/Scull/Seek.antt =====
-- `scull_llseek` of assignment-7-saloni1307-master/scull/main.c. A `loff_t` is the pattern of its 64
-- bits, which is negative from 2^63 on; the sums wrap around.
use advanced_embedded_softwa.Base.{
  ℕ, zero, suc, ◌+◌, ◌-◌, ◌≤◌, ◌<◌, ◌^◌, ◌%◌, ◌≡◌, refl, true, false, inl, inr, Option, none, some,
  arith, ltb, leb, if◌then◌else◌, Bool-cases,
}
use advanced_embedded_softwa.Base.Words.{add_size}
use advanced_embedded_softwa.Kernel.{einval, Ret, done, fail}

-- The end of `scull_llseek`: what it returns, and the position of the file.
unfoldable pub settle : ℕ → ℕ → Ret × ℕ
settle f_pos newpos = if leb (2 ^ 63) newpos then (fail einval, f_pos) else (done newpos, newpos)

-- `scull_llseek` on a file at `f_pos` of a device of this size, with SEEK_SET 0, SEEK_CUR 1 and
-- SEEK_END 2.
unfoldable pub llseek : ℕ → ℕ → ℕ → ℕ → Ret × ℕ
llseek size f_pos off zero = settle f_pos off
llseek size f_pos off (suc zero) = settle f_pos (add_size f_pos off)
llseek size f_pos off (suc (suc zero)) = settle f_pos (add_size size off)
llseek size f_pos off (suc (suc (suc whence))) = (fail einval, f_pos)

-- A signed offset, as the process means it.
pub data Offset : Type 0 where
  forward : ℕ → Offset
  back : ℕ → Offset

-- Its 64 bits.
abbrev pub bits : Offset → ℕ
bits (forward d) = d
bits (back d) = (2 ^ 64 - d) % 2 ^ 64

-- It fits a `loff_t`.
abbrev pub IsOffset : Offset → Type 0
IsOffset (forward d) = d < 2 ^ 63
IsOffset (back d) = d ≤ 2 ^ 63

-- Where it leads from a base, if that is a position of a file.
abbrev pub aim : ℕ → Offset → Option ℕ
aim origin (forward d) = if ltb (origin + d) (2 ^ 63) then some (origin + d) else none
aim origin (back d) = if leb d origin then some (origin - d) else none

-- What the offset counts from.
abbrev pub origin : ℕ → ℕ → ℕ → Option ℕ
origin size f_pos zero = some 0
origin size f_pos (suc zero) = some f_pos
origin size f_pos (suc (suc zero)) = some size
origin size f_pos (suc (suc (suc whence))) = none

abbrev pub sought : ℕ → Option ℕ → Ret × ℕ
sought f_pos none = (fail einval, f_pos)
sought f_pos (some newpos) = (done newpos, newpos)

abbrev pub aim_from : Option ℕ → Offset → Option ℕ
aim_from none o = none
aim_from (some k) o = aim k o

settle-aim :
    (f_pos k : ℕ) (o : Offset)
    → IsOffset o
    → k < 2 ^ 63
    → settle f_pos (add_size k (bits o)) ≡ sought f_pos (aim k o)
unfolding settle
settle-aim f_pos k (forward d) fits small = elim (Bool-cases (ltb (k + d) (2 ^ 63))) [
  | inl below ↦
      (let same : (k + d) % 2 ^ 64 ≡ k + d = ground arith in
        let not_negative : leb (2 ^ 63) (k + d) ≡ false = ground arith in
        rw (same, below, not_negative) refl)
  | inr above ↦
      (let same : (k + d) % 2 ^ 64 ≡ k + d = ground arith in
        let negative : leb (2 ^ 63) (k + d) ≡ true = ground arith in
        rw (same, above, negative) refl)
]
settle-aim f_pos k (back d) fits small = elim (Bool-cases (leb d k)) [
  | inl inside ↦
      (let same : (k + (2 ^ 64 - d) % 2 ^ 64) % 2 ^ 64 ≡ k - d = ground arith in
        let not_negative : leb (2 ^ 63) (k - d) ≡ false = ground arith in
        rw (same, inside, not_negative) refl)
  | inr before ↦
      (let negative : leb (2 ^ 63) ((k + (2 ^ 64 - d) % 2 ^ 64) % 2 ^ 64) ≡ true = ground arith in
        rw (negative, before) refl)
]

from_start : (o : Offset) → IsOffset o → add_size 0 (bits o) ≡ bits o
from_start (forward d) fits = ground arith
from_start (back d) fits = ground arith

-- A seek by an offset that fits a `loff_t`, on a device and from a position below 2^63. It leads to
-- the sum of the offset and what it counts from, if that is from 0 to 2^63 - 1, and returns it; else,
-- also where the sum is too large, and with an unknown `whence`, it is EINVAL and the position stays.
pub llseek-aim :
    (size f_pos : ℕ) (o : Offset) (whence : ℕ)
    → IsOffset o
    → size < 2 ^ 63
    → f_pos < 2 ^ 63
    → llseek size f_pos (bits o) whence ≡ sought f_pos (aim_from (origin size f_pos whence) o)
unfolding llseek
llseek-aim size f_pos o zero fits large here =
    let start = from_start o fits in rw (← start) (settle-aim f_pos 0 o fits (ground arith))
llseek-aim size f_pos o (suc zero) fits large here = settle-aim f_pos f_pos o fits here
llseek-aim size f_pos o (suc (suc zero)) fits large here = settle-aim f_pos size o fits large
llseek-aim size f_pos o (suc (suc (suc whence))) fits large here = refl
