-- ===== src/Base/Words.antt =====
-- Machine words as numbers below a power of two, with the wrap-around of C written out.
use advanced_embedded_softwa.Base.{ℕ, ◌+◌, ◌-◌, ◌%◌, ◌^◌, ◌<◌, ◌≤◌, ◌≡◌, arith, ltb, if◌then◌else◌}

-- An address; 0 is NULL.
abbrev pub Ptr : Type 0
Ptr = ℕ

abbrev pub null : Ptr
null = 0

-- `a + b` and `a - b` on `size_t`, 64 bits wide.
abbrev pub add_size : ℕ → ℕ → ℕ
add_size a b = (a + b) % 2 ^ 64

abbrev pub sub_size : ℕ → ℕ → ℕ
sub_size a b = (a % 2 ^ 64 + 2 ^ 64 - b % 2 ^ 64) % 2 ^ 64

-- A `size_t` that is stored in an `int` and used as a `size_t` again: the low 32 bits,
-- sign-extended.
unfoldable pub through_int : ℕ → ℕ
through_int x = if ltb (x % 2 ^ 32) (2 ^ 31) then x % 2 ^ 32 else x % 2 ^ 32 + (2 ^ 64 - 2 ^ 32)

pub through_int_of_lt : (x : ℕ) → x < 2 ^ 31 → through_int x ≡ x
unfolding through_int
through_int_of_lt x h = ground arith

pub sub_size_of_le : (a b : ℕ) → a < 2 ^ 64 → b ≤ a → sub_size a b ≡ a - b
sub_size_of_le a b h k = omega arith
