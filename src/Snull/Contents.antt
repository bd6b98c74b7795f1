-- ===== src/Snull/Contents.antt =====
-- The packet that a device hands to the other one, byte by byte.
use mathlib.Core.Path.{subst, ap₂}
use advanced_embedded_softwa.Base.{
  ℕ, zero, suc, ◌+◌, ◌-◌, ◌/◌, ◌%◌, ◌≤◌, ◌<◌, ◌≡◌, ◌≢◌, refl, sym, ap, ◌∙◌, inl, inr, List, [], ◌∷◌,
  ◌++◌, arith, ltb, ◌==◌, length, get_or, set, drop, replicate, Bool-cases, length-append,
  length-replicate, length-set, get_or-set_self, get_or-set_ne,
}
use advanced_embedded_softwa.Snull.{flip, rewrite, padded}

-- Of two bytes one is the other with its lowest bit changed.
abbrev pub Flipped : ℕ → ℕ → Type 0
Flipped c d = (d / 2 ≡ c / 2) × (d % 2 + c % 2 ≡ 1)

-- A packet made of the bytes that the kernel has the device send, which are taken as 0 behind their
-- end: it has 60 bytes or as many as they are, the third bytes of the addresses have their lowest bit
-- changed, the checksum is that of the header with 0 in its place, and all else is as it was.
pub record Made (csum : List ℕ → ℕ × ℕ) (bytes packet : List ℕ) : Type 0 where
  pub short : length bytes ≤ 60 → length packet ≡ 60
  pub long : 60 ≤ length bytes → length packet ≡ length bytes
  pub saddr : Flipped (get_or bytes 28 0) (get_or packet 28 0)
  pub daddr : Flipped (get_or bytes 32 0) (get_or packet 32 0)
  pub check : (get_or packet 24 0, get_or packet 25 0) ≡ csum (drop 14 (set (set packet 24 0) 25 0))
  pub others : (i : ℕ) → i ≢ 24 → i ≢ 25 → i ≢ 28 → i ≢ 32 → get_or packet i 0 ≡ get_or bytes i 0

flip-Flipped : (c : ℕ) → Flipped c (flip c)
flip-Flipped c = elim (Bool-cases (c % 2 == 0)) [
  | inl e ↦ let even : c % 2 ≡ 0 = ground arith in rw e (omega arith, omega arith)
  | inr e ↦ let odd : c % 2 ≢ 0 = ground arith in rw e (omega arith, omega arith)
]

set_twice : (xs : List ℕ) (i v w : ℕ) → set (set xs i v) i w ≡ set xs i w
set_twice [] i v w = refl
set_twice (x ∷ xs) zero v w = refl
set_twice (x ∷ xs) (suc i) v w = ap (λ r. x ∷ r) (set_twice xs i v w)

set_apart : (xs : List ℕ) (i j v w : ℕ) → i ≢ j → set (set xs i v) j w ≡ set (set xs j w) i v
set_apart [] i j v w h = refl
set_apart (x ∷ xs) zero zero v w h = absurd (h refl)
set_apart (x ∷ xs) zero (suc j) v w h = refl
set_apart (x ∷ xs) (suc i) zero v w h = refl
set_apart (x ∷ xs) (suc i) (suc j) v w h =
    ap (λ r. x ∷ r) (set_apart xs i j v w (λ e. h (ap suc e)))

-- The checksum cleared, set and cleared again.
clear_again :
    (f : List ℕ) (low high : ℕ)
    → set (set (set (set (set (set f 24 0) 25 0) 24 low) 25 high) 24 0) 25 0 ≡ set (set f 24 0) 25 0
clear_again f low high =
    let c = set (set f 24 0) 25 0 in
    let same24 : set c 24 0 ≡ c =
      set_apart (set f 24 0) 25 24 0 0 (λ e. absurd (omega arith))
      ∙ ap (λ r. set r 25 0) (set_twice f 24 0 0) in
    ap (λ r. set r 25 0)
      (set_apart (set c 24 low) 25 24 high 0 (λ e. absurd (omega arith))
        ∙ ap (λ r. set r 25 high) (set_twice c 24 low 0 ∙ same24))
    ∙ set_twice c 25 high 0
    ∙ set_twice (set f 24 0) 25 0 0

get_or-padding : (xs : List ℕ) (n i : ℕ) → get_or (xs ++ replicate n 0) i 0 ≡ get_or xs i 0
get_or-padding [] zero i = refl
get_or-padding [] (suc n) zero = refl
get_or-padding [] (suc n) (suc i) = get_or-padding [] n i
get_or-padding (x ∷ xs) n zero = refl
get_or-padding (x ∷ xs) n (suc i) = get_or-padding xs n i

get_or-padded : (bytes : List ℕ) (i : ℕ) → get_or (padded bytes) i 0 ≡ get_or bytes i 0
unfolding padded
get_or-padded bytes i = elim (Bool-cases (ltb (length bytes) 60)) [
  | inl e ↦ rw e (get_or-padding bytes (60 - length bytes) i)
  | inr e ↦ rw e refl
]

length-padded :
    (bytes : List ℕ)
    → (length bytes ≤ 60 → length (padded bytes) ≡ 60)
      × (60 ≤ length bytes → length (padded bytes) ≡ length bytes)
unfolding padded
length-padded bytes =
    let size = length-append bytes (replicate (60 - length bytes) 0) in
    let zeros = length-replicate {A = ℕ} (60 - length bytes) 0 in
    elim (Bool-cases (ltb (length bytes) 60)) [
      | inl e ↦ rw e (λ h. ground arith, λ h. ground arith)
      | inr e ↦ rw e (λ h. ground arith, λ h. ground arith)
    ]

-- A packet with the checksum in its place, where it was 0.
abbrev checked : List ℕ → ℕ → ℕ → List ℕ
checked f low high = set (set (set (set f 24 0) 25 0) 24 low) 25 high

length-checked : (f : List ℕ) (low high : ℕ) → length (checked f low high) ≡ length f
length-checked f low high =
    length-set (set (set (set f 24 0) 25 0) 24 low) 25 high
    ∙ length-set (set (set f 24 0) 25 0) 24 low
    ∙ length-set (set f 24 0) 25 0
    ∙ length-set f 24 0

checked_low : (f : List ℕ) (low high : ℕ) → 25 < length f → get_or (checked f low high) 24 0 ≡ low
checked_low f low high long =
    get_or-set_ne (set (set (set f 24 0) 25 0) 24 low) high 0 (λ e. absurd (omega arith))
    ∙ get_or-set_self (set (set f 24 0) 25 0) 24 low 0
        (omega (arith, length-set (set f 24 0) 25 0, length-set f 24 0))

checked_high : (f : List ℕ) (low high : ℕ) → 25 < length f → get_or (checked f low high) 25 0 ≡ high
checked_high f low high long = get_or-set_self (set (set (set f 24 0) 25 0) 24 low) 25 high 0 (
    omega (
      arith,
      length-set (set (set f 24 0) 25 0) 24 low,
      length-set (set f 24 0) 25 0,
      length-set f 24 0,
    ))

checked_others :
    (f : List ℕ) (low high i : ℕ) → i ≢ 24 → i ≢ 25 → get_or (checked f low high) i 0 ≡ get_or f i 0
checked_others f low high i not24 not25 =
    get_or-set_ne (set (set (set f 24 0) 25 0) 24 low) high 0 (λ e. not25 (sym e))
    ∙ get_or-set_ne (set (set f 24 0) 25 0) low 0 (λ e. not24 (sym e))
    ∙ get_or-set_ne (set f 24 0) 0 0 (λ e. not25 (sym e))
    ∙ get_or-set_ne f 0 0 (λ e. not24 (sym e))

-- The addresses of a packet with their new bytes.
abbrev addressed : List ℕ → ℕ → ℕ → List ℕ
addressed p x y = set (set p 28 x) 32 y

addressed_others :
    (p : List ℕ) (x y i : ℕ) → i ≢ 28 → i ≢ 32 → get_or (addressed p x y) i 0 ≡ get_or p i 0
addressed_others p x y i not28 not32 =
    get_or-set_ne (set p 28 x) y 0 (λ e. not32 (sym e)) ∙ get_or-set_ne p x 0 (λ e. not28 (sym e))

rewrite_parts :
    (csum : List ℕ → ℕ × ℕ) (bytes p : List ℕ) (low high : ℕ)
    → (size : (length bytes ≤ 60 → length p ≡ 60) × (60 ≤ length bytes → length p ≡ length bytes))
    → ((i : ℕ) → get_or p i 0 ≡ get_or bytes i 0)
    → 32 < length p
    → (low, high)
      ≡ csum (
          drop 14 (set (set (addressed p (flip (get_or p 28 0)) (flip (get_or p 32 0))) 24 0) 25 0))
    → Made csum bytes (checked (addressed p (flip (get_or p 28 0)) (flip (get_or p 32 0))) low high)
rewrite_parts csum bytes p low high size same long sum =
    let x = flip (get_or p 28 0) in
    let y = flip (get_or p 32 0) in
    let f = addressed p x y in
    let size_f : length f ≡ length p = length-set (set p 28 x) 32 y ∙ length-set p 28 x in
    let size_all = length-checked f low high ∙ size_f in
    let new28 : get_or (checked f low high) 28 0 ≡ flip (get_or bytes 28 0) =
      checked_others f low high 28 (λ e. absurd (omega arith)) (λ e. absurd (omega arith))
      ∙ get_or-set_ne (set p 28 x) y 0 (λ e. absurd (omega arith))
      ∙ get_or-set_self p 28 x 0 (omega arith)
      ∙ ap flip (same 28) in
    let new32 : get_or (checked f low high) 32 0 ≡ flip (get_or bytes 32 0) =
      checked_others f low high 32 (λ e. absurd (omega arith)) (λ e. absurd (omega arith))
      ∙ get_or-set_self (set p 28 x) 32 y 0 (omega (arith, length-set p 28 x))
      ∙ ap flip (same 32) in
    record {
      short = λ h. size_all ∙ size.0 h;
      long = λ h. size_all ∙ size.1 h;
      saddr = subst (Flipped (get_or bytes 28 0)) (sym new28) (flip-Flipped (get_or bytes 28 0));
      daddr = subst (Flipped (get_or bytes 32 0)) (sym new32) (flip-Flipped (get_or bytes 32 0));
      check =
          ap₂ (λ a b. (a, b)) (checked_low f low high (omega arith))
            (checked_high f low high (omega arith))
          ∙ sum
          ∙ ap (λ r. csum (drop 14 r)) (sym (clear_again f low high));
      others = λ i not24 not25 not28 not32.
          checked_others f low high i not24 not25 ∙ addressed_others p x y i not28 not32 ∙ same i;
    }

pub rewrite-Made :
    (csum : List ℕ → ℕ × ℕ) (bytes : List ℕ) → Made csum bytes (rewrite csum (padded bytes))
unfolding rewrite
rewrite-Made csum bytes =
    let size = length-padded bytes in
    rewrite_parts csum bytes (padded bytes) _ _ size (get_or-padded bytes) (at_least size) refl
  where
    at_least :
        (length bytes ≤ 60 → length (padded bytes) ≡ 60)
          × (60 ≤ length bytes → length (padded bytes) ≡ length bytes)
        → 32 < length (padded bytes)
    at_least (short, long) = elim (Bool-cases (ltb (length bytes) 60)) [
      | inl e ↦ omega (arith, short (ground arith))
      | inr e ↦ let h : 60 ≤ length bytes = ground arith in omega (arith, long h)
    ]
