-- ===== src/Base/Window.antt =====
-- A circular array: the elements that lie from an index on, going round at the capacity.
use native.Mathlib.Nat.{mod-add-mod, mod-eq_of_lt, mod-eq-sub-mod, add-zero}
use native.Mathlib.Decide.{dec_lt}
use mathlib.Core.Path.{ap₂}
use advanced_embedded_softwa.Base.{
  ℕ, zero, suc, ◌+◌, ◌-◌, ◌%◌, ◌≤◌, ◌<◌, ◌≡◌, ◌≢◌, refl, sym, ap, ◌∙◌, List, [], ◌∷◌, ◌++◌, arith,
  ltb, if◌then◌else◌, length, get_or, set, take, drop, get_or-set_self, get_or-set_ne,
}

module _ {ℓ} {A : Type ℓ} (xs : List A) (d : A) (cap : ℕ) where
  -- `n` elements from index `h` on; `d` stands for what lies outside the array.
  abbrev pub window : ℕ → ℕ → List A
  window h zero = []
  window h (suc n) = get_or xs h d ∷ window ((h + 1) % cap) n

  pub length-window : (h n : ℕ) → length (window h n) ≡ n
  length-window h zero = refl
  length-window h (suc n) = ap suc (length-window ((h + 1) % cap) n)

  -- A window of at least one element, where the code tests its size against 0.
  pub window_of_pos :
      (h n : ℕ) → 0 < n → window h n ≡ get_or xs h d ∷ window ((h + 1) % cap) (n - 1)
  window_of_pos h zero p = absurd (omega arith)
  window_of_pos h (suc n) p = ap (λ k. window h (suc k)) (omega arith)

-- One step round the array, and `n` more, is `n + 1` steps.
pub step_round : (cap h n : ℕ) → ((h + 1) % cap + n) % cap ≡ (h + suc n) % cap
step_round cap h n = rw mod-add-mod (ap (λ k. k % cap) (omega arith))

-- How far `a` is ahead of `b` round an array of `n`.
pub round_distance :
    (a b n : ℕ) → a < n → b < n → (a + n - b) % n ≡ (if ltb a b then a + n - b else a - b)
round_distance a b n p q = elim (dec_lt a b) [
  | yes behind ↦ let low : (a + n - b) % n ≡ a + n - b = mod-eq_of_lt (omega arith) in ground arith
  | no ahead ↦
      let back : (a + n - b) % n ≡ (a + n - b - n) % n =
        mod-eq-sub-mod {n = a + n - b} {m = n} (omega arith) in
      let low : (a + n - b - n) % n ≡ a + n - b - n = mod-eq_of_lt (omega arith) in ground arith
]

-- Fewer than `cap` steps, but at least one, do not lead back to the start.
pub round_ne : (cap h k : ℕ) → h < cap → suc k < cap → (h + suc k) % cap ≢ h
round_ne cap h k p q = elim (dec_lt (h + suc k) cap) [
  | yes below ↦ omega (arith, mod-eq_of_lt below)
  | no above ↦
      let back : (h + suc k) % cap ≡ (h + suc k - cap) % cap =
        mod-eq-sub-mod {n = h + suc k} {m = cap} (omega arith) in
      let low : (h + suc k - cap) % cap ≡ h + suc k - cap = mod-eq_of_lt (omega arith) in
      omega arith
]

-- A write at the index behind a window, which is not the whole array, extends the window.
pub window-set_end {ℓ} :
    {A : Type ℓ} (xs : List A) (d v : A) (cap n h i : ℕ)
    → cap ≤ length xs
    → h < cap
    → n < cap
    → i ≡ (h + n) % cap
    → window (set xs i v) d cap h (suc n) ≡ window xs d cap h n ++ (v ∷ [])
window-set_end xs d v cap zero h i size hh hn e =
    rw (e, add-zero, mod-eq_of_lt hh, get_or-set_self xs h v d (omega arith))
window-set_end xs d v cap (suc n) h i size hh hn e =
    ap₂ ◌∷◌ (get_or-set_ne xs v d (rw e (round_ne cap h n hh hn))) (
      window-set_end xs d v cap n ((h + 1) % cap) i size (omega arith) (omega arith)
        (e ∙ sym (step_round cap h n)))

module _ {ℓ} {A : Type ℓ} (xs : List A) (d : A) (cap : ℕ) where
  -- A window in two parts.
  pub window-split :
      (m n k h : ℕ)
      → k ≡ m + n
      → h < cap
      → window xs d cap h k ≡ window xs d cap h m ++ window xs d cap ((h + m) % cap) n
  window-split zero n k h e hh =
      let same : (h + 0) % cap ≡ h = rw add-zero (mod-eq_of_lt hh) in
      let size : k ≡ n = omega arith in rw (same, size)
  window-split (suc m) n zero h e hh = absurd (omega arith)
  window-split (suc m) n (suc k) h e hh =
      rw (← step_round cap h m) (
        ap (λ w. get_or xs h d ∷ w)
          (window-split m n k ((h + 1) % cap) (omega arith) (omega arith)))

  drop_of_lt : (ys : List A) (h : ℕ) → h < length ys → drop h ys ≡ get_or ys h d ∷ drop (suc h) ys
  drop_of_lt [] h p = elim p [ ]
  drop_of_lt (y ∷ ys) zero p = refl
  drop_of_lt (y ∷ ys) (suc h) p = drop_of_lt ys h (omega arith)

  -- A window that does not go round is a part of the array.
  pub window-take :
      (n h : ℕ) → h + n ≤ cap → cap ≤ length xs → window xs d cap h n ≡ take n (drop h xs)
  window-take zero h fits size = refl
  window-take (suc zero) h fits size = rw (drop_of_lt xs h (omega arith))
  window-take (suc (suc n)) h fits size =
      let next : (h + 1) % cap ≡ suc h = mod-eq_of_lt {n = h + 1} (omega arith) ∙ omega arith in
      rw (drop_of_lt xs h (omega arith), next)
        (ap (λ w. get_or xs h d ∷ w) (window-take (suc n) (suc h) (omega arith) size))

  pub get_or-window :
      (n h i : ℕ) → h < cap → i < n → get_or (window xs d cap h n) i d ≡ get_or xs ((h + i) % cap) d
  get_or-window zero h i hh hi = elim hi [ ]
  get_or-window (suc n) h zero hh hi = rw (add-zero, mod-eq_of_lt hh)
  get_or-window (suc n) h (suc i) hh hi =
      get_or-window n ((h + 1) % cap) i (omega arith) (omega arith)
      ∙ ap (λ k. get_or xs k d) (step_round cap h i)
