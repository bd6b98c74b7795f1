-- ===== src/Base/Elems.antt =====
-- The elements of lists that are put together, cut, and written into.
use mathlib.Core.Path.{◌≡◌, refl, sym, ap, ◌∙◌}
use Prim.Native.Nat.{ℕ, zero, suc, ◌+◌, ◌-◌, ◌≤◌, ◌<◌}
use mathlib.Core.Logic.{inl, inr}
use mathlib.Core.Bool.{true, false}
use mathlib.Core.Option.{none}
use mathlib.Core.List.{List, [], ◌∷◌, ◌++◌}
use native.Mathlib.Omega.{arith}
use advanced_embedded_softwa.Base.{
  ltb, ltb→lt, if◌then◌else◌, Bool-cases, length, get_elem?, take, drop, length-take,
}

module _ {ℓ} {A : Type ℓ} where
  pub get_elem?-append :
      (xs ys : List A) (j : ℕ)
      → get_elem? (xs ++ ys) j
        ≡ (if ltb j (length xs) then get_elem? xs j else get_elem? ys (j - length xs))
  get_elem?-append [] ys j =
      let low : ltb j 0 ≡ false = ground arith in
      let same : j - 0 ≡ j = omega arith in rw (low, same) refl
  get_elem?-append (x ∷ xs) ys zero =
      let low : ltb 0 (suc (length xs)) ≡ true = ground arith in rw low refl
  get_elem?-append (x ∷ xs) ys (suc j) =
      let test : ltb (suc j) (suc (length xs)) ≡ ltb j (length xs) = ground arith in
      let less : suc j - suc (length xs) ≡ j - length xs = omega arith in
      rw (test, less) (get_elem?-append xs ys j)

  pub get_elem?-take :
      (n : ℕ) (xs : List A) (j : ℕ) → j < n → get_elem? (take n xs) j ≡ get_elem? xs j
  get_elem?-take zero xs j h = elim h [ ]
  get_elem?-take (suc n) [] j h = refl
  get_elem?-take (suc n) (x ∷ xs) zero h = refl
  get_elem?-take (suc n) (x ∷ xs) (suc j) h = get_elem?-take n xs j (omega arith)

  pub get_elem?-drop :
      (n : ℕ) (xs : List A) (j : ℕ) → get_elem? (drop n xs) j ≡ get_elem? xs (n + j)
  get_elem?-drop zero xs j = ap (get_elem? xs) (omega arith)
  get_elem?-drop (suc n) [] j = refl
  get_elem?-drop (suc n) (x ∷ xs) j =
      let up : suc n + j ≡ suc (n + j) = omega arith in rw up (get_elem?-drop n xs j)

  pub get_elem?-past : (xs : List A) (j : ℕ) → length xs ≤ j → get_elem? xs j ≡ none
  get_elem?-past [] j h = refl
  get_elem?-past (x ∷ xs) zero h = elim h [ ]
  get_elem?-past (x ∷ xs) (suc j) h = get_elem?-past xs j (omega arith)

  -- Two lists with the same elements are equal.
  pub get_elem?-ext : (xs ys : List A) → ((j : ℕ) → get_elem? xs j ≡ get_elem? ys j) → xs ≡ ys
  get_elem?-ext [] [] e = refl
  get_elem?-ext [] (y ∷ ys) e = absurd (ground (arith, e 0))
  get_elem?-ext (x ∷ xs) [] e = absurd (ground (arith, e 0))
  get_elem?-ext (x ∷ xs) (y ∷ ys) e =
      let head : x ≡ y = ground (arith, e 0) in
      let rest : xs ≡ ys = get_elem?-ext xs ys (λ j. e (suc j)) in rw (head, rest) refl

  pub drop_all : (n : ℕ) (xs : List A) → length xs ≤ n → drop n xs ≡ []
  drop_all zero [] h = refl
  drop_all zero (x ∷ xs) h = elim h [ ]
  drop_all (suc n) [] h = refl
  drop_all (suc n) (x ∷ xs) h = drop_all n xs (omega arith)

  pub take_add : (m n : ℕ) (xs : List A) → take (m + n) xs ≡ take m xs ++ take n (drop m xs)
  take_add zero n xs = ap (λ k. take k xs) (omega arith)
  take_add (suc m) zero [] = let up : suc m + 0 ≡ suc m = omega arith in rw up refl
  take_add (suc m) (suc n) [] = let up : suc m + suc n ≡ suc (m + suc n) = omega arith in rw up refl
  take_add (suc m) n (x ∷ xs) =
      let up : suc m + n ≡ suc (m + n) = omega arith in rw up (ap (λ ys. x ∷ ys) (take_add m n xs))

  pub drop_add : (m n : ℕ) (xs : List A) → drop n (drop m xs) ≡ drop (m + n) xs
  drop_add m n xs = get_elem?-ext (drop n (drop m xs)) (drop (m + n) xs) (λ j.
      get_elem?-drop n (drop m xs) j
      ∙ get_elem?-drop m xs (n + j)
      ∙ ap (get_elem? xs) (omega arith)
      ∙ sym (get_elem?-drop (m + n) xs j))

-- A block with bytes written into it.
pub get_elem?-overwrite :
    (block : List ℕ) (q : ℕ) (src : List ℕ) (j : ℕ)
    → q ≤ length block
    → get_elem? (take q block ++ (src ++ drop (q + length src) block)) j ≡ (
        if ltb j q
        then get_elem? block j
        else (if ltb j (q + length src) then get_elem? src (j - q) else get_elem? block j))
get_elem?-overwrite block q src j inside =
    let back = drop (q + length src) block in
    let front : length (take q block) ≡ q = length-take q block ∙ omega arith in
    get_elem?-append (take q block) (src ++ back) j
    ∙ (rw front (elim (Bool-cases (ltb j q)) [
      | inl low ↦ rw low (get_elem?-take q block j (omega (arith, ltb→lt j q low)))
      | inr high ↦ rw high (
          let shift : ltb (j - q) (length src) ≡ ltb j (q + length src) = ground arith in
          get_elem?-append src back (j - q)
          ∙ (rw shift (elim (Bool-cases (ltb j (q + length src))) [
            | inl in_src ↦ rw in_src refl
            | inr behind ↦ rw behind (
                let along : q + length src + (j - q - length src) ≡ j = ground arith in
                get_elem?-drop (q + length src) block (j - q - length src)
                ∙ ap (get_elem? block) along)
          ])))
    ]))
