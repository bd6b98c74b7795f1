-- ===== src/Kernel/Overwrite.antt =====
-- Bytes written into a block.
use advanced_embedded_softwa.Base.{
  ℕ, ◌+◌, ◌-◌, ◌≤◌, ◌≡◌, refl, sym, ap, ◌∙◌, Option, List, [], ◌++◌, arith, ltb, if◌then◌else◌,
  length, get_elem?, take, drop, length-append, length-take, length-drop, take-append-drop,
  drop-append_ge, take-append_length,
}
use advanced_embedded_softwa.Base.Elems.{get_elem?-overwrite, get_elem?-append, get_elem?-ext}
use advanced_embedded_softwa.Kernel.{overwrite}

pub length-overwrite :
    (block : List ℕ) (i : ℕ) (src : List ℕ)
    → i + length src ≤ length block
    → length (overwrite block i src) ≡ length block
length-overwrite block i src fits = omega (
  arith,
  length-append (take i block) (src ++ drop (i + length src) block),
  length-append src (drop (i + length src) block),
  length-take i block,
  length-drop (i + length src) block,
)

pub overwrite_none : (block : List ℕ) (i : ℕ) → overwrite block i [] ≡ block
overwrite_none block i = let here : i + 0 ≡ i = omega arith in rw here (take-append-drop i block)

-- Both orders of the tests.
tests_lem :
    {A : Type 0} (j i m n : ℕ) (x y z : A)
    → (if ltb j (i + m)
        then (if ltb j i then x else (if ltb j (i + m) then y else x))
        else (if ltb j (i + m + n)
            then z
            else (if ltb j i then x else (if ltb j (i + m) then y else x))))
      ≡ (if ltb j i
          then x
          else (if ltb j (i + (m + n)) then (if ltb (j - i) m then y else z) else x))
tests_lem j i m n x y z = ground arith

-- Bytes written behind those that were just written.
pub overwrite_again :
    (block : List ℕ) (i : ℕ) (xs ys : List ℕ)
    → i + length xs + length ys ≤ length block
    → overwrite (overwrite block i xs) (i + length xs) ys ≡ overwrite block i (xs ++ ys)
overwrite_again block i xs ys fits =
    let both : length (xs ++ ys) ≡ length xs + length ys = length-append xs ys in
    let size : length (overwrite block i xs) ≡ length block =
      length-overwrite block i xs (omega arith) in
    get_elem?-ext (overwrite (overwrite block i xs) (i + length xs) ys)
      (overwrite block i (xs ++ ys))
      (λ j.
        get_elem?-overwrite (overwrite block i xs) (i + length xs) ys j (omega arith)
        ∙ merge j (get_elem? (overwrite block i xs) j)
            (get_elem?-overwrite block i xs j (omega arith))
        ∙ sym (get_elem?-overwrite block i (xs ++ ys) j (omega arith)))
  where
    merge :
        (j : ℕ) (o : Option ℕ)
        → o ≡ (
            if ltb j i
            then get_elem? block j
            else (if ltb j (i + length xs) then get_elem? xs (j - i) else get_elem? block j))
        → (if ltb j (i + length xs)
            then o
            else (if ltb j (i + length xs + length ys)
                then get_elem? ys (j - (i + length xs))
                else o))
          ≡ (if ltb j i
              then get_elem? block j
              else (if ltb j (i + length (xs ++ ys))
                  then get_elem? (xs ++ ys) (j - i)
                  else get_elem? block j))
    merge j o e =
        let inner : get_elem? (xs ++ ys) (j - i) ≡ (
            if ltb (j - i) (length xs)
            then get_elem? xs (j - i)
            else get_elem? ys (j - i - length xs)) =
          get_elem?-append xs ys (j - i) in
        let both : length (xs ++ ys) ≡ length xs + length ys = length-append xs ys in
        let last : j - i - length xs ≡ j - (i + length xs) = omega arith in
        rw (inner, both, last, e)
          (tests_lem j i (length xs) (length ys) (get_elem? block j) (get_elem? xs (j - i))
            (get_elem? ys (j - (i + length xs))))

-- The bytes that were written, read again.
pub take-overwrite :
    (block : List ℕ) (i : ℕ) (src : List ℕ)
    → i ≤ length block
    → take (length src) (drop i (overwrite block i src)) ≡ src
take-overwrite block i src inside =
    let front : length (take i block) ≡ i = length-take i block ∙ omega arith in
    let rest = src ++ drop (i + length src) block in
    let none_left : i - length (take i block) ≡ 0 = omega arith in
    let behind : drop i (overwrite block i src) ≡ rest =
      drop-append_ge i (take i block) rest (omega arith) ∙ ap (λ k. drop k rest) none_left in
    rw behind (take-append_length (length src) src (drop (i + length src) block) refl)
