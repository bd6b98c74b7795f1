-- ===== src/Scull/Slots.antt =====
-- The blocks of a device by item and index: what following, and writing, changes of them.
use advanced_embedded_softwa.Base.{
  ℕ, zero, suc, ◌+◌, ◌≤◌, ◌<◌, ◌≡◌, refl, false, Option, none, some, List, [], ◌∷◌, arith, ◌==◌,
  if◌then◌else◌, length, get_elem?, get_or, set, replicate,
}
use advanced_embedded_softwa.Scull.{
  Block, Qset, follow, pointer, slot, put_array, with_array, with_block,
}

-- Items that are made on the way have no blocks.
pub follow-slot :
    (n k : ℕ) (sets : List Qset) (i t : ℕ) → slot (follow n k sets).sets i t ≡ slot sets i t
unfolding follow slot
follow-slot zero zero [] i t = refl
follow-slot (suc n) zero [] i t = refl
follow-slot zero (suc k) [] zero t = refl
follow-slot zero (suc k) [] (suc i) t = refl
follow-slot (suc n) (suc k) [] zero t = refl
follow-slot (suc n) (suc k) [] (suc i) t = follow-slot n k [] i t
follow-slot zero zero (s ∷ sets) i t = refl
follow-slot zero (suc k) (s ∷ sets) i t = refl
follow-slot (suc n) zero (s ∷ sets) zero t = refl
follow-slot (suc n) (suc k) (s ∷ sets) zero t = refl
follow-slot (suc n) zero (s ∷ sets) (suc i) t = follow-slot n zero sets i t
follow-slot (suc n) (suc k) (s ∷ sets) (suc i) t = follow-slot n (suc k) sets i t

-- How many items a call makes at most.
pub follow-allocs : (n k : ℕ) (sets : List Qset) → k ≤ (follow n k sets).allocs + n + 1
unfolding follow
follow-allocs n zero sets = omega arith
follow-allocs zero (suc k) [] = omega arith
follow-allocs (suc n) (suc k) [] = omega (arith, follow-allocs n k [])
follow-allocs zero (suc k) (s ∷ sets) = omega arith
follow-allocs (suc n) (suc k) (s ∷ sets) = omega (arith, follow-allocs n (suc k) sets)

-- With as many items as it may need, a call finds the one it looks for.
pub follow-get_elem? :
    (n k : ℕ) (sets : List Qset) → get_elem? (follow n k sets).sets n ≡ none → k ≤ n
unfolding follow
follow-get_elem? n zero sets e = omega arith
follow-get_elem? zero (suc k) [] e = absurd (ground arith)
follow-get_elem? (suc n) (suc k) [] e = omega (arith, follow-get_elem? n k [] e)
follow-get_elem? zero (suc k) (s ∷ sets) e = absurd (ground arith)
follow-get_elem? (suc n) (suc k) (s ∷ sets) e = omega (arith, follow-get_elem? n (suc k) sets e)

-- An array, or a block, is missing only without memory.
pub with_array-none :
    (qset k left : ℕ) (array : Option (List (Option Block)))
    → with_array qset k array ≡ (none, left)
    → k ≡ 0
unfolding with_array
with_array-none qset k left (some a) e = absurd (ground arith)
with_array-none qset zero left none e = refl
with_array-none qset (suc k) left none e = absurd (ground arith)

pub with_array-allocs :
    (qset k left : ℕ) (array array' : Option (List (Option Block)))
    → with_array qset k array ≡ (array', left)
    → k ≤ left + 1
unfolding with_array
with_array-allocs qset k left (some a) array' e = ground arith
with_array-allocs qset zero left none array' e = omega arith
with_array-allocs qset (suc k) left none array' e = ground arith

pub with_block-none :
    (fresh : Block) (k left : ℕ) (block : Option Block)
    → with_block fresh k block ≡ (none, left)
    → k ≡ 0
unfolding with_block
with_block-none fresh k left (some b) e = absurd (ground arith)
with_block-none fresh zero left none e = refl
with_block-none fresh (suc k) left none e = absurd (ground arith)

suc_eq : (i j : ℕ) → (suc i == suc j) ≡ (i == j)
suc_eq i j = ground arith

suc_eq-zero : (i : ℕ) → (suc i == 0) ≡ false
suc_eq-zero i = ground arith

zero_eq-suc : (i : ℕ) → (0 == suc i) ≡ false
zero_eq-suc i = ground arith

-- Another array at an item.
pub put_array-slot :
    (sets : List Qset) (item : ℕ) (q : Qset) (quanta : List (Option Block)) (i t : ℕ)
    → get_elem? sets item ≡ some q
    → slot (put_array sets item quanta) i t
      ≡ (if i == item then get_or quanta t none else slot sets i t)
unfolding slot
put_array-slot [] item q quanta i t e = absurd (ground arith)
put_array-slot (s ∷ sets) zero q quanta zero t e = refl
put_array-slot (s ∷ sets) zero q quanta (suc i) t e = rw (suc_eq-zero i)
put_array-slot (s ∷ sets) (suc item) q quanta zero t e = rw (zero_eq-suc item)
put_array-slot (s ∷ sets) (suc item) q quanta (suc i) t e =
    rw (suc_eq i item) (put_array-slot sets item q quanta i t e)

pub get_or-set {ℓ} :
    {A : Type ℓ} (xs : List A) (i j : ℕ) (v d : A)
    → i < length xs
    → get_or (set xs i v) j d ≡ (if j == i then v else get_or xs j d)
get_or-set [] i j v d h = elim h [ ]
get_or-set (x ∷ xs) zero zero v d h = refl
get_or-set (x ∷ xs) zero (suc j) v d h = rw (suc_eq-zero j)
get_or-set (x ∷ xs) (suc i) zero v d h = rw (zero_eq-suc i)
get_or-set (x ∷ xs) (suc i) (suc j) v d h = rw (suc_eq j i) (get_or-set xs i j v d (omega arith))

pub get_or-replicate {ℓ} : {A : Type ℓ} (n i : ℕ) (d : A) → get_or (replicate n d) i d ≡ d
get_or-replicate zero i d = refl
get_or-replicate (suc n) zero d = refl
get_or-replicate (suc n) (suc i) d = get_or-replicate n i d

with_array-pointer :
    (qset k s : ℕ) (array : Option (List (Option Block))) (quanta : List (Option Block)) (left : ℕ)
    → with_array qset k array ≡ (some quanta, left)
    → get_or quanta s none ≡ pointer array s
unfolding with_array
with_array-pointer qset k s (some a) quanta left made =
    let same : a ≡ quanta = ground arith in rw (← same) refl
with_array-pointer qset zero s none quanta left made = absurd (ground arith)
with_array-pointer qset (suc k) s none quanta left made =
    let same : replicate qset none ≡ quanta = ground arith in
    rw (← same) (get_or-replicate qset s none)

-- The pointers of an item, whose array may have to be made.
pub with_array-slot :
    (sets : List Qset) (item qset k s : ℕ) (q : Qset) (quanta : List (Option Block)) (left : ℕ)
    → get_elem? sets item ≡ some q
    → with_array qset k q.quanta ≡ (some quanta, left)
    → get_or quanta s none ≡ slot sets item s
unfolding slot
with_array-slot sets item qset k s q quanta left e made =
    rw (e, slot) (with_array-pointer qset k s q.quanta quanta left made)
