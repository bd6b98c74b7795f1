-- ===== src/Scull/Memory.antt =====
-- How much memory a device holds: no call loses or makes a block.
use advanced_embedded_softwa.Base.{
  ℕ, zero, suc, ◌+◌, ◌-◌, ◌<◌, ◌≤◌, ◌≡◌, refl, sym, ap, ◌∙◌, Bool, true, false, inl, inr, Option,
  none, some, List, [], ◌∷◌, arith, ltb, leb, if◌then◌else◌, length, get_elem?, get_or, set,
  replicate, Bool-cases,
}
use advanced_embedded_softwa.Kernel.{done}
use advanced_embedded_softwa.Scull.{
  Block, Qset, Dev, Place, place, slot, Followed, follow, put_array, with_array, with_block, Source,
  write_block, write, read_block, read, cut, Result,
}
use advanced_embedded_softwa.Scull.Address.{s_pos_range}
use advanced_embedded_softwa.Scull.Inv.{Fits, AllFit, IsValid}
use advanced_embedded_softwa.Scull.Cases.{target, followed, Reached, write_cases}
use advanced_embedded_softwa.Scull.Device.{Params, trim_array, trim_item, trim_sets, trim}
use advanced_embedded_softwa.Scull.Put.{reached-Fits}

-- The block at a pointer.
abbrev pub one : Option Block → ℕ
one none = 0
one (some bytes) = 1

-- The blocks of an array.
unfoldable pub in_array : List (Option Block) → ℕ
in_array [] = 0
in_array (b ∷ quanta) = one b + in_array quanta

-- An array and its blocks.
abbrev pub in_item : Option (List (Option Block)) → ℕ
in_item none = 0
in_item (some quanta) = in_array quanta + 1

-- The items of a list, with all that they hold.
unfoldable pub in_sets : List Qset → ℕ
in_sets [] = 0
in_sets (s ∷ sets) = in_item s.quanta + 1 + in_sets sets

pub in_sets-follow :
    (n k : ℕ) (sets : List Qset)
    → in_sets (follow n k sets).sets + (follow n k sets).allocs ≡ in_sets sets + k
unfolding in_sets follow
in_sets-follow zero zero [] = refl
in_sets-follow (suc n) zero [] = refl
in_sets-follow zero (suc k) [] = omega arith
in_sets-follow (suc n) (suc k) [] = omega (arith, in_sets-follow n k [])
in_sets-follow zero zero (s ∷ sets) = refl
in_sets-follow zero (suc k) (s ∷ sets) = refl
in_sets-follow (suc n) zero (s ∷ sets) = omega (arith, in_sets-follow n zero sets)
in_sets-follow (suc n) (suc k) (s ∷ sets) = omega (arith, in_sets-follow n (suc k) sets)

in_sets-put_array :
    (sets : List Qset) (item : ℕ) (q : Qset) (quanta : List (Option Block))
    → get_elem? sets item ≡ some q
    → in_sets (put_array sets item quanta) + in_item q.quanta ≡ in_sets sets + in_item (some quanta)
unfolding in_sets
in_sets-put_array [] item q quanta e = absurd (ground arith)
in_sets-put_array (s ∷ sets) zero q quanta e =
    let same : s ≡ q = ground arith in rw (← same) (omega arith)
in_sets-put_array (s ∷ sets) (suc item) q quanta e =
    omega (arith, in_sets-put_array sets item q quanta e)

in_array-set :
    (quanta : List (Option Block)) (s : ℕ) (bytes : Block)
    → s < length quanta
    → in_array (set quanta s (some bytes)) + one (get_or quanta s none) ≡ in_array quanta + 1
unfolding in_array
in_array-set [] s bytes h = elim h [ ]
in_array-set (b ∷ quanta) zero bytes h = omega arith
in_array-set (b ∷ quanta) (suc s) bytes h = omega (arith, in_array-set quanta s bytes (omega arith))

in_array-replicate : (n : ℕ) → in_array (replicate n none) ≡ 0
unfolding in_array
in_array-replicate zero = refl
in_array-replicate (suc n) = omega (arith, in_array-replicate n)

with_array-in_item :
    (qset k : ℕ) (array : Option (List (Option Block))) (quanta : List (Option Block)) (left : ℕ)
    → with_array qset k array ≡ (some quanta, left)
    → in_item (some quanta) + left ≡ in_item array + k
unfolding with_array
with_array-in_item qset k (some a) quanta left e =
    let same : a ≡ quanta = ground arith in rw (← same) (ground arith)
with_array-in_item qset zero none quanta left e = absurd (ground arith)
with_array-in_item qset (suc k) none quanta left e =
    let same : replicate qset none ≡ quanta = ground arith in
    rw (← same) (ground (arith, in_array-replicate qset))

with_array-left :
    (qset k : ℕ) (array : Option (List (Option Block))) (left : ℕ)
    → with_array qset k array ≡ (none, left)
    → left ≡ k
unfolding with_array
with_array-left qset k (some a) left e = absurd (ground arith)
with_array-left qset zero none left e = ground arith
with_array-left qset (suc k) none left e = absurd (ground arith)

with_block-one :
    (fresh : Block) (k : ℕ) (block : Option Block) (bytes : Block) (left : ℕ)
    → with_block fresh k block ≡ (some bytes, left)
    → 1 + left ≡ one block + k
unfolding with_block
with_block-one fresh k (some b) bytes left e = ground arith
with_block-one fresh zero none bytes left e = absurd (ground arith)
with_block-one fresh (suc k) none bytes left e = ground arith

with_block-left :
    (fresh : Block) (k : ℕ) (block : Option Block) (left : ℕ)
    → with_block fresh k block ≡ (none, left)
    → left ≡ k
unfolding with_block
with_block-left fresh k (some b) left e = absurd (ground arith)
with_block-left fresh zero none left e = ground arith
with_block-left fresh (suc k) none left e = absurd (ground arith)

-- A call that could make `allocs` blocks makes no more, and those are what the device holds more.
abbrev pub Kept : ℕ → Dev → Result → Type 0
Kept allocs dev r =
    (in_sets r.dev.sets + r.allocs ≡ in_sets dev.sets + allocs) × (r.allocs ≤ allocs)

-- No call gets memory that it was not given.
follow-least : (n k : ℕ) (sets : List Qset) → (follow n k sets).allocs ≤ k
unfolding follow
follow-least n zero [] = ground arith
follow-least zero (suc k) [] = omega arith
follow-least (suc n) (suc k) [] = omega (arith, follow-least n k [])
follow-least zero k (s ∷ sets) = omega arith
follow-least (suc n) k (s ∷ sets) = follow-least n k sets

with_array-least :
    (qset k left : ℕ) (array array' : Option (List (Option Block)))
    → with_array qset k array ≡ (array', left)
    → left ≤ k
unfolding with_array
with_array-least qset k left (some a) array' e = ground arith
with_array-least qset zero left none array' e = ground arith
with_array-least qset (suc k) left none array' e = ground arith

with_block-least :
    (fresh : Block) (k left : ℕ) (block block' : Option Block)
    → with_block fresh k block ≡ (block', left)
    → left ≤ k
unfolding with_block
with_block-least fresh k left (some b) block' e = ground arith
with_block-least fresh zero left none block' e = ground arith
with_block-least fresh (suc k) left none block' e = ground arith

-- The block of the position replaced, whatever it holds.
put_block :
    (dev : Dev) (v : IsValid dev) (allocs pos : ℕ) (source : Source) (q : Qset)
    (quanta : List (Option Block)) (left left' : ℕ) (bytes put : Block)
    → Reached allocs dev pos q quanta left
    → with_block source.fresh left (get_or quanta (target allocs dev pos).s_pos none)
      ≡ (some bytes, left')
    → (in_sets (
            put_array
              (followed allocs dev pos).sets
              (target allocs dev pos).item
              (set quanta (target allocs dev pos).s_pos (some put)))
          + left'
        ≡ in_sets dev.sets + allocs)
      × (left' ≤ allocs)
put_block dev v allocs pos source q quanta left left' bytes put reached e =
    let p = target allocs dev pos in
    let f = followed allocs dev pos in
    let size : length quanta ≡ dev.qset = (reached-Fits allocs dev pos v q quanta left reached).0 in
    let below : p.s_pos < dev.qset =
      s_pos_range dev.quantum dev.qset v.some_bytes v.some_blocks pos in
    let least = follow-least p.item allocs dev.sets in
    let least' = with_array-least dev.qset f.allocs left q.quanta (some quanta) reached.array in
    let least'' =
      with_block-least source.fresh left left' (get_or quanta p.s_pos none) (some bytes) e in
    (
      omega (
        arith,
        in_sets-follow p.item allocs dev.sets,
        in_sets-put_array f.sets p.item q (set quanta p.s_pos (some put)) reached.item,
        with_array-in_item dev.qset f.allocs q.quanta quanta left reached.array,
        in_array-set quanta p.s_pos put (omega arith),
        with_block-one source.fresh left (get_or quanta p.s_pos none) bytes left' e,
      ),
      omega arith,
    )

pub write-Kept :
    (dev : Dev) (v : IsValid dev) (allocs pos : ℕ) (source : Source) (locks : Bool)
    → Kept allocs dev (write locks allocs dev pos source)
unfolding write_block
write-Kept dev v allocs pos source locks =
    let p = target allocs dev pos in
    let f = followed allocs dev pos in
    let items = in_sets-follow p.item allocs dev.sets in
    let least = follow-least p.item allocs dev.sets in
    write_cases allocs dev pos (Kept allocs dev) source locks (λ lost. (refl, omega arith))
      (λ e. (items, least))
      (λ q left at_q e.
        let same = with_array-left dev.qset f.allocs q.quanta left e in (omega arith, omega arith))
      (λ q quanta left left' reached e.
        let same = with_block-left source.fresh left (get_or quanta p.s_pos none) left' e in
        let less = with_array-least dev.qset f.allocs left q.quanta (some quanta) reached.array in
        (
          omega (
            arith,
            items,
            in_sets-put_array f.sets p.item q quanta reached.item,
            with_array-in_item dev.qset f.allocs q.quanta quanta left reached.array,
          ),
          omega arith,
        ))
      (λ q quanta left left' bytes reached e.
        let n =
          if ltb (dev.quantum - p.q_pos) source.count
          then dev.quantum - p.q_pos
          else source.count in
        elim (Bool-cases (ltb source.readable n)) [
          | inl short ↦
              rw short (put_block dev v allocs pos source q quanta left left' bytes _ reached e)
          | inr all ↦
              rw all (put_block dev v allocs pos source q quanta left left' bytes _ reached e)
        ])

read_block-Kept :
    (before dev : Dev) (pos count room allocs left q_pos : ℕ) (bytes : Block)
    → (in_sets dev.sets + left ≡ in_sets before.sets + allocs) × (left ≤ allocs)
    → Kept allocs before (read_block dev pos count room left q_pos bytes)
unfolding read_block
read_block-Kept before dev pos count room allocs left q_pos bytes kept =
    let n = if ltb (dev.quantum - q_pos) count then dev.quantum - q_pos else count in
    elim (Bool-cases (ltb room n)) [ inl short ↦ rw short kept | inr all ↦ rw all kept ]

pub read-Kept :
    (dev : Dev) (allocs pos count room : ℕ) (locks : Bool)
    → Kept allocs dev (read locks allocs dev pos count room)
unfolding read
read-Kept dev allocs pos count room false = (refl, omega arith)
read-Kept dev allocs pos count room true = elim (Bool-cases (leb dev.size pos)) [
  | inl end ↦ rw end (refl, omega arith)
  | inr before ↦ rw before (go (slot r.sets p.item p.s_pos))
]
  where
    p : Place
    p = place dev.quantum dev.qset pos

    r : Followed
    r = follow p.item allocs dev.sets

    dev' : Dev
    dev' = record dev { sets = r.sets }

    items : (in_sets dev'.sets + r.allocs ≡ in_sets dev.sets + allocs) × (r.allocs ≤ allocs)
    items = (in_sets-follow p.item allocs dev.sets, follow-least p.item allocs dev.sets)

    go :
        (block : Option Block)
        → Kept allocs dev (elim block as (λ x. Result) [
          | none ↦ record { ret = done 0; delivered = []; pos = pos; dev = dev'; allocs = r.allocs }
          | some bytes ↦ read_block dev' pos (cut dev.size pos count) room r.allocs p.q_pos bytes
        ])
    go none = items
    go (some bytes) =
        read_block-Kept dev dev' pos (cut dev.size pos count) room allocs r.allocs p.q_pos bytes
          items

-- A trim gives back all that a valid device holds.
trim_array-all :
    (quanta : List (Option Block)) → trim_array (length quanta) quanta ≡ in_array quanta
unfolding trim_array in_array
trim_array-all [] = refl
trim_array-all (none ∷ quanta) = omega (arith, trim_array-all quanta)
trim_array-all (some bytes ∷ quanta) = omega (arith, trim_array-all quanta)

trim_item-all :
    (quantum qset : ℕ) (array : Option (List (Option Block)))
    → Fits quantum qset array
    → trim_item qset array ≡ in_item array
unfolding trim_item
trim_item-all quantum qset none fits = refl
trim_item-all quantum qset (some quanta) fits =
    ap (λ k. trim_array k quanta + 1) (sym fits.0) ∙ ap (λ k. k + 1) (trim_array-all quanta)

trim_sets-all :
    (quantum qset : ℕ) (sets : List Qset)
    → AllFit quantum qset sets
    → trim_sets qset sets ≡ in_sets sets
unfolding trim_sets in_sets
trim_sets-all quantum qset [] fit = refl
trim_sets-all quantum qset (s ∷ sets) fit =
    omega (arith, trim_item-all quantum qset s.quanta fit.0, trim_sets-all quantum qset sets fit.1)

pub trim-freed :
    (params : Params) (dev : Dev) → IsValid dev → (trim params dev).freed ≡ in_sets dev.sets
unfolding trim
trim-freed params dev v = trim_sets-all dev.quantum dev.qset dev.sets v.fit
