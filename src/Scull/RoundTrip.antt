-- ===== src/Scull/RoundTrip.antt =====
-- What a read finds where a write has been.
use native.Mathlib.Nat.{div-lt_iff_lt-mul}
use mathlib.Core.Path.{subst}
use advanced_embedded_softwa.Base.{
  ℕ, ◌+◌, ◌-◌, ◌*◌, ◌≤◌, ◌<◌, ◌^◌, ◌≡◌, refl, sym, ap, ◌∙◌, Bool, true, false, inl, inr, Option,
  none, some, List, [], ◌∷◌, arith, ltb, leb, if◌then◌else◌, length, min, get_elem?, take,
  Bool-cases, length-take,
}
use advanced_embedded_softwa.Base.Elems.{get_elem?-take, get_elem?-past, get_elem?-ext}
use advanced_embedded_softwa.Kernel.{
  Ret, efault, erestartsys, enomem, eagain, einval, ebusy, enotty, eperm, done, fail,
}
use advanced_embedded_softwa.Scull.{
  Block, Dev, Place, place, slot, Source, write_block, write, read, Result,
}
use advanced_embedded_softwa.Scull.Inv.{IsValid}
use advanced_embedded_softwa.Scull.Keeps.{write-IsValid}
use advanced_embedded_softwa.Scull.Cells.{cell, InRange, new_cell}
use advanced_embedded_softwa.Scull.Cases.{write_cases}
use advanced_embedded_softwa.Scull.Write.{WriteSays, write-cell, max}
use advanced_embedded_softwa.Scull.Read.{ReadSays, read-cell, span}

-- The shape of the device stays.
abbrev pub SameShape : Dev → Result → Type 0
SameShape dev r = (r.dev.quantum ≡ dev.quantum) × (r.dev.qset ≡ dev.qset)

write-shape :
    (locks : Bool) (allocs : ℕ) (dev : Dev) (pos : ℕ) (source : Source)
    → SameShape dev (write locks allocs dev pos source)
unfolding write_block
write-shape locks allocs dev pos source =
    write_cases allocs dev pos (SameShape dev) source locks (λ lost. (refl, refl))
      (λ e. (refl, refl)) (λ q left at_q e. (refl, refl))
      (λ q quanta left left' reached e. (refl, refl))
      (λ q quanta left left' bytes reached e.
        let n =
          if ltb (dev.quantum - (place dev.quantum dev.qset pos).q_pos) source.count
          then dev.quantum - (place dev.quantum dev.qset pos).q_pos
          else source.count in
        elim (Bool-cases (ltb source.readable n)) [
          | inl short ↦ rw short (refl, refl)
          | inr all ↦ rw all (refl, refl)
        ])

max-bound : (a b : ℕ) → b ≤ max a b
max-bound a b = ground arith

least_lem :
    (n size pos left : ℕ)
    → pos + n ≤ size
    → n ≤ left
    → (if leb size pos then 0 else min (min n (size - pos)) left) ≡ n
least_lem n size pos left enough room = ground arith

length-empty : (xs : List ℕ) → get_elem? xs 0 ≡ none → length xs ≡ 0
length-empty [] e = refl
length-empty (x ∷ xs) e = absurd (ground arith)

-- A position before one that the code reaches.
InRange-before : (dev : Dev) → IsValid dev → (i k : ℕ) → i ≤ k → InRange dev k → InRange dev i
InRange-before dev v i k before far =
    let itemsize = dev.quantum * dev.qset in
    let some_bytes = v.some_bytes in
    let some_blocks = v.some_blocks in
    let positive : 0 < itemsize = grind arith in
    let bound : k < 2 ^ 32 * itemsize =
      (div-lt_iff_lt-mul {k = itemsize} {x = k} {y = 2 ^ 32} positive).0 far in
    (div-lt_iff_lt-mul {k = itemsize} {x = i} {y = 2 ^ 32} positive).1 (omega arith)

module _ (dev : Dev) (v : IsValid dev) (allocs pos : ℕ) (source : Source)
    (size : length source.fresh ≡ dev.quantum) (given : source.count ≤ length source.buf)
    (far : InRange dev (pos + source.count)) (n : ℕ)
    (e : (write true allocs dev pos source).ret ≡ done n) where
  abbrev after : Dev
  after = (write true allocs dev pos source).dev

  says :
      (i : ℕ)
      → i ≤ pos + source.count
      → WriteSays true allocs dev pos source i (done n) (write true allocs dev pos source)
  says i near =
      subst (λ ret. WriteSays true allocs dev pos source i ret (write true allocs dev pos source)) e
        (write-cell true dev v allocs pos i source size given
          (InRange-before dev v pos (pos + source.count) (omega arith) far)
          (InRange-before dev v i (pos + source.count) near far))

  within : (n ≤ source.count) × (n ≤ dev.quantum - (place dev.quantum dev.qset pos).q_pos)
  within = let least = (says pos (omega arith)).0 in (omega arith, omega arith)

  -- The bytes that the write has left.
  written : (j : ℕ) → j < n → cell after (pos + j) ≡ get_elem? source.buf j
  unfolding new_cell
  written j inside =
      let bound = within.0 in
      let shows = (says (pos + j) (omega arith)).3 in
      let back : ltb (pos + j) pos ≡ false = ground arith in
      let front : ltb (pos + j) (pos + n) ≡ true = ground arith in
      let offset : pos + j - pos ≡ j = omega arith in shows ∙ rw (back, front, offset) refl

  same_place : place after.quantum after.qset pos ≡ place dev.quantum dev.qset pos
  same_place =
      let (quantum, qset) = write-shape true allocs dev pos source in rw (quantum, qset) refl

  no_block :
      slot after.sets
          (place after.quantum after.qset pos).item
          (place after.quantum after.qset pos).s_pos
        ≡ none
      → n ≡ 0
  unfolding cell
  no_block at = elim (Bool-cases (ltb 0 n)) [
    | inl some_bytes ↦
        (let first = written 0 (ground arith) in
          let here : cell after (pos + 0) ≡ none =
            let same : pos + 0 ≡ pos = omega arith in rw (same, at) refl in
          let bound = within.0 in
          let empty = length-empty source.buf (sym first ∙ here) in omega arith)
    | inr no_bytes ↦ ground arith
  ]

  span_lem : span after pos n ≡ n
  unfolding span
  span_lem = go (slot after.sets there.item there.s_pos) refl
    where
      there : Place
      there = place after.quantum after.qset pos

      end : after.size ≡ max dev.size (pos + n)
      end = (says pos (omega arith)).2

      room : n ≤ after.quantum - there.q_pos
      room = rw (same_place, (write-shape true allocs dev pos source).0) within.1

      go :
          (block : Option Block)
          → slot after.sets there.item there.s_pos ≡ block
          → (if leb after.size pos then 0 else elim block as (λ x. ℕ) [
            | none ↦ 0
            | some _ ↦ min (min n (after.size - pos)) (after.quantum - there.q_pos)
          ])
            ≡ n
      go none at = let nothing = no_block at in ground arith
      go (some bytes) at =
          let enough : pos + n ≤ after.size = rw (end) (max-bound dev.size (pos + n)) in
          least_lem n after.size pos (after.quantum - there.q_pos) enough room

  -- A read that gets the lock gives the whole span, if the process has room for it.
  read_ret :
      (room : ℕ) (r : Result) (ret : Ret)
      → n ≤ room
      → ReadSays true after pos n room 0 0 ret r
      → ret ≡ done n
  read_ret room r (done m) fits ends = ap done (ends.0 ∙ span_lem)
  read_ret room r (fail efault) fits ends = let short = ends.0 in absurd (omega (arith, span_lem))
  read_ret room r (fail erestartsys) fits ends = let lost = ends.0 in absurd (ground arith)
  read_ret room r (fail enomem) fits ends = absurd ends
  read_ret room r (fail eagain) fits ends = absurd ends
  read_ret room r (fail einval) fits ends = absurd ends
  read_ret room r (fail ebusy) fits ends = absurd ends
  read_ret room r (fail enotty) fits ends = absurd ends
  read_ret room r (fail eperm) fits ends = absurd ends

  module _ (more room : ℕ) (fits : n ≤ room) (small : pos + n < 2 ^ 64) where
    reread-ret : (read true more after pos n room).ret ≡ done n
    reread-ret =
        let r = read true more after pos n room in
        read_ret room r r.ret fits (
          read-cell after (write-IsValid dev v true allocs pos source size) pos n room 0 0 small
            true more)

    reread-delivered : (read true more after pos n room).delivered ≡ take n source.buf
    reread-delivered =
        get_elem?-ext (read true more after pos n room).delivered (take n source.buf) (λ j.
          let r = read true more after pos n room in
          let ends : ReadSays true after pos n room j 0 (done n) r =
            subst (λ ret. ReadSays true after pos n room j 0 ret r) reread-ret
              (read-cell after (write-IsValid dev v true allocs pos source size) pos n room j 0
                small true more) in
          ends.2 ∙ elim (Bool-cases (ltb j n)) [
            | inl inside ↦
                rw inside
                  (written j (ground arith) ∙ sym (get_elem?-take n source.buf j (ground arith)))
            | inr past ↦ rw past (
                sym
                  (get_elem?-past (take n source.buf) j (ground (arith, length-take n source.buf))))
          ])

    -- A write to a valid device that has written `n` bytes at a position, given a new block of the size
    -- of its blocks and a buffer of at least `count` bytes, where the position of the write plus `count`
    -- lies in an item whose index is below 2^32 and the position plus `n` is below 2^64. Then a read of
    -- `n` bytes there that gets the lock, by a process with room for them, gives `n` bytes, those that
    -- were written.
    pub read-write :
        ((read true more after pos n room).ret ≡ done n)
        × ((read true more after pos n room).delivered ≡ take n source.buf)
    read-write = (reread-ret, reread-delivered)
