-- ===== src/Scull/Change.antt =====
-- What a write into one block changes of the bytes of a device.
use advanced_embedded_softwa.Base.{
  ℕ, ◌+◌, ◌-◌, ◌<◌, ◌≤◌, ◌≡◌, refl, sym, ap, ◌∙◌, true, false, inl, inr, some, List, arith, ltb,
  if◌then◌else◌, length, get_elem?, take, Bool-cases, length-take,
}
use advanced_embedded_softwa.Base.Elems.{get_elem?-overwrite, get_elem?-take}
use advanced_embedded_softwa.Kernel.{overwrite}
use advanced_embedded_softwa.Scull.{Block, Qset, Dev, Place, place, slot}
use advanced_embedded_softwa.Scull.Address.{place_shift, place_apart}
use advanced_embedded_softwa.Scull.Inv.{IsValid}
use advanced_embedded_softwa.Scull.Cells.{cell, InRange, base, same_block, old_cell, new_cell}

module _ (dev : Dev) (v : IsValid dev) (pos i : ℕ) (here : InRange dev pos)
    (there : InRange dev i) where
  -- Where the write goes, and where `i` lies.
  abbrev pub target : Place
  target = place dev.quantum dev.qset pos

  abbrev pub seen : Place
  seen = place dev.quantum dev.qset i

  same_block_refl : (r : Place) (q : ℕ) → same_block r (record r { q_pos = q }) ≡ true
  same_block_refl r q = ground arith

  -- In another block a position is not among the next ones that still lie in this one.
  outside :
      (n : ℕ)
      → target.q_pos + n ≤ dev.quantum
      → same_block target seen ≡ false
      → (if ltb i pos then false else ltb i (pos + n)) ≡ false
  outside n fits other = elim (Bool-cases (if ltb i pos then false else ltb i (pos + n))) [
    | inl inside ↦
        (let low : pos ≤ i = ground arith in
          let high : i < pos + n = ground arith in
          let along : pos + (i - pos) ≡ i = omega arith in
          let shift =
            place_shift dev.quantum dev.qset v.some_bytes v.some_blocks pos (i - pos)
              (omega arith) in
          let moved : seen ≡ record target { q_pos = target.q_pos + (i - pos) } =
            ap (place dev.quantum dev.qset) (sym along) ∙ shift in
          let same : same_block target seen ≡ true =
            ap (same_block target) moved ∙ same_block_refl target (target.q_pos + (i - pos)) in
          absurd (ground arith))
    | inr beyond ↦ beyond
  ]

  -- In the same block both are as far apart as their offsets.
  apart : same_block target seen ≡ true → pos + seen.q_pos ≡ i + target.q_pos
  apart same =
      let item : target.item ≡ seen.item = ground arith in
      let s_pos : target.s_pos ≡ seen.s_pos = ground arith in
      place_apart dev.quantum dev.qset v.some_bytes v.some_blocks pos i here there item s_pos

  -- The byte in a block with `n` bytes written into it.
  overwritten :
      (block : Block) (buf : List ℕ) (n : ℕ)
      → length block ≡ dev.quantum
      → target.q_pos + n ≤ dev.quantum
      → n ≤ length buf
      → pos + seen.q_pos ≡ i + target.q_pos
      → get_elem? (overwrite block target.q_pos (take n buf)) seen.q_pos ≡ (
          if ltb i pos
          then get_elem? block seen.q_pos
          else (if ltb i (pos + n) then get_elem? buf (i - pos) else get_elem? block seen.q_pos))
  overwritten block buf n full fits given far =
      let taken : length (take n buf) ≡ n = length-take n buf ∙ omega arith in
      let low : ltb seen.q_pos target.q_pos ≡ ltb i pos = ground arith in
      let high : ltb seen.q_pos (target.q_pos + n) ≡ ltb i (pos + n) = ground arith in
      get_elem?-overwrite block target.q_pos (take n buf) seen.q_pos (omega arith)
      ∙ rw (taken, low, high)
          (elim (Bool-cases (ltb i pos)) [
            | inl before ↦ rw before refl
            | inr after ↦ rw after (elim (Bool-cases (ltb i (pos + n))) [
              | inl inside ↦ rw inside (
                  let back : seen.q_pos - target.q_pos ≡ i - pos = ground arith in
                  rw back (get_elem?-take n buf (i - pos) (ground arith)))
              | inr behind ↦ rw behind refl
            ])
          ])

  -- The bytes of a list in which one block has `n` bytes of `buf` written into it.
  pub cell_put :
      (sets : List Qset) (fresh : Block) (buf : List ℕ) (n size : ℕ)
      → length (base fresh (slot dev.sets target.item target.s_pos)) ≡ dev.quantum
      → target.q_pos + n ≤ dev.quantum
      → n ≤ length buf
      → slot sets seen.item seen.s_pos ≡ (
          if same_block target seen
          then some (
              overwrite
                (base fresh (slot dev.sets target.item target.s_pos))
                target.q_pos
                (take n buf))
          else slot dev.sets seen.item seen.s_pos)
      → cell (record dev { sets = sets; size = size }) i ≡ new_cell dev fresh buf pos n i
  unfolding cell new_cell old_cell
  cell_put sets fresh buf n size full fits given slots =
      elim (Bool-cases (same_block target seen)) [
        | inl same ↦
            (let there : slot sets seen.item seen.s_pos
                  ≡ some (
                      overwrite (base fresh (slot dev.sets target.item target.s_pos)) target.q_pos
                        (take n buf)) =
                slots ∙ rw same refl in
              rw (there, same)
                (overwritten (base fresh (slot dev.sets target.item target.s_pos)) buf n full fits
                  given (apart same)))
        | inr other ↦
            (let unchanged : slot sets seen.item seen.s_pos ≡ slot dev.sets seen.item seen.s_pos =
                slots ∙ rw other refl in
              let out = outside n fits other in
              rw (unchanged, other)
                (elim (Bool-cases (ltb i pos)) [
                  | inl before ↦ rw before refl
                  | inr after ↦
                      (let behind : ltb i (pos + n) ≡ false = sym (rw after refl) ∙ out in
                        rw (after, behind) refl)
                ]))
      ]
