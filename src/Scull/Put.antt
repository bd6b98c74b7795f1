-- ===== src/Scull/Put.antt =====
-- What a list shows, by item and index, once a call has put a block there.
use mathlib.Core.Path.{subst}
use advanced_embedded_softwa.Base.{
  ℕ, zero, suc, ◌<◌, ◌≡◌, refl, sym, ap, ◌∙◌, inl, inr, Option, none, some, List, arith, ◌==◌,
  if◌then◌else◌, length, get_or, set, Bool-cases,
}
use advanced_embedded_softwa.Scull.{Block, Qset, Dev, Place, slot, put_array, with_block, Source}
use advanced_embedded_softwa.Scull.Address.{s_pos_range}
use advanced_embedded_softwa.Scull.Slots.{follow-slot, put_array-slot, get_or-set, with_array-slot}
use advanced_embedded_softwa.Scull.Inv.{
  Fits, IsValid, follow-AllFit, get_elem?-Fits, with_array-Fits, with_block-IsBlock, get_or-IsBlock,
  IsBlock,
}
use advanced_embedded_softwa.Scull.Cells.{base, same_block}
use advanced_embedded_softwa.Scull.Cases.{target, followed, Reached}

with_block-base :
    (fresh : Block) (k : ℕ) (block : Option Block) (bytes : Block) (left : ℕ)
    → with_block fresh k block ≡ (some bytes, left)
    → base fresh block ≡ bytes
unfolding with_block
with_block-base fresh k (some c) bytes left made = ground arith
with_block-base fresh zero none bytes left made = absurd (ground arith)
with_block-base fresh (suc k) none bytes left made = ground arith

module _ (allocs : ℕ) (dev : Dev) (pos : ℕ) (v : IsValid dev) (q : Qset)
    (quanta : List (Option Block)) (left : ℕ) (reached : Reached allocs dev pos q quanta left) where
  pub reached-Fits : Fits dev.quantum dev.qset (some quanta)
  reached-Fits =
      subst (λ a. Fits dev.quantum dev.qset a) (ap (λ r. r.0) reached.array)
        (with_array-Fits dev.quantum dev.qset (followed allocs dev pos).allocs q.quanta (
          get_elem?-Fits dev.quantum dev.qset (followed allocs dev pos).sets
            (target allocs dev pos).item q
            (follow-AllFit dev.quantum dev.qset (target allocs dev pos).item allocs dev.sets v.fit)
            reached.item))

  -- The pointers of the array.
  pub pointer_lem : (t : ℕ) → get_or quanta t none ≡ slot dev.sets (target allocs dev pos).item t
  pointer_lem t =
      with_array-slot (followed allocs dev pos).sets (target allocs dev pos).item dev.qset
        (followed allocs dev pos).allocs t q quanta left reached.item reached.array
      ∙ follow-slot (target allocs dev pos).item allocs dev.sets (target allocs dev pos).item t

  -- The array alone changes no block.
  pub array-slot :
      (i t : ℕ)
      → slot (put_array (followed allocs dev pos).sets (target allocs dev pos).item quanta) i t
        ≡ slot dev.sets i t
  array-slot i t =
      put_array-slot (followed allocs dev pos).sets (target allocs dev pos).item q quanta i t
        reached.item
      ∙ elim (Bool-cases (i == (target allocs dev pos).item)) [
        | inl here ↦
            (let same : i ≡ (target allocs dev pos).item = ground arith in
              rw here (pointer_lem t ∙ ap (λ k. slot dev.sets k t) (sym same)))
        | inr other ↦ rw other (follow-slot (target allocs dev pos).item allocs dev.sets i t)
      ]

  -- Another block at the position.
  pub block-slot :
      (bytes : Block) (p' : Place)
      → slot
          (put_array
            (followed allocs dev pos).sets
            (target allocs dev pos).item
            (set quanta (target allocs dev pos).s_pos (some bytes)))
          p'.item
          p'.s_pos
        ≡ (if same_block (target allocs dev pos) p'
            then some bytes
            else slot dev.sets p'.item p'.s_pos)
  block-slot bytes p' =
      put_array-slot (followed allocs dev pos).sets (target allocs dev pos).item q _ p'.item
        p'.s_pos reached.item
      ∙ elim (Bool-cases (p'.item == (target allocs dev pos).item)) [
        | inl here ↦
            (let same : p'.item ≡ (target allocs dev pos).item = ground arith in
              let old : get_or quanta p'.s_pos none ≡ slot dev.sets p'.item p'.s_pos =
                pointer_lem p'.s_pos ∙ ap (λ k. slot dev.sets k p'.s_pos) (sym same) in
              let in_array : (target allocs dev pos).s_pos < length quanta =
                subst (λ k. (target allocs dev pos).s_pos < k) (sym reached-Fits.0)
                  (s_pos_range dev.quantum dev.qset v.some_bytes v.some_blocks pos) in
              rw here (
                get_or-set quanta (target allocs dev pos).s_pos p'.s_pos (some bytes) none in_array
                ∙ rw old refl))
        | inr other ↦
            rw other (follow-slot (target allocs dev pos).item allocs dev.sets p'.item p'.s_pos)
      ]

  -- The block of the position.
  pub reached-base :
      (source : Source) (bytes : Block) (left' : ℕ)
      → with_block source.fresh left (get_or quanta (target allocs dev pos).s_pos none)
        ≡ (some bytes, left')
      → base source.fresh (slot dev.sets (target allocs dev pos).item (target allocs dev pos).s_pos)
        ≡ bytes
  reached-base source bytes left' made =
      ap (base source.fresh) (sym (pointer_lem (target allocs dev pos).s_pos))
      ∙ with_block-base source.fresh left (get_or quanta (target allocs dev pos).s_pos none) bytes
          left' made

  pub length-reached :
      (source : Source) (bytes : Block) (left' : ℕ)
      → length source.fresh ≡ dev.quantum
      → with_block source.fresh left (get_or quanta (target allocs dev pos).s_pos none)
        ≡ (some bytes, left')
      → length bytes ≡ dev.quantum
  length-reached source bytes left' size made = subst (IsBlock dev.quantum) (ap (λ r. r.0) made) (
      with_block-IsBlock dev.quantum left source.fresh
        (get_or quanta (target allocs dev pos).s_pos none) size
        (get_or-IsBlock dev.quantum quanta (target allocs dev pos).s_pos reached-Fits.1))
