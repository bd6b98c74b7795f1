-- ===== src/CircularBuffer/Add.antt =====
-- `aesd_circular_buffer_add_entry` against a list that keeps its ten newest elements.
use mathlib.Core.Path.{ap₂}
use advanced_embedded_softwa.Base.{
  ℕ, suc, ◌<◌, ◌≡◌, refl, sym, ap, ◌∙◌, true, false, inl, inr, List, [], ◌∷◌, ◌++◌, arith, ltb,
  if◌then◌else◌, length, set, Bool-cases,
}
use advanced_embedded_softwa.Base.Window.{window, window-set_end}
use advanced_embedded_softwa.Base.Words.{Ptr, null}
use advanced_embedded_softwa.CircularBuffer.{
  BufferEntry, CircularBuffer, empty_entry, max_write_operations, next_offs, add_entry,
}
use advanced_embedded_softwa.CircularBuffer.Inv.{IsValid, contents, occupied, length-contents}

abbrev pub tail {ℓ} : {A : Type ℓ} → List A → List A
tail [] = []
tail (x ∷ xs) = xs

-- What is left of a list once there is room for one more element.
abbrev pub make_room {ℓ} : {A : Type ℓ} → List A → List A
make_room xs = if ltb (length xs) max_write_operations then xs else tail xs

-- The pointer of the entry that has to go, if one has.
abbrev pub evicted : List BufferEntry → Ptr
evicted [] = null
evicted (e ∷ es) = if ltb (length (e ∷ es)) max_write_operations then null else e.buffptr

abbrev slots_from : List BufferEntry → ℕ → ℕ → List BufferEntry
slots_from es = window es empty_entry max_write_operations

slots_cong :
    (es : List BufferEntry) {o p m n : ℕ} → o ≡ p → m ≡ n → slots_from es o m ≡ slots_from es p n
slots_cong es same_start same_size = ap₂ (slots_from es) same_start same_size

evicted_of_lt : (es : List BufferEntry) → length es < max_write_operations → evicted es ≡ null
evicted_of_lt [] h = refl
evicted_of_lt (e ∷ es) h = ground arith

module _ {b : CircularBuffer} (v : IsValid b) (e : BufferEntry) where
  open v use {slots, in_range, out_range, full_meets, filling}

  -- The slots while the buffer fills up: they are read from 0 on.
  add_filling :
      b.full ≡ false
      → (contents (add_entry b e).1 ≡ contents b ++ (e ∷ [])) × ((add_entry b e).0 ≡ null)
  unfolding add_entry contents
  add_filling h =
      let out : b.out_offs ≡ 0 = filling h in
      let before : contents b ≡ slots_from b.entry 0 b.in_offs =
        slots_cong b.entry {o = b.out_offs} {p = 0} {m = occupied b} {n = b.in_offs} out (rw h) in
      let after : contents (add_entry b e).1
          ≡ slots_from (set b.entry b.in_offs e) 0 (suc b.in_offs) =
        slots_cong (set b.entry b.in_offs e) {o = (add_entry b e).1.out_offs} {p = 0}
          {m = occupied (add_entry b e).1} {n = suc b.in_offs} (ground arith) (ground arith) in
      (
        after
            ∙ window-set_end b.entry empty_entry e 10 b.in_offs 0 b.in_offs (omega arith)
                (omega arith) in_range (omega arith)
            ∙ ap (λ es. es ++ (e ∷ [])) (sym before),
        rw h,
      )

  -- The slots of a full buffer: the oldest entry lies where the next write goes.
  add_full :
      b.full ≡ true
      → (contents (add_entry b e).1 ≡ tail (contents b) ++ (e ∷ []))
        × ((add_entry b e).0 ≡ evicted (contents b))
  unfolding add_entry contents
  add_full h =
      let meet : b.in_offs ≡ b.out_offs = full_meets h in
      let before : contents b ≡ slots_from b.entry b.out_offs 10 =
        slots_cong b.entry {o = b.out_offs} {p = b.out_offs} {m = occupied b} {n = 10} refl
          (rw h) in
      let after : contents (add_entry b e).1
          ≡ slots_from (set b.entry b.in_offs e) (next_offs b.out_offs) 10 =
        slots_cong (set b.entry b.in_offs e) {o = (add_entry b e).1.out_offs}
          {p = next_offs b.out_offs} {m = occupied (add_entry b e).1} {n = 10} (rw h)
          (ground arith) in
      (
        after
            ∙ window-set_end b.entry empty_entry e 10 9 (next_offs b.out_offs) b.in_offs
                (omega arith) (omega arith) (omega arith) (omega arith)
            ∙ ap (λ es. tail es ++ (e ∷ [])) (sym before),
        rw (before, h, meet),
      )

  -- Adding to a valid buffer appends the entry behind the others, the oldest making room if there
  -- are ten, and gives back the pointer of the entry that went, or NULL.
  pub contents-add_entry :
      (contents (add_entry b e).1 ≡ make_room (contents b) ++ (e ∷ []))
      × ((add_entry b e).0 ≡ evicted (contents b))
  contents-add_entry = elim (Bool-cases b.full) [
    | inl h ↦ ground (arith, add_full h, length-contents b)
    | inr h ↦ ground (arith, add_filling h, length-contents b, evicted_of_lt (contents b))
  ]
