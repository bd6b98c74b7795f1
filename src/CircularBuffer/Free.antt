-- ===== src/CircularBuffer/Free.antt =====
-- `aesd_cicular_buffer_free`: which blocks it frees.
use mathlib.Core.List.{Perm, perm_append_comm, append-nil}
use mathlib.Core.List.Perm
use advanced_embedded_softwa.Base.{
  ℕ, ◌+◌, ◌-◌, ◌%◌, ◌≡◌, ◌≢◌, refl, sym, ap, ◌∙◌, true, false, inl, inr, List, [], ◌∷◌, ◌++◌, map,
  arith, take, drop, take-append-drop, take_of_le, length-drop, Bool-cases,
}
use advanced_embedded_softwa.Base.Window.{window-split, window-take}
use advanced_embedded_softwa.Base.Words.{Ptr, null}
use advanced_embedded_softwa.CircularBuffer.{
  BufferEntry, CircularBuffer, empty_entry, free_entries, free,
}
use advanced_embedded_softwa.CircularBuffer.Inv.{IsValid, contents, AllEmpty}

-- The block of every entry of the list is not NULL.
abbrev pub AllHeld : List BufferEntry → Type 0
AllHeld [] = Unit
AllHeld (e ∷ es) = (e.buffptr ≢ null) × AllHeld es

abbrev pub pointers : List BufferEntry → List Ptr
pointers = map λ e. e.buffptr

free_entries-append :
    (es fs : List BufferEntry) → free_entries (es ++ fs) ≡ free_entries es ++ free_entries fs
unfolding free_entries
free_entries-append [] fs = refl
free_entries-append (e ∷ es) fs = ground (arith, free_entries-append es fs)

free_entries-AllHeld : (es : List BufferEntry) → AllHeld es → free_entries es ≡ pointers es
unfolding free_entries
free_entries-AllHeld [] h = refl
free_entries-AllHeld (e ∷ es) h = ground (arith, free_entries-AllHeld es h.1)

free_entries-AllEmpty : (es : List BufferEntry) → AllEmpty es → free_entries es ≡ []
unfolding free_entries
free_entries-AllEmpty [] h = refl
free_entries-AllEmpty (e ∷ es) h = ground (arith, free_entries-AllEmpty es h.1)

module _ {b : CircularBuffer} (v : IsValid b) where
  open v use {slots, out_range, in_range, filling, rest_empty}

  -- A full buffer read from its oldest entry on: the slots behind it, and those before.
  contents_full : b.full ≡ true → contents b ≡ drop b.out_offs b.entry ++ take b.out_offs b.entry
  unfolding contents
  contents_full h =
      let round : (b.out_offs + (10 - b.out_offs)) % 10 ≡ 0 = omega arith in
      let split =
        window-split b.entry empty_entry 10 (10 - b.out_offs) b.out_offs 10 b.out_offs (omega arith)
          out_range in
      let front =
        window-take b.entry empty_entry 10 (10 - b.out_offs) b.out_offs (omega arith)
          (omega arith) in
      let whole =
        take_of_le (10 - b.out_offs) (drop b.out_offs b.entry)
          (omega (arith, length-drop b.out_offs b.entry)) in
      rw h (
        split
        ∙ rw (round, front, whole)
            (ap (◌++◌ (drop b.out_offs b.entry))
              (window-take b.entry empty_entry 10 b.out_offs 0 (omega arith) (omega arith))))

  contents_filling : b.full ≡ false → contents b ≡ take b.in_offs b.entry
  unfolding contents
  contents_filling h =
      rw (h, filling h) (window-take b.entry empty_entry 10 b.in_offs 0 (omega arith) (omega arith))

  split_slots :
      (n : ℕ)
      → free_entries b.entry ≡ free_entries (take n b.entry) ++ free_entries (drop n b.entry)
  split_slots n =
      ap free_entries (sym (take-append-drop n b.entry))
      ∙ free_entries-append (take n b.entry) (drop n b.entry)

  free_perm : Perm (free_entries b.entry) (free_entries (contents b))
  free_perm = elim (Bool-cases b.full) [
    | inl h ↦
        rw (contents_full h, split_slots b.out_offs, free_entries-append)
          (perm_append_comm (free_entries (take b.out_offs b.entry)) _)
    | inr h ↦
        rw
          (
            contents_filling h,
            split_slots b.in_offs,
            free_entries-AllEmpty (drop b.in_offs b.entry) (rest_empty h),
            append-nil,
          )
          (Perm.refl _)
  ]

  -- When the driver goes, the block of each entry that a valid buffer holds is freed exactly once,
  -- and nothing else is.
  pub free-pointers : AllHeld (contents b) → Perm (free b) (pointers (contents b))
  unfolding free
  free-pointers held = rw (← free_entries-AllHeld (contents b) held) free_perm
