-- ===== src/CircularBuffer/Find.antt =====
-- `aesd_circular_buffer_find_entry_offset_for_fpos` against a search of the entries in their order.
use mathlib.Core.Option
use advanced_embedded_softwa.Base.{
  ℕ, zero, suc, ◌+◌, ◌-◌, ◌%◌, ◌^◌, ◌≤◌, ◌<◌, ◌≡◌, refl, sym, ap, ◌∙◌, inl, inr, Option, none, some,
  List, [], ◌∷◌, arith, ◌==◌, ltb, if◌then◌else◌, get_or, Bool-cases,
}
use advanced_embedded_softwa.Base.Words.{through_int_of_lt, sub_size_of_le}
use advanced_embedded_softwa.Base.Window.{window}
use advanced_embedded_softwa.CircularBuffer.{
  BufferEntry, CircularBuffer, empty_entry, entry_at, max_write_operations, next_offs, find_loop,
  find_entry_offset_for_fpos,
}
use advanced_embedded_softwa.CircularBuffer.Inv.{IsValid, contents, occupied, AllEmpty}

-- Where byte `off` of the concatenated entries lies: how many entries come before its own, and
-- its place in that.
unfoldable pub locate : List BufferEntry → ℕ → Option (ℕ × ℕ)
locate [] off = none
locate (e ∷ es) off =
    if ltb off e.size
    then some (0, off)
    else Option.map (λ (k, r). (suc k, r)) (locate es (off - e.size))

-- How many bytes the entries hold.
abbrev pub total_size : List BufferEntry → ℕ
total_size [] = 0
total_size (e ∷ es) = e.size + total_size es

-- The index in the array of the entry that is `k` behind the one at `position`.
abbrev pub slot : ℕ → ℕ × ℕ → ℕ × ℕ
slot position (k, r) = ((position + k) % max_write_operations, r)

module _ (b : CircularBuffer) where
  abbrev entries_from : ℕ → ℕ → List BufferEntry
  entries_from = window b.entry empty_entry max_write_operations

  find_loop-locate :
      (n fuel off position seen : ℕ)
      → n < fuel
      → n < max_write_operations
      → position < max_write_operations
      → b.in_offs ≡ (position + suc n) % max_write_operations
      → seen ≤ off
      → off < 2 ^ 64
      → seen + total_size (entries_from position (suc n)) < 2 ^ 31
      → find_loop b fuel off position (seen + (entry_at b position).size) seen
        ≡ some (Option.map (slot position) (locate (entries_from position (suc n)) (off - seen)))
  unfolding find_loop locate
  find_loop-locate n zero off position seen hf hn hp hin hle ho hsum = absurd (omega arith)
  find_loop-locate zero (suc fuel) off position seen hf hn hp hin hle ho hsum =
      ground (arith, sub_size_of_le off seen)
  find_loop-locate (suc n) (suc fuel) off position seen hf hn hp hin hle ho hsum = ground (
    arith,
    sub_size_of_le off seen,
    through_int_of_lt (seen + (entry_at b position).size),
    find_loop-locate n fuel off (next_offs position) (seen + (entry_at b position).size),
  )

locate-AllEmpty : (es : List BufferEntry) (off : ℕ) → total_size es ≡ 0 → locate es off ≡ none
unfolding locate
locate-AllEmpty [] off h = refl
locate-AllEmpty (e ∷ es) off h = ground (arith, locate-AllEmpty es (off - e.size))

module _ (b : CircularBuffer) where
  -- In a buffer without entries the search goes through ten empty slots.
  empty_slots : (n position : ℕ) → AllEmpty b.entry → total_size (entries_from b position n) ≡ 0
  empty_slots zero position h = refl
  empty_slots (suc n) position h = omega (
    arith,
    empty_slots n (next_offs position) h,
    ap (λ e. e.size) (slot_empty b.entry position h),
  )
    where
      slot_empty :
          (es : List BufferEntry) (i : ℕ) → AllEmpty es → get_or es i empty_entry ≡ empty_entry
      slot_empty [] i h = refl
      slot_empty (e ∷ es) zero h = h.0
      slot_empty (e ∷ es) (suc i) h = slot_empty es i h.1

  -- The search over a window of the slots that ends where the next write goes.
  find_window :
      (n off : ℕ)
      → n < max_write_operations
      → b.out_offs < max_write_operations
      → b.in_offs ≡ (b.out_offs + suc n) % max_write_operations
      → off < 2 ^ 64
      → total_size (entries_from b b.out_offs (suc n)) < 2 ^ 31
      → find_entry_offset_for_fpos b off
        ≡ some (Option.map (slot b.out_offs) (locate (entries_from b b.out_offs (suc n)) off))
  unfolding find_entry_offset_for_fpos
  find_window n off hn hp hin ho small =
      ground (arith, find_loop-locate b n max_write_operations off b.out_offs 0)

  contents_of : (n : ℕ) → occupied b ≡ n → contents b ≡ entries_from b b.out_offs n
  unfolding contents
  contents_of n e = ap (entries_from b b.out_offs) e

  -- On a valid buffer whose entries hold less than 2 GiB the search ends within its ten rounds, and
  -- gives back the slot of the entry that holds byte `off` of the concatenation, oldest entry
  -- first, with the place of that byte in it, or NULL where there are no more than `off` bytes.
  pub find-locate :
      (off : ℕ)
      → IsValid b
      → off < 2 ^ 64
      → total_size (contents b) < 2 ^ 31
      → find_entry_offset_for_fpos b off
        ≡ some (Option.map (slot b.out_offs) (locate (contents b) off))
  find-locate off v ho small = elim (Bool-cases b.full) [
    | inl h ↦
        let all : contents b ≡ entries_from b b.out_offs 10 = contents_of 10 (rw h) in
        rw all (
          find_window 9 off (omega arith) v.out_range (omega (arith, v.full_meets h)) ho
            (rw all at small))
    | inr h ↦ elim (Bool-cases (b.in_offs == 0)) [
      | inl e ↦
          let none_held : contents b ≡ [] = contents_of 0 (ground arith) in
          let first : b.in_offs ≡ 0 = ground arith in
          let blank : AllEmpty b.entry = rw first at (v.rest_empty h) in
          rw none_held (
            find_window 9 off (omega arith) v.out_range (omega (arith, v.filling h)) ho
              (omega (arith, empty_slots 10 b.out_offs blank))
            ∙ ap (λ r. some (Option.map (slot b.out_offs) r))
                (locate-AllEmpty (entries_from b b.out_offs 10) off
                    (empty_slots 10 b.out_offs blank)
                  ∙ sym (locate-AllEmpty [] off refl)))
      | inr e ↦
          let held : contents b ≡ entries_from b b.out_offs (suc (b.in_offs - 1)) =
            contents_of (suc (b.in_offs - 1)) (ground arith) in
          rw held (
            find_window (b.in_offs - 1) off (omega (arith, v.in_range)) v.out_range
              (ground (arith, v.filling h)) ho (rw held at small))
    ]
  ]
