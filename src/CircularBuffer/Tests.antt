-- ===== src/CircularBuffer/Tests.antt =====
-- The circular buffer at concrete inputs: empty, with three entries, and full after going round.
use mathlib.Core.Option
use advanced_embedded_softwa.Base.{ℕ, ◌≡◌, refl, true, none, some, [], ◌∷◌, ◌++◌, arith}
use advanced_embedded_softwa.Base.Words.{null, through_int}
use advanced_embedded_softwa.CircularBuffer.{
  BufferEntry, CircularBuffer, init, add_entry, add_entry_checked, find_loop,
  find_entry_offset_for_fpos,
}
use advanced_embedded_softwa.CircularBuffer.Inv.{IsValid, contents}
use advanced_embedded_softwa.CircularBuffer.Add.{make_room, evicted, contents-add_entry}
use advanced_embedded_softwa.CircularBuffer.Find.{locate, slot, find-locate}

abbrev e : ℕ → ℕ → BufferEntry
e p n = record { buffptr = p; size = n }

-- Twelve entries were added: the first two are gone.
abbrev wrapped : CircularBuffer
wrapped = record {
  entry = e 11 4 ∷ e 12 4 ∷ e 3 5 ∷ e 4 1 ∷ e 5 1 ∷ e 6 1 ∷ e 7 1 ∷ e 8 1 ∷ e 9 1 ∷ e 10 2 ∷ [];
  in_offs = 2;
  out_offs = 2;
  full = true;
}

wrapped-IsValid : IsValid wrapped
wrapped-IsValid = record {
  slots = refl;
  in_range = omega arith;
  out_range = omega arith;
  full_meets = λ h. refl;
  filling = λ h. cc;
  rest_empty = λ h. cc;
}

-- Byte 13 is the first of the entry in slot 0, behind 5 + 6 + 2 others.
find_wraps : find_entry_offset_for_fpos wrapped 13 ≡ some (some (0, 0))
unfolding find_entry_offset_for_fpos find_loop through_int
find_wraps = refl

find_past_end : find_entry_offset_for_fpos wrapped 21 ≡ some none
unfolding find_entry_offset_for_fpos find_loop
find_past_end = refl

find_empty : find_entry_offset_for_fpos init 0 ≡ some none
unfolding find_entry_offset_for_fpos find_loop init
find_empty = refl

add_null : add_entry_checked (some wrapped) none ≡ (null, some wrapped)
unfolding add_entry_checked
add_null = refl

contents-add_entry_example :
    (contents (add_entry wrapped (e 13 7)).1 ≡ make_room (contents wrapped) ++ (e 13 7 ∷ []))
    × ((add_entry wrapped (e 13 7)).0 ≡ evicted (contents wrapped))
contents-add_entry_example = contents-add_entry wrapped-IsValid (e 13 7)

evicted_is_oldest : evicted (contents wrapped) ≡ 3
unfolding contents
evicted_is_oldest = refl

find-locate_example :
    find_entry_offset_for_fpos wrapped 13
    ≡ some (Option.map (slot 2) (locate (contents wrapped) 13))
unfolding contents
find-locate_example = find-locate wrapped 13 wrapped-IsValid (omega arith) (omega arith)
