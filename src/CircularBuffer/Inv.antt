-- ===== src/CircularBuffer/Inv.antt =====
-- The invariant of the circular buffer, and the entries that it holds, oldest first.
use advanced_embedded_softwa.Base.{
  ℕ, zero, suc, ◌<◌, ◌≡◌, refl, true, false, List, [], ◌∷◌, arith, if◌then◌else◌, length,
  length-set, drop, set, replicate,
}
use advanced_embedded_softwa.Base.Window.{window, length-window}
use advanced_embedded_softwa.CircularBuffer.{
  BufferEntry, CircularBuffer, empty_entry, max_write_operations, next_offs, init, add_entry,
}

-- Every entry of the list is as `memset` left it.
abbrev pub AllEmpty : List BufferEntry → Type 0
AllEmpty [] = Unit
AllEmpty (e ∷ es) = (e ≡ empty_entry) × AllEmpty es

-- The buffer fills its slots from 0 on; once it is full, both offsets move together.
pub record IsValid (b : CircularBuffer) : Type 0 where
  pub slots : length b.entry ≡ max_write_operations
  pub in_range : b.in_offs < max_write_operations
  pub out_range : b.out_offs < max_write_operations
  pub full_meets : b.full ≡ true → b.in_offs ≡ b.out_offs
  pub filling : b.full ≡ false → b.out_offs ≡ 0
  pub rest_empty : b.full ≡ false → AllEmpty (drop b.in_offs b.entry)

-- How many entries the buffer holds.
abbrev pub occupied : CircularBuffer → ℕ
occupied b = if b.full then max_write_operations else b.in_offs

-- The entries, oldest first.
unfoldable pub contents : CircularBuffer → List BufferEntry
contents b = window b.entry empty_entry max_write_operations b.out_offs (occupied b)

pub length-contents : (b : CircularBuffer) → length (contents b) ≡ occupied b
unfolding contents
length-contents b = length-window b.entry empty_entry max_write_operations b.out_offs (occupied b)

pub drop-set :
    (es : List BufferEntry) (i : ℕ) (e : BufferEntry)
    → AllEmpty (drop i es)
    → AllEmpty (drop (suc i) (set es i e))
drop-set [] i e h = tt
drop-set (x ∷ es) zero e h = h.1
drop-set (x ∷ es) (suc i) e h = drop-set es i e h

AllEmpty-replicate : (n : ℕ) → AllEmpty (replicate n empty_entry)
AllEmpty-replicate zero = tt
AllEmpty-replicate (suc n) = (refl, AllEmpty-replicate n)

-- `aesd_circular_buffer_init` gives a valid buffer that holds nothing.
pub init-IsValid : IsValid init × (contents init ≡ [])
unfolding init contents
init-IsValid = (
  record {
    slots = refl;
    in_range = omega arith;
    out_range = omega arith;
    full_meets = λ e. cc;
    filling = λ e. refl;
    rest_empty = λ e. AllEmpty-replicate max_write_operations;
  },
  refl,
)

module _ {b : CircularBuffer} (v : IsValid b) (e : BufferEntry) where
  open v use {slots, in_range, out_range, full_meets, filling, rest_empty}

  next_empty :
      (add_entry b e).1.full ≡ false
      → AllEmpty (drop (next_offs b.in_offs) (set b.entry b.in_offs e))
  unfolding add_entry
  next_empty h =
      let filling_on : b.full ≡ false = ground (arith, full_meets) in
      let step : next_offs b.in_offs ≡ suc b.in_offs = ground (arith, filling) in
      rw step (drop-set b.entry b.in_offs e (rest_empty filling_on))

  -- `aesd_circular_buffer_add_entry` keeps the invariant.
  pub add_entry-IsValid : IsValid (add_entry b e).1
  unfolding add_entry
  add_entry-IsValid = record {
    slots = ground (arith, length-set b.entry b.in_offs e);
    in_range = ground arith;
    out_range = ground arith;
    full_meets = ground arith;
    filling = ground (arith, full_meets, filling);
    rest_empty = next_empty;
  }
