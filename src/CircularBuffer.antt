-- ===== src/CircularBuffer.antt =====
-- The circular buffer of the AESD character driver:
-- assignments-3-and-later-saloni1307-master/aesd-char-driver/aesd-circular-buffer.c and its header.
-- A pointer is a number, 0 is NULL. The array of ten entries is a list of ten; every index is read
-- below ten (`CircularBuffer.Inv`), so what `entry_at` gives outside is never used.
pub mod Inv
pub mod Add
pub mod Find
pub mod Free
mod Tests
use advanced_embedded_softwa.Base.{
  ℕ, zero, suc, ◌+◌, ◌%◌, ◌^◌, Bool, true, false, Option, none, some, List, [], ◌∷◌, ltb, leb, ◌==◌,
  if◌then◌else◌, get_or, set, replicate,
}
use advanced_embedded_softwa.Base.Words.{Ptr, null, add_size, sub_size, through_int}

-- AESDCHAR_MAX_WRITE_OPERATIONS_SUPPORTED
abbrev pub max_write_operations : ℕ
max_write_operations = 10

pub record BufferEntry : Type 0 where
  pub buffptr : Ptr
  pub size : ℕ

pub record CircularBuffer : Type 0 where
  pub entry : List BufferEntry
  pub in_offs : ℕ
  pub out_offs : ℕ
  pub full : Bool

abbrev pub empty_entry : BufferEntry
empty_entry = record { buffptr = null; size = 0 }

abbrev pub entry_at : CircularBuffer → ℕ → BufferEntry
entry_at b i = get_or b.entry i empty_entry

-- `(offs + 1) % AESDCHAR_MAX_WRITE_OPERATIONS_SUPPORTED`
abbrev pub next_offs : ℕ → ℕ
next_offs offs = (offs + 1) % max_write_operations

-- `aesd_circular_buffer_init`: `memset` to 0.
unfoldable pub init : CircularBuffer
init = record {
  entry = replicate max_write_operations empty_entry;
  in_offs = 0;
  out_offs = 0;
  full = false;
}

-- `aesd_circular_buffer_add_entry` behind its check for NULL: the pointer that it returns, and the
-- buffer that it leaves.
unfoldable pub add_entry : CircularBuffer → BufferEntry → Ptr × CircularBuffer
add_entry b add =
    let in_next = next_offs b.in_offs in
    let out_next = if b.full then next_offs b.out_offs else b.out_offs in
    (
      if b.full then (entry_at b b.in_offs).buffptr else null,
      record b {
        entry = set b.entry b.in_offs add;
        in_offs = in_next;
        out_offs = out_next;
        full = in_next == out_next;
      },
    )

-- The whole function, where either argument may be NULL (`none`).
unfoldable pub add_entry_checked :
    Option CircularBuffer → Option BufferEntry → Ptr × Option CircularBuffer
add_entry_checked none add = (null, none)
add_entry_checked (some b) none = (null, some b)
add_entry_checked (some b) (some add) = let (old, b') = add_entry b add in (old, some b')

-- The `do … while` of `aesd_circular_buffer_find_entry_offset_for_fpos`, with fuel: the outer
-- `none` says that it ran out. `size_of_buffptr` is a `size_t`; `total_entry` is an `int` that is
-- used as a `size_t`. An entry is given back as its index and the byte in it; the inner `none`
-- is NULL.
unfoldable pub find_loop : CircularBuffer → ℕ → ℕ → ℕ → ℕ → ℕ → Option (Option (ℕ × ℕ))
find_loop b zero char_offset position size_of_buffptr total_entry = none
find_loop b (suc fuel) char_offset position size_of_buffptr total_entry =
    let next = next_offs position in
    let rest =
      find_loop b fuel char_offset next (add_size size_of_buffptr (entry_at b next).size)
        (through_int size_of_buffptr) in
    if leb size_of_buffptr char_offset
    then (if next == b.in_offs then some none else rest)
    else some (some (position, sub_size char_offset total_entry))

-- `aesd_circular_buffer_find_entry_offset_for_fpos`. Ten rounds are enough
-- (`CircularBuffer.Find`).
unfoldable pub find_entry_offset_for_fpos : CircularBuffer → ℕ → Option (Option (ℕ × ℕ))
find_entry_offset_for_fpos b char_offset =
    find_loop b max_write_operations char_offset b.out_offs (entry_at b b.out_offs).size 0

-- AESD_CIRCULAR_BUFFER_FOREACH over the slots in `aesd_cicular_buffer_free`: the pointers that are
-- freed, in order.
unfoldable pub free_entries : List BufferEntry → List Ptr
free_entries [] = []
free_entries (e ∷ es) =
    let rest = free_entries es in if e.buffptr == null then rest else e.buffptr ∷ rest

unfoldable pub free : CircularBuffer → List Ptr
unfolding free_entries
free b = free_entries b.entry
