-- ===== src/Scull/Cells.antt =====
-- A device as a sparse array of bytes, and what a block with bytes written into it shows there.
use advanced_embedded_softwa.Base.{
  ℕ, ◌+◌, ◌-◌, ◌*◌, ◌/◌, ◌<◌, ◌^◌, Bool, false, Option, none, some, List, ltb, ◌==◌, if◌then◌else◌,
  get_elem?,
}
use advanced_embedded_softwa.Scull.{Block, Dev, Place, place, slot}

abbrev pub byte_of : Option Block → ℕ → Option ℕ
byte_of none q = none
byte_of (some bytes) q = get_elem? bytes q

-- The byte at a position, if its block is there.
unfoldable pub cell : Dev → ℕ → Option ℕ
cell dev i = let p = place dev.quantum dev.qset i in byte_of (slot dev.sets p.item p.s_pos) p.q_pos

-- A position that the code reaches: the index of its item fits an `unsigned int`.
abbrev pub InRange : Dev → ℕ → Type 0
InRange dev i = i / (dev.quantum * dev.qset) < 2 ^ 32

-- The block that is there, or else the new one.
abbrev pub base : Block → Option Block → Block
base fresh none = fresh
base fresh (some bytes) = bytes

-- Whether two positions lie in one block.
abbrev pub same_block : Place → Place → Bool
same_block p p' = if p'.item == p.item then p'.s_pos == p.s_pos else false

-- The byte at `i` once the block of position `pos` is there, which holds `fresh` if it is new.
unfoldable pub old_cell : Dev → Block → ℕ → ℕ → Option ℕ
old_cell dev fresh pos i =
    let p = place dev.quantum dev.qset pos in
    let p' = place dev.quantum dev.qset i in
    if same_block p p'
    then get_elem? (base fresh (slot dev.sets p.item p.s_pos)) p'.q_pos
    else cell dev i

-- The byte at `i` after `n` bytes of `buf` are written at `pos`.
unfoldable pub new_cell : Dev → Block → List ℕ → ℕ → ℕ → ℕ → Option ℕ
new_cell dev fresh buf pos n i =
    if ltb i pos
    then old_cell dev fresh pos i
    else (if ltb i (pos + n) then get_elem? buf (i - pos) else old_cell dev fresh pos i)
