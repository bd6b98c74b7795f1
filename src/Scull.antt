-- ===== src/Scull.antt =====
-- The memory device of the scull driver: assignment-7-saloni1307-master/scull/main.c, its data and
-- the calls that read and write it. A device owns a list of items, an item an array of `qset`
-- pointers, and a pointer of the array a block of `quantum` bytes; nothing else points to them, so
-- that the list is a list here. Of `kmalloc` a call is given how often it succeeds, before it fails
-- once: every failure ends the call.
pub mod Address
pub mod Slots
pub mod Inv
pub mod Keeps
pub mod Cells
pub mod Change
pub mod Cases
pub mod Put
pub mod Write
pub mod Read
pub mod RoundTrip
pub mod Device
pub mod Memory
pub mod Life
pub mod Seek
pub mod Ioctl
mod Tests
use advanced_embedded_softwa.Base.{
  ℕ, zero, suc, ◌+◌, ◌-◌, ◌*◌, ◌/◌, ◌%◌, ◌^◌, min, Bool, true, false, Option, none, some, List, [],
  ◌∷◌, ltb, leb, if◌then◌else◌, length, get_elem?, get_or, set, take, drop, replicate,
}
use advanced_embedded_softwa.Base.Words.{add_size}
use advanced_embedded_softwa.Kernel.{Errno, erestartsys, enomem, efault, Ret, done, fail, overwrite}

abbrev pub Block : Type 0
Block = List ℕ

-- `struct scull_qset`, less its link: the array `data`, if it is allocated.
pub record Qset : Type 0 where
  pub quanta : Option (List (Option Block))

-- `struct scull_dev`, less its lock and its character device.
pub record Dev : Type 0 where
  pub sets : List Qset
  pub quantum : ℕ
  pub qset : ℕ
  pub size : ℕ

-- Where a position lies: the item, the index in its array, and the offset in the block. `item` is
-- an `int`, which keeps the low 32 bits; the loop that counts it down runs once for each of them.
pub record Place : Type 0 where
  pub item : ℕ
  pub s_pos : ℕ
  pub q_pos : ℕ

unfoldable pub place : ℕ → ℕ → ℕ → Place
place quantum qset pos =
    let itemsize = quantum * qset in
    let rest = pos % itemsize in
    record { item = (pos / itemsize) % 2 ^ 32; s_pos = rest / quantum; q_pos = rest % quantum }

-- An item after `memset`.
abbrev pub empty_set : Qset
empty_set = record { quanta = none }

-- The list after a call, and how often `kmalloc` may still succeed.
pub record Followed : Type 0 where
  pub sets : List Qset
  pub allocs : ℕ

-- `scull_follow`, which makes the items that are missing. The item that it returns is the one with
-- index `n` in the new list; where that is too short it returns NULL.
unfoldable pub follow : ℕ → ℕ → List Qset → Followed
follow n zero [] = record { sets = []; allocs = 0 }
follow zero (suc k) [] = record { sets = empty_set ∷ []; allocs = k }
follow (suc n) (suc k) [] =
    let r = follow n k [] in record { sets = empty_set ∷ r.sets; allocs = r.allocs }
follow zero k (s ∷ sets) = record { sets = s ∷ sets; allocs = k }
follow (suc n) k (s ∷ sets) =
    let r = follow n k sets in record { sets = s ∷ r.sets; allocs = r.allocs }

-- The pointer at an index of an array; one that is not there has none.
abbrev pub pointer : Option (List (Option Block)) → ℕ → Option Block
pointer none s = none
pointer (some quanta) s = get_or quanta s none

-- The block of an item at an index of its array.
unfoldable pub slot : List Qset → ℕ → ℕ → Option Block
slot sets item s = elim (get_elem? sets item) [ none ↦ none | some q ↦ pointer q.quanta s ]

-- What a call leaves: what it returns, what it gave the process, the file's position and the device.
pub record Result : Type 0 where
  pub ret : Ret
  pub delivered : List ℕ
  pub pos : ℕ
  pub dev : Dev
  pub allocs : ℕ

-- How far a read may go: `count` cut at `dev->size`. The sum is one of `size_t`.
unfoldable pub cut : ℕ → ℕ → ℕ → ℕ
cut size pos count = if ltb size (add_size pos count) then size - pos else count

-- `scull_read` once it has its block. The process can take `room` bytes.
unfoldable pub read_block : Dev → ℕ → ℕ → ℕ → ℕ → ℕ → Block → Result
read_block dev pos count room allocs q_pos bytes =
    let n = if ltb (dev.quantum - q_pos) count then dev.quantum - q_pos else count in
    if ltb room n
    then record {
      ret = fail efault;
      delivered = take room (drop q_pos bytes);
      pos = pos;
      dev = dev;
      allocs = allocs;
    }
    else record {
      ret = done n;
      delivered = take n (drop q_pos bytes);
      pos = pos + n;
      dev = dev;
      allocs = allocs;
    }

-- `scull_read`
unfoldable pub read : Bool → ℕ → Dev → ℕ → ℕ → ℕ → Result
read locks allocs dev pos count room =
    let p = place dev.quantum dev.qset pos in
    let r = follow p.item allocs dev.sets in
    let dev' : Dev = record dev { sets = r.sets } in
    if locks
    then (if leb dev.size pos
        then record { ret = done 0; delivered = []; pos = pos; dev = dev; allocs = allocs }
        else elim (slot r.sets p.item p.s_pos) [
          | none ↦ record { ret = done 0; delivered = []; pos = pos; dev = dev'; allocs = r.allocs }
          | some bytes ↦ read_block dev' pos (cut dev.size pos count) room r.allocs p.q_pos bytes
        ])
    else record { ret = fail erestartsys; delivered = []; pos = pos; dev = dev; allocs = allocs }

-- The array of an item, which `scull_write` makes if it is missing, all its pointers NULL.
unfoldable pub with_array : ℕ → ℕ → Option (List (Option Block)) → Option (List (Option Block)) × ℕ
with_array qset allocs (some quanta) = (some quanta, allocs)
with_array qset zero none = (none, 0)
with_array qset (suc k) none = (some (replicate qset none), k)

-- The block at a pointer, which `scull_write` makes if it is missing; nothing clears the new one.
unfoldable pub with_block : Block → ℕ → Option Block → Option Block × ℕ
with_block fresh allocs (some bytes) = (some bytes, allocs)
with_block fresh zero none = (none, 0)
with_block fresh (suc k) none = (some fresh, k)

-- What a write is given: what a new block holds, the bytes of the process, how many of them it asks
-- to write, and how many can be read.
pub record Source : Type 0 where
  pub fresh : Block
  pub buf : List ℕ
  pub count : ℕ
  pub readable : ℕ

-- A call that ends with ENOMEM.
abbrev pub no_memory : Dev → List Qset → ℕ → ℕ → Result
no_memory dev sets pos allocs = record {
  ret = fail enomem;
  delivered = [];
  pos = pos;
  dev = record dev { sets = sets };
  allocs = allocs;
}

-- The list with another array at an item.
abbrev pub put_array : List Qset → ℕ → List (Option Block) → List Qset
put_array sets item quanta = set sets item (record { quanta = some quanta })

-- `scull_write` once it has its block.
unfoldable pub write_block :
    Dev → List Qset → Place → ℕ → ℕ → Source → List (Option Block) → Block → Result
write_block dev sets p pos allocs source quanta bytes =
    let n =
      if ltb (dev.quantum - p.q_pos) source.count then dev.quantum - p.q_pos else source.count in
    if ltb source.readable n
    then record {
      ret = fail efault;
      delivered = [];
      pos = pos;
      dev = record dev {
        sets =
            put_array sets p.item (
              set quanta p.s_pos
                (some (overwrite bytes p.q_pos (take source.readable source.buf))));
      };
      allocs = allocs;
    }
    else record {
      ret = done n;
      delivered = [];
      pos = pos + n;
      dev = record dev {
        sets =
            put_array sets p.item
              (set quanta p.s_pos (some (overwrite bytes p.q_pos (take n source.buf))));
        size = if ltb dev.size (pos + n) then pos + n else dev.size;
      };
      allocs = allocs;
    }

-- `scull_write` once it has its array.
unfoldable pub write_array : Dev → List Qset → Place → ℕ → ℕ → Source → List (Option Block) → Result
write_array dev sets p pos allocs source quanta =
    let (block, left) = with_block source.fresh allocs (get_or quanta p.s_pos none) in
    elim block [
      | none ↦ no_memory dev (put_array sets p.item quanta) pos left
      | some bytes ↦ write_block dev sets p pos left source quanta bytes
    ]

-- `scull_write`
unfoldable pub write : Bool → ℕ → Dev → ℕ → Source → Result
write locks allocs dev pos source =
    let p = place dev.quantum dev.qset pos in
    let r = follow p.item allocs dev.sets in
    if locks
    then elim (get_elem? r.sets p.item) [
      | none ↦ no_memory dev r.sets pos r.allocs
      | some q ↦
          (let (array, left) = with_array dev.qset r.allocs q.quanta in
            elim array [
              | none ↦ no_memory dev r.sets pos left
              | some quanta ↦ write_array dev r.sets p pos left source quanta
            ])
    ]
    else record { ret = fail erestartsys; delivered = []; pos = pos; dev = dev; allocs = allocs }
