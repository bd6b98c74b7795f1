-- ===== src/CharDriver.antt =====
-- The AESD character driver: assignments-3-and-later-saloni1307-master/aesd-char-driver/main.c and
-- aesdchar.h. `Device` is `struct aesd_dev`; its mutex shows only in whether a call gets it, since
-- every operation holds it from its start to its end.
pub mod Spec
pub mod Write
pub mod Read
mod Tests
pub mod Setup
pub mod Errors
pub mod Commit
use advanced_embedded_softwa.Base.{
  ℕ, zero, suc, ◌+◌, ◌-◌, ◌%◌, ◌^◌, Bool, true, false, Option, none, some, List, [], ◌∷◌, ltb, leb,
  ◌==◌, if◌then◌else◌, length, take,
}
use advanced_embedded_softwa.Base.Int.{ℤ, pos, is_negative, is_zero}
use advanced_embedded_softwa.Base.Words.{add_size, sub_size}
use advanced_embedded_softwa.Kernel.{
  Heap, update, bytes_at, Errno, erestartsys, enomem, efault, Ret, done, fail, Kernel,
}
use advanced_embedded_softwa.CircularBuffer
use advanced_embedded_softwa.Base.Words.{Ptr, null}
use advanced_embedded_softwa.CircularBuffer.{BufferEntry, CircularBuffer, empty_entry, entry_at}

pub record Device : Type 0 where
  pub temp_buffer : CircularBuffer
  pub temp_entry : BufferEntry

abbrev pub newline : ℕ
newline = 10

-- `memchr(block, '\n', size) != NULL`
unfoldable pub has_newline : List ℕ → Bool
has_newline [] = false
has_newline (c ∷ cs) = let rest = has_newline cs in if c == newline then true else rest

pub record ReadResult : Type 0 where
  pub ret : Ret
  pub f_pos : ℕ
  pub delivered : List ℕ

-- `aesd_read` behind its copy to the process, which left out `rc` bytes.
unfoldable pub read_copied : ℕ → ℕ → ℕ × List ℕ → ReadResult
read_copied retval f_pos (rc, delivered) =
    if rc == 0
    then record { ret = done retval; f_pos = f_pos + retval; delivered = delivered }
    else record { ret = fail efault; f_pos = f_pos; delivered = delivered }

-- `aesd_read` behind its search: `found` is the entry's slot and the byte in it.
unfoldable pub read_entry : Kernel → Heap → Device → ℕ → ℕ → Option (ℕ × ℕ) → ReadResult
read_entry k h dev count f_pos none = record { ret = done 0; f_pos = 0; delivered = [] }
read_entry k h dev count f_pos (some (position, entry_off)) =
    let entry = entry_at dev.temp_buffer position in
    let left = sub_size entry.size entry_off in
    let retval = if ltb count left then count else left in
    read_copied retval f_pos (k.copy_to_user h entry.buffptr entry_off retval)

-- `aesd_read`. `none` says that the search ran out of fuel, which it does not
-- (`CircularBuffer.Find`).
unfoldable pub read : Kernel → Heap → Device → ℕ → ℕ → Option ReadResult
read k h dev count f_pos =
    if k.locks
    then elim (CircularBuffer.find_entry_offset_for_fpos dev.temp_buffer f_pos) [
      | none ↦ none
      | some found ↦ some (read_entry k h dev count f_pos found)
    ]
    else some (record { ret = fail erestartsys; f_pos = f_pos; delivered = [] })

pub record Written : Type 0 where
  pub ret : Ret
  pub f_pos : ℕ
  pub dev : Device
  pub heap : Heap
  pub freed : List Ptr

-- The block that the bytes of this call go to: a new one, or the pending one grown.
unfoldable pub make_space : Kernel → Heap → BufferEntry → ℕ → Ptr × Heap
make_space k h temp count =
    if temp.size == 0
    then k.kmalloc h count
    else k.krealloc h temp.buffptr (add_size temp.size count)

-- The end of `aesd_write`: a command that is complete goes to the circular buffer, and the block of
-- the entry that it replaces is freed.
unfoldable pub commit : Kernel → Heap → Device → ℕ → Written
commit k h dev retval =
    if has_newline (take dev.temp_entry.size (bytes_at h dev.temp_entry.buffptr))
    then (let (old, buffer) = CircularBuffer.add_entry dev.temp_buffer dev.temp_entry in
        record {
          ret = done retval;
          f_pos = 0;
          dev = record { temp_buffer = buffer; temp_entry = empty_entry };
          heap = if old == null then h else k.kfree h old;
          freed = if old == null then [] else old ∷ [];
        })
    else record { ret = done retval; f_pos = 0; dev = dev; heap = h; freed = [] }

-- `aesd_write` behind its copy from the process, which left out `not_written` bytes.
unfoldable pub finish : Kernel → Device → Ptr → ℕ → ℕ × Heap → Written
finish k dev block count (not_written, h) =
    let retval = count - not_written in
    commit k h
      (record dev {
        temp_entry = record { buffptr = block; size = add_size dev.temp_entry.size retval };
      })
      retval

-- `aesd_write` behind its allocation: the copy to the end of the block, and what follows.
unfoldable pub fill : Kernel → Heap → Device → Ptr → List ℕ → ℕ → Written
fill k h dev block buf count =
    finish k dev block count (k.copy_from_user h block dev.temp_entry.size buf count)

-- `aesd_write`. `buf` is the memory of the process from its pointer on.
unfoldable pub write : Kernel → Heap → Device → List ℕ → ℕ → ℕ → Written
write k h dev buf count f_pos =
    if k.locks
    then (let (block, h') = make_space k h dev.temp_entry count in
        if block == null
        then record {
          ret = fail enomem;
          f_pos = f_pos;
          dev = record dev { temp_entry = record { buffptr = null; size = dev.temp_entry.size } };
          heap = h';
          freed = [];
        }
        else fill k h' dev block buf count)
    else record { ret = fail erestartsys; f_pos = f_pos; dev = dev; heap = h; freed = [] }

-- The device as `aesd_init_module` leaves it: `memset` to 0, and the buffer initialised.
unfoldable pub init : Device
init = record { temp_buffer = CircularBuffer.init; temp_entry = empty_entry }

-- The state of the module: the device, and what is registered with the kernel.
pub record Module : Type 0 where
  pub dev : Device
  pub region : Bool
  pub cdev : Bool

-- `aesd_setup_cdev`: the result of `cdev_add` is passed on.
unfoldable pub setup_cdev : Module → ℤ → ℤ × Module
setup_cdev m add = (add, record m { cdev = is_zero add })

-- `aesd_init_module`, given the results of `alloc_chrdev_region` and `cdev_add`.
unfoldable pub init_module : Module → ℤ → ℤ → ℤ × Module
unfolding setup_cdev
init_module m alloc add =
    if is_negative alloc
    then (alloc, m)
    else (let (result, m') = setup_cdev (record m { region = true; dev = init }) add in
        if is_zero result then (result, m') else (result, record m' { region = false }))

-- `aesd_cleanup_module`: the blocks that it frees, and what it leaves.
unfoldable pub cleanup_module : Module → List Ptr × Module
cleanup_module m =
    (CircularBuffer.free m.dev.temp_buffer, record m { cdev = false; region = false })

-- `aesd_open` stores the device in `filp->private_data`, and `aesd_release` does nothing. Both
-- return 0.
unfoldable pub open_device : Device → Option Device → ℤ × Option Device
open_device dev private_data = (pos 0, some dev)

unfoldable pub release : Option Device → ℤ × Option Device
release private_data = (pos 0, private_data)
