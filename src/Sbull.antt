-- ===== src/Sbull.antt =====
-- The block device driver: assignment-7-saloni1307-master/sbull/sbull.c, the transfer of sectors and
-- the life of a disk with its simulated change of the media. Sectors have 512 bytes; byte offsets
-- are `unsigned long`.
pub mod Transfer
pub mod Media
mod Tests
use advanced_embedded_softwa.Base.{
  ℕ, zero, suc, ◌+◌, ◌-◌, ◌*◌, ◌%◌, ◌^◌, Bool, true, false, List, [], ◌∷◌, ◌++◌, ◌==◌, ltb, ◌&&◌,
  not, if◌then◌else◌, length, take, drop, replicate,
}
use advanced_embedded_softwa.Base.Words.{add_size}
use advanced_embedded_softwa.Kernel.{overwrite}

-- `struct sbull_dev`, less its lock, its queue and its disk; `timer` is whether the timer is pending.
-- `users` is a `short`, here its 16 bits, which wrap around.
pub record Disk : Type 0 where
  pub size : ℕ
  pub bytes : List ℕ
  pub users : ℕ
  pub media_change : Bool
  pub timer : Bool

-- What a transfer leaves: the disk and the buffer of the kernel.
pub record Moved : Type 0 where
  pub dev : Disk
  pub buffer : List ℕ

-- `sbull_transfer`
unfoldable pub transfer : Disk → ℕ → ℕ → List ℕ → Bool → Moved
transfer dev sector nsect buffer write =
    let offset = sector * 512 % 2 ^ 64 in
    let nbytes = nsect * 512 % 2 ^ 64 in
    if ltb dev.size (add_size offset nbytes)
    then record { dev = dev; buffer = buffer }
    else if write
    then record {
      dev = record dev { bytes = overwrite dev.bytes offset (take nbytes buffer) };
      buffer = buffer;
    }
    else record { dev = dev; buffer = take nbytes (drop offset dev.bytes) ++ drop nbytes buffer }

-- What a loop over segments leaves: the disk and their buffers.
pub record Transferred : Type 0 where
  pub dev : Disk
  pub buffers : List (List ℕ)

-- The loops of `sbull_request` and `sbull_xfer_bio` over the buffers of the segments. `current` is how
-- many sectors the kernel says that the current segment has; neither loop moves that on.
unfoldable pub segments : ℕ → Bool → Disk → ℕ → List (List ℕ) → Transferred
segments current write dev sector [] = record { dev = dev; buffers = [] }
segments current write dev sector (buffer ∷ buffers) =
    let m = transfer dev sector current buffer write in
    let rest = segments current write m.dev (add_size sector current) buffers in
    record { dev = rest.dev; buffers = m.buffer ∷ rest.buffers }

pub data BlkStatus : Type 0 where
  sts_ok sts_ioerr : BlkStatus

-- A bio: where it begins, its current number of sectors, and its buffers.
pub record Bio : Type 0 where
  pub sector : ℕ
  pub current : ℕ
  pub buffers : List (List ℕ)

-- `sbull_request`
unfoldable pub request : Bool → Bool → Disk → Bio → BlkStatus × Transferred
request passthrough write dev req =
    if passthrough
    then (sts_ioerr, record { dev = dev; buffers = req.buffers })
    else (sts_ok, segments req.current write dev req.sector req.buffers)

-- `sbull_xfer_bio`, and `sbull_make_request` around it.
unfoldable pub xfer_bio : Bool → Disk → Bio → BlkStatus × Transferred
xfer_bio write dev bio = (sts_ok, segments bio.current write dev bio.sector bio.buffers)

-- The loop of `sbull_xfer_request` over the bios of a request: the disk, and the buffers of each.
unfoldable pub xfer_request : Bool → Disk → List Bio → Disk × List (List (List ℕ))
xfer_request write dev [] = (dev, [])
xfer_request write dev (bio ∷ bios) =
    let r = (xfer_bio write dev bio).1 in
    let (dev', buffers) = xfer_request write r.dev bios in (dev', r.buffers ∷ buffers)

-- `sbull_full_request`
unfoldable pub full_request : Bool → Bool → Disk → List Bio → BlkStatus × Disk
full_request passthrough write dev bios =
    if passthrough then (sts_ioerr, dev) else (sts_ok, (xfer_request write dev bios).0)

-- `sbull_revalidate`
unfoldable pub revalidate : Disk → Disk
revalidate dev =
    if dev.media_change
    then record dev { media_change = false; bytes = replicate dev.size 0 }
    else dev

-- The check of `sbull_open`; `changed` is whether the kernel reports a change of the media.
unfoldable pub check_media : Bool → Disk → Disk
check_media changed dev = if dev.users == 0 then (if changed then revalidate dev else dev) else dev

-- `sbull_open`
unfoldable pub open_disk : Bool → Disk → Disk
open_disk changed dev =
    let checked = check_media changed (record dev { timer = false }) in
    record checked { users = (checked.users + 1) % 2 ^ 16 }

-- `sbull_release`, which follows an open.
unfoldable pub release : Disk → Disk
release dev =
    let users = (dev.users + (2 ^ 16 - 1)) % 2 ^ 16 in
    record dev { users = users; timer = if users == 0 then true else dev.timer }

-- `sbull_invalidate`, when the timer runs out.
unfoldable pub invalidate : Disk → Disk
invalidate dev =
    if dev.users == 0
    then record dev { timer = false; media_change = true }
    else record dev { timer = false }

-- `setup_device`: whether `dev->data` is set, the queue and the disk are there, and how often the
-- memory was given back. `memory`, `queued` and `disked` are whether the kernel gives each.
pub record Setup : Type 0 where
  pub kept : Bool
  pub queue : Bool
  pub gd : Bool
  pub vfrees : ℕ

unfoldable pub setup_device : Bool → Bool → Bool → Setup
setup_device memory queued disked =
    if not memory
    then record { kept = false; queue = false; gd = false; vfrees = 0 }
    else if not queued
    then record { kept = true; queue = false; gd = false; vfrees = 1 }
    else if not disked
    then record { kept = true; queue = true; gd = false; vfrees = 1 }
    else record { kept = true; queue = true; gd = true; vfrees = 0 }

-- The body of the loop of `sbull_exit`: how often the memory was given back after it.
unfoldable pub exit_device : Setup → ℕ
exit_device s = if s.kept then s.vfrees + 1 else s.vfrees
