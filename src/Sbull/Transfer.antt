-- ===== src/Sbull/Transfer.antt =====
-- What a request moves between the disk and the buffers of its segments.
use mathlib.Core.List.{append-nil}
use advanced_embedded_softwa.Base.{
  ℕ, ◌+◌, ◌*◌, ◌%◌, ◌^◌, ◌≤◌, ◌<◌, ◌≡◌, refl, ap, ◌∙◌, true, false, List, [], ◌∷◌, ◌++◌, arith, ltb,
  length, take, drop, length-append, take_of_le,
}
use advanced_embedded_softwa.Base.Elems.{drop_all, take_add, drop_add}
use advanced_embedded_softwa.Kernel.{overwrite}
use advanced_embedded_softwa.Kernel.Overwrite.{
  length-overwrite, overwrite_none, overwrite_again, take-overwrite,
}
use advanced_embedded_softwa.Sbull.{Disk, transfer, segments, Bio, sts_ok, request}

-- The bytes of all segments.
abbrev pub joined : List (List ℕ) → List ℕ
joined [] = []
joined (buffer ∷ buffers) = buffer ++ joined buffers

-- Every segment has as many sectors as the kernel says of the current one.
abbrev pub AllSized : ℕ → List (List ℕ) → Type 0
AllSized current [] = Unit
AllSized current (buffer ∷ buffers) = (length buffer ≡ current * 512) × AllSized current buffers

-- A disk whose size is an `int`.
pub record IsValid (dev : Disk) : Type 0 where
  pub size : length dev.bytes ≡ dev.size
  pub small : dev.size < 2 ^ 31

module _ (dev : Disk) (sector current : ℕ) (buffer : List ℕ) (sized : length buffer ≡ current * 512)
    (inside : (sector + current) * 512 ≤ dev.size) (small : dev.size < 2 ^ 31) where
  transfer_write : transfer dev sector current buffer true ≡ record {
    dev = record dev { bytes = overwrite dev.bytes (sector * 512) buffer };
    buffer = buffer;
  }
  unfolding transfer
  transfer_write =
      let offset : sector * 512 % 2 ^ 64 ≡ sector * 512 = ground arith in
      let nbytes : current * 512 % 2 ^ 64 ≡ current * 512 = ground arith in
      let within : ltb dev.size ((sector * 512 + current * 512) % 2 ^ 64) ≡ false = ground arith in
      let all : take (current * 512) buffer ≡ buffer =
        take_of_le (current * 512) buffer (omega arith) in
      rw (offset, nbytes, within, all) refl

  transfer_read :
      transfer dev sector current buffer false
      ≡ record { dev = dev; buffer = take (current * 512) (drop (sector * 512) dev.bytes) }
  unfolding transfer
  transfer_read =
      let offset : sector * 512 % 2 ^ 64 ≡ sector * 512 = ground arith in
      let nbytes : current * 512 % 2 ^ 64 ≡ current * 512 = ground arith in
      let within : ltb dev.size ((sector * 512 + current * 512) % 2 ^ 64) ≡ false = ground arith in
      let none_left : drop (current * 512) buffer ≡ [] =
        drop_all (current * 512) buffer (omega arith) in
      rw (offset, nbytes, within, none_left)
        (rw (append-nil (take (current * 512) (drop (sector * 512) dev.bytes))) refl)

next_sector :
    (sector current size : ℕ)
    → (sector + current) * 512 ≤ size
    → size < 2 ^ 31
    → (sector + current) % 2 ^ 64 ≡ sector + current
next_sector sector current size inside small = ground arith

-- A write of segments puts their bytes, one after another, at the sector where it begins.
write_segments :
    (current : ℕ) (dev : Disk) (sector : ℕ) (buffers : List (List ℕ))
    → IsValid dev
    → AllSized current buffers
    → sector * 512 + length (joined buffers) ≤ dev.size
    → (segments current true dev sector buffers).dev
      ≡ record dev { bytes = overwrite dev.bytes (sector * 512) (joined buffers) }
unfolding segments
write_segments current dev sector [] v sized inside =
    rw (overwrite_none dev.bytes (sector * 512)) refl
write_segments current dev sector (buffer ∷ buffers) v sized inside =
    let total = length-append buffer (joined buffers) in
    let size = v.size in
    let first_size : length buffer ≡ current * 512 = sized.0 in
    let fits : (sector + current) * 512 ≤ dev.size = omega arith in
    let moved = transfer_write dev sector current buffer sized.0 fits v.small in
    let next = next_sector sector current dev.size fits v.small in
    let length_left = length-overwrite dev.bytes (sector * 512) buffer (omega arith) in
    let dev' : Disk = record dev { bytes = overwrite dev.bytes (sector * 512) buffer } in
    let along : (sector + current) * 512 ≡ sector * 512 + length buffer = omega arith in
    let v' : IsValid dev' = record { size = length_left ∙ size; small = v.small } in
    rw (moved, next)
      (write_segments current dev' (sector + current) buffers v' sized.1 (omega arith)
        ∙ ap (λ bytes. record dev { bytes = bytes })
            (rw (along)
              (overwrite_again dev.bytes (sector * 512) buffer (joined buffers) (omega arith))))

read_segments :
    (current : ℕ) (dev : Disk) (sector : ℕ) (buffers : List (List ℕ))
    → IsValid dev
    → AllSized current buffers
    → sector * 512 + length (joined buffers) ≤ dev.size
    → ((segments current false dev sector buffers).dev ≡ dev)
      × (joined (segments current false dev sector buffers).buffers
          ≡ take (length (joined buffers)) (drop (sector * 512) dev.bytes))
unfolding segments
read_segments current dev sector [] v sized inside = (refl, refl)
read_segments current dev sector (buffer ∷ buffers) v sized inside =
    let total = length-append buffer (joined buffers) in
    let first_size : length buffer ≡ current * 512 = sized.0 in
    let fits : (sector + current) * 512 ≤ dev.size = omega arith in
    let moved = transfer_read dev sector current buffer sized.0 fits v.small in
    let next = next_sector sector current dev.size fits v.small in
    let (same, rest) =
      read_segments current dev (sector + current) buffers v sized.1 (omega arith) in
    let along : sector * 512 + current * 512 ≡ (sector + current) * 512 = omega arith in
    let whole : length (buffer ++ joined buffers) ≡ current * 512 + length (joined buffers) =
      omega arith in
    (
      rw (moved, next) same,
      rw
          (
            moved,
            next,
            rest,
            whole,
            take_add (current * 512) (length (joined buffers)) (drop (sector * 512) dev.bytes),
          )
          (rw (drop_add (sector * 512) (current * 512) dev.bytes, along) refl),
    )

-- A request to write segments that all have the sectors that the kernel says of the first one, inside
-- a valid disk, and then a request to read as much from the same sector on. Both succeed; the first
-- changes nothing but the bytes from that sector on, which become those of its segments one after
-- another, and the second fills its segments with the same bytes and leaves the disk.
pub request_twice :
    (dev : Disk) (req req' : Bio)
    → IsValid dev
    → AllSized req.current req.buffers
    → AllSized req'.current req'.buffers
    → req'.sector ≡ req.sector
    → length (joined req'.buffers) ≡ length (joined req.buffers)
    → req.sector * 512 + length (joined req.buffers) ≤ dev.size
    → let w = request false true dev req in
      let r = request false false w.1.dev req' in
      (w.0 ≡ sts_ok)
      × (w.1.dev
          ≡ record dev { bytes = overwrite dev.bytes (req.sector * 512) (joined req.buffers) })
      × (r.0 ≡ sts_ok)
      × (r.1.dev ≡ w.1.dev)
      × (joined r.1.buffers ≡ joined req.buffers)
unfolding request
request_twice dev req req' v sized sized' same_sector same_length inside =
    let size = v.size in
    let written = write_segments req.current dev req.sector req.buffers v sized inside in
    let dev' : Disk = record dev {
      bytes = overwrite dev.bytes (req.sector * 512) (joined req.buffers);
    } in
    let v' : IsValid dev' = record {
      size =
          length-overwrite dev.bytes (req.sector * 512) (joined req.buffers) (omega arith) ∙ size;
      small = v.small;
    } in
    let (kept, found) =
      read_segments req'.current dev' req'.sector req'.buffers v' sized' (omega arith) in
    (
      refl,
      written,
      refl,
      rw (written) kept,
      rw (written) (
          found
          ∙ rw (same_length, same_sector)
              (take-overwrite dev.bytes (req.sector * 512) (joined req.buffers) (omega arith))),
    )
