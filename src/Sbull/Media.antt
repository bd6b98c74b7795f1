-- ===== src/Sbull/Media.antt =====
-- The simulated change of the media.
use advanced_embedded_softwa.Base.{
  ◌+◌, ◌%◌, ◌^◌, ◌<◌, ◌≡◌, ◌⊎◌, Bool, true, false, length, replicate,
}
use advanced_embedded_softwa.Sbull.{Disk, open_disk, release, invalidate}

-- What happens to a disk: a release follows an open, and a timer that is not pending does not run out.
pub data Step (dev : Disk) : Disk → Type 0 where
  opens : (changed : Bool) → Step dev (open_disk changed dev)
  releases : 0 < dev.users → Step dev (release dev)
  expires : dev.timer ≡ true → Step dev (invalidate dev)

-- The timer is pending only while the count of users, which has 16 bits, is 0.
pub record IsValid (dev : Disk) : Type 0 where
  pub size : length dev.bytes ≡ dev.size
  pub range : dev.users < 2 ^ 16
  pub unwatched : (dev.users ≡ 0) ⊎ (dev.timer ≡ false)

-- A step changes the bytes only by clearing them, and only where the count of users was 0 and a change was
-- announced.
abbrev pub Keeps : Disk → Disk → Type 0
Keeps d d' =
    (d'.size ≡ d.size)
    × ((d'.bytes ≡ d.bytes)
        ⊎ ((d.users ≡ 0) × (d.media_change ≡ true) × (d'.bytes ≡ replicate d.size 0)))

-- What a step does, by its kind: an open stops the timer and counts its user in 16 bits, a release counts
-- it off, and a timer that runs out announces a change.
abbrev pub StepSays : (d d' : Disk) → Step d d' → Type 0
StepSays d d' (opens changed) = (d'.timer ≡ false) × (d'.users ≡ (d.users + 1) % 2 ^ 16)
StepSays d d' (releases some_user) = (d'.users + 1 ≡ d.users) × (d'.media_change ≡ d.media_change)
StepSays d d' (expires pending) = (d'.media_change ≡ true) × (d'.users ≡ 0)

-- A check of the media leaves the timer and the users.
abbrev pub Checked : Disk → Disk → Type 0
Checked d d' = (d'.timer ≡ d.timer) × (d'.users ≡ d.users) × (length d'.bytes ≡ d.size) × Keeps d d'
