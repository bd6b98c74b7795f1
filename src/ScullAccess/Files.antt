-- ===== src/ScullAccess/Files.antt =====
-- The opens of assignment-7-saloni1307-master/scull/access.c with the memory device that they give to
-- the file: an open for writing only trims it. The trim is after the lock of the open is given back,
-- and takes no lock of the device.
use mathlib.Core.Option
use advanced_embedded_softwa.Base.{
  ℕ, ◌≡◌, refl, ap, ◌∙◌, Bool, true, false, inl, inr, Option, none, some, List, [], ◌∷◌, ◌==◌,
  arith, if◌then◌else◌, Bool-cases,
}
use advanced_embedded_softwa.Kernel.{Ret, done, fail}
use advanced_embedded_softwa.Scull.{Dev}
use advanced_embedded_softwa.Scull.Device.{Params, Opened, trim, open_dev}
use advanced_embedded_softwa.ScullAccess.{
  single_open, Owned, Caller, user_open, Woken, blocking_open, ListItem, search_key, clone_open,
}
use advanced_embedded_softwa.ScullAccess.Clone.{choose, clone_open_lem}

-- What an open makes of the device, given what it returns.
unfoldable give : Params → Bool → Ret → Dev → Opened
give params wronly (fail e) dev = record { ret = fail e; dev = dev; freed = 0 }
give params wronly (done n) dev =
    if wronly
    then record (trim params dev) { ret = done n }
    else record { ret = done n; dev = dev; freed = 0 }

-- `scull_s_open`
unfoldable single_file : Params → Bool → ℕ → Dev → ℕ × Opened
single_file params wronly free dev =
    let (r, free') = single_open free in (free', give params wronly r dev)

-- `scull_u_open`
unfoldable user_file : Params → Bool → Owned → Caller → Dev → Owned × Opened
user_file params wronly s c dev = let (r, s') = user_open s c in (s', give params wronly r dev)

-- `scull_w_open`; `dev` is the device when the waiting is over.
unfoldable blocking_file :
    Params → Bool → Bool → List Woken → Owned → Caller → Dev → Option (Owned × Opened)
blocking_file params wronly nonblock woken s c dev = elim (blocking_open nonblock woken s c) [
  | none ↦ none
  | some (r, s') ↦ some (s', give params wronly r dev)
]

-- A device as `scull_c_lookfor_device` sets it up, in a block of zero bytes.
unfoldable pub blank_device : Params → Dev
blank_device params = (trim params record { sets = []; quantum = 0; qset = 0; size = 0 }).dev

-- The trim of the device that the search finds, in its place in the list.
unfoldable pub trim_key : Params → ℕ → List (ListItem Dev) → List (ListItem Dev)
trim_key params key [] = []
trim_key params key (i ∷ items) =
    let rest = trim_key params key items in
    if i.key == key
    then record { device = (trim params i.device).dev; key = i.key } ∷ items
    else i ∷ rest

-- The list after an open that returns this.
unfoldable pub give_listed : Params → Bool → Ret → ℕ → List (ListItem Dev) → List (ListItem Dev)
give_listed params wronly (fail e) key items = items
give_listed params wronly (done n) key items = if wronly then trim_key params key items else items

-- `scull_c_open` of a process at the terminal `key`; `kmallocs` is whether a block is allocated if
-- it is asked for.
unfoldable pub clone_file :
    Params → Bool → Bool → ℕ → List (ListItem Dev) → Ret × List (ListItem Dev)
clone_file params wronly kmallocs key items =
    let (r, device, items') =
      clone_open (if kmallocs then some (blank_device params) else none) (some key) items in
    (r, give_listed params wronly r key items')

-- Once a device lets its caller in, the rest of its open is `scull_open`, where that gets the lock.
give-open_dev :
    (params : Params) (wronly : Bool) (dev : Dev)
    → give params wronly (done 0) dev ≡ open_dev params wronly true dev
unfolding give open_dev
give-open_dev params true dev = refl
give-open_dev params false dev = refl

trim_key-same :
    (params : Params) (key : ℕ) (items : List (ListItem Dev))
    → search_key key (trim_key params key items)
      ≡ Option.map (λ d. (trim params d).dev) (search_key key items)
unfolding search_key trim_key
trim_key-same params key [] = refl
trim_key-same params key (i ∷ items) = elim (Bool-cases (i.key == key)) [
  | inl e ↦ rw e (rw e refl)
  | inr e ↦ rw e (rw e (trim_key-same params key items))
]

trim_key-other :
    (params : Params) (key other : ℕ) (items : List (ListItem Dev))
    → (other == key) ≡ false
    → search_key other (trim_key params key items) ≡ search_key other items
unfolding search_key trim_key
trim_key-other params key other [] apart = refl
trim_key-other params key other (i ∷ items) apart =
    let below = trim_key-other params key other items apart in
    elim (Bool-cases (i.key == key)) [
      | inl e ↦ let missed : (i.key == other) ≡ false = ground arith in rw e (rw missed refl)
      | inr e ↦ rw (e, below) refl
    ]

-- The device that the search for the terminal finds after `clone_open`.
listed_own :
    (fresh : Dev) (key : ℕ) (items : List (ListItem Dev))
    → search_key key (clone_open (some fresh) (some key) items).2
      ≡ some (choose (search_key key items) fresh)
listed_own fresh key items =
    let self : (key == key) ≡ true = ground arith in
    (clone_open_lem fresh key items).listed key ∙ rw self refl

-- The one that the search for another terminal finds.
listed_other :
    (fresh : Dev) (key other : ℕ) (items : List (ListItem Dev))
    → (other == key) ≡ false
    → search_key other (clone_open (some fresh) (some key) items).2 ≡ search_key other items
listed_other fresh key other items apart =
    (clone_open_lem fresh key items).listed other ∙ rw apart refl

-- An open at a terminal where memory is found succeeds. The search for the terminal then finds the
-- device that it found before, or else a blank one, and trimmed if the open is for writing only; the
-- devices of all other terminals stay what they were.
pub clone_file_lem :
    (params : Params) (wronly : Bool) (key : ℕ) (items : List (ListItem Dev))
    → ((clone_file params wronly true key items).0 ≡ done 0)
      × (search_key key (clone_file params wronly true key items).1 ≡ (
          let d = choose (search_key key items) (blank_device params) in
          some (if wronly then (trim params d).dev else d)))
      × ((other : ℕ)
          → (other == key) ≡ false
          → search_key other (clone_file params wronly true key items).1 ≡ search_key other items)
unfolding clone_file give_listed
clone_file_lem params false key items = rw (clone_open_lem (blank_device params) key items).ret (
  refl,
  listed_own (blank_device params) key items,
  λ other apart. listed_other (blank_device params) key other items apart,
)
clone_file_lem params true key items =
    let after = (clone_open (some (blank_device params)) (some key) items).2 in
    let own = listed_own (blank_device params) key items in
    rw (clone_open_lem (blank_device params) key items).ret (
      refl,
      trim_key-same params key after ∙ ap (Option.map (λ d. (trim params d).dev)) own,
      λ other apart.
          trim_key-other params key other after apart
          ∙ listed_other (blank_device params) key other items apart,
    )
