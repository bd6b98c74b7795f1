-- ===== src/ScullAccess.antt =====
-- The devices that bound who may open them: assignment-7-saloni1307-master/scull/access.c, the one
-- that may be open once, the one of a single user, the one whose open waits for the user, and those
-- of the terminals.
-- The lock makes each step one. Here is what the opens do under their locks; the device itself, which
-- an open for writing only trims, is in `ScullAccess.Files`.
pub mod Held
pub mod Waits
pub mod Clone
pub mod Files
pub mod Setup
mod Tests
use advanced_embedded_softwa.Base.{
  ℕ, zero, suc, ◌+◌, ◌-◌, Bool, true, false, Option, none, some, List, [], ◌∷◌, ◌==◌, not,
  if◌then◌else◌,
}
use advanced_embedded_softwa.Kernel.{
  Errno, erestartsys, eagain, ebusy, einval, enomem, Ret, done, fail,
}

-- `scull_s_open`, on `scull_s_available`: what it takes off it gives back unless that left 0.
unfoldable pub single_open : ℕ → Ret × ℕ
single_open available = if available == 1 then (done 0, 0) else (fail ebusy, available)

-- `scull_s_release`
unfoldable pub single_release : ℕ → ℕ
single_release available = available + 1

-- `scull_u_count` and `scull_u_owner`, or those of `scull_w`.
pub record Owned : Type 0 where
  pub count : ℕ
  pub owner : ℕ

-- The process that calls, and whether it has CAP_DAC_OVERRIDE.
pub record Caller : Type 0 where
  pub uid : ℕ
  pub euid : ℕ
  pub override : Bool

-- Whether the owner lets the caller in.
unfoldable pub lets_in : ℕ → Caller → Bool
lets_in owner c = if owner == c.uid then true else if owner == c.euid then true else c.override

-- `scull_w_available`, and the negation of the test in `scull_u_open`.
unfoldable pub available : Owned → Caller → Bool
available s c = if s.count == 0 then true else lets_in s.owner c

-- The opening is counted, and the first one makes its user the owner.
unfoldable pub grab : Owned → Caller → Owned
grab s c = record { count = s.count + 1; owner = if s.count == 0 then c.uid else s.owner }

-- `scull_u_open`
unfoldable pub user_open : Owned → Caller → Ret × Owned
user_open s c = if available s c then (done 0, grab s c) else (fail ebusy, s)

-- `scull_u_release`
unfoldable pub user_release : Owned → Owned
user_release s = record s { count = s.count - 1 }

-- What a process that waits to open meets when it is woken: a signal, or what the others left.
pub record Woken : Type 0 where
  pub signalled : Bool
  pub state : Owned

-- `scull_w_open`; `none` while it is asleep.
unfoldable pub blocking_open : Bool → List Woken → Owned → Caller → Option (Ret × Owned)
blocking_open nonblock [] s c =
    if available s c
    then some (done 0, grab s c)
    else (if nonblock then some (fail eagain, s) else none)
blocking_open nonblock (w ∷ woken) s c =
    let again = blocking_open nonblock woken w.state c in
    if available s c
    then some (done 0, grab s c)
    else (if nonblock
        then some (fail eagain, s)
        else if w.signalled
        then some (fail erestartsys, w.state)
        else again)

-- `scull_w_release`, and whether it wakes those that wait.
unfoldable pub blocking_release : Owned → Owned × Bool
blocking_release s = (record s { count = s.count - 1 }, s.count - 1 == 0)

-- `struct scull_listitem`
pub record ListItem {ℓ} (D : Type ℓ) : Type ℓ where
  pub device : D
  pub key : ℕ

-- The search of `scull_c_lookfor_device`.
unfoldable pub search_key {ℓ} : {D : Type ℓ} → ℕ → List (ListItem D) → Option D
search_key key [] = none
search_key key (i ∷ items) =
    let rest = search_key key items in if i.key == key then some i.device else rest

-- `scull_c_lookfor_device`: `fresh` is the new device once it is set up, if kmalloc gives one.
unfoldable pub lookfor_device {ℓ} :
    {D : Type ℓ} → Option D → ℕ → List (ListItem D) → Option D × List (ListItem D)
lookfor_device fresh key items = elim (search_key key items) [
  | some device ↦ (some device, items)
  | none ↦ elim fresh [
    | none ↦ (none, items)
    | some device ↦ (some device, record { device = device; key = key } ∷ items)
  ]
]

-- `scull_c_open` of a process with this controlling terminal, if it has one: what it returns, the
-- device of the file, and the list.
unfoldable pub clone_open {ℓ} :
    {D : Type ℓ} → Option D → Option ℕ → List (ListItem D) → Ret × Option D × List (ListItem D)
clone_open fresh none items = (fail einval, none, items)
clone_open fresh (some key) items =
    let (device, items') = lookfor_device fresh key items in
    elim device [ some given ↦ (done 0, some given, items') | none ↦ (fail enomem, none, items') ]
