-- ===== src/ScullAccess/Setup.antt =====
-- The start and the end of the devices of assignment-7-saloni1307-master/scull/access.c. What the
-- kernel answers is an argument; of the clean-up it is counted how many blocks it gives back.
use advanced_embedded_softwa.Base.{ℕ, ◌+◌, ◌≡◌, refl, arith, Bool, true, false, List, [], ◌∷◌}
use advanced_embedded_softwa.Kernel.{Ret, done, fail}
use advanced_embedded_softwa.Scull.{Dev}
use advanced_embedded_softwa.Scull.Device.{Params, trim}
use advanced_embedded_softwa.Scull.Inv.{IsValid}
use advanced_embedded_softwa.Scull.Memory.{in_sets, trim-freed}
use advanced_embedded_softwa.ScullAccess.{ListItem}

-- `scull_access_devs`, each device with whether the kernel has its character device; `scull_c_list`;
-- and whether the module holds the numbers.
pub record Access : Type 0 where
  pub statics : List (Dev × Bool)
  pub listed : List (ListItem Dev)
  pub numbers : Bool

-- `scull_access_setup`: `added` is what `cdev_add` returns; an error is only printed.
unfoldable pub access_setup : Params → Ret → Dev → Dev × Bool
access_setup params (done n) dev =
    (record dev { quantum = params.quantum; qset = params.qset }, true)
access_setup params (fail e) dev =
    (record dev { quantum = params.quantum; qset = params.qset }, false)

-- The loop of `scull_access_init`, from device `i` on; `added i` is what `cdev_add` returns for it.
unfoldable pub setup_statics : Params → (ℕ → Ret) → ℕ → List (Dev × Bool) → List (Dev × Bool)
setup_statics params added i [] = []
setup_statics params added i (d ∷ devs) =
    access_setup params (added i) d.0 ∷ setup_statics params added (i + 1) devs

-- `scull_access_init`: the number of devices, and the state. `registered` is what the registration
-- of the numbers returns.
unfoldable pub access_init : Params → Ret → (ℕ → Ret) → Access → ℕ × Access
access_init params (fail e) added a = (0, a)
access_init params (done n) added a =
    (4, record a { statics = setup_statics params added 0 a.statics; numbers = true })

-- The first loop of `scull_access_cleanup`: the devices, and the blocks given back.
unfoldable pub clean_statics : Params → List (Dev × Bool) → List (Dev × Bool) × ℕ
clean_statics params [] = ([], 0)
clean_statics params (d ∷ devs) =
    let rest = clean_statics params devs in
    (((trim params d.0).dev, false) ∷ rest.0, (trim params d.0).freed + rest.1)

-- The second loop, in which each item of the list is given back too.
unfoldable pub clean_listed : Params → List (ListItem Dev) → ℕ
clean_listed params [] = 0
clean_listed params (i ∷ items) = (trim params i.device).freed + 1 + clean_listed params items

-- `scull_access_cleanup`
unfoldable pub access_cleanup : Params → Access → Access × ℕ
access_cleanup params a =
    let (statics, freed) = clean_statics params a.statics in
    (
      record { statics = statics; listed = []; numbers = false },
      freed + clean_listed params a.listed,
    )

-- The devices are valid.
abbrev pub StaticsValid : List (Dev × Bool) → Type 0
StaticsValid [] = Unit
StaticsValid (d ∷ devs) = IsValid d.0 × StaticsValid devs

abbrev pub ListedValid : List (ListItem Dev) → Type 0
ListedValid [] = Unit
ListedValid (i ∷ items) = IsValid i.device × ListedValid items

-- The blocks that are held: those of the devices, and the items of the list.
unfoldable pub in_statics : List (Dev × Bool) → ℕ
in_statics [] = 0
in_statics (d ∷ devs) = in_sets d.0.sets + in_statics devs

unfoldable pub in_listed : List (ListItem Dev) → ℕ
in_listed [] = 0
in_listed (i ∷ items) = in_sets i.device.sets + 1 + in_listed items

clean_statics-freed :
    (params : Params) (devs : List (Dev × Bool))
    → StaticsValid devs
    → (clean_statics params devs).1 ≡ in_statics devs
unfolding clean_statics in_statics
clean_statics-freed params [] v = refl
clean_statics-freed params (d ∷ devs) v =
    omega (arith, trim-freed params d.0 v.0, clean_statics-freed params devs v.1)

pub clean_statics-empty :
    (params : Params) (devs : List (Dev × Bool)) → in_statics (clean_statics params devs).0 ≡ 0
unfolding clean_statics in_statics trim in_sets
clean_statics-empty params [] = refl
clean_statics-empty params (d ∷ devs) = omega (arith, clean_statics-empty params devs)

clean_listed-all :
    (params : Params) (items : List (ListItem Dev))
    → ListedValid items
    → clean_listed params items ≡ in_listed items
unfolding clean_listed in_listed
clean_listed-all params [] v = refl
clean_listed-all params (i ∷ items) v =
    omega (arith, trim-freed params i.device v.0, clean_listed-all params items v.1)

-- A clean-up of valid devices gives back every block that they and the list hold, and leaves devices
-- that hold none, no item in the list and no numbers.
pub access_cleanup_lem :
    (params : Params) (a : Access)
    → StaticsValid a.statics
    → ListedValid a.listed
    → ((access_cleanup params a).1 ≡ in_statics a.statics + in_listed a.listed)
      × (in_statics (access_cleanup params a).0.statics ≡ 0)
      × ((access_cleanup params a).0.listed ≡ [])
      × ((access_cleanup params a).0.numbers ≡ false)
unfolding access_cleanup
access_cleanup_lem params a statics listed = (
  omega (
    arith,
    clean_statics-freed params a.statics statics,
    clean_listed-all params a.listed listed,
  ),
  clean_statics-empty params a.statics,
  refl,
  refl,
)
