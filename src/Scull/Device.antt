-- ===== src/Scull/Device.antt =====
-- The life of the memory devices: assignment-7-saloni1307-master/scull/main.c, the trim of a device,
-- its open, and the start and the end of the module. Of a trim it is counted how many blocks of
-- memory it gives back; a `kfree` of NULL gives none back.
use advanced_embedded_softwa.Base.{
  ℕ, zero, suc, ◌+◌, Bool, true, false, Option, none, some, List, [], ◌∷◌, if◌then◌else◌, replicate,
}
use advanced_embedded_softwa.Kernel.{erestartsys, enomem, Ret, done, fail}
use advanced_embedded_softwa.Scull.{Block, Qset, Dev}

-- `scull_quantum` and `scull_qset`.
pub record Params : Type 0 where
  pub quantum : ℕ
  pub qset : ℕ

-- The inner loop of `scull_trim`, over `qset` pointers of an array. What lies behind a shorter array
-- is not modelled; the invariant excludes one.
unfoldable pub trim_array : ℕ → List (Option Block) → ℕ
trim_array zero quanta = 0
trim_array (suc qset) [] = 0
trim_array (suc qset) (none ∷ quanta) = trim_array qset quanta
trim_array (suc qset) (some bytes ∷ quanta) = trim_array qset quanta + 1

-- An item's array, with its blocks.
unfoldable pub trim_item : ℕ → Option (List (Option Block)) → ℕ
trim_item qset none = 0
trim_item qset (some quanta) = trim_array qset quanta + 1

-- The outer loop, over the items.
unfoldable pub trim_sets : ℕ → List Qset → ℕ
trim_sets qset [] = 0
trim_sets qset (s ∷ sets) = trim_item qset s.quanta + 1 + trim_sets qset sets

-- What a call leaves, and how many blocks it gave back.
pub record Opened : Type 0 where
  pub ret : Ret
  pub dev : Dev
  pub freed : ℕ

-- `scull_trim`
unfoldable pub trim : Params → Dev → Opened
trim params dev = record {
  ret = done 0;
  dev = record { sets = []; quantum = params.quantum; qset = params.qset; size = 0 };
  freed = trim_sets dev.qset dev.sets;
}

-- `scull_open`
unfoldable pub open_dev : Params → Bool → Bool → Dev → Opened
open_dev params wronly locks dev =
    if wronly
    then (if locks
        then record (trim params dev) { ret = done 0 }
        else record { ret = fail erestartsys; dev = dev; freed = 0 })
    else record { ret = done 0; dev = dev; freed = 0 }

-- The devices of the module, and whether it holds their numbers.
pub record Module : Type 0 where
  pub devices : Option (List Dev)
  pub numbers : Bool

-- The loop of `scull_cleanup_module`.
unfoldable pub trim_all : Params → List Dev → ℕ
trim_all params [] = 0
trim_all params (dev ∷ devs) = (trim params dev).freed + trim_all params devs

-- `scull_cleanup_module`, for these devices: what is left, and how many blocks it gave back.
unfoldable pub cleanup_module : Params → Module → Module × ℕ
cleanup_module params m = (
  record { devices = none; numbers = false },
  elim m.devices [ none ↦ 0 | some devs ↦ trim_all params devs + 1 ],
)

-- `scull_init_module`, for these devices. `registered` is what the registration of the numbers
-- returns, and `kmallocs` whether the array of the devices is allocated.
unfoldable pub init_module : Params → ℕ → Ret → Bool → Ret × Module
init_module params nr_devs (fail e) kmallocs = (fail e, record { devices = none; numbers = false })
init_module params nr_devs (done n) kmallocs =
    if kmallocs
    then (
      done 0,
      record {
        devices = some (
            replicate nr_devs
              (record { sets = []; quantum = params.quantum; qset = params.qset; size = 0 }));
        numbers = true;
      },
    )
    else (fail enomem, (cleanup_module params (record { devices = none; numbers = true })).0)
