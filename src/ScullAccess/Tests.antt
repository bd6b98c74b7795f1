-- ===== src/ScullAccess/Tests.antt =====
-- The devices at concrete inputs: user 7 has the device open, and user 8 is refused.
use advanced_embedded_softwa.Base.{ℕ, ◌≡◌, refl, true, false, some, List, [], ◌∷◌, ◌==◌, length}
use advanced_embedded_softwa.Kernel.{done, fail, ebusy}
use advanced_embedded_softwa.ScullAccess.{
  Caller, Owned, single_open, user_open, user_release, available, grab, lets_in, Woken,
  blocking_open, ListItem, search_key, clone_open, lookfor_device,
}
use advanced_embedded_softwa.Scull.{Dev}
use advanced_embedded_softwa.Scull.Device.{Params, trim}
use advanced_embedded_softwa.ScullAccess.Files.{
  blank_device, trim_key, give_listed, clone_file, clone_file_lem,
}
use advanced_embedded_softwa.ScullAccess.Waits.{OpenEnds, blocking_open_lem}
use advanced_embedded_softwa.ScullAccess.Held.{HeldOnce, HeldBy, LetsIn, user_lem}

abbrev seven : Caller
seven = record { uid = 7; euid = 7; override = false }

abbrev eight : Caller
eight = record { uid = 8; euid = 8; override = false }

held_once : HeldOnce 0 (seven ∷ [])
unfolding single_open
held_once = HeldOnce.opens eight (HeldOnce.opens seven HeldOnce.loaded)

-- User 7 opens twice, user 8 is refused, and the first opening is released.
abbrev of_seven : Owned
of_seven = record { count = 1; owner = 7 }

held_by : HeldBy of_seven (seven ∷ [])
unfolding user_open user_release available grab lets_in
held_by =
    HeldBy.releases (seven ∷ []) [] seven
      (HeldBy.opens eight (HeldBy.opens seven (HeldBy.opens seven HeldBy.loaded)))

user_lem_example : (length (seven ∷ []) ≡ 1) × LetsIn 7 (seven ∷ [])
user_lem_example = user_lem of_seven (seven ∷ []) held_by

busy : (user_open of_seven eight).0 ≡ fail ebusy
unfolding user_open available lets_in
busy = refl

-- User 8 waits until user 7 has released the device.
abbrev woken : List Woken
woken = record { signalled = false; state = record { count = 0; owner = 7 } } ∷ []

waited : blocking_open false woken of_seven eight ≡ some (done 0, record { count = 1; owner = 8 })
unfolding blocking_open available grab lets_in
waited = refl

blocking_open_lem_example :
    OpenEnds false eight of_seven woken (blocking_open false woken of_seven eight)
blocking_open_lem_example = blocking_open_lem false woken of_seven eight

-- Terminal 5 has a device with a block, and a process at terminal 6 opens its own for writing only.
abbrev sizes : Params
sizes = record { quantum = 2; qset = 1 }

abbrev used : Dev
used = record {
  sets = record { quanta = some (some (65 ∷ 66 ∷ []) ∷ []) } ∷ [];
  quantum = 2;
  qset = 1;
  size = 2;
}

abbrev items : List (ListItem Dev)
items = record { device = used; key = 5 } ∷ []

clone_file_lem_example :
    ((clone_file sizes true true 6 items).0 ≡ done 0)
    × (search_key 6 (clone_file sizes true true 6 items).1 ≡ some (blank_device sizes))
    × ((other : ℕ)
        → (other == 6) ≡ false
        → search_key other (clone_file sizes true true 6 items).1 ≡ search_key other items)
unfolding search_key blank_device trim
clone_file_lem_example = clone_file_lem sizes true 6 items

-- An open of terminal 5 for writing only trims that device.
trimmed : search_key 5 (clone_file sizes true true 5 items).1 ≡ some (blank_device sizes)
unfolding clone_file give_listed trim_key clone_open lookfor_device search_key blank_device trim
trimmed = refl
