-- ===== src/ScullModule/Tests.antt =====
-- The module at a concrete input: one memory device and the device of one terminal, each with an item,
-- an array and a block, and one pipe with a buffer.
use advanced_embedded_softwa.Base.{◌≡◌, refl, true, some, [], ◌∷◌, arith}
use advanced_embedded_softwa.Scull.{Dev}
use advanced_embedded_softwa.Scull.Device.{Params}
use advanced_embedded_softwa.Scull.Inv.{IsValid}
use advanced_embedded_softwa.Scull.Memory.{in_sets, in_array}
use advanced_embedded_softwa.ScullPipe.Setup.{zeroed}
use advanced_embedded_softwa.ScullAccess.Setup.{in_statics, in_listed}
use advanced_embedded_softwa.ScullModule.{
  Driver, unload, held, in_memory, in_devices, in_buffers, in_pipes, unload_lem,
}

abbrev used : Dev
used = record {
  sets = record { quanta = some (some (65 ∷ 66 ∷ []) ∷ []) } ∷ [];
  quantum = 2;
  qset = 1;
  size = 2;
}

used-IsValid : IsValid used
used-IsValid = record {
  some_bytes = omega arith;
  some_blocks = omega arith;
  itemsize = omega arith;
  fit = ((refl, (refl, tt)), tt);
}

abbrev sizes : Params
sizes = record { quantum = 4; qset = 3 }

abbrev driver : Driver
driver = record {
  memory = record { devices = some (used ∷ []); numbers = true };
  pipes = record {
    devices = some ((record zeroed { buffer = some [] }, true) ∷ []);
    numbers = true;
  };
  access = record {
    statics = (used, true) ∷ [];
    listed = record { device = used; key = 5 } ∷ [];
    numbers = true;
  };
}

unload_lem_example : ((unload sizes driver).1 ≡ held driver) × (held (unload sizes driver).0 ≡ 0)
unload_lem_example =
    unload_lem sizes driver (used-IsValid, tt) (used-IsValid, tt) (used-IsValid, tt)

-- It holds thirteen blocks.
holds : held driver ≡ 13
unfolding held in_memory in_devices in_pipes in_buffers in_statics in_listed in_sets in_array
holds = refl
