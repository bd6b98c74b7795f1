-- ===== src/Scull/Tests.antt =====
-- The memory device at concrete inputs: blocks of four bytes, two to an item.
use advanced_embedded_softwa.Base.{
  ◌+◌, ◌≡◌, refl, true, false, none, some, List, [], ◌∷◌, arith, take,
}
use advanced_embedded_softwa.Kernel.{done, fail, enomem}
use advanced_embedded_softwa.Scull.{
  Dev, Source, place, follow, slot, read, write, with_array, with_block, write_array, write_block,
  read_block, cut,
}
use advanced_embedded_softwa.Scull.Inv.{IsValid}
use advanced_embedded_softwa.Scull.Write.{WriteEnds, write-cell}
use advanced_embedded_softwa.Scull.Read.{ReadEnds, read-cell}
use advanced_embedded_softwa.Scull.RoundTrip.{read-write}
use advanced_embedded_softwa.Scull.Device.{Params, trim, open_dev}
use advanced_embedded_softwa.Scull.Life.{Call, opening, writing, run, step, born, run-trim}
use advanced_embedded_softwa.Scull.Seek.{
  llseek, settle, back, bits, sought, aim_from, origin, llseek-aim,
}
use advanced_embedded_softwa.Scull.Ioctl.{
  Config, Process, code, ioctl, set_quantum, exchange_quantum,
}
use advanced_embedded_softwa.Scull.Ioctl.Effects.{
  StayOrReset, ErrorEnds, quantum_knob, set, get, exchange, ioctl_unprivileged, ioctl_errors,
  exchange_lem,
}

-- One item, whose second block holds bytes.
abbrev dev : Dev
dev = record {
  sets = record { quanta = some (none ∷ some (5 ∷ 6 ∷ 7 ∷ 8 ∷ []) ∷ []) } ∷ [];
  quantum = 4;
  qset = 2;
  size = 8;
}

dev-IsValid : IsValid dev
dev-IsValid = record {
  some_bytes = omega arith;
  some_blocks = omega arith;
  itemsize = omega arith;
  fit = ((refl, (refl, tt)), tt);
}

abbrev source : Source
source = record { fresh = 9 ∷ 9 ∷ 9 ∷ 9 ∷ []; buf = 1 ∷ 2 ∷ 3 ∷ []; count = 3; readable = 3 }

-- Three bytes at position 5, and at position 10 in the next item, of which two fit the block.
write_here : (write true 0 dev 5 source).ret ≡ done 3
unfolding write follow place with_array write_array with_block write_block
write_here = refl

write_next : (write true 5 dev 10 source).ret ≡ done 2
unfolding write follow place with_array write_array with_block write_block
write_next = refl

write_exhausted : (write true 2 dev 10 source).ret ≡ fail enomem
unfolding write follow place with_array write_array with_block write_block
write_exhausted = refl

read_here : (read true 0 dev 6 9 9).delivered ≡ 7 ∷ 8 ∷ []
unfolding read slot follow place read_block cut
read_here = refl

read_hole : (read true 0 dev 1 9 9).ret ≡ done 0
unfolding read slot follow place read_block cut
read_hole = refl

write-cell_example : WriteEnds true 0 dev 5 source 6 (write true 0 dev 5 source)
write-cell_example =
    write-cell true dev dev-IsValid 0 5 6 source refl (omega arith) (omega arith) (omega arith)

read-cell_example : ReadEnds true dev 6 9 9 1 4 (read true 0 dev 6 9 9)
read-cell_example = read-cell dev dev-IsValid 6 9 9 1 4 (omega arith) true 0

read-write_example :
    ((read true 0 (write true 0 dev 5 source).dev 5 3 4).ret ≡ done 3)
    × ((read true 0 (write true 0 dev 5 source).dev 5 3 4).delivered ≡ take 3 (source.buf))
read-write_example =
    read-write dev dev-IsValid 0 5 source refl (omega arith) (omega arith) 3 write_here 0 4
      (omega arith) (omega arith)

-- The device opened, written twice, and opened for writing only with other parameters.
abbrev params : Params
params = record { quantum = 4; qset = 2 }

abbrev calls : List Call
calls =
    writing true 9 10 source
    ∷ writing true 9 1 source
    ∷ opening (record { quantum = 8; qset = 1 }) true true
    ∷ []

same_size : 4 ≡ (step (born params) (writing true 9 10 source)).dev.quantum
unfolding step write follow place with_array write_array with_block write_block
same_size = refl

run-trim_example :
    IsValid (run (born params) calls).dev
    × ((run (born params) calls).freed + (trim params (run (born params) calls).dev).freed
        ≡ (run (born params) calls).made)
run-trim_example =
    run-trim params params calls
      (record { some_bytes = omega arith; some_blocks = omega arith; itemsize = omega arith })
      (
        refl,
        (
          same_size,
          (
            record { some_bytes = omega arith; some_blocks = omega arith; itemsize = omega arith },
            tt,
          ),
        ),
      )

made_calls : (run (born params) calls).made ≡ 6
unfolding run step open_dev write follow place with_array write_array with_block write_block
made_calls = refl

llseek-aim_example : llseek 8 5 (bits (back 2)) 1 ≡ sought 5 (aim_from (origin 8 5 1) (back 2))
llseek-aim_example = llseek-aim 8 5 (back 2) 1 (omega arith) (omega arith) (omega arith)

seek_back : llseek 8 5 (bits (back 2)) 1 ≡ (done 3, 3)
unfolding llseek settle
seek_back = refl

abbrev config : Config
config = record { quantum = 4000; qset = 1000; p_buffer = 4000 }

-- A process with no privilege, and one whose memory can be read but not written.
abbrev user : Process
user = record { capable = false; access_ok = true; readable = true; writable = true; memory = 16 }

abbrev root : Process
root = record { capable = true; access_ok = true; readable = true; writable = false; memory = 16 }

ioctl_unprivileged_example : StayOrReset config (ioctl user 7 config (code set_quantum))
ioctl_unprivileged_example = ioctl_unprivileged user 7 config (code set_quantum) refl

ioctl_errors_example : ErrorEnds root config (ioctl root 7 config (code exchange_quantum))
ioctl_errors_example = ioctl_errors root 7 config (code exchange_quantum)

exchange_lem_example :
    ioctl root 7 config (code (exchange quantum_knob))
    ≡ record (ioctl root 7 config (code (set quantum_knob))) {
      answer = (ioctl root 7 config (code (get quantum_knob))).answer;
      memory = (ioctl root 7 config (code (get quantum_knob))).memory;
    }
exchange_lem_example = exchange_lem root 7 config refl quantum_knob refl
