-- ===== src/CharDriver/Tests.antt =====
-- The driver at concrete inputs: a device with one command, "hi\n", and "ab" waiting.
use mathlib.Core.List.{Mem, Perm}
use advanced_embedded_softwa.Base.{
  ℕ, ◌≡◌, ◌≢◌, ◌⊎◌, refl, true, false, none, some, List, [], ◌∷◌, arith, ◌==◌, if◌then◌else◌,
}
use advanced_embedded_softwa.Base.Int.{pos, is_negative, is_zero}
use advanced_embedded_softwa.Base.Words.{null}
use advanced_embedded_softwa.Kernel.{Heap, fail, done, enomem}
use advanced_embedded_softwa.Kernel.Sample.{
  sample, sample-IsLawful, full_sample, full_sample-IsLawful, sample_krealloc,
}
use advanced_embedded_softwa.CircularBuffer.{BufferEntry, CircularBuffer, add_entry}
use advanced_embedded_softwa.CircularBuffer.Inv.{IsValid, contents}
use advanced_embedded_softwa.CircularBuffer.Free.{pointers}
use advanced_embedded_softwa.CharDriver.{
  Device, ReadResult, make_space, finish, fill, commit, has_newline, write, read, Module,
  init_module, cleanup_module,
}
use advanced_embedded_softwa.CharDriver.Spec.{Log, Apart, Represents}
use advanced_embedded_softwa.CharDriver.Write.{Wrote, write_refines}
use advanced_embedded_softwa.CharDriver.Read.{Reads, read_refines}
use advanced_embedded_softwa.CharDriver.Errors.{write_loses_pending}
use advanced_embedded_softwa.CharDriver.Setup.{
  IsUnregistered, empty_log, init_module_lem, cleanup_module_lem,
}

abbrev blank : BufferEntry
blank = record { buffptr = 0; size = 0 }

abbrev hi : List ℕ
hi = b'h' ∷ b'i' ∷ 10 ∷ []

abbrev heap : Heap
heap p = if p == 3 then some hi else (if p == 4 then some (b'a' ∷ b'b' ∷ []) else none)

abbrev buffer : CircularBuffer
buffer = record {
  entry =
      record { buffptr = 3; size = 3 }
      ∷ blank
      ∷ blank
      ∷ blank
      ∷ blank
      ∷ blank
      ∷ blank
      ∷ blank
      ∷ blank
      ∷ blank
      ∷ [];
  in_offs = 1;
  out_offs = 0;
  full = false;
}

abbrev device : Device
device = record { temp_buffer = buffer; temp_entry = record { buffptr = 4; size = 2 } }

abbrev log : Log
log = record { lines = hi ∷ []; pending = b'a' ∷ b'b' ∷ [] }

buffer-IsValid : IsValid buffer
buffer-IsValid = record {
  slots = refl;
  in_range = omega arith;
  out_range = omega arith;
  full_meets = λ e. cc;
  filling = λ e. refl;
  rest_empty = λ e. (refl, (refl, (refl, (refl, (refl, (refl, (refl, (refl, (refl, tt)))))))));
}

device-Represents : Represents heap device log
unfolding contents
device-Represents = record {
  valid = buffer-IsValid;
  stores = (record { held = omega arith; live = λ e. cc; bytes = refl; size = refl }, tt);
  distinct = (tt, tt);
  waits =
      (record { held = omega arith; live = λ e. cc; bytes = refl; size = refl }, (omega arith, tt));
}

-- "c\n" completes the command "abc\n".
write_completes :
    let w = write sample heap device (b'c' ∷ 10 ∷ []) 2 5 in
    (w.ret ≡ done 2)
    × (w.f_pos ≡ 0)
    × (w.dev.temp_buffer.in_offs ≡ 2)
    × (w.dev.temp_entry ≡ blank)
    × (w.heap 4 ≡ some (b'a' ∷ b'b' ∷ b'c' ∷ 10 ∷ []))
unfolding write make_space finish fill commit has_newline sample_krealloc add_entry
write_completes = (refl, refl, refl, refl, refl)

write_refines_example :
    (((make_space sample heap device.temp_entry 2).0 ≡ null)
      × ((write sample heap device (b'c' ∷ 10 ∷ []) 2 5).ret ≡ fail enomem))
    ⊎ ((n : ℕ) × Wrote log (b'c' ∷ 10 ∷ []) n (write sample heap device (b'c' ∷ 10 ∷ []) 2 5))
write_refines_example =
    write_refines sample heap device log (b'c' ∷ 10 ∷ []) 5 sample-IsLawful refl device-Represents
      (omega arith)

read_refines_example :
    (r : ReadResult) × (read sample heap device 2 1 ≡ some r) × Reads sample heap hi 2 1 r
read_refines_example =
    read_refines sample-IsLawful heap device log 2 1 refl device-Represents (omega arith)
      (omega arith)

write_loses_pending_example :
    let w = write full_sample heap device (b'c' ∷ []) 1 0 in
    (w.ret ≡ fail enomem)
    × (w.heap 4 ≢ none)
    × (w.freed ≡ [])
    × (w.dev.temp_entry ≡ record { buffptr = null; size = 2 })
    × Apart 4 (contents w.dev.temp_buffer)
    × ((l' : Log) → ¬ Represents w.heap w.dev l')
write_loses_pending_example =
    write_loses_pending full_sample heap device log (b'c' ∷ []) 0 full_sample-IsLawful refl
      device-Represents (λ e. cc) (omega arith) (unfold make_space in refl)

abbrev unloaded : Module
unloaded = record { dev = device; region = false; cdev = false }

init_module_lem_example :
    let (result, m') = init_module unloaded (pos 0) (pos 0) in
    ((result ≡ pos 0) × (m'.region ≡ true) × (m'.cdev ≡ true) × Represents heap m'.dev empty_log)
    ⊎ ((((is_negative (pos 0) ≡ true) × (result ≡ pos 0))
          ⊎ ((is_zero (pos 0) ≡ false) × (result ≡ pos 0)))
        × IsUnregistered m')
init_module_lem_example = init_module_lem unloaded (pos 0) (pos 0) heap (refl, refl)

cleanup_module_lem_example :
    let (freed, m') = cleanup_module (record unloaded { region = true; cdev = true }) in
    IsUnregistered m' × Perm freed (pointers (contents buffer)) × (log.pending ≢ [] → ¬ Mem 4 freed)
cleanup_module_lem_example =
    cleanup_module_lem (record unloaded { region = true; cdev = true }) heap log device-Represents
