-- ===== src/Sbull/Tests.antt =====
-- The block device at concrete inputs: a disk of two sectors.
use advanced_embedded_softwa.Base.{
  ℕ, ◌*◌, ◌≡◌, refl, true, false, [], ◌∷◌, arith, replicate, length-replicate,
}
use advanced_embedded_softwa.Kernel.{overwrite}
use advanced_embedded_softwa.Sbull.{Disk, Bio, sts_ok, request, setup_device, exit_device}
use advanced_embedded_softwa.Sbull.Transfer.{AllSized, joined, request_twice}
use advanced_embedded_softwa.Sbull.Transfer as Transfer
use advanced_embedded_softwa.Sbull.Media as Media
use advanced_embedded_softwa.Sbull.Media.{Step, opens}

abbrev disk : Disk
disk = record {
  size = 1024;
  bytes = replicate 1024 7;
  users = 0;
  media_change = false;
  timer = true;
}

disk-Transfer : Transfer.IsValid disk
disk-Transfer = record { size = length-replicate {A = ℕ} 1024 7; small = omega arith }

-- One sector, and an empty segment to read it into.
abbrev out : Bio
out = record { sector = 1; current = 1; buffers = replicate 512 3 ∷ [] }

abbrev back : Bio
back = record { sector = 1; current = 1; buffers = replicate 512 0 ∷ [] }

request_twice_example :
    let w = request false true disk out in
    let r = request false false w.1.dev back in
    (w.0 ≡ sts_ok)
    × (w.1.dev ≡ record disk { bytes = overwrite disk.bytes (1 * 512) (joined out.buffers) })
    × (r.0 ≡ sts_ok)
    × (r.1.dev ≡ w.1.dev)
    × (joined r.1.buffers ≡ joined out.buffers)
request_twice_example =
    request_twice disk out back disk-Transfer (length-replicate {A = ℕ} 512 3, tt)
      (length-replicate {A = ℕ} 512 0, tt) refl refl (omega arith)

-- A device whose queue could not be made gives its memory back twice.
exit_after_failure : exit_device (setup_device true false true) ≡ 2
unfolding exit_device setup_device
exit_after_failure = refl
