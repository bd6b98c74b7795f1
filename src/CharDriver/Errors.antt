-- ===== src/CharDriver/Errors.antt =====
-- `aesd_write` without memory or without the lock.
use advanced_embedded_softwa.Base.{
  ℕ, ◌+◌, ◌^◌, ◌<◌, ◌≡◌, ◌≢◌, refl, ap, true, inl, inr, none, List, [], ◌∷◌, arith, ◌==◌, length,
}
use advanced_embedded_softwa.Base.Words.{null}
use advanced_embedded_softwa.Kernel.{Heap, Kernel, IsLawful, fail, enomem}
use advanced_embedded_softwa.CircularBuffer.{BufferEntry}
use advanced_embedded_softwa.CircularBuffer.Inv.{contents}
use advanced_embedded_softwa.CharDriver.{Device, make_space, write}
use advanced_embedded_softwa.CharDriver.Spec.{
  Log, Apart, HoldsPending, Represents, HoldsPending-cases, size-HoldsPending,
}
use advanced_embedded_softwa.CharDriver.Write.{heap_without_space}

-- No pending bytes are held by a pending entry that has a size and no block.
not-HoldsPending :
    (h : Heap) (n : ℕ) (es : List BufferEntry) (p : List ℕ)
    → n ≢ 0
    → ¬ HoldsPending h (record { buffptr = null; size = n }) es p
not-HoldsPending h n es [] ne w = ne w
not-HoldsPending h n es (c ∷ cs) ne w = w.0.held refl

write_no_space :
    (k : Kernel) (h : Heap) (dev : Device) (buf : List ℕ) (f_pos : ℕ)
    → k.locks ≡ true
    → (make_space k h dev.temp_entry (length buf)).0 ≡ null
    → write k h dev buf (length buf) f_pos ≡ record {
      ret = fail enomem;
      f_pos = f_pos;
      dev = record dev { temp_entry = record { buffptr = null; size = dev.temp_entry.size } };
      heap = (make_space k h dev.temp_entry (length buf)).1;
      freed = [];
    }
unfolding write
write_no_space k h dev buf f_pos locked out =
    let gone : ((make_space k h dev.temp_entry (length buf)).0 == null) ≡ true = ground arith in
    simp (locked, gone)

-- When bytes wait for their newline and the block that holds them cannot be grown, `aesd_write`
-- returns ENOMEM and forgets the block: it stays allocated, nothing is freed, and neither the
-- pending entry, now NULL with its old size, nor an entry of the buffer refers to it. The device
-- then stands for no log at all.
pub write_loses_pending :
    (k : Kernel) (h : Heap) (dev : Device) (l : Log) (buf : List ℕ) (f_pos : ℕ)
    → IsLawful k
    → k.locks ≡ true
    → Represents h dev l
    → l.pending ≢ []
    → length l.pending + length buf < 2 ^ 64
    → (make_space k h dev.temp_entry (length buf)).0 ≡ null
    → let w = write k h dev buf (length buf) f_pos in
      (w.ret ≡ fail enomem)
      × (w.heap dev.temp_entry.buffptr ≢ none)
      × (w.freed ≡ [])
      × (w.dev.temp_entry ≡ record { buffptr = null; size = length l.pending })
      × Apart dev.temp_entry.buffptr (contents w.dev.temp_buffer)
      × ((l' : Log) → ¬ Represents w.heap w.dev l')
write_loses_pending k h dev l buf f_pos lawful locked rep waiting small out =
    let same = heap_without_space k h dev l (length buf) lawful rep small out in
    let size = size-HoldsPending h dev.temp_entry (contents dev.temp_buffer) l.pending rep.waits in
    elim (HoldsPending-cases h dev.temp_entry (contents dev.temp_buffer) l.pending rep.waits) [
      | inl empty ↦ absurd (waiting (length_zero l.pending (omega (arith, size))))
      | inr (held, apart, some_wait) ↦
          rw (write_no_space k h dev buf f_pos locked out, same)
            (
              refl,
              held.live,
              refl,
              ap (λ n. record { buffptr = null; size = n }) size,
              apart,
              λ l' rep'.
                  not-HoldsPending h dev.temp_entry.size (contents dev.temp_buffer) l'.pending
                    some_wait rep'.waits,
            )
    ]
  where
    length_zero : (xs : List ℕ) → length xs ≡ 0 → xs ≡ []
    length_zero [] e = refl
    length_zero (x ∷ xs) e = absurd (omega arith)
