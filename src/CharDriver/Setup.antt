-- ===== src/CharDriver/Setup.antt =====
-- `aesd_init_module` and `aesd_cleanup_module`: the region of device numbers, the character device
-- and the blocks that the driver holds.
use mathlib.Core.List.{Mem, Perm, not-mem-nil, mem-cons}
use mathlib.Core.List.Perm
use mathlib.Core.Logic.Or
use mathlib.Core.HLevel.{⊥_prop}
use advanced_embedded_softwa.Base.{
  ℕ, ◌≡◌, ◌≢◌, ◌⊎◌, zero, suc, refl, sym, true, false, inl, inr, List, [], ◌∷◌,
}
use advanced_embedded_softwa.Base.Int.{ℤ, pos, negsuc, is_negative, is_zero}
use advanced_embedded_softwa.Base.Words.{Ptr}
use advanced_embedded_softwa.Kernel.{Heap}
use advanced_embedded_softwa.CircularBuffer.{BufferEntry}
use advanced_embedded_softwa.CircularBuffer.Inv.{contents, init-IsValid}
use advanced_embedded_softwa.CircularBuffer.Free.{AllHeld, pointers, free-pointers}
use advanced_embedded_softwa.CharDriver.{Module, init, init_module, cleanup_module}
use advanced_embedded_softwa.CharDriver.Spec.{Log, Stores, Apart, Represents, Apart-HoldsPending}

-- A module that has nothing registered.
abbrev pub IsUnregistered : Module → Type 0
IsUnregistered m = (m.region ≡ false) × (m.cdev ≡ false)

abbrev pub empty_log : Log
empty_log = record { lines = []; pending = [] }

pub init-Represents : (h : Heap) → Represents h init empty_log
unfolding init
init-Represents h = record {
  valid = init-IsValid.0;
  stores = rw init-IsValid.1 tt;
  distinct = rw init-IsValid.1 tt;
  waits = refl;
}

-- `aesd_init_module` either gets both the numbers and the device, returns 0 and leaves them
-- registered with a device that stands for the empty log; or it returns the error number of the
-- call that failed and leaves neither registered.
pub init_module_lem :
    (m : Module) (alloc add : ℤ) (h : Heap)
    → IsUnregistered m
    → let (result, m') = init_module m alloc add in
      ((result ≡ pos 0) × (m'.region ≡ true) × (m'.cdev ≡ true) × Represents h m'.dev empty_log)
      ⊎ ((((is_negative alloc ≡ true) × (result ≡ alloc))
            ⊎ ((is_zero add ≡ false) × (result ≡ add)))
          × IsUnregistered m')
unfolding init_module
init_module_lem m (negsuc n) add h un = inr (inl (refl, refl), un)
init_module_lem m (pos n) (pos zero) h un = inl (refl, refl, refl, init-Represents h)
init_module_lem m (pos n) (pos (suc k)) h un = inr (inr (refl, refl), (refl, refl))
init_module_lem m (pos n) (negsuc k) h un = inr (inr (refl, refl), (refl, refl))

AllHeld-Stores :
    (h : Heap) (es : List BufferEntry) (ls : List (List ℕ)) → Stores h es ls → AllHeld es
AllHeld-Stores h [] ls s = tt
AllHeld-Stores h (e ∷ es) [] s = absurd s
AllHeld-Stores h (e ∷ es) (l ∷ ls) s = (s.0.held, AllHeld-Stores h es ls s.1)

not-mem-pointers : (p : Ptr) (es : List BufferEntry) → Apart p es → ¬ Mem p (pointers es)
not-mem-pointers p [] a m = not-mem-nil m
not-mem-pointers p (e ∷ es) a m =
    Or.elim ⊥_prop (mem-cons.0 m) (λ q. a.0 (sym q)) (not-mem-pointers p es a.1)

-- `aesd_cleanup_module` takes back both registrations and frees the block of each command of the
-- log exactly once and nothing else: where bytes wait for a newline, their block stays allocated.
pub cleanup_module_lem :
    (m : Module) (h : Heap) (l : Log)
    → Represents h m.dev l
    → let (freed, m') = cleanup_module m in
      IsUnregistered m'
      × Perm freed (pointers (contents m.dev.temp_buffer))
      × (l.pending ≢ [] → ¬ Mem m.dev.temp_entry.buffptr freed)
unfolding cleanup_module
cleanup_module_lem m h l rep =
    let held = AllHeld-Stores h (contents m.dev.temp_buffer) l.lines rep.stores in
    let same = free-pointers rep.valid held in
    (
      (refl, refl),
      same,
      λ waiting inside.
          not-mem-pointers m.dev.temp_entry.buffptr (contents m.dev.temp_buffer)
            (Apart-HoldsPending h m.dev.temp_entry (contents m.dev.temp_buffer) l.pending rep.waits
              waiting)
            ((Perm.mem_iff same).0 inside),
    )
