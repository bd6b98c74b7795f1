-- ===== src/Scull/Life.antt =====
-- The life of one memory device: the calls on it, one after another, with the blocks that they make
-- and give back.
use advanced_embedded_softwa.Base.{
  ℕ, ◌+◌, ◌-◌, ◌*◌, ◌<◌, ◌^◌, ◌≡◌, refl, Bool, true, false, List, [], ◌∷◌, arith, length,
}
use advanced_embedded_softwa.Scull.{Dev, Source, read, write, Result}
use advanced_embedded_softwa.Scull.Device.{Params, open_dev, trim}
use advanced_embedded_softwa.Scull.Inv.{IsValid}
use advanced_embedded_softwa.Scull.Keeps.{read-IsValid, write-IsValid}
use advanced_embedded_softwa.Scull.Memory.{in_sets, read-Kept, write-Kept, trim-freed}

-- A call of a process on the device, with the parameters of the module at that time, or with how
-- often `kmalloc` succeeds.
pub data Call : Type 0 where
  opening : Params → Bool → Bool → Call
  reading : Bool → ℕ → ℕ → ℕ → ℕ → Call
  writing : Bool → ℕ → ℕ → Source → Call

-- A device, and how many blocks were made and given back since it was set up.
pub record Life : Type 0 where
  pub dev : Dev
  pub made : ℕ
  pub freed : ℕ

abbrev after_result : Life → ℕ → Result → Life
after_result l allocs r = record {
  dev = r.dev;
  made = l.made + (allocs - r.allocs);
  freed = l.freed;
}

unfoldable pub step : Life → Call → Life
step l (opening params wronly locks) =
    let r = open_dev params wronly locks l.dev in
    record { dev = r.dev; made = l.made; freed = l.freed + r.freed }
step l (reading locks allocs pos count room) =
    after_result l allocs (read locks allocs l.dev pos count room)
step l (writing locks allocs pos source) =
    after_result l allocs (write locks allocs l.dev pos source)

unfoldable pub run : Life → List Call → Life
run l [] = l
run l (c ∷ calls) = run (step l c) calls

-- Parameters that a device works with.
pub record Sized (params : Params) : Type 0 where
  pub some_bytes : 0 < params.quantum
  pub some_blocks : 0 < params.qset
  pub itemsize : params.quantum * params.qset < 2 ^ 31

-- An open finds such parameters, and a write is given a block of the device's size.
abbrev pub CallFits : Dev → Call → Type 0
CallFits dev (opening params wronly locks) = Sized params
CallFits dev (reading locks allocs pos count room) = Unit
CallFits dev (writing locks allocs pos source) = length source.fresh ≡ dev.quantum

abbrev pub RunFits : Life → List Call → Type 0
RunFits l [] = Unit
RunFits l (c ∷ calls) = CallFits l.dev c × RunFits (step l c) calls

-- A valid device that holds what was made and not given back.
abbrev pub Balanced : Life → Type 0
Balanced l = IsValid l.dev × (l.made ≡ l.freed + in_sets l.dev.sets)

trimmed-IsValid : (params : Params) (dev : Dev) → Sized params → IsValid (trim params dev).dev
unfolding trim
trimmed-IsValid params dev size = record {
  some_bytes = size.some_bytes;
  some_blocks = size.some_blocks;
  itemsize = size.itemsize;
  fit = tt;
}

trimmed-Balanced :
    (params : Params) (l : Life)
    → (trim params l.dev).freed ≡ in_sets l.dev.sets
    → l.made ≡ l.freed + in_sets l.dev.sets
    → l.made ≡ l.freed + (trim params l.dev).freed + in_sets (trim params l.dev).dev.sets
unfolding in_sets trim
trimmed-Balanced params l all b = rw (none_left) (omega arith)
  where
    none_left : in_sets (trim params l.dev).dev.sets ≡ 0
    none_left = refl

opened-Balanced :
    (l : Life) (params : Params) (wronly locks : Bool)
    → Sized params
    → Balanced l
    → Balanced (step l (opening params wronly locks))
unfolding step open_dev
opened-Balanced l params false locks size (v, b) = (v, omega (arith, b))
opened-Balanced l params true false size (v, b) = (v, omega (arith, b))
opened-Balanced l params true true size (v, b) =
    let all = trim-freed params l.dev v in
    (trimmed-IsValid params l.dev size, trimmed-Balanced params l all b)

step-Balanced : (l : Life) (c : Call) → CallFits l.dev c → Balanced l → Balanced (step l c)
unfolding step
step-Balanced l (opening params wronly locks) fits b = opened-Balanced l params wronly locks fits b
step-Balanced l (reading locks allocs pos count room) fits (v, b) =
    let (kept, least) = read-Kept l.dev allocs pos count room locks in
    (read-IsValid l.dev v locks allocs pos count room, omega arith)
step-Balanced l (writing locks allocs pos source) fits (v, b) =
    let (kept, least) = write-Kept l.dev v allocs pos source locks in
    (write-IsValid l.dev v locks allocs pos source fits, omega arith)

pub run-Balanced :
    (l : Life) (calls : List Call) → RunFits l calls → Balanced l → Balanced (run l calls)
unfolding run
run-Balanced l [] fits b = b
run-Balanced l (c ∷ calls) fits b =
    run-Balanced (step l c) calls fits.1 (step-Balanced l c fits.0 b)

-- The device as `scull_init_module` sets it up.
abbrev pub born : Params → Life
born params = record {
  dev = record { sets = []; quantum = params.quantum; qset = params.qset; size = 0 };
  made = 0;
  freed = 0;
}

-- A device that is set up with a positive quantum and qset whose product is below 2^31, so that it fits
-- the `int` itemsize, and any calls on it: opens, which find such parameters too, reads, and writes,
-- which are given a new block of the size of the device's blocks, whichever of them fail. The device is valid after them, and a trim of it
-- then makes the blocks given back as many as were made.
pub run-trim :
    (params params' : Params) (calls : List Call)
    → Sized params
    → RunFits (born params) calls
    → IsValid (run (born params) calls).dev
      × ((run (born params) calls).freed + (trim params' (run (born params) calls).dev).freed
          ≡ (run (born params) calls).made)
unfolding in_sets
run-trim params params' calls size fits =
    let start : Balanced (born params) = (
      record {
        some_bytes = size.some_bytes;
        some_blocks = size.some_blocks;
        itemsize = size.itemsize;
        fit = tt;
      },
      refl,
    ) in
    let (v, b) = run-Balanced (born params) calls fits start in
    (v, omega (arith, b, trim-freed params' (run (born params) calls).dev v))
