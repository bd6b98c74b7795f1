-- ===== src/ScullModule.antt =====
-- The scull module with its memory devices, its FIFO devices and its devices with access control:
-- scull_init_module and scull_cleanup_module of assignment-7-saloni1307-master/scull/main.c with what
-- they call of pipe.c and access.c beside it.
mod Tests
use advanced_embedded_softwa.Base.{
  ℕ, ◌+◌, ◌≡◌, refl, arith, Bool, true, false, Option, none, some, List, [], ◌∷◌,
}
use advanced_embedded_softwa.Kernel.{Ret, done, fail}
use advanced_embedded_softwa.Scull.{Dev}
use advanced_embedded_softwa.Scull.Device.{Params, Module, trim_all, cleanup_module, init_module}
use advanced_embedded_softwa.Scull.Inv.{IsValid}
use advanced_embedded_softwa.Scull.Memory.{in_sets, trim-freed}
use advanced_embedded_softwa.ScullPipe.{Pipe}
use advanced_embedded_softwa.ScullPipe.Setup.{
  Pipes, free_buffer, free_buffers, init_pipes, cleanup_pipes,
}
use advanced_embedded_softwa.ScullAccess.Setup.{
  Access, StaticsValid, ListedValid, in_statics, in_listed, access_init, access_cleanup,
  access_cleanup_lem, clean_statics-empty,
}

-- The three kinds of devices.
pub record Driver : Type 0 where
  pub memory : Module
  pub pipes : Pipes
  pub access : Access

-- What the kernel answers while the module is loaded.
pub record Answers : Type 0 where
  pub registered : Ret
  pub kmallocs : Bool
  pub pipe_registered : Ret
  pub pipe_kmallocs : Bool
  pub pipe_added : ℕ → Ret
  pub access_registered : Ret
  pub access_added : ℕ → Ret

-- `scull_cleanup_module`, with the clean-ups that it calls: what is left, and how many blocks it gave
-- back.
unfoldable pub unload : Params → Driver → Driver × ℕ
unload params d =
    let (memory, m) = cleanup_module params d.memory in
    let (pipes, p) = cleanup_pipes d.pipes in
    let (access, a) = access_cleanup params d.access in
    (record { memory = memory; pipes = pipes; access = access }, m + p + a)

-- The pipes before the module is loaded.
abbrev pub no_pipes : Pipes
no_pipes = record { devices = none; numbers = false }

-- The end of a start that failed with `e`: the numbers were registered, or not.
unfoldable pub give_up : Params → Ret → Module → Access → Driver
give_up params (fail e) m access = record { memory = m; pipes = no_pipes; access = access }
give_up params (done n) m access =
    (unload params record { memory = m; pipes = no_pipes; access = access }).0

-- `scull_init_module`, with the starts that it calls; `access` is what access.c has statically.
unfoldable pub load : Params → ℕ → ℕ → Answers → Access → Ret × Driver
load params nr_devs nr_pipes k access =
    let (r, memory) = init_module params nr_devs k.registered k.kmallocs in
    elim r [
      | done n ↦ (
        done n,
        record {
          memory = memory;
          pipes = (init_pipes nr_pipes k.pipe_registered k.pipe_kmallocs k.pipe_added).1;
          access = (access_init params k.access_registered k.access_added access).1;
        },
      )
      | fail e ↦ (fail e, give_up params k.registered memory access)
    ]

-- The memory devices are valid.
abbrev pub AllValid : List Dev → Type 0
AllValid [] = Unit
AllValid (dev ∷ devs) = IsValid dev × AllValid devs

abbrev pub MemoryValid : Option (List Dev) → Type 0
MemoryValid none = Unit
MemoryValid (some devs) = AllValid devs

-- The blocks that are held: by the memory devices, by the pipes, one for each buffer that is there and
-- one for their array, and by all.
unfoldable pub in_devices : List Dev → ℕ
in_devices [] = 0
in_devices (dev ∷ devs) = in_sets dev.sets + in_devices devs

unfoldable pub in_memory : Option (List Dev) → ℕ
in_memory none = 0
in_memory (some devs) = in_devices devs + 1

abbrev pub in_buffer : Pipe → ℕ
in_buffer dev = elim dev.buffer [ none ↦ 0 | some bytes ↦ 1 ]

unfoldable pub in_buffers : List (Pipe × Bool) → ℕ
in_buffers [] = 0
in_buffers (dev ∷ devs) = in_buffer dev.0 + in_buffers devs

unfoldable pub in_pipes : Option (List (Pipe × Bool)) → ℕ
in_pipes none = 0
in_pipes (some devs) = in_buffers devs + 1

unfoldable pub held : Driver → ℕ
held d =
    in_memory d.memory.devices
    + in_pipes d.pipes.devices
    + (in_statics d.access.statics + in_listed d.access.listed)

trim_all-freed :
    (params : Params) (devs : List Dev) → AllValid devs → trim_all params devs ≡ in_devices devs
unfolding trim_all in_devices
trim_all-freed params [] v = refl
trim_all-freed params (dev ∷ devs) v =
    omega (arith, trim-freed params dev v.0, trim_all-freed params devs v.1)

cleanup_module-freed :
    (params : Params) (devices : Option (List Dev)) (numbers : Bool)
    → MemoryValid devices
    → (cleanup_module params record { devices = devices; numbers = numbers }).1 ≡ in_memory devices
unfolding cleanup_module in_memory
cleanup_module-freed params none numbers v = refl
cleanup_module-freed params (some devs) numbers v = omega (arith, trim_all-freed params devs v)

free_buffers-all : (devs : List (Pipe × Bool)) → free_buffers devs ≡ in_buffers devs
unfolding free_buffers in_buffers
free_buffers-all [] = refl
free_buffers-all ((dev, added) ∷ devs) = omega (arith, one_buffer dev.buffer, free_buffers-all devs)
  where
    one_buffer :
        (b : Option (List ℕ)) → free_buffer b ≡ elim b as (λ x. ℕ) [ none ↦ 0 | some bytes ↦ 1 ]
    one_buffer none = refl
    one_buffer (some bytes) = refl

abbrev CleanedPipes : Pipes → Type 0
CleanedPipes m = ((cleanup_pipes m).1 ≡ in_pipes m.devices) × ((cleanup_pipes m).0.devices ≡ none)

cleanup_pipes-freed :
    (devices : Option (List (Pipe × Bool))) (numbers : Bool)
    → CleanedPipes record { devices = devices; numbers = numbers }
unfolding cleanup_pipes in_pipes
cleanup_pipes-freed none numbers = (refl, refl)
cleanup_pipes-freed (some devs) numbers = (omega (arith, free_buffers-all devs), refl)

-- When the module is unloaded while its memory devices are valid, it gives back just as many blocks
-- as they, the pipes and the list of the terminals hold, and holds none after that.
pub unload_lem :
    (params : Params) (d : Driver)
    → MemoryValid d.memory.devices
    → StaticsValid d.access.statics
    → ListedValid d.access.listed
    → ((unload params d).1 ≡ held d) × (held (unload params d).0 ≡ 0)
unfolding unload held cleanup_module in_memory in_pipes in_listed
unload_lem params d memory statics listed =
    let m : (cleanup_module params d.memory).1 ≡ in_memory d.memory.devices =
      cleanup_module-freed params d.memory.devices d.memory.numbers memory in
    let (p, gone) : CleanedPipes d.pipes = cleanup_pipes-freed d.pipes.devices d.pipes.numbers in
    let (a, empty, no_items, numbers) = access_cleanup_lem params d.access statics listed in
    (rw (m, p, a) refl, rw (gone, empty, no_items) refl)

-- What a start with these answers leaves if it fails.
abbrev LeavesNothing : Ret × Driver → Type 0
LeavesNothing (done n, d) = Unit
LeavesNothing (fail e, d) = (held d ≡ 0) × (d.memory.numbers ≡ false)

load_leaves :
    (params : Params) (nr_devs nr_pipes : ℕ) (registered : Ret) (kmallocs : Bool) (k : Answers)
    → (access : Access) → in_statics access.statics + in_listed access.listed ≡ 0
    → LeavesNothing (
        load params nr_devs nr_pipes
          (record k { registered = registered; kmallocs = kmallocs })
          access)
unfolding load init_module give_up unload cleanup_module cleanup_pipes access_cleanup held in_memory
    in_pipes in_listed
load_leaves params nr_devs nr_pipes (fail e) kmallocs k access clean = (omega (arith, clean), refl)
load_leaves params nr_devs nr_pipes (done n) true k access clean = tt
load_leaves params nr_devs nr_pipes (done n) false k access clean =
    (rw (clean_statics-empty params access.statics) refl, refl)

-- A start that fails, of a module that holds nothing before it, leaves nothing held, and none of the
-- numbers of the memory devices.
pub load_fails :
    (params : Params) (nr_devs nr_pipes : ℕ) (k : Answers) (access : Access)
    → in_statics access.statics + in_listed access.listed ≡ 0
    → LeavesNothing (load params nr_devs nr_pipes k access)
load_fails params nr_devs nr_pipes k access clean =
    load_leaves params nr_devs nr_pipes k.registered k.kmallocs k access clean
