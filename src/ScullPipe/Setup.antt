-- ===== src/ScullPipe/Setup.antt =====
-- The start and the end of the FIFO devices: scull_p_init, scull_p_setup_cdev, scull_p_cleanup and
-- scull_p_fasync of assignment-7-saloni1307-master/scull/pipe.c. What the kernel answers to each call
-- is an argument. Of the clean-up it is counted how many blocks of memory it gives back.
use mathlib.Core.Option
use advanced_embedded_softwa.Base.{
  ℕ, zero, suc, ◌+◌, ◌≡◌, refl, arith, ◌⊎◌, inl, inr, Bool, true, false, Option, none, some, List,
  [], ◌∷◌, if◌then◌else◌, length,
}
use advanced_embedded_softwa.Kernel.{Ret, done, fail}
use advanced_embedded_softwa.ScullPipe.{Pipe}

-- `scull_p_devices` and `scull_p_devno`: the pipes, each with whether the kernel has its character
-- device, and whether the module holds the numbers.
pub record Pipes : Type 0 where
  pub devices : Option (List (Pipe × Bool))
  pub numbers : Bool

-- A pipe of zero bytes.
abbrev pub zeroed : Pipe
zeroed = record {
  buffer = none;
  buffersize = 0;
  rp = 0;
  wp = 0;
  nreaders = 0;
  nwriters = 0;
  async_queue = false;
}

-- `scull_p_setup_cdev`: `added` is what `cdev_add` returns; an error is only printed.
unfoldable pub setup_pipe : Ret → Pipe → Pipe × Bool
setup_pipe (done n) dev = (dev, true)
setup_pipe (fail e) dev = (dev, false)

-- The loop of `scull_p_init`, from device `i` on over `n` devices; `added i` is what `cdev_add`
-- returns for device `i`.
unfoldable pub setup_all : (ℕ → Ret) → ℕ → ℕ → List (Pipe × Bool)
setup_all added i zero = []
setup_all added i (suc n) = setup_pipe (added i) zeroed ∷ setup_all added (i + 1) n

-- `scull_p_init`: how many pipes there are, and the state. `registered` is what the registration of
-- the numbers returns, and `kmallocs` whether the array of the devices is allocated.
unfoldable pub init_pipes : ℕ → Ret → Bool → (ℕ → Ret) → ℕ × Pipes
init_pipes nr_devs (fail e) kmallocs added = (0, record { devices = none; numbers = false })
init_pipes nr_devs (done n) kmallocs added =
    if kmallocs
    then (nr_devs, record { devices = some (setup_all added 0 nr_devs); numbers = true })
    else (0, record { devices = none; numbers = false })

-- `kfree` of a buffer; that of NULL gives nothing back.
abbrev pub free_buffer : Option (List ℕ) → ℕ
free_buffer none = 0
free_buffer (some bytes) = 1

-- The loop of `scull_p_cleanup`.
unfoldable pub free_buffers : List (Pipe × Bool) → ℕ
free_buffers [] = 0
free_buffers (dev ∷ devs) = free_buffer dev.0.buffer + free_buffers devs

-- `scull_p_cleanup`: what is left, and how many blocks it gave back.
unfoldable pub cleanup_pipes : Pipes → Pipes × ℕ
cleanup_pipes m = elim m.devices [
  | none ↦ (m, 0)
  | some devs ↦ (record { devices = none; numbers = false }, free_buffers devs + 1)
]

-- `scull_p_fasync`: `ret` is what `fasync_helper` returns, and `queued` whether the queue of the pipe
-- holds a file once it has put the file on it or taken it off.
unfoldable fasync : Ret → Bool → Pipe → Ret × Pipe
fasync ret queued dev = (ret, record dev { async_queue = queued })

abbrev idle : Pipes
idle = record { devices = none; numbers = false }

length-setup_all : (added : ℕ → Ret) (i n : ℕ) → length (setup_all added i n) ≡ n
unfolding setup_all
length-setup_all added i zero = refl
length-setup_all added i (suc n) = rw (length-setup_all added (i + 1) n) (omega arith)

free_buffer-setup_pipe : (added : Ret) → free_buffer (setup_pipe added zeroed).0.buffer ≡ 0
unfolding setup_pipe
free_buffer-setup_pipe (done n) = refl
free_buffer-setup_pipe (fail e) = refl

free_buffers-setup_all : (added : ℕ → Ret) (i n : ℕ) → free_buffers (setup_all added i n) ≡ 0
unfolding setup_all free_buffers
free_buffers-setup_all added i zero = refl
free_buffers-setup_all added i (suc n) =
    rw (free_buffer-setup_pipe (added i), free_buffers-setup_all added (i + 1) n) refl

-- A start that does not get the numbers or the memory reports no pipe and leaves nothing behind;
-- one that gets both reports all pipes, whatever `cdev_add` returns, and the clean-up then gives back
-- the numbers and just the array, since no pipe has a buffer yet.
init_pipes_lem :
    (nr_devs : ℕ) (registered : Ret) (kmallocs : Bool) (added : ℕ → Ret)
    → (init_pipes nr_devs registered kmallocs added ≡ (0, idle))
      ⊎ (((init_pipes nr_devs registered kmallocs added).0 ≡ nr_devs)
          × (Option.map length (init_pipes nr_devs registered kmallocs added).1.devices
              ≡ some nr_devs)
          × (cleanup_pipes (init_pipes nr_devs registered kmallocs added).1 ≡ (idle, 1)))
unfolding init_pipes cleanup_pipes
init_pipes_lem nr_devs (fail e) kmallocs added = inl refl
init_pipes_lem nr_devs (done n) false added = inl refl
init_pipes_lem nr_devs (done n) true added =
    rw (length-setup_all added 0 nr_devs, free_buffers-setup_all added 0 nr_devs)
      (inr (refl, refl, refl))
