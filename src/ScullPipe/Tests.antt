-- ===== src/ScullPipe/Tests.antt =====
-- The pipe at concrete inputs: a buffer of four bytes, of which the last and the first wait.
use advanced_embedded_softwa.Base.{
  ℕ, ◌+◌, ◌≡◌, refl, true, false, none, some, Option, List, [], ◌∷◌, ◌++◌, arith, ◌==◌, ltb, not,
  length,
}
use advanced_embedded_softwa.Kernel.{done}
use advanced_embedded_softwa.ScullPipe.{
  Pipe, Wake, read, write, poll, spacefree, read_count, write_count, read_data, write_data,
  open_pipe, wait_while, is_empty, copy_in,
}
use advanced_embedded_softwa.ScullPipe.Inv.{IsValid, contents}
use advanced_embedded_softwa.ScullPipe.Trace.{Runs, start, reads, writes, runs_lem}
use advanced_embedded_softwa.ScullPipe.Blocking.{
  Ends, waiting, room, ReadsSome, WritesSome, Polled, poll_lem, read_lem, write_lem,
}
use advanced_embedded_softwa.ScullPipe.Buffer.{open_pipe_lem}

abbrev dev : Pipe
dev = record {
  buffer = some (1 ∷ 2 ∷ 3 ∷ 4 ∷ []);
  buffersize = 4;
  rp = 3;
  wp = 1;
  nreaders = 1;
  nwriters = 1;
  async_queue = false;
}

dev-IsValid : IsValid dev
dev-IsValid = record {
  room = omega arith;
  positive = omega arith;
  rp_range = omega arith;
  wp_range = omega arith;
}

contents-dev : contents dev ≡ 4 ∷ 1 ∷ []
unfolding contents
contents-dev = refl

-- The pipe after a read to the end of the buffer, and then a write up to the byte before `rp`.
abbrev read_dev : Pipe
read_dev = record dev { rp = 0 }

abbrev last : Pipe
last = record read_dev { buffer = some (1 ∷ 7 ∷ 8 ∷ 4 ∷ []); wp = 3 }

read_run : Runs dev (4 ∷ []) [] read_dev
unfolding read_data read_count
read_run = reads 5 5 start (λ e. absurd (omega arith)) (omega arith)

write_run : Runs dev (4 ∷ []) (7 ∷ 8 ∷ []) last
unfolding write_data write_count spacefree copy_in
write_run = writes (7 ∷ 8 ∷ 9 ∷ []) 3 3 read_run (omega arith) (omega arith)

runs_lem_example : (contents dev ++ (7 ∷ 8 ∷ []) ≡ (4 ∷ []) ++ contents last) × IsValid last
runs_lem_example = runs_lem dev (4 ∷ []) (7 ∷ 8 ∷ []) last dev-IsValid write_run

-- A reader that finds the pipe empty, sleeps, and is woken when bytes wait.
abbrev empty_dev : Pipe
empty_dev = record dev { wp = 3 }

empty_dev-IsValid : IsValid empty_dev
empty_dev-IsValid = record {
  room = omega arith;
  positive = omega arith;
  rp_range = omega arith;
  wp_range = omega arith;
}

abbrev wakes : List Wake
wakes = record { signalled = false; locks = true; dev = dev } ∷ []

woken :
    read true false wakes empty_dev 5 5
    ≡ some (record { ret = done 1; delivered = 4 ∷ []; dev = read_dev })
unfolding read wait_while is_empty read_data read_count
woken = refl

read_lem_example :
    Ends waiting (ReadsSome 5) false empty_dev wakes (read true false wakes empty_dev 5 5)
read_lem_example =
    read_lem false wakes empty_dev 5 5 empty_dev-IsValid (dev-IsValid, tt) (omega arith)

write_lem_example :
    Ends room
      (WritesSome (7 ∷ 8 ∷ []) 2)
      false
      empty_dev
      wakes
      (write true false wakes empty_dev (7 ∷ 8 ∷ []) 2 2)
write_lem_example =
    write_lem false wakes empty_dev (7 ∷ 8 ∷ []) 2 2 empty_dev-IsValid (dev-IsValid, tt)
      (omega arith) (omega arith)

poll_lem_example :
    ((poll dev).0 ≡ not (length (contents dev) == 0))
    × ((poll dev).1 ≡ ltb (length (contents dev) + 1) 4)
    × Polled (poll dev).0 (ReadsSome 2 dev) dev (read true true [] dev 2 2)
    × Polled
        (poll dev).1
        (WritesSome (7 ∷ 8 ∷ []) 2 dev)
        dev
        (write true true [] dev (7 ∷ 8 ∷ []) 2 2)
poll_lem_example = poll_lem dev (7 ∷ 8 ∷ []) 2 dev-IsValid (omega arith) (omega arith)

-- The device before it is opened first.
abbrev closed : Pipe
closed = record {
  buffer = none;
  buffersize = 0;
  rp = 0;
  wp = 0;
  nreaders = 0;
  nwriters = 0;
  async_queue = false;
}

abbrev fresh : Option (List ℕ)
fresh = some (9 ∷ 9 ∷ 9 ∷ 9 ∷ [])

open_pipe_lem_example :
    ((open_pipe true 4 fresh true false closed).0 ≡ done 0)
    × IsValid (open_pipe true 4 fresh true false closed).1
    × (contents (open_pipe true 4 fresh true false closed).1 ≡ [])
    × ((open_pipe true 4 fresh true false closed).1.nreaders ≡ 1)
    × ((open_pipe true 4 fresh true false closed).1.nwriters ≡ 0)
open_pipe_lem_example =
    open_pipe_lem 4 fresh (9 ∷ 9 ∷ 9 ∷ 9 ∷ []) true false closed refl (omega arith) (omega arith)

-- A third process that opens the pipe drops the bytes that wait.
open_drops : contents (open_pipe true 4 none true false dev).1 ≡ []
unfolding open_pipe contents
open_drops = refl
