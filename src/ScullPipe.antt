-- ===== src/ScullPipe.antt =====
-- The FIFO device of the scull driver: assignment-7-saloni1307-master/scull/pipe.c.
-- `rp`, `wp` and `end` are offsets from the start of the buffer. `buffersize` is positive in every
-- valid state, and `wp` and `rp` are below it (`ScullPipe.Inv`), so that no subtraction here goes
-- below 0. A call that sleeps is given the wake-ups that it meets, each with the state of the pipe
-- that other processes leave it; a call whose wake-ups end while it waits is asleep.
pub mod Inv
pub mod Fifo
pub mod Put
pub mod Trace
pub mod Blocking
pub mod Buffer
pub mod Setup
mod Tests
use advanced_embedded_softwa.Base.{
  ℕ, zero, suc, ◌+◌, ◌-◌, ◌%◌, Bool, true, false, Option, none, some, List, [], ◌∷◌, ltb, ◌==◌, not,
  min, if◌then◌else◌, length, set, take, drop,
}
use advanced_embedded_softwa.Kernel.{Errno, erestartsys, enomem, efault, eagain, Ret, done, fail}

-- `struct scull_pipe`, less its wait queues, its lock and its character device.
pub record Pipe : Type 0 where
  pub buffer : Option (List ℕ)
  pub buffersize : ℕ
  pub rp : ℕ
  pub wp : ℕ
  pub nreaders : ℕ
  pub nwriters : ℕ
  pub async_queue : Bool

-- The bytes of the buffer, none where there is no buffer.
abbrev pub block : Option (List ℕ) → List ℕ
block none = []
block (some bytes) = bytes

-- The bytes `src` written into a block from index `i` on.
unfoldable pub copy_in : List ℕ → ℕ → List ℕ → List ℕ
copy_in bytes i [] = bytes
copy_in bytes i (c ∷ src) = copy_in (set bytes i c) (i + 1) src

-- `spacefree`
unfoldable pub spacefree : Pipe → ℕ
spacefree dev =
    if dev.rp == dev.wp
    then dev.buffersize - 1
    else (dev.rp + dev.buffersize - dev.wp) % dev.buffersize - 1

-- What a process meets when it is woken: a signal, or the lock (if it gets it) of the pipe.
pub record Wake : Type 0 where
  pub signalled : Bool
  pub locks : Bool
  pub dev : Pipe

-- How the waiting at the start of a read or a write ends.
pub data Wait : Type 0 where
  ready : Pipe → Wait
  stopped : Errno → Pipe → Wait
  asleep : Pipe → Wait

-- The loop of `scull_p_read` (`busy` is `rp == wp`) and that of `scull_getwritespace` (`busy` is
-- `spacefree(dev) == 0`): both release the lock, give up on O_NONBLOCK or a signal, and look again
-- once they hold the lock.
unfoldable pub wait_while : (Pipe → Bool) → Bool → List Wake → Pipe → Wait
wait_while busy nonblock [] dev =
    if busy dev then (if nonblock then stopped eagain dev else asleep dev) else ready dev
wait_while busy nonblock (w ∷ wakes) dev =
    let again = wait_while busy nonblock wakes w.dev in
    if busy dev
    then (if nonblock
        then stopped eagain dev
        else if w.signalled
        then stopped erestartsys w.dev
        else if w.locks
        then again
        else stopped erestartsys w.dev)
    else ready dev

-- The buffer holds nothing to read.
unfoldable pub is_empty : Pipe → Bool
is_empty dev = dev.rp == dev.wp

-- The buffer has no room for another byte.
unfoldable pub is_full : Pipe → Bool
unfolding spacefree
is_full dev = spacefree dev == 0

-- What a call returns, what it gave the process, and the pipe.
pub record Result : Type 0 where
  pub ret : Ret
  pub delivered : List ℕ
  pub dev : Pipe

-- How many bytes `scull_p_read` gives: up to `wp`, or up to the end of the buffer.
unfoldable pub read_count : Pipe → ℕ → ℕ
read_count dev count =
    if ltb dev.rp dev.wp then min count (dev.wp - dev.rp) else min count (dev.buffersize - dev.rp)

-- `scull_p_read` behind its waiting. The process can take `room` bytes.
unfoldable pub read_data : Pipe → ℕ → ℕ → Result
read_data dev count room =
    let n = read_count dev count in
    let next = dev.rp + n in
    if ltb room n
    then record {
      ret = fail efault;
      delivered = take room (drop dev.rp (block dev.buffer));
      dev = dev;
    }
    else record {
      ret = done n;
      delivered = take n (drop dev.rp (block dev.buffer));
      dev = record dev { rp = if next == dev.buffersize then 0 else next };
    }

abbrev pub stop : Errno → Pipe → Result
stop e dev = record { ret = fail e; delivered = []; dev = dev }

-- `scull_p_read`; `none` while it is asleep.
unfoldable pub read : Bool → Bool → List Wake → Pipe → ℕ → ℕ → Option Result
read locks nonblock wakes dev count room =
    if locks
    then elim (wait_while is_empty nonblock wakes dev) [
      | ready dev' ↦ some (read_data dev' count room)
      | stopped e dev' ↦ some (stop e dev')
      | asleep dev' ↦ none
    ]
    else some (stop erestartsys dev)

-- How many bytes `scull_p_write` accepts: up to the end of the buffer, or up to `rp` less one.
unfoldable pub write_count : Pipe → ℕ → ℕ
write_count dev count =
    let fits = min count (spacefree dev) in
    if ltb dev.wp dev.rp then min fits (dev.rp - dev.wp - 1) else min fits (dev.buffersize - dev.wp)

-- The buffer after a copy to index `i`.
abbrev pub fill : Option (List ℕ) → ℕ → List ℕ → Option (List ℕ)
fill none i src = none
fill (some bytes) i src = some (copy_in bytes i src)

-- `scull_p_write` behind its waiting. Of the bytes `buf` of the process `readable` can be read; a
-- copy that fails has written those.
unfoldable pub write_data : Pipe → List ℕ → ℕ → ℕ → Result
write_data dev buf count readable =
    let n = write_count dev count in
    let next = dev.wp + n in
    if ltb readable n
    then record {
      ret = fail efault;
      delivered = [];
      dev = record dev { buffer = fill dev.buffer dev.wp (take readable buf) };
    }
    else record {
      ret = done n;
      delivered = [];
      dev = record dev {
        buffer = fill dev.buffer dev.wp (take n buf);
        wp = if next == dev.buffersize then 0 else next;
      };
    }

-- `scull_p_write`; `none` while it is asleep.
unfoldable pub write : Bool → Bool → List Wake → Pipe → List ℕ → ℕ → ℕ → Option Result
write locks nonblock wakes dev buf count readable =
    if locks
    then elim (wait_while is_full nonblock wakes dev) [
      | ready dev' ↦ some (write_data dev' buf count readable)
      | stopped e dev' ↦ some (stop e dev')
      | asleep dev' ↦ none
    ]
    else some (stop erestartsys dev)

-- `scull_p_poll`: whether POLLIN | POLLRDNORM and POLLOUT | POLLWRNORM are set.
unfoldable pub poll : Pipe → Bool × Bool
poll dev = (not (dev.rp == dev.wp), not (spacefree dev == 0))

-- The buffer that is there, or else the new one.
abbrev pub present : Option (List ℕ) → Option (List ℕ) → Option (List ℕ)
present none fresh = fresh
present (some bytes) fresh = some bytes

abbrev pub count_if : Bool → ℕ → ℕ
count_if b n = if b then n + 1 else n

-- `scull_p_open`: `size` is `scull_p_buffer`, `fresh` the block that `kmalloc` gives, if it does,
-- and the last two arguments are FMODE_READ and FMODE_WRITE.
unfoldable pub open_pipe : Bool → ℕ → Option (List ℕ) → Bool → Bool → Pipe → Ret × Pipe
open_pipe locks size fresh reads writes dev =
    if locks
    then elim (present dev.buffer fresh) [
      | none ↦ (fail enomem, dev)
      | some bytes ↦ (
        done 0,
        record dev {
          buffer = some bytes;
          buffersize = size;
          rp = 0;
          wp = 0;
          nreaders = count_if reads dev.nreaders;
          nwriters = count_if writes dev.nwriters;
        },
      )
    ]
    else (fail erestartsys, dev)

abbrev pub uncount_if : Bool → ℕ → ℕ
uncount_if b n = if b then n - 1 else n

-- `scull_p_release` of a file that was opened with these modes, which `scull_p_fasync` takes off
-- the queue first.
unfoldable pub release : Bool → Bool → Bool → Pipe → Pipe
release queued reads writes dev =
    let nreaders = uncount_if reads dev.nreaders in
    let nwriters = uncount_if writes dev.nwriters in
    record dev {
      buffer = if nreaders + nwriters == 0 then none else dev.buffer;
      nreaders = nreaders;
      nwriters = nwriters;
      async_queue = queued;
    }
