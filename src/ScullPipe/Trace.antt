-- ===== src/ScullPipe/Trace.antt =====
-- The pipe over any sequence of reads and writes, in the order in which they hold the lock.
use mathlib.Core.List.{append-nil, append_assoc}
use advanced_embedded_softwa.Base.{
  ℕ, ◌≤◌, ◌<◌, ◌≡◌, ◌≢◌, sym, ap, ◌∙◌, List, [], ◌++◌, length, take,
}
use advanced_embedded_softwa.ScullPipe.{Pipe, read_count, read_data, write_count, write_data}
use advanced_embedded_softwa.ScullPipe.Inv.{IsValid, contents}
use advanced_embedded_softwa.ScullPipe.Fifo.{read-Took, read_fault}
use advanced_embedded_softwa.ScullPipe.Put.{write-Put, write_fault}

-- `Runs dev out inp dev'`: the calls take the pipe from `dev` to `dev'`, give the readers `out` in
-- all and accept `inp` in all from the writers. A call whose copy fails does not count.
pub data Runs (dev : Pipe) : List ℕ → List ℕ → Pipe → Type 0 where
  start : Runs dev [] [] dev
  reads :
      {out inp : List ℕ} {mid : Pipe} (count room : ℕ)
      → Runs dev out inp mid
      → mid.rp ≢ mid.wp
      → read_count mid count ≤ room
      → Runs dev (out ++ (read_data mid count room).delivered) inp (read_data mid count room).dev
  read_faults :
      {out inp : List ℕ} {mid : Pipe} (count room : ℕ)
      → Runs dev out inp mid
      → room < read_count mid count
      → Runs dev out inp (read_data mid count room).dev
  writes :
      {out inp : List ℕ} {mid : Pipe} (buf : List ℕ) (count readable : ℕ)
      → Runs dev out inp mid
      → count ≤ length buf
      → write_count mid count ≤ readable
      → Runs dev out
          (inp ++ take (write_count mid count) buf)
          (write_data mid buf count readable).dev
  write_faults :
      {out inp : List ℕ} {mid : Pipe} (buf : List ℕ) (count readable : ℕ)
      → Runs dev out inp mid
      → readable < write_count mid count
      → Runs dev out inp (write_data mid buf count readable).dev

-- From a valid pipe the calls keep it valid, and what the readers got, followed by what still waits,
-- is what waited first followed by what the writers gave: no byte is lost, doubled or out of order.
pub runs_lem :
    (dev : Pipe) (out inp : List ℕ) (last : Pipe)
    → IsValid dev
    → Runs dev out inp last
    → (contents dev ++ inp ≡ out ++ contents last) × IsValid last
runs_lem dev out inp last v start = (append-nil (contents dev), v)
runs_lem dev out inp last v (reads {out = o} {mid = mid} count room runs waits fits) =
    let (same, valid) = runs_lem dev o inp mid v runs in
    let took = read-Took mid count room valid waits fits in
    (same ∙ ap (λ w. o ++ w) took.queue ∙ sym (append_assoc o _ _), took.valid)
runs_lem dev out inp last v (read_faults {mid = mid} count room runs short) =
    let (same, valid) = runs_lem dev out inp mid v runs in
    let (_, kept) = read_fault mid count room short in rw kept (same, valid)
runs_lem dev out inp last v (writes {inp = i} {mid = mid} buf count readable runs given fits) =
    let (same, valid) = runs_lem dev out i mid v runs in
    let put = write-Put mid buf count readable valid given fits in
    (
      sym (append_assoc (contents dev) i _)
          ∙ ap (λ w. w ++ take (write_count mid count) buf) same
          ∙ append_assoc out _ _
          ∙ ap (λ w. out ++ w) (sym put.queue),
      put.valid,
    )
runs_lem dev out inp last v (write_faults {mid = mid} buf count readable runs short) =
    let (same, valid) = runs_lem dev out inp mid v runs in
    let (_, kept, still) = write_fault mid buf count readable valid short in
    (same ∙ ap (λ w. out ++ w) (sym kept), still)
