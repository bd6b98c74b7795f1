-- ===== src/Echo.antt =====
-- The socket server on the character driver: a thread of
-- assignments-3-and-later-saloni1307-master/server/aesdsocket.c whose file is the device of
-- assignments-3-and-later-saloni1307-master/aesd-char-driver/main.c.
mod Tests
use mathlib.Core.Path.{subst, ap₂}
use mathlib.Core.List.{append-nil, append_assoc}
use advanced_embedded_softwa.Base.{
  ℕ, zero, suc, ◌+◌, ◌-◌, ◌^◌, ◌≤◌, ◌<◌, ◌≡◌, ◌≢◌, refl, sym, ap, ◌∙◌, Bool, true, false, not, inl,
  inr, Option, none, some, List, [], ◌∷◌, ◌++◌, arith, if◌then◌else◌, length, take, drop,
  length-append, take_of_le, take-append-drop,
}
use advanced_embedded_softwa.Base.Elems.{drop_all, drop_add}
use advanced_embedded_softwa.Kernel.{Heap, Kernel, IsLawful, Ret, done, fail}
use advanced_embedded_softwa.CharDriver as Driver
use advanced_embedded_softwa.CharDriver.{Device, ReadResult}
use advanced_embedded_softwa.CharDriver.Spec.{Log, settle, append, Represents}
use advanced_embedded_softwa.CircularBuffer.Add.{make_room}
use advanced_embedded_softwa.CharDriver.Read.{concat, Reads, read_refines}
use advanced_embedded_softwa.CharDriver.Write.{Wrote, write_refines}
use advanced_embedded_softwa.Server.{
  newline, Received, Realloc, result, Pass, Calls, Left, thread_func,
}
use advanced_embedded_softwa.Server.Recv.{NonZero, Quiet, Pieces, arrivals, joined}
use advanced_embedded_softwa.Server.Send.{AllWork}
use advanced_embedded_softwa.Server.Thread.{thread_func_lem}

-- The bytes of a read, and of those after it.
abbrev given : Ret → ReadResult → (ℕ → List ℕ) → List ℕ
given (done zero) r later = []
given (done (suc n)) r later = r.delivered ++ later r.f_pos
given (fail e) r later = []

abbrev after_read : Option ReadResult → (ℕ → List ℕ) → List ℕ
after_read none later = []
after_read (some r) later = given r.ret r later

-- What `read` returns for one byte after another, up to the first call that gives none.
unfoldable pub read_bytes : Kernel → Heap → Device → ℕ → ℕ → List ℕ
read_bytes k h dev zero f_pos = []
read_bytes k h dev (suc fuel) f_pos =
    after_read (Driver.read k h dev 1 f_pos) (λ at. read_bytes k h dev fuel at)

-- What `write` returns to a process, nothing for -1.
abbrev pub returns : Ret → Option ℕ
returns (done n) = some n
returns (fail e) = none

-- The calls of a thread that writes `line` to a device: `fuel` bytes of it can be read.
abbrev pub on_device : Kernel → Heap → Device → List ℕ → ℕ → Calls → Calls
on_device k h dev line fuel calls = record calls {
  writes = λ n. returns (Driver.write k h dev line n 0).ret;
  file = λ written.
      let w = Driver.write k h dev written (length written) 0 in read_bytes k w.heap w.dev fuel 0;
}

module _ {k : Kernel} (lawful : IsLawful k) (locks : k.locks ≡ true)
    (copies : (h : Heap) (p at n : ℕ) → (k.copy_to_user h p at n).0 ≡ 0) where
  -- A process whose memory can be written reads the whole log.
  pub read_bytes-concat :
      (h : Heap) (dev : Device) (l : Log) (fuel f_pos : ℕ)
      → Represents h dev l
      → length (concat l.lines) < 2 ^ 31
      → f_pos ≤ length (concat l.lines)
      → length (concat l.lines) ≤ f_pos + fuel
      → read_bytes k h dev fuel f_pos ≡ drop f_pos (concat l.lines)
  unfolding read_bytes
  read_bytes-concat h dev l zero f_pos rep small inside enough =
      sym (drop_all f_pos (concat l.lines) (omega arith))
  read_bytes-concat h dev l (suc fuel) f_pos rep small inside enough =
      let (r, e, reads) = read_refines lawful h dev l 1 f_pos locks rep small (omega arith) in
      rw e (go r reads (λ at ok left. read_bytes-concat h dev l fuel at rep small ok left))
    where
      all : List ℕ
      all = concat l.lines

      go :
          (r : ReadResult)
          → Reads k h all 1 f_pos r
          → ((at : ℕ)
              → at ≤ length all
              → length all ≤ at + fuel
              → read_bytes k h dev fuel at ≡ drop at all)
          → given r.ret r (λ at. read_bytes k h dev fuel at) ≡ drop f_pos all
      go r (Reads.at_end past same) later = rw same (sym (drop_all f_pos all past))
      go r (Reads.faulted p at n bad ret pos) later = absurd (bad (copies h p at n))
      go r (Reads.gave zero room in_all some_byte same) later = absurd (ground arith)
      go r (Reads.gave (suc n) room in_all some_byte same) later =
          rw (same, later (f_pos + suc n) in_all (omega arith), sym (drop_add f_pos (suc n) all))
            (take-append-drop (suc n) (drop f_pos all))

has_newline-append :
    (xs ys : List ℕ) → Driver.has_newline ys ≡ true → Driver.has_newline (xs ++ ys) ≡ true
unfolding Driver.has_newline
has_newline-append [] ys e = e
has_newline-append (x ∷ xs) ys e = rw (has_newline-append xs ys e) (ground arith)

has_newline-joined :
    (pieces : List (List ℕ)) (front back : List ℕ)
    → Driver.has_newline (joined pieces (front ++ (newline ∷ back))) ≡ true
unfolding Driver.has_newline
has_newline-joined [] front back = has_newline-append front (newline ∷ back) refl
has_newline-joined (piece ∷ pieces) front back =
    has_newline-append piece _ (has_newline-joined pieces front back)

concat-append :
    (lines : List (List ℕ)) (line : List ℕ) → concat (lines ++ (line ∷ [])) ≡ concat lines ++ line
concat-append [] line = append-nil line
concat-append (l ∷ lines) line =
    ap (λ rest. l ++ rest) (concat-append lines line) ∙ sym (append_assoc l (concat lines) line)

-- A log with one more line.
abbrev pub longer : Log → List ℕ → Log
longer l line = record { lines = l.lines ++ (line ∷ []); pending = [] }

append-longer :
    (l : Log) (line : List ℕ)
    → l.pending ≡ []
    → length l.lines < 10
    → Driver.has_newline line ≡ true
    → append l line ≡ longer l line
unfolding append settle
append-longer l line none_waits room ends =
    let keep : make_room l.lines ≡ l.lines = ground arith in rw (none_waits, ends, keep) refl

done_eq : (m n : ℕ) → done m ≡ done n → m ≡ n
done_eq m n e = ground arith

-- A write that takes in a whole line.
written_lem :
    (k : Kernel) (h : Heap) (dev : Device) (l : Log) (line : List ℕ)
    → IsLawful k
    → k.locks ≡ true
    → Represents h dev l
    → l.pending ≡ []
    → length l.lines < 10
    → Driver.has_newline line ≡ true
    → length line < 2 ^ 31
    → (Driver.write k h dev line (length line) 0).ret ≡ done (length line)
    → Represents
        (Driver.write k h dev line (length line) 0).heap
        (Driver.write k h dev line (length line) 0).dev
        (longer l line)
written_lem k h dev l line lawful locks rep none_waits room ends small taken =
    let none_size : length l.pending ≡ 0 = ap length none_waits in
    elim (write_refines k h dev l line 0 lawful locks rep (omega arith)) [
      | inl (missing, failed) ↦ absurd (ground arith)
      | inr (n, wrote) ↦
          (let all : n ≡ length line = done_eq n (length line) (sym wrote.ret ∙ taken) in
            let whole : take n line ≡ line = take_of_le n line (omega arith) in
            subst
              (λ log.
                Represents (Driver.write k h dev line (length line) 0).heap
                  (Driver.write k h dev line (length line) 0).dev log)
              (ap (append l) whole ∙ append-longer l line none_waits room ends) wrote.log)
    ]

-- A thread whose file is a device with fewer than ten lines and none that waits for its newline, and
-- whose `end_pos` counts their bytes; no other thread changes it or the device meanwhile. The kernel
-- keeps its laws, its lock is got, and memory can be copied to the process; the device takes in the line
-- whole. The file opens, malloc gives blocks, and `send` takes all that it is given. Every realloc of
-- the thread leaves the block where it is, since the code goes on with the old pointer. The line comes
-- in pieces of at least one byte without a newline, and a last one with a newline and no NUL before its
-- first; the array on the stack and what lies behind it hold no newline at first. The text of
-- the device with the line is below 2 GiB, its first newline neither comes first nor behind a NUL, and
-- there is a pass for each of its bytes. Then the thread ends, with the mutex free and itself complete; the client has got the lines of the
-- device and its own line behind them; `end_pos` counts them all; and the device stands for the log
-- with that line more.
pub echo_lem :
    (k : Kernel) (h : Heap) (dev : Device) (l : Log) (calls : Calls) (fuel : ℕ)
    (pieces : List (List ℕ)) (front back : List ℕ) (later : List (Received × Realloc)) (pass : Pass)
    (passes : List Pass) (line first rest : List ℕ)
    → IsLawful k
    → k.locks ≡ true
    → ((h : Heap) (p at n : ℕ) → (k.copy_to_user h p at n).0 ≡ 0)
    → Represents h dev l
    → l.pending ≡ []
    → length l.lines < 10
    → (Driver.write k h dev line (length line) 0).ret ≡ done (length line)
    → calls.opened ≡ true
    → calls.allocated ≡ true
    → calls.recvs ≡ arrivals pieces (front ++ (newline ∷ back)) later
    → line ≡ joined pieces (front ++ (newline ∷ back))
    → Pieces pieces
    → NonZero front
    → Quiet calls.on_stack
    → concat l.lines ++ line ≡ first ++ (newline ∷ rest)
    → NonZero first
    → 0 < length first
    → length (concat l.lines ++ line) < 2 ^ 31
    → length (concat l.lines ++ line) ≤ fuel
    → calls.shared ≡ (λ n k. n)
    → calls.passes ≡ pass ∷ passes
    → AllWork (pass ∷ passes)
    → length (concat l.lines ++ line) ≤ length (pass ∷ passes)
    → (thread_func (on_device k h dev line fuel calls) (length (concat l.lines))
        ≡ result record {
          holds_mutex = false;
          closed = true;
          thread_complete = true;
          written = line;
          sent = concat l.lines ++ line;
          end_pos = length (concat l.lines ++ line);
        })
      × Represents
          (Driver.write k h dev line (length line) 0).heap
          (Driver.write k h dev line (length line) 0).dev
          (longer l line)
echo_lem k h dev l calls fuel pieces front back later pass passes line first rest lawful locks
      copies rep none_waits room taken opened allocated recvs is_line p z q text zf some_bytes small
      enough_fuel alone all_passes works enough =
    let total = length-append (concat l.lines) line in
    let ends : Driver.has_newline line ≡ true = rw is_line (has_newline-joined pieces front back) in
    let stands =
      written_lem k h dev l line lawful locks rep none_waits room ends (omega arith) taken in
    let all = concat-append l.lines line in
    let same : length (concat (longer l line).lines) ≡ length (concat l.lines ++ line) =
      ap length all in
    let now = on_device k h dev line fuel calls in
    let file : now.file line ≡ concat l.lines ++ line =
      read_bytes-concat lawful locks copies _ _ (longer l line) fuel 0 stands (omega arith)
        (omega arith) (omega arith)
      ∙ all in
    let filled : length (now.file line) ≡ length (concat l.lines) + length line =
      ap length file ∙ total in
    let split = ap length text ∙ length-append first (newline ∷ rest) in
    let sent : take (length (concat l.lines) + length line) (now.file line)
        ≡ concat l.lines ++ line =
      take_of_le (length (concat l.lines) + length line) (now.file line) (omega arith) ∙ file in
    let ended =
      thread_func_lem now (length (concat l.lines)) pieces front back later pass passes line first
        rest opened allocated recvs is_line p z q (ap returns taken) (file ∙ text) zf some_bytes
        (omega arith) (omega arith) alone all_passes works (omega arith) in
    (
      ended
          ∙ ap₂
              (λ bytes count. result record {
                holds_mutex = false;
                closed = true;
                thread_complete = true;
                written = line;
                sent = bytes;
                end_pos = count;
              })
              sent (sym total),
      stands,
    )
