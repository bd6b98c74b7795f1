-- ===== src/Server/Thread.antt =====
-- The thread of a connection as a whole.
use mathlib.Core.Path.{subst}
use advanced_embedded_softwa.Base.{
  ℕ, ◌+◌, ◌≤◌, ◌<◌, ◌≡◌, refl, true, false, inl, inr, some, List, [], ◌∷◌, ◌++◌, if◌then◌else◌,
  Bool-cases, length, take,
}
use advanced_embedded_softwa.Server.{
  newline, buffer_max, Received, Realloc, Ended, result, waiting, endless, undefined, Pass,
  taken_in, returned, Sent, send_loop, recv_loop, Calls, Left, send_back, thread_func,
}
use advanced_embedded_softwa.Server.Recv.{NonZero, Quiet, Pieces, arrivals, joined, recv_loop_lem}
use advanced_embedded_softwa.Server.Send.{AllWork, returned-some, send_loop_lem}

-- The file opens, malloc gives blocks, `write` takes the whole line, and `send` all that it is given.
-- Every realloc, of both loops, leaves the block where it is, since the code goes on with the old
-- pointer. The line comes in pieces of at least one byte without a newline, and a last one with a
-- newline and no NUL before its first; the array on the stack, of which a short piece leaves the rest
-- as it was, and what lies behind it hold no newline at first. The file has at least `end_pos` bytes once
-- the line is counted in `end_pos`, with a first newline below that, not as the first byte, and behind
-- no NUL; no other thread changes `end_pos` meanwhile, and there is a pass for each byte up to it.
-- Then the thread takes the line off its connection, writes it to the file, counts it in `end_pos`, and
-- sends the file up to there; it leaves the mutex free, its descriptors closed and itself complete.
pub thread_func_lem :
    (calls : Calls) (end_pos : ℕ) (pieces : List (List ℕ)) (front back : List ℕ)
    (later : List (Received × Realloc)) (pass : Pass) (passes : List Pass)
    (line file_front file_back : List ℕ)
    → calls.opened ≡ true
    → calls.allocated ≡ true
    → calls.recvs ≡ arrivals pieces (front ++ (newline ∷ back)) later
    → line ≡ joined pieces (front ++ (newline ∷ back))
    → Pieces pieces
    → NonZero front
    → Quiet calls.on_stack
    → calls.writes (length line) ≡ some (length line)
    → calls.file line ≡ file_front ++ (newline ∷ file_back)
    → NonZero file_front
    → 0 < length file_front
    → length file_front < end_pos + length line
    → end_pos + length line ≤ length (calls.file line)
    → calls.shared ≡ (λ n k. n)
    → calls.passes ≡ pass ∷ passes
    → AllWork (pass ∷ passes)
    → end_pos + length line ≤ length (pass ∷ passes)
    → thread_func calls end_pos
      ≡ result record {
        holds_mutex = false;
        closed = true;
        thread_complete = true;
        written = line;
        sent = take (end_pos + length line) (calls.file line);
        end_pos = end_pos + length line;
      }
unfolding thread_func send_back
thread_func_lem calls end_pos pieces front back later pass passes line file_front file_back opened
      allocated recvs is_line p z q writes file zf some_bytes below fits alone all_passes works
      enough =
    let got : recv_loop calls.recvs calls.on_stack [] buffer_max ≡ result line =
      rw (recvs, is_line)
        (recv_loop_lem pieces front back later calls.on_stack [] buffer_max p z q) in
    let sent : send_loop calls.passes (calls.shared (end_pos + length line)) 0 buffer_max false []
          (calls.file line)
        ≡ result record { complete = true; sent = take (end_pos + length line) (calls.file line) } =
      rw (all_passes, file, alone)
        (send_loop_lem pass passes file_front file_back (end_pos + length line) buffer_max works zf
          some_bytes below (rw (← file) fits) enough) in
    rw (opened, allocated, got, writes, returned-some (length line), sent, send_back) refl

-- What holds of a thread that has come to its end, for `thread_func_ends`.
record Tidy (end_pos : ℕ) (left : Left) : Type 0 where
  marked : left.thread_complete ≡ left.closed
  free : (if left.thread_complete then left.holds_mutex else false) ≡ false
  uncounted : (if left.holds_mutex then left.end_pos else end_pos) ≡ end_pos
  unsent : (if left.holds_mutex then left.sent else []) ≡ []

abbrev IfEnded : ℕ → Ended Left → Type 0
IfEnded end_pos (result left) = Tidy end_pos left
IfEnded end_pos waiting = Unit
IfEnded end_pos endless = Unit
IfEnded end_pos undefined = Unit

send_back-IfEnded :
    (calls : Calls) (now end_pos : ℕ) (line : List ℕ) → IfEnded now (send_back calls end_pos line)
unfolding send_back
send_back-IfEnded calls now end_pos line =
    go (send_loop calls.passes (calls.shared end_pos) 0 buffer_max false [] (calls.file line))
  where
    go :
        (s : Ended Sent)
        → IfEnded now (elim s [
          | result s ↦ result record {
            holds_mutex = false;
            closed = s.complete;
            thread_complete = s.complete;
            written = line;
            sent = s.sent;
            end_pos = end_pos;
          }
          | waiting ↦ waiting
          | endless ↦ endless
          | undefined ↦ undefined
        ])
    go (result s) = record {
      marked = refl;
      free = elim (Bool-cases s.complete) [ inl e ↦ rw e refl | inr e ↦ rw e refl ];
      uncounted = refl;
      unsent = refl;
    }
    go waiting = tt
    go endless = tt
    go undefined = tt

thread_func-IfEnded : (calls : Calls) (end_pos : ℕ) → IfEnded end_pos (thread_func calls end_pos)
unfolding thread_func
thread_func-IfEnded calls end_pos = elim (Bool-cases calls.opened) [
  | inl opened ↦ elim (Bool-cases calls.allocated) [
    | inl allocated ↦
        rw (opened, allocated) (go (recv_loop calls.recvs calls.on_stack [] buffer_max))
    | inr allocated ↦ rw (opened, allocated) tt
  ]
  | inr opened ↦ rw opened record { marked = refl; free = refl; uncounted = refl; unsent = refl }
]
  where
    go :
        (r : Ended (List ℕ))
        → IfEnded end_pos (elim r [
          | result line ↦
              if returned (calls.writes (length line)) (length line)
              then send_back calls (end_pos + length line) line
              else result record {
                holds_mutex = true;
                closed = false;
                thread_complete = false;
                written = taken_in (calls.writes (length line)) line;
                sent = [];
                end_pos = end_pos;
              }
          | waiting ↦ waiting
          | endless ↦ endless
          | undefined ↦ undefined
        ])
    go (result line) = elim (Bool-cases (returned (calls.writes (length line)) (length line))) [
      | inl all ↦ rw all (send_back-IfEnded calls end_pos (end_pos + length line) line)
      | inr part ↦ rw part record { marked = refl; free = refl; uncounted = refl; unsent = refl }
    ]
    go waiting = tt
    go endless = tt
    go undefined = tt

-- However the calls end, a thread that comes to its end is marked as complete just if it closed its
-- descriptors, and then it has let go of the mutex. Where it keeps the mutex, it has sent nothing and
-- left `end_pos` as it was.
pub thread_func_ends :
    (calls : Calls) (end_pos : ℕ) (left : Left)
    → thread_func calls end_pos ≡ result left
    → (left.thread_complete ≡ left.closed)
      × ((if left.thread_complete then left.holds_mutex else false) ≡ false)
      × ((if left.holds_mutex then left.end_pos else end_pos) ≡ end_pos)
      × ((if left.holds_mutex then left.sent else []) ≡ [])
thread_func_ends calls end_pos left e =
    let tidy : Tidy end_pos left = subst (IfEnded end_pos) e (thread_func-IfEnded calls end_pos) in
    (tidy.marked, tidy.free, tidy.uncounted, tidy.unsent)
