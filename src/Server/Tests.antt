-- ===== src/Server/Tests.antt =====
-- The server at concrete inputs: a client that sends "a", "b\n" while the file has "x\nab\n" then.
use advanced_embedded_softwa.Base.{
  ℕ, ◌+◌, ◌*◌, ◌-◌, ◌≡◌, ◌≤◌, refl, true, false, some, List, [], ◌∷◌, arith, ltb, not, ◌==◌,
  if◌then◌else◌,
}
use advanced_embedded_softwa.Server.{
  buffer_max, in_place, moved, bytes, result, undefined, endless, grow, recv_loop, Pass, send_loop,
  Calls, Left, thread_func, finds_newline, read_line, look, grow_line, Timespec, second,
  timespec_add,
}
use advanced_embedded_softwa.Server.Main.{
  Host, child, accepted, signalled, accept_loop, join_where, main, start, daemonize, serve, cleanup,
  one_argument,
}
use advanced_embedded_softwa.Server.Recv.{recv_loop_lem}
use advanced_embedded_softwa.Server.Send.{Works, AllWork, send_loop_lem}
use advanced_embedded_softwa.Server.Thread.{thread_func_lem, thread_func_ends}
use advanced_embedded_softwa.Server.Time.{timespec_add_lem}

abbrev file : List ℕ
file = b'x' ∷ 10 ∷ b'a' ∷ b'b' ∷ 10 ∷ []

abbrev line : List ℕ
line = b'a' ∷ b'b' ∷ 10 ∷ []

abbrev pass : Pass
pass = record { allocated = true; fresh = 7 ∷ []; realloc = in_place; sends = some }

abbrev passes : List Pass
passes = pass ∷ pass ∷ pass ∷ pass ∷ []

pass-Works : Works pass
pass-Works = (refl, refl, λ n. refl)

passes-AllWork : AllWork (pass ∷ passes)
passes-AllWork = (pass-Works, (pass-Works, (pass-Works, (pass-Works, (pass-Works, tt)))))

abbrev calls : Calls
calls = record {
  opened = true;
  allocated = true;
  on_stack = 1 ∷ 2 ∷ 3 ∷ [];
  recvs = (bytes (b'a' ∷ []), in_place) ∷ (bytes (b'b' ∷ 10 ∷ []), in_place) ∷ [];
  writes = some;
  file = λ w. b'x' ∷ 10 ∷ w;
  passes = pass ∷ passes;
  shared = λ n k. n;
}

recv_loop_lem_example : recv_loop calls.recvs calls.on_stack [] buffer_max ≡ result line
recv_loop_lem_example =
    recv_loop_lem ((b'a' ∷ []) ∷ []) (b'b' ∷ []) [] [] (1 ∷ 2 ∷ 3 ∷ []) [] buffer_max
      (omega arith, (omega arith, tt), tt) (omega arith, tt)
      (omega arith, (omega arith, (omega arith, tt)))

-- The first line in one piece, and then byte by byte.
send_loop_lem_example :
    send_loop (pass ∷ passes) (λ k. 5) 0 buffer_max false [] file
    ≡ result record { complete = true; sent = file }
send_loop_lem_example =
    send_loop_lem pass passes (b'x' ∷ []) line 5 buffer_max passes-AllWork (omega arith, tt)
      (omega arith) (omega arith) (omega arith) (omega arith)

-- A file that has no newline: the loop does not end.
no_newline : send_loop (pass ∷ passes) (λ k. 2) 0 buffer_max false [] (b'x' ∷ b'y' ∷ []) ≡ endless
unfolding send_loop read_line look grow_line finds_newline
no_newline = refl

-- A block of one byte must grow for the second byte that comes, and its pointer is lost if it moves.
block_moves :
    recv_loop ((bytes (b'a' ∷ []), in_place) ∷ (bytes (b'b' ∷ []), moved) ∷ []) [] [] 1 ≡ undefined
unfolding recv_loop grow finds_newline
block_moves = refl

thread_func_lem_example :
    thread_func calls 2
    ≡ result record {
      holds_mutex = false;
      closed = true;
      thread_complete = true;
      written = line;
      sent = file;
      end_pos = 5;
    }
thread_func_lem_example =
    thread_func_lem calls 2 ((b'a' ∷ []) ∷ []) (b'b' ∷ []) [] [] pass passes line (b'x' ∷ []) line
      refl refl refl refl (omega arith, (omega arith, tt), tt) (omega arith, tt)
      (omega arith, (omega arith, (omega arith, tt))) refl refl (omega arith, tt) (omega arith)
      (omega arith) (omega arith) refl refl passes-AllWork (omega arith)

-- A thread whose write is cut short.
abbrev short_calls : Calls
short_calls = record calls { writes = λ n. some (n - 1) }

abbrev short_left : Left
short_left = record {
  holds_mutex = true;
  closed = false;
  thread_complete = false;
  written = b'a' ∷ b'b' ∷ [];
  sent = [];
  end_pos = 2;
}

short_run : thread_func short_calls 2 ≡ result short_left
unfolding thread_func recv_loop grow finds_newline
short_run = refl

thread_func_ends_example :
    (short_left.thread_complete ≡ short_left.closed)
    × ((if short_left.thread_complete then short_left.holds_mutex else false) ≡ false)
    × ((if short_left.holds_mutex then short_left.end_pos else 2) ≡ 2)
    × ((if short_left.holds_mutex then short_left.sent else []) ≡ [])
thread_func_ends_example = thread_func_ends short_calls 2 short_left short_run

abbrev t0 : Timespec
t0 = record { tv_sec = 5; tv_nsec = 999000000 }

abbrev t1 : Timespec
t1 = record { tv_sec = 10; tv_nsec = 1000000 }

timespec_add_lem_example :
    ((timespec_add t0 t1).tv_sec * second + (timespec_add t0 t1).tv_nsec
      ≡ (5 * second + 999000000) + (10 * second + 1000000))
    × (ltb (timespec_add t0 t1).tv_nsec second ≡ not (999000000 + 1000000 == second))
    × ((timespec_add t0 t1).tv_nsec ≤ second)
timespec_add_lem_example = timespec_add_lem t0 t1 (omega arith) (omega arith)

not_normal : (timespec_add t0 t1).tv_nsec ≡ second
unfolding timespec_add
not_normal = refl

-- Two connections: the first thread is complete when the second comes, and then a signal arrives.
abbrev host : Host
host = record {
  mutex_init = true;
  socket = true;
  setsockopt = true;
  bind = true;
  fork = child;
  setsid = true;
  chdir = true;
  listen = true;
  rounds = accepted 1 true (λ t. false) ∷ accepted 2 true (λ t. false) ∷ signalled ∷ [];
}

-- The second search finds that the first thread is complete: the clean-up joins it again.
joined_twice :
    main (one_argument true) (record host {
      rounds = accepted 1 true (λ t. false) ∷ accepted 2 true (λ t. t == 1) ∷ signalled ∷ [];
    })
    ≡ undefined
unfolding main start daemonize serve accept_loop join_where cleanup
joined_twice = refl
