-- ===== src/Server/Main.antt =====
-- The main function of the socket server: its start, the accept loop with its list of threads, and
-- the clean-up. What the system calls give is the record `Host`.
pub mod Joins
use advanced_embedded_softwa.Base.{
  ℕ, zero, suc, ◌+◌, Bool, true, false, Option, none, some, List, [], ◌∷◌, ◌++◌, if◌then◌else◌, not,
}
use advanced_embedded_softwa.Base.Int.{ℤ, pos, negsuc}
use advanced_embedded_softwa.Server.{Ended, result, waiting, endless, undefined}

-- What a round of the accept loop meets: a signal before it, an error of `accept`, or a connection.
-- For a connection `complete` tells which threads are marked as complete when the list is searched.
pub data Round : Type 0 where
  signalled : Round
  accept_fails : Round
  accepted : ℕ → (created : Bool) → (complete : ℕ → Bool) → Round

-- `struct slist_data_s`: the thread of a connection, and whether it can be joined: it was created and
-- is not joined yet. A join of another one is undefined.
pub record Node : Type 0 where
  pub mythread : ℕ
  pub joinable : Bool

-- The list, its head first, and the threads that were joined, in the order of the joins.
pub record Threads : Type 0 where
  pub listed : List Node
  pub joined : List ℕ

-- The list after a search, and the threads that it joined.
pub record Searched : Type 0 where
  pub nodes : List Node
  pub threads : List ℕ

abbrev pub passed : Node → Option Searched → Option Searched
passed n none = none
passed n (some r) = some record { nodes = n ∷ r.nodes; threads = r.threads }

abbrev pub joins : Node → Option Searched → Option Searched
joins n none = none
joins n (some r) =
    some
      record { nodes = record n { joinable = false } ∷ r.nodes; threads = n.mythread ∷ r.threads }

-- A walk over the list that joins these threads and leaves them in the list; nothing where that is
-- undefined.
unfoldable pub join_where : (ℕ → Bool) → List Node → Option Searched
join_where which [] = some record { nodes = []; threads = [] }
join_where which (n ∷ nodes) =
    let rest = join_where which nodes in
    if which n.mythread then (if n.joinable then joins n rest else none) else passed n rest

-- The accept loop, whose search joins the threads that are complete.
unfoldable pub accept_loop : List Round → Threads → Ended Threads
accept_loop [] s = waiting
accept_loop (signalled ∷ rounds) s = result s
accept_loop (accept_fails ∷ rounds) s = result s
accept_loop (accepted t created complete ∷ rounds) s =
    let listed = record { mythread = t; joinable = created } ∷ s.listed in
    if created
    then elim (join_where complete listed) [
      | none ↦ undefined
      | some r ↦ accept_loop rounds record { listed = r.nodes; joined = s.joined ++ r.threads }
    ]
    else result record { listed = listed; joined = s.joined }

pub data Fork : Type 0 where
  child parent fork_fails : Fork

-- The command line: no argument, one, which may be "-d", or more.
pub data Arguments : Type 0 where
  no_argument : Arguments
  one_argument : (is_d : Bool) → Arguments
  more_arguments : Arguments

-- Whether each call succeeds, and what the accept loop meets.
pub record Host : Type 0 where
  pub mutex_init : Bool
  pub socket : Bool
  pub setsockopt : Bool
  pub bind : Bool
  pub fork : Fork
  pub setsid : Bool
  pub chdir : Bool
  pub listen : Bool
  pub rounds : List Round

-- What `main` returns, whether it closed the socket and destroyed the mutex, and the threads that it
-- joined.
pub record Exit : Type 0 where
  pub code : ℤ
  pub cleaned : Bool
  pub joined : List ℕ

-- A return before the clean-up.
abbrev pub leave : ℤ → Exit
leave code = record { code = code; cleaned = false; joined = [] }

-- The end of `main` after the walk that joins all threads, behind those joined before.
abbrev pub ended : List ℕ → Option Searched → Ended Exit
ended joined none = undefined
ended joined (some r) = result record { code = pos 0; cleaned = true; joined = joined ++ r.threads }

-- What follows the label `cleanup`, with the function of that name: all threads of the list are
-- joined, and the list is freed.
unfoldable pub cleanup : Threads → Ended Exit
cleanup s = ended s.joined (join_where (λ t. true) s.listed)

abbrev pub no_threads : Threads
no_threads = record { listed = []; joined = [] }

-- What follows the accept loop.
abbrev pub cleaned_up : Ended Threads → Ended Exit
cleaned_up (result s) = cleanup s
cleaned_up waiting = waiting
cleaned_up endless = endless
cleaned_up undefined = undefined

-- From `listen` on.
unfoldable pub serve : Host → Ended Exit
serve host =
    if host.listen then cleaned_up (accept_loop host.rounds no_threads) else cleanup no_threads

-- The part for the daemon, and what follows.
unfoldable pub daemonize : Host → Ended Exit
daemonize host = elim host.fork [
  | fork_fails ↦ result (leave (negsuc 0))
  | parent ↦ result (leave (pos 0))
  | child ↦
      if host.setsid
      then (if host.chdir then serve host else result (leave (negsuc 0)))
      else result (leave (negsuc 0))
]

-- The part that opens the socket.
unfoldable pub start : Host → Bool → Ended Exit
start host daemon =
    if host.mutex_init
    then (if host.socket
        then (if host.setsockopt
            then (if host.bind
                then (if daemon then daemonize host else serve host)
                else cleanup no_threads)
            else cleanup no_threads)
        else cleanup no_threads)
    else cleanup no_threads

-- `main`
unfoldable pub main : Arguments → Host → Ended Exit
main no_argument host = start host false
main (one_argument is_d) host = start host is_d
main more_arguments host = result (leave (negsuc 0))
