-- ===== src/Processes.antt =====
-- The exercises on processes: assignments-3-and-later-saloni1307-master/examples/systemcalls/systemcalls.c.
-- What the system calls give are arguments. A function that forks goes on in two processes; a process
-- may return from it, leave with an exit status, or run another program.
pub mod Outcomes
mod Tests
use advanced_embedded_softwa.Base.{ℕ, Bool, true, false, Option, none, some, ◌==◌, if◌then◌else◌}
use advanced_embedded_softwa.Base.Int.{ℤ, pos, negsuc, is_zero}

-- The status that waitpid gives of a child: it exited, or a signal ended it.
pub data Status : Type 0 where
  exited : ℕ → Status
  killed : ℕ → Status

-- How a process leaves a function.
pub data Leaving : Type 0 where
  returns : Bool → Leaving
  exits : ℕ → Leaving
  runs_program : Leaving

-- The two processes after a fork, or the one that there is without: what the caller does is given
-- as a function of what waitpid gives, nothing for -1.
pub data Processes : Type 0 where
  alone : Leaving → Processes
  forked : (child : Leaving) → (parent : Option Status → Leaving) → Processes

-- `do_system`, of what `system` returns.
unfoldable pub do_system : ℤ → Bool
do_system sys = is_zero sys

-- What the parent does once waitpid is back.
unfoldable pub after_wait : Option Status → Leaving
after_wait none = returns false
after_wait (some (exited n)) = if n == 0 then returns true else returns false
after_wait (some (killed n)) = returns true

-- What a child does from execv on; the status -1 is 255 for the parent.
unfoldable pub run_command : Bool → Leaving
run_command execv = if execv then runs_program else exits 255

-- `do_exec`: whether fork and execv succeed.
unfoldable pub do_exec : Bool → Bool → Processes
do_exec fork execv = if fork then forked (run_command execv) after_wait else alone (returns false)

-- What a child of `do_exec_redirect` does once dup2 is done.
unfoldable pub run_redirected : Bool → Leaving
run_redirected execv = if execv then runs_program else exits 255

-- What the parent of `do_exec_redirect` does once waitpid is back.
unfoldable pub after_redirect : Option Status → Leaving
after_redirect none = returns false
after_redirect (some (exited n)) = if n == 0 then returns true else returns false
after_redirect (some (killed n)) = returns true

-- `do_exec_redirect`: whether open, fork, dup2 and execv succeed.
unfoldable pub do_exec_redirect : Bool → Bool → Bool → Bool → Processes
do_exec_redirect opened fork dup2 execv =
    if opened
    then (if fork
        then forked (if dup2 then run_redirected execv else returns false) after_redirect
        else alone (returns false))
    else alone (returns false)
