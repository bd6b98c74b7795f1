-- ===== src/Processes/Outcomes.antt =====
-- What a caller of the exercises on processes gets.
use advanced_embedded_softwa.Base.{
  ◌&&◌, ◌≡◌, refl, Bool, true, false, inl, inr, none, some, List, [], ◌∷◌, ◌==◌, not, if◌then◌else◌,
  Bool-cases,
}
use advanced_embedded_softwa.Processes.{
  Status, exited, killed, Leaving, returns, exits, runs_program, Processes, alone, forked,
  after_wait, run_command, do_exec, run_redirected, after_redirect, do_exec_redirect,
}

-- The status that the parent sees of its child, when waitpid works: `program` is that of a program
-- that the child runs, and `rest` that of the caller's code that a child goes on with if it returns.
abbrev pub child_status : (program : Status) → (rest : Bool → Status) → Leaving → Status
child_status program rest (returns b) = rest b
child_status program rest (exits n) = exited n
child_status program rest runs_program = program

-- How the processes return from the function, the parent's return last.
abbrev pub returned :
    (program : Status) → (rest : Bool → Status) → (waits : Bool) → Processes → List Leaving
returned program rest waits (alone l) = l ∷ []
returned program rest waits (forked (returns b) parent) =
    returns b ∷ parent (if waits then some (rest b) else none) ∷ []
returned program rest waits (forked (exits n) parent) =
    parent (if waits then some (exited n) else none) ∷ []
returned program rest waits (forked runs_program parent) =
    parent (if waits then some program else none) ∷ []

-- Whether a status is that of an exit with another status than 0.
abbrev pub failed : Status → Bool
failed (exited n) = not (n == 0)
failed (killed n) = false

-- `do_exec` returns once, and true just if fork, execv and waitpid work and the program does not
-- exit with a status other than 0: also for a program that a signal ended.
pub do_exec_lem :
    (fork execv waits : Bool) (program : Status) (rest : Bool → Status)
    → returned program rest waits (do_exec fork execv)
      ≡ returns (
          if fork
          then (if execv then (if waits then not (failed program) else false) else false)
          else false)
        ∷ []
unfolding do_exec run_command after_wait
do_exec_lem false execv waits program rest = refl
do_exec_lem true true false program rest = refl
do_exec_lem true false false program rest = refl
do_exec_lem true false true program rest = refl
do_exec_lem true true true (killed n) rest = refl
do_exec_lem true true true (exited n) rest = elim (Bool-cases (n == 0)) [
  | inl e ↦ rw e refl
  | inr e ↦ rw e refl
]

after_redirect-some : (s : Status) → after_redirect (some s) ≡ returns (not (failed s))
unfolding after_redirect
after_redirect-some (killed n) = refl
after_redirect-some (exited n) = elim (Bool-cases (n == 0)) [
  | inl e ↦ rw e refl
  | inr e ↦ rw e refl
]

-- Where dup2 works, or there is no child to fail in it, `do_exec_redirect` returns once, and true just
-- if open, fork, execv and waitpid work and the program does not exit with a status other than 0. Where
-- dup2 fails, in a child that is there, the function returns twice: false in the child, which goes on
-- with the caller's code, and in the parent true just if waitpid works and that code does not end with
-- a status other than 0.
pub do_exec_redirect_lem :
    (opened fork dup2 execv waits : Bool) (program : Status) (rest : Bool → Status)
    → returned program rest waits (do_exec_redirect opened fork dup2 execv) ≡ (
        if opened && fork
        then (if dup2
            then returns (execv && waits && not (failed program)) ∷ []
            else returns false ∷ returns (waits && not (failed (rest false))) ∷ [])
        else returns false ∷ [])
unfolding do_exec_redirect run_redirected after_redirect
do_exec_redirect_lem false fork dup2 execv waits program rest = refl
do_exec_redirect_lem true false dup2 execv waits program rest = refl
do_exec_redirect_lem true true true false false program rest = refl
do_exec_redirect_lem true true true false true program rest = refl
do_exec_redirect_lem true true true true false program rest = refl
do_exec_redirect_lem true true true true true program rest = rw (after_redirect-some program) refl
do_exec_redirect_lem true true false execv false program rest = refl
do_exec_redirect_lem true true false execv true program rest =
    rw (after_redirect-some (rest false)) refl
