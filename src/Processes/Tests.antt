-- ===== src/Processes/Tests.antt =====
-- The exercises on processes at concrete inputs.
use advanced_embedded_softwa.Base.{true, false, ◌≡◌, [], ◌∷◌}
use advanced_embedded_softwa.Processes.{exited, killed, returns, do_exec, do_exec_redirect}
use advanced_embedded_softwa.Processes.Outcomes.{returned, do_exec_lem, do_exec_redirect_lem}

-- A program that signal 9 ends counts as a success.
do_exec_lem_example :
    returned (killed 9) (λ b. exited 1) true (do_exec true true) ≡ returns true ∷ []
do_exec_lem_example = do_exec_lem true true true (killed 9) (λ b. exited 1)

-- A child whose dup2 fails goes on with the caller's code, which exits with 1 here.
do_exec_redirect_lem_example :
    returned (exited 0) (λ b. exited 1) true (do_exec_redirect true true false true)
    ≡ returns false ∷ returns false ∷ []
do_exec_redirect_lem_example =
    do_exec_redirect_lem true true false true true (exited 0) (λ b. exited 1)
