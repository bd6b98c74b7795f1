-- ===== src/Server/Main/Joins.antt =====
-- Which threads the main function joins when it comes to its end.
use advanced_embedded_softwa.Base.{
  ℕ, ◌≡◌, ◌⊎◌, Bool, true, false, Option, none, some, List, [], ◌∷◌, ◌++◌,
}
use advanced_embedded_softwa.Server.{Ended, result, waiting, endless, undefined}
use advanced_embedded_softwa.Server.Main.{
  Round, signalled, accept_fails, accepted, Node, Searched, Exit,
}

-- The connections that are accepted until the loop is left, the last one first.
abbrev pub connections : List Round → List ℕ
connections [] = []
connections (signalled ∷ rounds) = []
connections (accept_fails ∷ rounds) = []
connections (accepted t created complete ∷ rounds) = connections rounds ++ (t ∷ [])

-- None of the threads is complete.
abbrev pub NoneComplete : (ℕ → Bool) → List ℕ → Type 0
NoneComplete complete [] = Unit
NoneComplete complete (t ∷ threads) = (complete t ≡ false) × NoneComplete complete threads

-- The loop is left by a signal or an error of `accept`, every thread until then is created, and when
-- the list is searched none of the threads so far is complete.
abbrev pub Untouched : List ℕ → List Round → Type 0
Untouched earlier [] = false ≡ true
Untouched earlier (signalled ∷ rounds) = Unit
Untouched earlier (accept_fails ∷ rounds) = Unit
Untouched earlier (accepted t created complete ∷ rounds) =
    (created ≡ true) × NoneComplete complete (t ∷ earlier) × Untouched (t ∷ earlier) rounds

-- Nodes of threads that can all be joined.
abbrev fresh : List ℕ → List Node
fresh [] = []
fresh (t ∷ threads) = record { mythread = t; joinable = true } ∷ fresh threads

-- A list with a node that can not be joined.
abbrev Spent : List Node → Type 0
Spent [] = false ≡ true
Spent (n ∷ nodes) = (n.joinable ≡ false) ⊎ Spent nodes

-- A walk that is undefined, or leaves a node that can not be joined.
abbrev Spends : Option Searched → Type 0
Spends none = Unit
Spends (some r) = Spent r.nodes

-- What follows a loop over a spent list does not come to a result.
abbrev Ends : Ended Exit → Type 0
Ends (result e) = Unit
Ends waiting = false ≡ true
Ends endless = false ≡ true
Ends undefined = false ≡ true
