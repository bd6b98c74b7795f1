-- ===== src/Snull/Tests.antt =====
-- The network driver at concrete inputs.
use advanced_embedded_softwa.Base.{ℕ, ◌≡◌, refl, true, false, none, some, List, [], ◌∷◌}
use advanced_embedded_softwa.Snull.{Stats, Net, Config, tx}
use advanced_embedded_softwa.Snull.Pool.{Holds, owned}
use advanced_embedded_softwa.Snull.Send.{Idle, Sending}
use advanced_embedded_softwa.Snull.Device.{init, setup_loop, setup_pool}
use advanced_embedded_softwa.Snull.Life.{Event, sends, polls, opens, happen_all, happen_all-Holds}
use advanced_embedded_softwa.Snull.Stuck.{tx_exhausted}

abbrev stats : Stats
stats = record {
  rx_packets = 0;
  rx_bytes = 0;
  rx_dropped = 0;
  tx_packets = 0;
  tx_bytes = 0;
  tx_errors = 0;
}

abbrev device : Idle
device = record {
  stats = stats;
  ppool = 8;
  tx_packetlen = 0;
  skb = none;
  stopped = false;
  scheduled = false;
}

abbrev csum : List ℕ → ℕ × ℕ
csum header = (1, 2)

abbrev sendings : List Sending
sendings =
    record { from = false; skb = 5; bytes = 1 ∷ [] }
    ∷ record { from = true; skb = 6; bytes = 2 ∷ [] }
    ∷ []

-- Two devices as they are set up, with NAPI.
abbrev napi : Config
napi = record { use_napi = true; lockup = 0; ip_fast_csum = csum }

abbrev net : Net
net = record { first = init 2 9; second = init 2 1; delivered = []; freed = [] }

init_pool : (init 2 9).ppool ≡ 2
unfolding init setup_pool setup_loop
init_pool = refl

abbrev events : List Event
events =
    opens false
    ∷ sends true false 5 (1 ∷ [])
    ∷ sends true false 6 []
    ∷ polls 2 (λ n. true) true true
    ∷ []

happen_all-Holds_example : Holds false (owned net false) (happen_all napi net events)
happen_all-Holds_example = happen_all-Holds false napi net events

tx_exhausted_example :
    (net' : Net) × (tx napi true (record net { first = record net.first { ppool = 0 } }) false 1 []
      ≡ some net')
    × (tx napi true net' false 2 [] ≡ none)
unfolding init setup_pool
tx_exhausted_example =
    tx_exhausted napi true (record net { first = record net.first { ppool = 0 } }) false 1 2 [] []
      refl refl
