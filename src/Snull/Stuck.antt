-- ===== src/Snull/Stuck.antt =====
-- A device that sends with an empty pool.
use advanced_embedded_softwa.Base.{ℕ, ◌≡◌, refl, Bool, true, false, none, some, List}
use advanced_embedded_softwa.Snull.{Net, Config, priv, get_tx_buffer, filled, hw_tx, tx}
use advanced_embedded_softwa.Snull.Send.{long_enough}

-- A device whose lock is free and whose pool is empty sends a packet, which returns, and then a
-- second one, which does not: it waits for the lock that the first one has kept.
pub tx_exhausted :
    (c : Config) (alloc : Bool) (net : Net) (d : Bool) (skb skb' : ℕ) (bytes bytes' : List ℕ)
    → (priv net d).locked ≡ false
    → (priv net d).ppool ≡ 0
    → (net' : Net) × (tx c alloc net d skb bytes ≡ some net')
      × (tx c alloc net' d skb' bytes' ≡ none)
unfolding tx hw_tx get_tx_buffer filled
tx_exhausted c alloc net false skb skb' bytes bytes' free empty = (
  record net { first = record net.first { skb = some skb; locked = true } },
  rw (long_enough bytes, free, empty) refl,
  rw (long_enough bytes') refl,
)
tx_exhausted c alloc net true skb skb' bytes bytes' free empty = (
  record net { second = record net.second { skb = some skb; locked = true } },
  rw (long_enough bytes, free, empty) refl,
  rw (long_enough bytes') refl,
)
