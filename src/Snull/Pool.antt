-- ===== src/Snull/Pool.antt =====
-- No packet is lost: those of a device are in its pool or in the queue of one of the two.
use mathlib.Core.Path.{subst}
use advanced_embedded_softwa.Base.{
  ℕ, ◌+◌, ◌-◌, ◌%◌, ◌≡◌, refl, sym, ap, ◌∙◌, Bool, true, false, not, ◌&&◌, Option, none, some, List,
  [], ◌∷◌, arith, ltb, ◌==◌, if◌then◌else◌, length,
}
use advanced_embedded_softwa.Base.Chain.{◌>>=◌, if_cases}
use advanced_embedded_softwa.Snull.{
  Packet, Priv, Net, Config, priv, with_priv, get_tx_buffer, release_buffer, enqueue_buf, rx,
  tx_done, take_rx, released, regular_interrupt, napi_interrupt, interrupt, rewrite, signal, filled,
  hw_tx, padded, tx,
}

-- A number of packets of device `e`, counted for device `d`.
abbrev pub mine : Bool → Bool → ℕ → ℕ
mine false false n = n
mine true true n = n
mine false true n = 0
mine true false n = 0

unfoldable pub count : Bool → List Packet → ℕ
count d [] = 0
count d (pkt ∷ queue) = mine pkt.owner d 1 + count d queue

unfoldable pub owned : Net → Bool → ℕ
owned net d = (priv net d).ppool + count d net.first.rx_queue + count d net.second.rx_queue

-- What a change of one device does to the count.
pub change_lem :
    (net : Net) (e : Bool) (p : Priv) (d : Bool)
    → owned (with_priv net e p) d + mine e d (priv net e).ppool + count d (priv net e).rx_queue
      ≡ owned net d + mine e d p.ppool + count d p.rx_queue
unfolding owned
change_lem net false p false = omega arith
change_lem net false p true = omega arith
change_lem net true p false = omega arith
change_lem net true p true = omega arith

priv_with : (net : Net) (e : Bool) (p : Priv) → priv (with_priv net e p) e ≡ p
priv_with net false p = refl
priv_with net true p = refl

module _ (d : Bool) where
  -- As many packets of the device as `n`.
  abbrev pub Holds : ℕ → Option Net → Type 0
  Holds n none = Unit
  Holds n (some net) = owned net d ≡ n

  mine_add : (e : Bool) (n : ℕ) → mine e d (n + 1) ≡ mine e d n + mine e d 1
  mine_add e n = go e d
    where
      go : (e d : Bool) → mine e d (n + 1) ≡ mine e d n + mine e d 1
      go false false = refl
      go true true = refl
      go false true = refl
      go true false = refl

  -- The fields that are not counted.
  pub aside :
      (net : Net) (e : Bool) (p : Priv)
      → p.ppool ≡ (priv net e).ppool
      → p.rx_queue ≡ (priv net e).rx_queue
      → owned (with_priv net e p) d ≡ owned net d
  aside net e p pool queue =
      let pool' : mine e d p.ppool ≡ mine e d (priv net e).ppool = ap (mine e d) pool in
      let queue' : count d p.rx_queue ≡ count d (priv net e).rx_queue = ap (count d) queue in
      omega (arith, change_lem net e p d)

  pub release-Holds :
      (net : Net) (pkt : Packet) → Holds (owned net d + mine pkt.owner d 1) (release_buffer net pkt)
  unfolding release_buffer
  release-Holds net pkt =
      let p = priv net pkt.owner in
      if_cases (Holds (owned net d + mine pkt.owner d 1)) p.locked (λ busy. tt)
        (λ free. omega (
          arith,
          change_lem net pkt.owner
              (record p {
                ppool = p.ppool + 1;
                stopped = if p.ppool == 0 then false else p.stopped;
              })
              d,
          mine_add pkt.owner p.ppool,
        ))

  enqueue-Holds :
      (net : Net) (e : Bool) (pkt : Packet)
      → Holds (owned net d + mine pkt.owner d 1) (enqueue_buf net e pkt)
  unfolding enqueue_buf count
  enqueue-Holds net e pkt =
      let p = priv net e in
      if_cases (Holds (owned net d + mine pkt.owner d 1)) p.locked (λ busy. tt)
        (λ free. omega (arith, change_lem net e (record p { rx_queue = pkt ∷ p.rx_queue }) d))

  -- The packet that is got is no longer in the pool.
  abbrev pub Took : ℕ → Bool → Option (Bool × Net) → Type 0
  Took n e none = Unit
  Took n e (some (true, net)) = owned net d + mine e d 1 ≡ n
  Took n e (some (false, net)) = owned net d ≡ n

  get_tx_buffer-Took : (net : Net) (e : Bool) → Took (owned net d) e (get_tx_buffer net e)
  unfolding get_tx_buffer
  get_tx_buffer-Took net e =
      let p = priv net e in
      if_cases (Took (owned net d) e) p.locked (λ busy. tt)
        (λ free.
          if_cases (Took (owned net d) e) (p.ppool == 0)
            (λ empty. aside net e (record p { locked = true }) refl refl)
            (λ some_left.
              let q : Priv = record p {
                ppool = p.ppool - 1;
                stopped = if p.ppool == 1 then true else p.stopped;
              } in
              let back : p.ppool - 1 + 1 ≡ p.ppool = ground arith in
              let parts : mine e d p.ppool ≡ mine e d (p.ppool - 1) + mine e d 1 =
                ap (mine e d) (sym back) ∙ mine_add e (p.ppool - 1) in
              omega (arith, change_lem net e q d)))

  outside_delivered :
      (net : Net) (delivered : List (Bool × List ℕ))
      → owned (record net { delivered = delivered }) d ≡ owned net d
  unfolding owned
  outside_delivered net delivered = go d
    where
      go : (d : Bool) → owned (record net { delivered = delivered }) d ≡ owned net d
      go false = refl
      go true = refl

  outside_freed :
      (net : Net) (freed : List ℕ) → owned (record net { freed = freed }) d ≡ owned net d
  unfolding owned
  outside_freed net freed = go d
    where
      go : (d : Bool) → owned (record net { freed = freed }) d ≡ owned net d
      go false = refl
      go true = refl

  pub owned-rx :
      (alloc : Bool) (net : Net) (e : Bool) (pkt : Packet)
      → owned (rx alloc net e pkt) d ≡ owned net d
  unfolding rx
  owned-rx alloc net e pkt =
      if_cases (λ net'. owned net' d ≡ owned net d) alloc
        (λ got. outside_delivered (with_priv net e _) _ ∙ aside net e _ refl refl)
        (λ dropped. aside net e _ refl refl)

  owned-tx_done :
      (net : Net) (e : Bool) (left : Option ℕ) → owned (tx_done net e left) d ≡ owned net d
  unfolding tx_done
  owned-tx_done net e left = outside_freed (with_priv net e _) _ ∙ aside net e _ refl refl

  -- A packet in hand.
  abbrev pub in_hand : Option Packet → ℕ
  in_hand none = 0
  in_hand (some pkt) = mine pkt.owner d 1

  owned-take_rx :
      (alloc : Bool) (net : Net) (e : Bool) (queue : List Packet)
      → queue ≡ (priv net e).rx_queue
      → owned (take_rx alloc net e queue).1 d + in_hand (take_rx alloc net e queue).0 ≡ owned net d
  unfolding take_rx count
  owned-take_rx alloc net e [] same = omega arith
  owned-take_rx alloc net e (pkt ∷ queue) same =
      let p : Priv = record (priv net e) { rx_queue = queue } in
      let counted : count d (priv net e).rx_queue ≡ mine pkt.owner d 1 + count d queue =
        ap (count d) (sym same) in
      omega (arith, owned-rx alloc (with_priv net e p) e pkt, change_lem net e p d)

  released-Holds :
      (net : Net) (pkt : Option Packet) (n : ℕ)
      → owned net d + in_hand pkt ≡ n
      → Holds n (released net pkt)
  released-Holds net none n e = omega (arith, e)
  released-Holds net (some pkt) n e =
      subst (λ k. Holds k (release_buffer net pkt)) e (release-Holds net pkt)

  regular-Holds :
      (alloc : Bool) (net : Net) (e : Bool) → Holds (owned net d) (regular_interrupt alloc net e)
  unfolding regular_interrupt
  regular-Holds alloc net e =
      let p = priv net e in
      let start = with_priv net e (record p { rx_intr = false; tx_intr = false }) in
      let began = aside net e (record p { rx_intr = false; tx_intr = false }) refl refl in
      let got = if p.rx_intr then take_rx alloc start e p.rx_queue else (none, start) in
      let taken : owned got.1 d + in_hand got.0 ≡ owned net d =
        if_cases (λ (r : Option Packet × Net). owned r.1 d + in_hand r.0 ≡ owned net d) p.rx_intr
          (λ yes.
            owned-take_rx alloc start e p.rx_queue
              (ap (λ (q : Priv). q.rx_queue) (sym (priv_with net e _)))
            ∙ began)
          (λ no. omega (arith, began)) in
      if_cases (Holds (owned net d)) p.locked (λ busy. tt)
        (λ free. released-Holds _ got.0 (owned net d) (
          if_cases (λ net'. owned net' d + in_hand got.0 ≡ owned net d) p.tx_intr
            (λ over. omega (arith, owned-tx_done got.1 e (priv got.1 e).skb, taken))
            (λ not_over. taken)))

  napi-Holds : (net : Net) (e : Bool) → Holds (owned net d) (napi_interrupt net e)
  unfolding napi_interrupt
  napi-Holds net e =
      let p = priv net e in
      let start = with_priv net e (record p { rx_intr = false; tx_intr = false }) in
      let began = aside net e (record p { rx_intr = false; tx_intr = false }) refl refl in
      let received =
        if p.rx_intr
        then with_priv start e (record (priv start e) { rx_int_enabled = false; scheduled = true })
        else start in
      let same : owned received d ≡ owned net d =
        if_cases (λ net'. owned net' d ≡ owned net d) p.rx_intr
          (λ got.
            aside start e (record (priv start e) { rx_int_enabled = false; scheduled = true }) refl
              refl
            ∙ began)
          (λ no. began) in
      if_cases (Holds (owned net d)) p.locked (λ busy. tt)
        (λ free.
          if_cases (λ net'. owned net' d ≡ owned net d) p.tx_intr
            (λ over. owned-tx_done received e none ∙ same) (λ not_over. same))

  pub interrupt-Holds :
      (use_napi alloc : Bool) (net : Net) (e : Bool)
      → Holds (owned net d) (interrupt use_napi alloc net e)
  unfolding interrupt
  interrupt-Holds use_napi alloc net e =
      if_cases (Holds (owned net d)) use_napi (λ n. napi-Holds net e)
        (λ r. regular-Holds alloc net e)

  pub then-Holds :
      (n : ℕ) (m : Option Net) (f : Net → Option Net)
      → Holds n m
      → ((a : Net) → owned a d ≡ n → Holds n (f a))
      → Holds n (m >>= f)
  then-Holds n none f h k = tt
  then-Holds n (some a) f h k = k a h

  pub moved :
      (n : ℕ) (net : Net) (r : Option Net) → owned net d ≡ n → Holds (owned net d) r → Holds n r
  moved n net r e h = subst (λ k. Holds k r) e h

  signal-Holds :
      (c : Config) (alloc : Bool) (net : Net) (e : Bool) (len : ℕ)
      → Holds (owned net d) (signal c alloc net e len)
  unfolding signal
  signal-Holds c alloc net e len =
      let q = priv net (not e) in
      let raised : Priv = record q { rx_intr = true } in
      then-Holds (owned net d)
        (if q.rx_int_enabled
          then interrupt c.use_napi alloc (with_priv net (not e) raised) (not e)
          else some net)
        _
        (if_cases (Holds (owned net d)) q.rx_int_enabled
          (λ enabled.
            moved (owned net d) (with_priv net (not e) raised) _
              (aside net (not e) raised refl refl)
              (interrupt-Holds c.use_napi alloc (with_priv net (not e) raised) (not e)))
          (λ disabled. refl))
        (λ heard same.
          let p = priv heard e in
          let ready : Priv = record p { tx_packetlen = len; tx_intr = true } in
          if_cases (Holds (owned net d))
            (not (c.lockup == 0) && ((p.stats.tx_packets + 1) % c.lockup == 0))
            (λ lost. aside heard e (record ready { stopped = true }) refl refl ∙ same)
            (λ kept.
              moved (owned net d) (with_priv heard e ready) _ (aside heard e ready refl refl ∙ same)
                (interrupt-Holds c.use_napi alloc (with_priv heard e ready) e)))

  queue-Holds :
      (c : Config) (alloc : Bool) (net : Net) (e : Bool) (buf : List ℕ) (n : ℕ)
      → owned net d + mine e d 1 ≡ n
      → Holds n (filled c alloc true net e buf)
  unfolding filled
  queue-Holds c alloc net e buf n h =
      then-Holds n (enqueue_buf net (not e) (record { owner = e; bytes = buf })) _
        (subst (λ k. Holds k (enqueue_buf net (not e) (record { owner = e; bytes = buf }))) h
          (enqueue-Holds net (not e) (record { owner = e; bytes = buf })))
        (λ queued same. moved n queued _ same (signal-Holds c alloc queued e (length buf)))

  filled-Holds :
      (c : Config) (alloc got : Bool) (net : Net) (e : Bool) (buf : List ℕ) (n : ℕ)
      → Took n e (some (got, net))
      → Holds n (filled c alloc got net e buf)
  unfolding filled
  filled-Holds c alloc false net e buf n h = h
  filled-Holds c alloc true net e buf n h = queue-Holds c alloc net e buf n h

  hw_tx-Holds :
      (c : Config) (alloc : Bool) (net : Net) (e : Bool) (buf : List ℕ)
      → Holds (owned net d) (hw_tx c alloc net e buf)
  unfolding hw_tx
  hw_tx-Holds c alloc net e buf =
      if_cases (Holds (owned net d)) (ltb (length buf) 34) (λ short. refl)
        (λ long. go (get_tx_buffer net e) (get_tx_buffer-Took net e))
    where
      go :
          (m : Option (Bool × Net))
          → Took (owned net d) e m
          → Holds (owned net d) (m >>= (λ r. filled c alloc r.0 r.1 e (rewrite c.ip_fast_csum buf)))
      go none h = tt
      go (some (got, net')) h =
          filled-Holds c alloc got net' e (rewrite c.ip_fast_csum buf) (owned net d) h

  pub tx-Holds :
      (c : Config) (alloc : Bool) (net : Net) (e : Bool) (skb : ℕ) (bytes : List ℕ)
      → Holds (owned net d) (tx c alloc net e skb bytes)
  unfolding tx
  tx-Holds c alloc net e skb bytes =
      let p : Priv = record (priv net e) { skb = some skb } in
      moved (owned net d) (with_priv net e p) _ (aside net e p refl refl)
        (hw_tx-Holds c alloc (with_priv net e p) e (padded bytes))
