-- ===== src/Snull/Life.antt =====
-- What happens to the devices one after another, and the packets of their pools.
use mathlib.Core.Path.{subst}
use advanced_embedded_softwa.Base.{
  ℕ, zero, suc, ◌+◌, ◌≡◌, refl, ap, ◌∙◌, Bool, true, false, Option, none, some, List, [], ◌∷◌,
  arith, ltb, if◌then◌else◌,
}
use advanced_embedded_softwa.Base.Chain.{◌>>=◌, if_cases}
use advanced_embedded_softwa.Snull.{
  Packet, Priv, Net, Config, priv, with_priv, rx, release_buffer, interrupt, tx,
}
use advanced_embedded_softwa.Snull.Pool.{
  mine, in_hand, count, owned, Holds, aside, change_lem, owned-rx, release-Holds, interrupt-Holds,
  then-Holds, moved, tx-Holds,
}
use advanced_embedded_softwa.Snull.Device.{
  dequeue_buf, poll_one, poll_loop, poll_end, poll, open_dev, release,
}

-- What happens: a packet sent, a poll with its budget, an interrupt, the queue started or stopped.
pub data Event : Type 0 where
  sends : Bool → Bool → ℕ → List ℕ → Event
  polls : ℕ → (ℕ → Bool) → Bool → Bool → Event
  interrupts : Bool → Bool → Event
  opens releases : Bool → Event

abbrev pub polled : Option (ℕ × Net) → Option Net
polled none = none
polled (some (npackets, net)) = some net

unfoldable pub happen : Config → Net → Event → Option Net
happen c net (sends alloc d skb bytes) = tx c alloc net d skb bytes
happen c net (polls budget allocs completes d) = polled (poll budget allocs completes net d)
happen c net (interrupts alloc d) = interrupt c.use_napi alloc net d
happen c net (opens d) = some (open_dev net d)
happen c net (releases d) = some (release net d)

unfoldable pub happen_all : Config → Net → List Event → Option Net
happen_all c net [] = some net
happen_all c net (e ∷ events) = happen c net e >>= (λ net'. happen_all c net' events)

module _ (d : Bool) where
  abbrev pub PollHolds : ℕ → Option (ℕ × Net) → Type 0
  PollHolds n none = Unit
  PollHolds n (some (npackets, net)) = owned net d ≡ n

  abbrev pub DequeueHolds : ℕ → Option (Option Packet × Net) → Type 0
  DequeueHolds n none = Unit
  DequeueHolds n (some (pkt, net)) = owned net d + in_hand d pkt ≡ n

  taken_lem :
      (net : Net) (e : Bool) (pkt : Packet) (queue : List Packet)
      → (priv net e).rx_queue ≡ pkt ∷ queue
      → owned (with_priv net e (record (priv net e) { rx_queue = queue })) d + mine pkt.owner d 1
        ≡ owned net d
  unfolding count
  taken_lem net e pkt queue same =
      let p : Priv = record (priv net e) { rx_queue = queue } in
      let counted : count d (priv net e).rx_queue ≡ mine pkt.owner d 1 + count d queue =
        ap (count d) same in
      omega (arith, change_lem net e p d)

  dequeue_buf-DequeueHolds : (net : Net) (e : Bool) → DequeueHolds (owned net d) (dequeue_buf net e)
  unfolding dequeue_buf
  dequeue_buf-DequeueHolds net e =
      if_cases (DequeueHolds (owned net d)) (priv net e).locked (λ busy. tt)
        (λ free. go (priv net e).rx_queue refl)
    where
      go :
          (queue : List Packet)
          → (priv net e).rx_queue ≡ queue
          → DequeueHolds (owned net d) (elim queue as (λ x. Option (Option Packet × Net)) [
            | [] ↦ some (none, net)
            | pkt ∷ queue ↦
                some (some pkt, with_priv net e (record (priv net e) { rx_queue = queue }))
          ])
      go [] same = omega arith
      go (pkt ∷ queue) same = taken_lem net e pkt queue same

  poll_one-Holds :
      (alloc : Bool) (net : Net) (e : Bool) (pkt : Option Packet) (n : ℕ)
      → owned net d + in_hand d pkt ≡ n
      → Holds d n (poll_one alloc net e pkt)
  unfolding poll_one
  poll_one-Holds alloc net e none n h = omega (arith, h)
  poll_one-Holds alloc net e (some pkt) n h =
      subst (λ k. Holds d k (release_buffer (rx alloc net e pkt) pkt))
        (omega (arith, owned-rx d alloc net e pkt)) (release-Holds d (rx alloc net e pkt) pkt)

  dequeued-Holds :
      (alloc : Bool) (e : Bool) (n : ℕ) (m : Option (Option Packet × Net))
      → DequeueHolds n m
      → Holds d n (m >>= (λ r. poll_one alloc r.1 e r.0))
  dequeued-Holds alloc e n none h = tt
  dequeued-Holds alloc e n (some (pkt, net)) h = poll_one-Holds alloc net e pkt n h

  then_poll :
      (n : ℕ) (m : Option Net) (f : Net → Option (ℕ × Net))
      → Holds d n m
      → ((a : Net) → owned a d ≡ n → PollHolds n (f a))
      → PollHolds n (m >>= f)
  then_poll n none f h k = tt
  then_poll n (some a) f h k = k a h

  poll_loop-PollHolds :
      (budget : ℕ) (allocs : ℕ → Bool) (npackets : ℕ) (net : Net) (e : Bool) (n : ℕ)
      → owned net d ≡ n
      → PollHolds n (poll_loop budget allocs npackets net e)
  unfolding poll_loop
  poll_loop-PollHolds zero allocs npackets net e n h = h
  poll_loop-PollHolds (suc budget) allocs npackets net e n h =
      go (priv net e).rx_queue
        (λ a same. poll_loop-PollHolds budget allocs (npackets + 1) a e n same)
    where
      go :
          (queue : List Packet)
          → ((a : Net) → owned a d ≡ n → PollHolds n (poll_loop budget allocs (npackets + 1) a e))
          → PollHolds n (elim queue as (λ x. Option (ℕ × Net)) [
            | [] ↦ some (npackets, net)
            | pkt ∷ queue ↦
                dequeue_buf net e
                >>= (λ r. poll_one (allocs npackets) r.1 e r.0)
                >>= (λ next. poll_loop budget allocs (npackets + 1) next e)
          ])
      go [] later = h
      go (pkt ∷ queue) later =
          then_poll n _ _
            (dequeued-Holds (allocs npackets) e n (dequeue_buf net e)
              (subst (λ k. DequeueHolds k (dequeue_buf net e)) h (dequeue_buf-DequeueHolds net e)))
            later

  poll_end-Holds :
      (budget : ℕ) (completes e : Bool) (n : ℕ) (r : Option (ℕ × Net))
      → PollHolds n r
      → Holds d n (polled (r >>= poll_end budget completes e))
  unfolding poll_end
  poll_end-Holds budget completes e n none h = tt
  poll_end-Holds budget completes e n (some (npackets, net)) h =
      let p = priv net e in
      if_cases (λ (r : Option (ℕ × Net)). Holds d n (polled r)) (ltb npackets budget)
        (λ some_left.
          if_cases (λ (r : Option (ℕ × Net)). Holds d n (polled r)) p.locked (λ busy. tt)
            (λ free.
              aside d net e
                (record p {
                  rx_int_enabled = if completes then true else p.rx_int_enabled;
                  scheduled = false;
                })
                refl refl
              ∙ h))
        (λ all. h)

  happen-Holds : (c : Config) (net : Net) (e : Event) → Holds d (owned net d) (happen c net e)
  unfolding happen poll open_dev release
  happen-Holds c net (sends alloc e skb bytes) = tx-Holds d c alloc net e skb bytes
  happen-Holds c net (polls budget allocs completes e) =
      poll_end-Holds budget completes e (owned net d) (poll_loop budget allocs 0 net e)
        (poll_loop-PollHolds budget allocs 0 net e (owned net d) refl)
  happen-Holds c net (interrupts alloc e) = interrupt-Holds d c.use_napi alloc net e
  happen-Holds c net (opens e) = aside d net e (record (priv net e) { stopped = false }) refl refl
  happen-Holds c net (releases e) = aside d net e (record (priv net e) { stopped = true }) refl refl

  -- After any packets sent, polls, interrupts, opens and releases, with or without NAPI, lockups and
  -- memory, that all return, there are as many packets of a device as before: in its pool, or in the
  -- queue of one of the two devices.
  pub happen_all-Holds :
      (c : Config) (net : Net) (events : List Event)
      → Holds d (owned net d) (happen_all c net events)
  unfolding happen_all
  happen_all-Holds c net [] = refl
  happen_all-Holds c net (e ∷ events) =
      then-Holds d (owned net d) (happen c net e) _ (happen-Holds c net e)
        (λ a same. moved d (owned net d) a _ same (happen_all-Holds c a events))
