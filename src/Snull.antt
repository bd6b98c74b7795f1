-- ===== src/Snull.antt =====
-- The network driver of two devices, each of which hands what it sends to the other:
-- assignment-7-saloni1307-master/snull/snull.c. A packet of the pool is counted while it is free, as
-- sending fills it anew. The lock of a device is a flag; a call that waits for a lock that nobody
-- gives back does not return, which is `none`.
pub mod Pool
pub mod Contents
pub mod Send
pub mod Device
pub mod Life
pub mod Stuck
mod Tests
use advanced_embedded_softwa.Base.Chain.{◌>>=◌}
use advanced_embedded_softwa.Base.{
  ℕ, zero, suc, ◌+◌, ◌-◌, ◌%◌, ◌<◌, Bool, true, false, not, ◌&&◌, Option, none, some, List, [], ◌∷◌,
  ◌++◌, ltb, ◌==◌, if◌then◌else◌, length, replicate, take, drop, get_or, set,
}

-- `struct snull_packet`, with the device whose pool it is from; its length is `datalen`.
pub record Packet : Type 0 where
  pub owner : Bool
  pub bytes : List ℕ

-- The fields of `struct net_device_stats` that the driver counts in.
pub record Stats : Type 0 where
  pub rx_packets : ℕ
  pub rx_bytes : ℕ
  pub rx_dropped : ℕ
  pub tx_packets : ℕ
  pub tx_bytes : ℕ
  pub tx_errors : ℕ

-- `struct snull_priv`, its `status` as its two bits, with whether the kernel's queue of the device is
-- stopped and whether its poll is scheduled.
pub record Priv : Type 0 where
  pub stats : Stats
  pub rx_intr : Bool
  pub tx_intr : Bool
  pub ppool : ℕ
  pub rx_queue : List Packet
  pub rx_int_enabled : Bool
  pub tx_packetlen : ℕ
  pub skb : Option ℕ
  pub locked : Bool
  pub stopped : Bool
  pub scheduled : Bool

-- `snull_devs`, what was handed to the upper layers, by the device that received it, and the socket
-- buffers that were given back.
pub record Net : Type 0 where
  pub first : Priv
  pub second : Priv
  pub delivered : List (Bool × List ℕ)
  pub freed : List ℕ

-- The devices are `false` and `true`.
abbrev pub priv : Net → Bool → Priv
priv net false = net.first
priv net true = net.second

abbrev pub with_priv : Net → Bool → Priv → Net
with_priv net false p = record net { first = p }
with_priv net true p = record net { second = p }

-- `snull_get_tx_buffer`: whether a packet was got. Without one the lock is kept.
unfoldable pub get_tx_buffer : Net → Bool → Option (Bool × Net)
get_tx_buffer net d =
    let p = priv net d in
    if p.locked
    then none
    else if p.ppool == 0
    then some (false, with_priv net d (record p { locked = true }))
    else some (
      true,
      with_priv net d
          (record p { ppool = p.ppool - 1; stopped = if p.ppool == 1 then true else p.stopped }),
    )

-- `snull_release_buffer`
unfoldable pub release_buffer : Net → Packet → Option Net
release_buffer net pkt =
    let p = priv net pkt.owner in
    if p.locked
    then none
    else some (
        with_priv net pkt.owner
          (record p { ppool = p.ppool + 1; stopped = if p.ppool == 0 then false else p.stopped }))

-- `snull_enqueue_buf`
unfoldable pub enqueue_buf : Net → Bool → Packet → Option Net
enqueue_buf net d pkt =
    let p = priv net d in
    if p.locked then none else some (with_priv net d (record p { rx_queue = pkt ∷ p.rx_queue }))

-- `snull_rx`; `alloc` is whether `dev_alloc_skb` gives a buffer.
unfoldable pub rx : Bool → Net → Bool → Packet → Net
rx alloc net d pkt =
    let p = priv net d in
    let s = p.stats in
    if alloc
    then record (with_priv net d (record p {
      stats = record s { rx_packets = s.rx_packets + 1; rx_bytes = s.rx_bytes + length pkt.bytes };
    })) { delivered = net.delivered ++ ((d, pkt.bytes) ∷ []) }
    else with_priv net d (record p { stats = record s { rx_dropped = s.rx_dropped + 1 } })

abbrev pub one_skb : Option ℕ → List ℕ
one_skb none = []
one_skb (some skb) = skb ∷ []

-- The end of a transmission, in both interrupt handlers, and what `priv->skb` is after it.
unfoldable pub tx_done : Net → Bool → Option ℕ → Net
tx_done net d left =
    let p = priv net d in
    let s = p.stats in
    record (with_priv net d (record p {
      stats = record s { tx_packets = s.tx_packets + 1; tx_bytes = s.tx_bytes + p.tx_packetlen };
      skb = left;
    })) { freed = net.freed ++ one_skb p.skb }

-- The packet that a receive interrupt takes off the queue, and what it does with it.
unfoldable pub take_rx : Bool → Net → Bool → List Packet → Option Packet × Net
take_rx alloc net d [] = (none, net)
take_rx alloc net d (pkt ∷ queue) =
    (some pkt, rx alloc (with_priv net d (record (priv net d) { rx_queue = queue })) d pkt)

abbrev pub released : Net → Option Packet → Option Net
released net none = some net
released net (some pkt) = release_buffer net pkt

-- `snull_regular_interrupt`
unfoldable pub regular_interrupt : Bool → Net → Bool → Option Net
regular_interrupt alloc net d =
    let p = priv net d in
    let start = with_priv net d (record p { rx_intr = false; tx_intr = false }) in
    let (pkt, received) = if p.rx_intr then take_rx alloc start d p.rx_queue else (none, start) in
    if p.locked
    then none
    else released (if p.tx_intr then tx_done received d (priv received d).skb else received) pkt

-- `snull_napi_interrupt`
unfoldable pub napi_interrupt : Net → Bool → Option Net
napi_interrupt net d =
    let p = priv net d in
    let start = with_priv net d (record p { rx_intr = false; tx_intr = false }) in
    let received =
      if p.rx_intr
      then with_priv start d (record (priv start d) { rx_int_enabled = false; scheduled = true })
      else start in
    if p.locked then none else some (if p.tx_intr then tx_done received d none else received)

-- `snull_interrupt`
unfoldable pub interrupt : Bool → Bool → Net → Bool → Option Net
interrupt use_napi alloc net d =
    if use_napi then napi_interrupt net d else regular_interrupt alloc net d

-- The `^= 1` on a byte.
abbrev pub flip : ℕ → ℕ
flip c = if c % 2 == 0 then c + 1 else c - 1

-- The packet as it goes out: behind 14 bytes of the Ethernet header, the third bytes of both
-- addresses are flipped and the checksum is that of the header, taken while its own bytes are 0.
unfoldable pub rewrite : (List ℕ → ℕ × ℕ) → List ℕ → List ℕ
rewrite ip_fast_csum buf =
    let flipped = set (set buf 28 (flip (get_or buf 28 0))) 32 (flip (get_or buf 32 0)) in
    let cleared = set (set flipped 24 0) 25 0 in
    let (low, high) = ip_fast_csum (drop 14 cleared) in set (set cleared 24 low) 25 high

-- The parameters of the module, and `ip_fast_csum` of the kernel.
pub record Config : Type 0 where
  pub use_napi : Bool
  pub lockup : ℕ
  pub ip_fast_csum : List ℕ → ℕ × ℕ

-- `snull_hw_tx` once the packet is queued: the interrupts of both devices. `alloc` is for the one
-- that receives.
unfoldable pub signal : Config → Bool → Net → Bool → ℕ → Option Net
signal c alloc net d len = do
  let q = priv net (not d)
  heard ←
      if q.rx_int_enabled
      then interrupt c.use_napi alloc (with_priv net (not d) (record q { rx_intr = true })) (not d)
      else some net
  let p = priv heard d
  let ready = record p { tx_packetlen = len; tx_intr = true }
  if not (c.lockup == 0) && ((p.stats.tx_packets + 1) % c.lockup == 0)
      then some (with_priv heard d (record ready { stopped = true }))
      else interrupt c.use_napi alloc (with_priv heard d ready) d

-- `snull_hw_tx` with a packet of the pool, or without one.
unfoldable pub filled : Config → Bool → Bool → Net → Bool → List ℕ → Option Net
filled c alloc false net d buf = some net
filled c alloc true net d buf = do
  queued ← enqueue_buf net (not d) (record { owner = d; bytes = buf })
  signal c alloc queued d (length buf)

-- `snull_hw_tx`: 34 is the length of the Ethernet and the IP header.
unfoldable pub hw_tx : Config → Bool → Net → Bool → List ℕ → Option Net
hw_tx c alloc net d buf = if ltb (length buf) 34 then some net else do
  (got, taken) ← get_tx_buffer net d
  filled c alloc got taken d (rewrite c.ip_fast_csum buf)

-- A packet of at least ETH_ZLEN bytes.
unfoldable pub padded : List ℕ → List ℕ
padded bytes = if ltb (length bytes) 60 then bytes ++ replicate (60 - length bytes) 0 else bytes

-- `snull_tx`
unfoldable pub tx : Config → Bool → Net → Bool → ℕ → List ℕ → Option Net
tx c alloc net d skb bytes =
    hw_tx c alloc (with_priv net d (record (priv net d) { skb = some skb })) d (padded bytes)
