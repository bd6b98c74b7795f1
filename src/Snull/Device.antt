-- ===== src/Snull/Device.antt =====
-- The other operations of a network device: assignment-7-saloni1307-master/snull/snull.c, its pool,
-- its poll, its timeout, and its start and stop.
use advanced_embedded_softwa.Base.{
  ℕ, zero, suc, ◌+◌, Bool, true, false, Option, none, some, [], ◌∷◌, ltb, if◌then◌else◌, ◌||◌,
}
use advanced_embedded_softwa.Base.Chain.{◌>>=◌}
use advanced_embedded_softwa.Kernel.{einval, Ret, done, fail}
use advanced_embedded_softwa.Snull.{
  Packet, Priv, Net, priv, with_priv, release_buffer, rx, interrupt,
}

-- `snull_teardown_pool`
unfoldable pub teardown_pool : Priv → Priv
teardown_pool p = record p { ppool = 0 }

-- The loop of `snull_setup_pool`, for `pool_size` packets, of which `kmalloc` gives the first ones.
unfoldable pub setup_loop : ℕ → ℕ → ℕ → ℕ
setup_loop zero kmallocs ppool = ppool
setup_loop (suc i) zero ppool = ppool
setup_loop (suc i) (suc kmallocs) ppool = setup_loop i kmallocs (ppool + 1)

-- `snull_setup_pool`
unfoldable pub setup_pool : ℕ → ℕ → Priv → Priv
setup_pool pool_size kmallocs p = record p { ppool = setup_loop pool_size kmallocs 0 }

-- `snull_dequeue_buf`
unfoldable pub dequeue_buf : Net → Bool → Option (Option Packet × Net)
dequeue_buf net d =
    let p = priv net d in
    if p.locked then none else elim p.rx_queue [
      | [] ↦ some (none, net)
      | pkt ∷ queue ↦ some (some pkt, with_priv net d (record p { rx_queue = queue }))
    ]

-- The body of the loop of `snull_poll`: it counts and hands over as `snull_rx` does.
unfoldable pub poll_one : Bool → Net → Bool → Option Packet → Option Net
poll_one alloc net d none = some net
poll_one alloc net d (some pkt) = release_buffer (rx alloc net d pkt) pkt

-- The loop of `snull_poll`, with what is left of its budget, and `dev_alloc_skb` for each packet.
unfoldable pub poll_loop : ℕ → (ℕ → Bool) → ℕ → Net → Bool → Option (ℕ × Net)
poll_loop zero allocs npackets net d = some (npackets, net)
poll_loop (suc budget) allocs npackets net d = elim (priv net d).rx_queue [
  | [] ↦ some (npackets, net)
  | pkt ∷ queue ↦
      dequeue_buf net d
      >>= (λ r. poll_one (allocs npackets) r.1 d r.0)
      >>= (λ next. poll_loop budget allocs (npackets + 1) next d)
]

-- The end of `snull_poll`; `completes` is what `napi_complete_done` says.
unfoldable pub poll_end : ℕ → Bool → Bool → ℕ × Net → Option (ℕ × Net)
poll_end budget completes d (npackets, net) =
    let p = priv net d in
    if ltb npackets budget
    then (if p.locked
        then none
        else some (
          npackets,
          with_priv net d (record p {
            rx_int_enabled = if completes then true else p.rx_int_enabled;
            scheduled = false;
          }),
        ))
    else some (npackets, net)

-- `snull_poll`
unfoldable pub poll : ℕ → (ℕ → Bool) → Bool → Net → Bool → Option (ℕ × Net)
poll budget allocs completes net d = poll_loop budget allocs 0 net d >>= poll_end budget completes d

-- The end of `snull_tx_timeout`: the pool is made anew.
unfoldable pub timeout_end : ℕ → ℕ → Net → Bool → Option Net
timeout_end pool_size kmallocs net d =
    let p = priv net d in
    let counted = record p { stats = record p.stats { tx_errors = p.stats.tx_errors + 1 } } in
    if p.locked
    then none
    else some (
        with_priv net d
          (record (setup_pool pool_size kmallocs (teardown_pool counted)) { stopped = false }))

-- `snull_tx_timeout`
unfoldable pub tx_timeout : Bool → Bool → ℕ → ℕ → Net → Bool → Option Net
tx_timeout use_napi alloc pool_size kmallocs net d =
    interrupt use_napi alloc (with_priv net d (record (priv net d) { tx_intr = true })) d
    >>= (λ shown. timeout_end pool_size kmallocs shown d)

-- `snull_open` and `snull_release`, of what is modelled here: they start and stop the queue.
unfoldable pub open_dev : Net → Bool → Net
open_dev net d = with_priv net d (record (priv net d) { stopped = false })

unfoldable pub release : Net → Bool → Net
release net d = with_priv net d (record (priv net d) { stopped = true })

-- `snull_change_mtu`: what it returns, and the size.
unfoldable pub change_mtu : ℕ → ℕ → Ret × ℕ
change_mtu mtu new_mtu =
    if ltb new_mtu 68 || ltb 1500 new_mtu then (fail einval, mtu) else (done 0, new_mtu)

-- `snull_init`, of `struct snull_priv`.
unfoldable pub init : ℕ → ℕ → Priv
init pool_size kmallocs = setup_pool pool_size kmallocs (record {
  stats = record {
    rx_packets = 0;
    rx_bytes = 0;
    rx_dropped = 0;
    tx_packets = 0;
    tx_bytes = 0;
    tx_errors = 0;
  };
  rx_intr = false;
  tx_intr = false;
  ppool = 0;
  rx_queue = [];
  rx_int_enabled = true;
  tx_packetlen = 0;
  skb = none;
  locked = false;
  stopped = false;
  scheduled = false;
})
