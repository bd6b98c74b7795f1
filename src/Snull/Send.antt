-- ===== src/Snull/Send.antt =====
-- What becomes of the packets that are sent, without NAPI and without simulated lockups.
use advanced_embedded_softwa.Base.{
  ℕ, ◌+◌, ◌-◌, ◌≡◌, Bool, true, false, not, inl, inr, Option, some, List, [], ◌∷◌, ◌++◌, arith, ltb,
  ◌==◌, if◌then◌else◌, length, replicate, Bool-cases, length-append, length-replicate,
}
use advanced_embedded_softwa.Base.Chain.{◌>>=◌}
use advanced_embedded_softwa.Snull.Contents.{Made}
use advanced_embedded_softwa.Snull.{Stats, Priv, Net, Config, rewrite, padded, tx}

-- A device with nothing under way: what is left of it then.
pub record Idle : Type 0 where
  pub stats : Stats
  pub ppool : ℕ
  pub tx_packetlen : ℕ
  pub skb : Option ℕ
  pub stopped : Bool
  pub scheduled : Bool

abbrev pub idle : Idle → Priv
idle i = record {
  stats = i.stats;
  rx_intr = false;
  tx_intr = false;
  ppool = i.ppool;
  rx_queue = [];
  rx_int_enabled = true;
  tx_packetlen = i.tx_packetlen;
  skb = i.skb;
  locked = false;
  stopped = i.stopped;
  scheduled = i.scheduled;
}

-- Both devices with nothing under way.
abbrev pub quiet : Idle → Idle → List (Bool × List ℕ) → List ℕ → Net
quiet a b delivered freed = record {
  first = idle a;
  second = idle b;
  delivered = delivered;
  freed = freed;
}

abbrev pub plain : (List ℕ → ℕ × ℕ) → Config
plain csum = record { use_napi = false; lockup = 0; ip_fast_csum = csum }

-- The device that has sent a packet of `n` bytes, and the one that has received it.
abbrev pub sender : Idle → ℕ → ℕ → Idle
sender i skb n = record {
  stats = record i.stats { tx_packets = i.stats.tx_packets + 1; tx_bytes = i.stats.tx_bytes + n };
  ppool = i.ppool;
  tx_packetlen = n;
  skb = some skb;
  stopped = if i.ppool == 1 then false else i.stopped;
  scheduled = i.scheduled;
}

abbrev pub receiver : Idle → ℕ → Idle
receiver i n = record i {
  stats = record i.stats { rx_packets = i.stats.rx_packets + 1; rx_bytes = i.stats.rx_bytes + n };
}

pub long_enough : (bytes : List ℕ) → ltb (length (padded bytes)) 34 ≡ false
unfolding padded
long_enough bytes = elim (Bool-cases (ltb (length bytes) 60)) [
  | inl short ↦ rw short (
      ground (
        arith,
        length-append bytes (replicate (60 - length bytes) 0),
        length-replicate {A = ℕ} (60 - length bytes) 0,
      ))
  | inr long ↦ rw long (ground arith)
]

module _ (csum : List ℕ → ℕ × ℕ) (skb : ℕ) (bytes : List ℕ) (delivered : List (Bool × List ℕ))
    (freed : List ℕ) where
  abbrev packet : List ℕ
  packet = rewrite csum (padded bytes)

-- A packet that the kernel has one of the devices send.
pub record Sending : Type 0 where
  pub from : Bool
  pub skb : ℕ
  pub bytes : List ℕ

-- The packets sent one after another, with memory for each.
unfoldable pub send_all : Config → Net → List Sending → Option Net
send_all c net [] = some net
send_all c net (s ∷ sendings) =
    tx c true net s.from s.skb s.bytes >>= (λ net'. send_all c net' sendings)

-- What the other device receives, as the driver makes it.
abbrev arrivals : (List ℕ → ℕ × ℕ) → List Sending → List (Bool × List ℕ)
arrivals csum [] = []
arrivals csum (s ∷ sendings) = (not s.from, rewrite csum (padded s.bytes)) ∷ arrivals csum sendings

-- Each packet in its turn, at the device that did not send it.
abbrev pub Received : (List ℕ → ℕ × ℕ) → List Sending → List (Bool × List ℕ) → Type 0
Received csum [] [] = Unit
Received csum [] (p ∷ packets) = false ≡ true
Received csum (s ∷ sendings) [] = false ≡ true
Received csum (s ∷ sendings) (p ∷ packets) =
    (p.0 ≡ not s.from) × Made csum s.bytes p.1 × Received csum sendings packets

abbrev pub buffers : List Sending → List ℕ
buffers [] = []
buffers (s ∷ sendings) = s.skb ∷ buffers sendings

-- Nothing is under way, these packets were received, and the pools are as before.
abbrev Leaves :
    Idle
    → Idle
    → List (Bool × List ℕ)
    → List ℕ
    → List Sending
    → List (Bool × List ℕ)
    → Option Net
    → Type 0
Leaves a b delivered freed sendings packets r =
    (a' : Idle) × (b' : Idle) × (r
      ≡ some (quiet a' b' (delivered ++ packets) (freed ++ buffers sendings)))
    × (a'.ppool ≡ a.ppool)
    × (b'.ppool ≡ b.ppool)

-- What the calls that send these packets leave.
pub record Arrived (csum : List ℕ → ℕ × ℕ) (a b : Idle) (delivered : List (Bool × List ℕ))
    (freed : List ℕ) (sendings : List Sending) (r : Option Net) : Type 0 where
  pub packets : List (Bool × List ℕ)
  pub received : Received csum sendings packets
  pub first : Idle
  pub second : Idle
  pub net : r ≡ some (quiet first second (delivered ++ packets) (freed ++ buffers sendings))
  pub pools : (first.ppool ≡ a.ppool) × (second.ppool ≡ b.ppool)
