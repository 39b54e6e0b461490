-- ===== src/Publisher/Tests.antt =====
-- Runs of internal/monitors/peer_set_monitor.go, and the theorems at such inputs.
use mathlib.Core.List.{lookup}
use hyperliquid_exporter.Base.Dict.{insert, delete}
use hyperliquid_exporter.Peerset.{PeerSet, evict_expired, len}
use hyperliquid_exporter.Peerset
use hyperliquid_exporter.Peerset.Invariant.{IsValid, new-IsValid, register-IsValid}
use hyperliquid_exporter.Publisher.{
  Publisher, drop_peer, drop_peers, publish_windows, publish_totals, publish_peer, publish_peers,
  tick_peer_set,
}
use hyperliquid_exporter.Publisher.Labels.{
  labels, last_seen, first_seen, IsAligned, tick_peer_set-labels,
}
use hyperliquid_exporter.Base.{
  ◌≡◌, refl, true, [], ◌∷◌, arith, Bytes, codes, bytes_discrete, has, ℕ_discrete,
}

program : Unit {0}
unfolding drop_peer drop_peers publish_windows publish_totals publish_peer publish_peers
    tick_peer_set labels last_seen first_seen has insert delete lookup bytes_discrete ℕ_discrete
    Peerset.new Peerset.register Peerset.make_room Peerset.add_peer Peerset.is_empty
    Peerset.add_direction Peerset.evict_expired Peerset.expire_from Peerset.is_stale
    Peerset.unique_seen_in Peerset.count_seen Peerset.snapshot Peerset.len
    Peerset.evict_oldest_locked Peerset.oldest_from
program = tt

abbrev a : Bytes
a = codes "10.0.0.1"

abbrev b : Bytes
b = codes "10.0.0.2"

abbrev start : PeerSet
start = record { peers = []; cap = 1; ttl = 100; added_total = 0; evicted_total = 0 }

start-IsValid : IsValid start
unfolding Peerset.new
start-IsValid = new-IsValid 1 100

abbrev one : PeerSet
one = (Peerset.register a (codes "in") 10 start).0

one-IsValid : IsValid one
one-IsValid = register-IsValid a (codes "in") 10 start start-IsValid (omega arith)

-- The second peer takes the place of the first.
abbrev two : PeerSet
two = (Peerset.register b (codes "in") 20 one).0

abbrev idle : Publisher
idle = record {
  per_peer_labels = [];
  last_seen_series = [];
  first_seen_series = [];
  last_peers_added = 0;
  last_peers_evicted = 0;
  added_counter = 0;
  evicted_counter = 0;
  seen_5m = 0;
  seen_1h = 0;
  seen_24h = 0;
}

-- The publisher that has the first peer.
abbrev shown : Publisher
shown = record idle {
  per_peer_labels = (a, tt) ∷ [];
  last_seen_series = (a, 0) ∷ [];
  first_seen_series = (a, 0) ∷ [];
}

idle-IsAligned : IsAligned idle
unfolding program
idle-IsAligned k = (refl, refl)

idle_inside : (k : Bytes) → labels k idle ≡ true → has (lookup bytes_discrete k one.peers) ≡ true
unfolding labels has lookup
idle_inside k h = ground (arith, h)

tick_peer_set-labels_example :
    (labels a (tick_peer_set true 50 (one, idle)).1
      ≡ has (lookup bytes_discrete a (tick_peer_set true 50 (one, idle)).0.peers))
    × (last_seen a (tick_peer_set true 50 (one, idle)).1
        ≡ has (lookup bytes_discrete a (tick_peer_set true 50 (one, idle)).0.peers))
    × (first_seen a (tick_peer_set true 50 (one, idle)).1
        ≡ has (lookup bytes_discrete a (tick_peer_set true 50 (one, idle)).0.peers))
tick_peer_set-labels_example =
    tick_peer_set-labels 50 one idle one-IsValid idle-IsAligned idle_inside a

-- A tick after the time to live removes the peer and its series.
expired : (tick_peer_set true 200 (one, shown)).1.last_seen_series ≡ []
unfolding program
expired = refl
