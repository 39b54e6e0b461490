-- ===== src/Publisher/Counters.antt =====
-- The gauges and counters of internal/monitors/peer_set_monitor.go that are no series of a peer.
use mathlib.Core.List.{lookup}
use hyperliquid_exporter.Peerset.{Peer, PeerSet, evict_expired, snapshot, len}
use hyperliquid_exporter.Peerset.Expiry.{unique_seen_in-le}
use hyperliquid_exporter.Publisher.{
  Publisher, seconds, drop_peer, drop_peers, publish_windows, publish_totals, publish_peer,
  publish_peers, tick_peer_set,
}
use hyperliquid_exporter.Base.{
  ℕ, ◌≤◌, ◌≡◌, refl, ◌∙◌, inl, inr, Bool, true, false, List, [], ◌∷◌, arith, if◌then◌else◌,
  Option-cases, Bytes, bytes_discrete,
}

-- What the loops over peers leave as it is.
record SameGauges (p q : Publisher) : Type 0 where
  added : q.last_peers_added ≡ p.last_peers_added
  evicted : q.last_peers_evicted ≡ p.last_peers_evicted
  added_counter : q.added_counter ≡ p.added_counter
  evicted_counter : q.evicted_counter ≡ p.evicted_counter
  seen_5m : q.seen_5m ≡ p.seen_5m
  seen_1h : q.seen_1h ≡ p.seen_1h
  seen_24h : q.seen_24h ≡ p.seen_24h

SameGauges-refl : (p : Publisher) → SameGauges p p
SameGauges-refl p = record {
  added = refl;
  evicted = refl;
  added_counter = refl;
  evicted_counter = refl;
  seen_5m = refl;
  seen_1h = refl;
  seen_24h = refl;
}

SameGauges-trans : (p q r : Publisher) → SameGauges p q → SameGauges q r → SameGauges p r
SameGauges-trans p q r s t = record {
  added = t.added ∙ s.added;
  evicted = t.evicted ∙ s.evicted;
  added_counter = t.added_counter ∙ s.added_counter;
  evicted_counter = t.evicted_counter ∙ s.evicted_counter;
  seen_5m = t.seen_5m ∙ s.seen_5m;
  seen_1h = t.seen_1h ∙ s.seen_1h;
  seen_24h = t.seen_24h ∙ s.seen_24h;
}

drop_peer-SameGauges : (ip : Bytes) (p : Publisher) → SameGauges p (drop_peer ip p)
unfolding drop_peer
drop_peer-SameGauges ip p = elim (Option-cases (lookup bytes_discrete ip p.per_peer_labels)) [
  | inl h ↦ rw (h, drop_peer) (SameGauges-refl p)
  | inr (x, h) ↦
      rw (h, drop_peer)
        (record {
          added = refl;
          evicted = refl;
          added_counter = refl;
          evicted_counter = refl;
          seen_5m = refl;
          seen_1h = refl;
          seen_24h = refl;
        })
]

drop_peers-SameGauges : (evicted : List Bytes) (p : Publisher) → SameGauges p (drop_peers evicted p)
unfolding drop_peers
drop_peers-SameGauges [] p = SameGauges-refl p
drop_peers-SameGauges (ip ∷ evicted) p =
    SameGauges-trans p (drop_peer ip p) (drop_peers evicted (drop_peer ip p))
      (drop_peer-SameGauges ip p) (drop_peers-SameGauges evicted (drop_peer ip p))

publish_peers-SameGauges :
    (peers : List Peer) (p : Publisher) → SameGauges p (publish_peers peers p)
unfolding publish_peers publish_peer
publish_peers-SameGauges [] p = SameGauges-refl p
publish_peers-SameGauges (peer ∷ peers) p =
    let next = publish_peers-SameGauges peers (publish_peer peer p) in
    record {
      added = next.added;
      evicted = next.evicted;
      added_counter = next.added_counter;
      evicted_counter = next.evicted_counter;
      seen_5m = next.seen_5m;
      seen_1h = next.seen_1h;
      seen_24h = next.seen_24h;
    }

-- The state between the two loops over peers.
abbrev between : Bool → ℕ → PeerSet → Publisher → Publisher
between emit now set p =
    let (set', evicted) = evict_expired now set in
    publish_totals set' (publish_windows now set' (if emit then drop_peers evicted p else p))

tick-gauges :
    (emit : Bool) (now : ℕ) (set : PeerSet) (p : Publisher)
    → SameGauges (between emit now set p) (tick_peer_set emit now (set, p)).1
unfolding tick_peer_set
tick-gauges true now set p =
    publish_peers-SameGauges (snapshot (evict_expired now set).0) (between true now set p)
tick-gauges false now set p = SameGauges-refl (between false now set p)

tick-set :
    (emit : Bool) (now : ℕ) (set : PeerSet) (p : Publisher)
    → (tick_peer_set emit now (set, p)).0 ≡ (evict_expired now set).0
unfolding tick_peer_set
tick-set emit now set p = refl

evict_expired-added :
    (now : ℕ) (set : PeerSet) (n : ℕ)
    → n ≤ set.added_total
    → n ≤ (evict_expired now set).0.added_total
unfolding evict_expired
evict_expired-added now set n h = h

-- Before the totals are published the counters and the totals last read are the old ones.
between-counters :
    (emit : Bool) (now : ℕ) (set : PeerSet) (p : Publisher)
    → p.added_counter ≡ p.last_peers_added
    → p.evicted_counter ≡ p.last_peers_evicted
    → p.last_peers_added ≤ set.added_total
    → p.last_peers_evicted ≤ (evict_expired now set).0.evicted_total
    → ((between emit now set p).added_counter ≡ (evict_expired now set).0.added_total)
      × ((between emit now set p).evicted_counter ≡ (evict_expired now set).0.evicted_total)
unfolding publish_windows publish_totals
between-counters emit now set p a e added evicted =
    let left = drop_peers-SameGauges (evict_expired now set).1 p in
    let added' : p.last_peers_added ≤ (evict_expired now set).0.added_total =
      evict_expired-added now set p.last_peers_added added in
    elim emit [
      | true ↦ ground (
        arith, left.added, left.evicted, left.added_counter, left.evicted_counter, a, e, added',
        evicted,
      )
      | false ↦ ground (arith, a, e, added', evicted)
    ]

-- The windowed counts that a tick sets are ordered as the windows are, and none is more than the
-- number of the peers of the set.
pub tick_peer_set-windows :
    (emit : Bool) (now : ℕ) (set : PeerSet) (p : Publisher)
    → ((tick_peer_set emit now (set, p)).1.seen_5m ≤ (tick_peer_set emit now (set, p)).1.seen_1h)
      × ((tick_peer_set emit now (set, p)).1.seen_1h ≤ (tick_peer_set emit now (set, p)).1.seen_24h)
      × ((tick_peer_set emit now (set, p)).1.seen_24h ≤ len (tick_peer_set emit now (set, p)).0)
unfolding publish_windows publish_totals
tick_peer_set-windows emit now set p =
    let set' = (evict_expired now set).0 in
    let same = tick-gauges emit now set p in
    let short = unique_seen_in-le (seconds 300) (seconds 3600) now set' (omega arith) in
    let long = unique_seen_in-le (seconds 3600) (seconds 86400) now set' (omega arith) in
    rw (tick-set emit now set p, same.seen_5m, same.seen_1h, same.seen_24h)
      (short.0, long.0, long.1)

-- A counter and the total that was last read are equal before and after a tick, and the counter
-- is then the total of the set, if no total has wrapped around.
pub tick_peer_set-counters :
    (emit : Bool) (now : ℕ) (set : PeerSet) (p : Publisher)
    → p.added_counter ≡ p.last_peers_added
    → p.evicted_counter ≡ p.last_peers_evicted
    → p.last_peers_added ≤ set.added_total
    → p.last_peers_evicted ≤ (evict_expired now set).0.evicted_total
    → ((tick_peer_set emit now (set, p)).1.added_counter
        ≡ (tick_peer_set emit now (set, p)).0.added_total)
      × ((tick_peer_set emit now (set, p)).1.evicted_counter
          ≡ (tick_peer_set emit now (set, p)).0.evicted_total)
      × ((tick_peer_set emit now (set, p)).1.last_peers_added
          ≡ (tick_peer_set emit now (set, p)).1.added_counter)
      × ((tick_peer_set emit now (set, p)).1.last_peers_evicted
          ≡ (tick_peer_set emit now (set, p)).1.evicted_counter)
unfolding publish_windows publish_totals
tick_peer_set-counters emit now set p a e added evicted =
    let same = tick-gauges emit now set p in
    let (added_now, evicted_now) = between-counters emit now set p a e added evicted in
    rw
      (
        tick-set emit now set p,
        same.added,
        same.evicted,
        same.added_counter,
        same.evicted_counter,
        added_now,
        evicted_now,
      )
      (refl, refl, refl, refl)
