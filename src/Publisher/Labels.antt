-- ===== src/Publisher/Labels.antt =====
-- The per-peer series of internal/monitors/peer_set_monitor.go against the peers of the set.
use mathlib.Core.List.{lookup}
use hyperliquid_exporter.Base.Dict.{lookup-insert, lookup-delete}
use hyperliquid_exporter.Peerset.{Peer, PeerSet, evict_expired, snapshot}
use hyperliquid_exporter.Peerset.Expiry.{
  ip_of, stale, live, evict_expired-keep, evict_expired-IsValid,
}
use hyperliquid_exporter.Peerset.Invariant.{IsNamed, IsValid}
use hyperliquid_exporter.Publisher.{
  Publisher, drop_peer, drop_peers, publish_windows, publish_totals, publish_peer, publish_peers,
  tick_peer_set,
}
use hyperliquid_exporter.Base.{
  ℕ, ◌+◌, ◌≡◌, refl, ap, Bool, true, false, not, ◌&&◌, ◌||◌, List, [], ◌∷◌, map, ◌/◌, arith,
  if◌then◌else◌, Option-cases, Bytes, bytes_discrete, All, has, keep, ite, dec_le,
}

-- The series that an IP has, and whether it has a label.
unfoldable pub labels : Bytes → Publisher → Bool
labels k p = has (lookup bytes_discrete k p.per_peer_labels)

unfoldable pub last_seen : Bytes → Publisher → Bool
last_seen k p = has (lookup bytes_discrete k p.last_seen_series)

unfoldable pub first_seen : Bytes → Publisher → Bool
first_seen k p = has (lookup bytes_discrete k p.first_seen_series)

-- Both series exist exactly for the IPs with a label.
abbrev pub IsAligned : Publisher → Type 0
IsAligned p = (k : Bytes) → (last_seen k p ≡ labels k p) × (first_seen k p ≡ labels k p)

unfoldable pub is_listed : Bytes → List Bytes → Bool
is_listed k [] = false
is_listed k (j ∷ l) = ite (bytes_discrete j k) true (is_listed k l)

unfoldable pub is_named_in : Bytes → List Peer → Bool
is_named_in k [] = false
is_named_in k (p ∷ peers) = ite (bytes_discrete p.ip k) true (is_named_in k peers)

drop_peer-labels :
    (k ip : Bytes) (p : Publisher)
    → IsAligned p
    → (labels k (drop_peer ip p) ≡ ite (bytes_discrete ip k) false (labels k p))
      × (last_seen k (drop_peer ip p) ≡ labels k (drop_peer ip p))
      × (first_seen k (drop_peer ip p) ≡ labels k (drop_peer ip p))
unfolding drop_peer labels last_seen first_seen has
drop_peer-labels k ip p a = ground (
  arith,
  Option-cases (lookup bytes_discrete ip p.per_peer_labels),
  a k,
  lookup-delete bytes_discrete k ip p.per_peer_labels,
  lookup-delete bytes_discrete k ip p.last_seen_series,
  lookup-delete bytes_discrete k ip p.first_seen_series,
)

drop_peers-labels :
    (k : Bytes) (evicted : List Bytes) (p : Publisher)
    → IsAligned p
    → (labels k (drop_peers evicted p) ≡ (if is_listed k evicted then false else labels k p))
      × (last_seen k (drop_peers evicted p) ≡ labels k (drop_peers evicted p))
      × (first_seen k (drop_peers evicted p) ≡ labels k (drop_peers evicted p))
unfolding drop_peers is_listed
drop_peers-labels k [] p a = (refl, (a k).0, (a k).1)
drop_peers-labels k (ip ∷ evicted) p a =
    let next =
      drop_peers-labels k evicted (drop_peer ip p)
        (λ j. let d = drop_peer-labels j ip p a in (d.1, d.2)) in
    ground (arith, next, drop_peer-labels k ip p a)

publish_peers-labels :
    (k : Bytes) (peers : List Peer) (p : Publisher)
    → (labels k (publish_peers peers p) ≡ is_named_in k peers || labels k p)
      × (last_seen k (publish_peers peers p) ≡ is_named_in k peers || last_seen k p)
      × (first_seen k (publish_peers peers p) ≡ is_named_in k peers || first_seen k p)
unfolding publish_peers publish_peer is_named_in labels last_seen first_seen has
publish_peers-labels k [] p = (refl, refl, refl)
publish_peers-labels k (peer ∷ peers) p = ground (
  arith,
  publish_peers-labels k peers (publish_peer peer p),
  lookup-insert bytes_discrete k peer.ip tt p.per_peer_labels,
  lookup-insert bytes_discrete k peer.ip (peer.last_seen / 1000000000) p.last_seen_series,
  lookup-insert bytes_discrete k peer.ip (peer.first_seen / 1000000000) p.first_seen_series,
)

snapshot-names :
    (k : Bytes) (peers : List (Bytes × Peer))
    → All IsNamed peers
    → is_named_in k (
        map
          (λ e. record {
            ip = e.1.ip;
            first_seen = e.1.first_seen;
            last_seen = e.1.last_seen;
            directions = [];
          })
          peers)
      ≡ has (lookup bytes_discrete k peers)
unfolding is_named_in has lookup
snapshot-names k [] a = refl
snapshot-names k ((ip, p) ∷ peers) a = ground (arith, snapshot-names k peers a.1, a.0.0)

-- A peer of the set is either evicted or kept, and only peers of the set are evicted.
evicted_or_kept :
    (k : Bytes) (ttl now : ℕ) (peers : List (Bytes × Peer))
    → has (lookup bytes_discrete k peers)
      ≡ is_listed k (map ip_of (keep (stale ttl now) peers))
        || has (lookup bytes_discrete k (keep (live ttl now) peers))
unfolding is_listed has lookup keep
evicted_or_kept k ttl now [] = refl
evicted_or_kept k ttl now ((ip, p) ∷ peers) = elim (dec_le now (p.last_seen + ttl)) [
  | yes h ↦ ground (arith, evicted_or_kept k ttl now peers)
  | no h ↦ ground (arith, evicted_or_kept k ttl now peers)
]

named_in-snapshot :
    (k : Bytes) (set : PeerSet)
    → All IsNamed set.peers
    → is_named_in k (snapshot set) ≡ has (lookup bytes_discrete k set.peers)
unfolding snapshot
named_in-snapshot k set a = snapshot-names k set.peers a

-- The gauges and counters that are no series of a peer leave the labels.
gauges_labels :
    (k : Bytes) (now : ℕ) (set : PeerSet) (p : Publisher)
    → (labels k (publish_totals set (publish_windows now set p)) ≡ labels k p)
      × (last_seen k (publish_totals set (publish_windows now set p)) ≡ last_seen k p)
      × (first_seen k (publish_totals set (publish_windows now set p)) ≡ first_seen k p)
unfolding labels last_seen first_seen publish_totals publish_windows
gauges_labels k now set p = (refl, refl, refl)

-- What a tick that publishes per peer does to the labels and the series.
tick-labels :
    (k : Bytes) (now : ℕ) (set : PeerSet) (p : Publisher)
    → IsValid set
    → IsAligned p
    → (labels k (tick_peer_set true now (set, p)).1
        ≡ has (lookup bytes_discrete k (keep (live set.ttl now) set.peers))
          || (labels k p && not (is_listed k (map ip_of (keep (stale set.ttl now) set.peers)))))
      × (last_seen k (tick_peer_set true now (set, p)).1
          ≡ labels k (tick_peer_set true now (set, p)).1)
      × (first_seen k (tick_peer_set true now (set, p)).1
          ≡ labels k (tick_peer_set true now (set, p)).1)
unfolding tick_peer_set
tick-labels k now set p v a =
    let (set', evicted) = evict_expired now set in
    let (kept, gone) = evict_expired-keep now set v in
    let p1 = drop_peers evicted p in
    let p2 = publish_totals set' (publish_windows now set' p1) in
    let dropped = drop_peers-labels k evicted p a in
    let published = publish_peers-labels k (snapshot set') p2 in
    let names = named_in-snapshot k set' (evict_expired-IsValid now set v).named in
    let same = gauges_labels k now set' p1 in
    let list = ap (is_listed k) gone in
    let peers = ap (λ l. has (lookup bytes_discrete k l)) kept in
    ground (arith, dropped, published, names, same, list, peers)

-- If before a tick that publishes per peer the series are those of the labels, and every IP with
-- a label is in the set, then after it the labels and both series are exactly the IPs of the set.
pub tick_peer_set-labels :
    (now : ℕ) (set : PeerSet) (p : Publisher)
    → IsValid set
    → IsAligned p
    → ((k : Bytes) → labels k p ≡ true → has (lookup bytes_discrete k set.peers) ≡ true)
    → (k : Bytes)
    → (labels k (tick_peer_set true now (set, p)).1
        ≡ has (lookup bytes_discrete k (tick_peer_set true now (set, p)).0.peers))
      × (last_seen k (tick_peer_set true now (set, p)).1
          ≡ has (lookup bytes_discrete k (tick_peer_set true now (set, p)).0.peers))
      × (first_seen k (tick_peer_set true now (set, p)).1
          ≡ has (lookup bytes_discrete k (tick_peer_set true now (set, p)).0.peers))
unfolding tick_peer_set
tick_peer_set-labels now set p v a inside k =
    let t = tick-labels k now set p v a in
    let kept = ap (λ l. has (lookup bytes_discrete k l)) (evict_expired-keep now set v).0 in
    ground (arith, t, kept, inside k, evicted_or_kept k set.ttl now set.peers)
