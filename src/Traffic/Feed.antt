-- ===== src/Traffic/Feed.antt =====
-- The feed of the peer set in internal/monitors/tcp_traffic_monitor.go, and `hl_p2p_peers`.
use mathlib.Core.List.{lookup}
use hyperliquid_exporter.Base.Dict.{insert, lookup-insert, Distinct, insert-Distinct}
use hyperliquid_exporter.Peerset.{
  PeerSet, register, make_room, evict_oldest_locked, oldest_from, add_peer,
}
use hyperliquid_exporter.Peerset.Invariant.{IsValid, register-IsValid}
use hyperliquid_exporter.Traffic.{PeerSample, feed, feed_peers}
use hyperliquid_exporter.Base.{
  ℕ, ◌<◌, ◌≡◌, refl, inl, inr, Bool, false, not, ◌||◌, none, List, [], ◌∷◌, arith, ◌==◌, Bool-cases,
  Option-cases, Bytes, codes, bytes_discrete, length, has, ite,
}

register-cap :
    (ip direction : Bytes) (now : ℕ) (set : PeerSet)
    → (register ip direction now set).0.cap ≡ set.cap
unfolding register make_room evict_oldest_locked add_peer
register-cap ip direction now set = ground (arith, Option-cases (oldest_from none set.peers))

feed-IsValid :
    (direction : Bytes) (now : ℕ) (samples : List PeerSample) (set : PeerSet)
    (active : List (Bytes × Unit {0}))
    → IsValid set
    → 0 < set.cap
    → IsValid (feed direction now samples (set, active)).0
      × (0 < (feed direction now samples (set, active)).0.cap)
unfolding feed
feed-IsValid direction now [] set active v pos = (v, pos)
feed-IsValid direction now (p ∷ samples) set active v pos = elim (Bool-cases (p.value == 0)) [
  | inl h ↦ rw (h, feed) (feed-IsValid direction now samples set active v pos)
  | inr h ↦
      rw (h, feed)
        (feed-IsValid direction now samples (register p.ip direction now set).0
          (insert bytes_discrete p.ip tt active) (register-IsValid p.ip direction now set v pos)
          (rw (register-cap p.ip direction now set) pos))
]

-- Feeding the peer set with a sample of both directions keeps its invariant.
pub feed_peers-IsValid :
    (now : ℕ) (inbound outbound : List PeerSample) (set : PeerSet)
    → IsValid set
    → 0 < set.cap
    → IsValid (feed_peers now inbound outbound set).0
unfolding feed_peers
feed_peers-IsValid now inbound outbound set v pos =
    let first = feed (codes "in") now inbound (set, []) in
    let (v', pos') = feed-IsValid (codes "in") now inbound set [] v pos in
    (feed-IsValid (codes "out") now outbound first.0 first.1 v' pos').0

-- A peer has traffic in a list of samples.
unfoldable pub is_active : Bytes → List PeerSample → Bool
is_active k [] = false
is_active k (p ∷ samples) =
    ite (bytes_discrete p.ip k) (not (p.value == 0)) false || is_active k samples

feed-active :
    (k direction : Bytes) (now : ℕ) (samples : List PeerSample) (set : PeerSet)
    (active : List (Bytes × Unit {0}))
    → has (lookup bytes_discrete k (feed direction now samples (set, active)).1)
      ≡ is_active k samples || has (lookup bytes_discrete k active)
unfolding feed is_active has
feed-active k direction now [] set active = refl
feed-active k direction now (p ∷ samples) set active = elim (Bool-cases (p.value == 0)) [
  | inl h ↦ ground (arith, feed-active k direction now samples set active)
  | inr h ↦ ground (
    arith,
    feed-active k direction now samples (register p.ip direction now set).0
        (insert bytes_discrete p.ip tt active),
    lookup-insert bytes_discrete k p.ip tt active,
  )
]

feed-Distinct :
    (direction : Bytes) (now : ℕ) (samples : List PeerSample) (set : PeerSet)
    (active : List (Bytes × Unit {0}))
    → Distinct bytes_discrete active
    → Distinct bytes_discrete (feed direction now samples (set, active)).1
unfolding feed
feed-Distinct direction now [] set active d = d
feed-Distinct direction now (p ∷ samples) set active d = elim (Bool-cases (p.value == 0)) [
  | inl h ↦ rw (h, feed) (feed-Distinct direction now samples set active d)
  | inr h ↦
      rw (h, feed)
        (feed-Distinct direction now samples (register p.ip direction now set).0
          (insert bytes_discrete p.ip tt active) (insert-Distinct bytes_discrete p.ip tt active d))
]

-- `hl_p2p_peers` is the number of the IPs that have traffic in one direction or in both: the
-- length of a list without repetition that holds exactly those IPs.
pub feed_peers-count :
    (now : ℕ) (inbound outbound : List PeerSample) (set : PeerSet)
    → (active : List (Bytes × Unit {0})) × Distinct bytes_discrete active
      × ((k : Bytes)
          → has (lookup bytes_discrete k active) ≡ is_active k outbound || is_active k inbound)
      × ((feed_peers now inbound outbound set).1 ≡ length active)
unfolding feed_peers has lookup
feed_peers-count now inbound outbound set =
    let first = feed (codes "in") now inbound (set, []) in
    let second = feed (codes "out") now outbound first in
    (
      second.1,
      feed-Distinct (codes "out") now outbound first.0 first.1
          (feed-Distinct (codes "in") now inbound set [] tt),
      λ k. ground (
        arith,
        feed-active k (codes "out") now outbound first.0 first.1,
        feed-active k (codes "in") now inbound set [],
      ),
      refl,
    )
