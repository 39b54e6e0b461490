-- ===== src/Publisher.antt =====
-- internal/monitors/peer_set_monitor.go: `tickPeerSet`, which publishes the peer set, with the
-- package variables `perPeerLabels`, `lastPeersAdded` and `lastPeersEvicted`.
--
-- Series are maps from the label `ip`; times count nanoseconds, and a gauge of `Unix()` seconds
-- holds their quotient by 10^9. Counters are exact numbers; totals of the set are uint64.
pub mod Labels
pub mod Counters
mod Tests
use mathlib.Core.List.{lookup}
use hyperliquid_exporter.Base.Dict.{insert, delete}
use hyperliquid_exporter.Peerset.{Peer, PeerSet, evict_expired, unique_seen_in, snapshot}
use hyperliquid_exporter.Base.{
  ℕ, zero, suc, ◌+◌, ◌-◌, ◌%◌, ◌≤◌, ◌<◌, ◌≡◌, refl, sym, ap, ◌∙◌, fun_ext, ◌≢◌, ◌↔◌, ◌⊎◌, inl, inr,
  Bool, true, false, not, ◌&&◌, ◌||◌, Option, none, some, List, [], ◌∷◌, ◌++◌, map, ◌*◌, ◌/◌, arith,
  ltb, leb, ◌==◌, if◌then◌else◌, ==_iff, Bool-cases, Option-cases, Bytes, codes, bytes_discrete,
  length, All, keep, ite, dec_lt, dec_le, ℕ_discrete, if_pos, if_neg,
}

pub record Publisher : Type 0 where
  pub per_peer_labels : List (Bytes × Unit {0})
  pub last_seen_series : List (Bytes × ℕ)
  pub first_seen_series : List (Bytes × ℕ)
  pub last_peers_added : ℕ
  pub last_peers_evicted : ℕ
  pub added_counter : ℕ
  pub evicted_counter : ℕ
  pub seen_5m : ℕ
  pub seen_1h : ℕ
  pub seen_24h : ℕ

abbrev pub seconds : ℕ → ℕ
seconds n = n * 1000000000

unfoldable pub drop_peer : Bytes → Publisher → Publisher
drop_peer ip p = elim (lookup bytes_discrete ip p.per_peer_labels) [
  | none ↦ p
  | some x ↦ record p {
    last_seen_series = delete bytes_discrete ip p.last_seen_series;
    first_seen_series = delete bytes_discrete ip p.first_seen_series;
    per_peer_labels = delete bytes_discrete ip p.per_peer_labels;
  }
]

-- The loop over the evicted IPs.
unfoldable pub drop_peers : List Bytes → Publisher → Publisher
drop_peers [] p = p
drop_peers (ip ∷ evicted) p = drop_peers evicted (drop_peer ip p)

unfoldable pub publish_windows : ℕ → PeerSet → Publisher → Publisher
publish_windows now set p = record p {
  seen_5m = unique_seen_in (seconds 300) now set;
  seen_1h = unique_seen_in (seconds 3600) now set;
  seen_24h = unique_seen_in (seconds 86400) now set;
}

-- `if added >= lastPeersAdded { Add(delta) }; lastPeersAdded = added`, and the same for evictions.
unfoldable pub publish_totals : PeerSet → Publisher → Publisher
publish_totals set p = record p {
  added_counter =
      if leb p.last_peers_added set.added_total
      then p.added_counter + (set.added_total - p.last_peers_added)
      else p.added_counter;
  last_peers_added = set.added_total;
  evicted_counter =
      if leb p.last_peers_evicted set.evicted_total
      then p.evicted_counter + (set.evicted_total - p.last_peers_evicted)
      else p.evicted_counter;
  last_peers_evicted = set.evicted_total;
}

unfoldable pub publish_peer : Peer → Publisher → Publisher
publish_peer peer p = record p {
  last_seen_series = insert bytes_discrete peer.ip (peer.last_seen / 1000000000) p.last_seen_series;
  first_seen_series =
      insert bytes_discrete peer.ip (peer.first_seen / 1000000000) p.first_seen_series;
  per_peer_labels = insert bytes_discrete peer.ip tt p.per_peer_labels;
}

unfoldable pub publish_peers : List Peer → Publisher → Publisher
publish_peers [] p = p
publish_peers (peer ∷ peers) p = publish_peers peers (publish_peer peer p)

unfoldable pub tick_peer_set : Bool → ℕ → PeerSet × Publisher → PeerSet × Publisher
tick_peer_set emit_per_peer now (set, p) =
    let (set', evicted) = evict_expired now set in
    let p1 = if emit_per_peer then drop_peers evicted p else p in
    let p2 = publish_totals set' (publish_windows now set' p1) in
    (set', if emit_per_peer then publish_peers (snapshot set') p2 else p2)
