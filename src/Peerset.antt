-- ===== src/Peerset.antt =====
-- internal/peerset/peerset.go: the bounded set of peers, by IP. Times and durations count
-- nanoseconds, so `LastSeen.Before(now.Add(-d))` is `last_seen + d < now`; the counters are
-- uint64. The list order of `peers` is the order in which one `range` visits the Go map.
pub mod Invariant
pub mod Expiry
pub mod Eviction
pub mod Registration
mod Tests
use mathlib.Core.List.{lookup}
use hyperliquid_exporter.Base.Dict.{insert, delete}
use hyperliquid_exporter.Base.{
  ℕ, zero, suc, ◌+◌, ◌-◌, ◌%◌, ◌≤◌, ◌<◌, ◌≡◌, refl, sym, ap, ◌∙◌, fun_ext, ◌≢◌, ◌↔◌, ◌⊎◌, inl, inr,
  Bool, true, false, not, ◌&&◌, ◌||◌, Option, none, some, List, [], ◌∷◌, ◌++◌, map, arith, ltb, leb,
  ◌==◌, if◌then◌else◌, ==_iff, Bool-cases, Option-cases, Bytes, codes, bytes_discrete, length, All,
  keep, ite, dec_lt, dec_le, ℕ_discrete, if_pos, if_neg,
}

pub record Peer : Type 0 where
  pub ip : Bytes
  pub first_seen : ℕ
  pub last_seen : ℕ
  pub directions : List (Bytes × Unit {0})

pub record PeerSet : Type 0 where
  pub peers : List (Bytes × Peer)
  pub cap : ℕ
  pub ttl : ℕ
  pub added_total : ℕ
  pub evicted_total : ℕ

abbrev pub u64 : ℕ → ℕ
u64 n = n % 18446744073709551616

unfoldable pub new : ℕ → ℕ → PeerSet
new cap ttl = record { peers = []; cap = cap; ttl = ttl; added_total = 0; evicted_total = 0 }

-- `if direction != "" { directions[direction] = struct{}{} }`
unfoldable pub add_direction : Bytes → List (Bytes × Unit {0}) → List (Bytes × Unit {0})
add_direction [] dirs = dirs
add_direction (b ∷ bs) dirs = insert bytes_discrete (b ∷ bs) tt dirs

-- The loop of `evictOldestLocked`: the oldest IP so far with its time, or `none` at first.
unfoldable pub oldest_from : Option (Bytes × ℕ) → List (Bytes × Peer) → Option (Bytes × ℕ)
oldest_from best [] = best
oldest_from none ((ip, p) ∷ m) = oldest_from (some (ip, p.last_seen)) m
oldest_from (some (q, t)) ((ip, p) ∷ m) =
    oldest_from (if ltb p.last_seen t then some (ip, p.last_seen) else some (q, t)) m

unfoldable pub evict_oldest_locked : PeerSet → PeerSet × Bytes
evict_oldest_locked s = elim (oldest_from none s.peers) [
  | none ↦ (s, [])
  | some (ip, t) ↦ (
    record s {
      peers = delete bytes_discrete ip s.peers;
      evicted_total = u64 (s.evicted_total + 1);
    },
    ip,
  )
]

abbrev pub new_peer : Bytes → Bytes → ℕ → Peer
new_peer ip direction now = record {
  ip = ip;
  first_seen = now;
  last_seen = now;
  directions = add_direction direction [];
}

-- The branch of `Register` for an IP that is not in the set, once there is room.
unfoldable pub add_peer : Bytes → Bytes → ℕ → PeerSet → PeerSet
add_peer ip direction now s = record s {
  peers = insert bytes_discrete ip (new_peer ip direction now) s.peers;
  added_total = u64 (s.added_total + 1);
}

abbrev pub touch_peer : Bytes → ℕ → Peer → Peer
touch_peer direction now p = record p {
  last_seen = now;
  directions = add_direction direction p.directions;
}

unfoldable pub is_empty : Bytes → Bool
is_empty [] = true
is_empty (b ∷ bs) = false

-- `if len(s.peers) >= s.cap { evicted = s.evictOldestLocked() }`
unfoldable pub make_room : PeerSet → PeerSet × Bytes
make_room s = if leb s.cap (length s.peers) then evict_oldest_locked s else (s, [])

unfoldable pub register : Bytes → Bytes → ℕ → PeerSet → PeerSet × Bytes × Bool
register ip direction now s =
    if is_empty ip then (s, [], false) else elim (lookup bytes_discrete ip s.peers) [
      | some p ↦ (
        record s { peers = insert bytes_discrete ip (touch_peer direction now p) s.peers },
        [],
        false,
      )
      | none ↦
          let (s', evicted) = make_room s in
          (add_peer ip direction now s', evicted, not (is_empty evicted))
    ]

unfoldable pub is_stale : ℕ → ℕ → Peer → Bool
is_stale d now p = ltb (p.last_seen + d) now

-- The loop of `EvictExpired`; deleting from a Go map during its `range` is allowed.
unfoldable pub expire_from :
    ℕ
    → ℕ
    → List (Bytes × Peer)
    → List (Bytes × Peer)
    → List Bytes
    → List (Bytes × Peer) × List Bytes
expire_from ttl now [] peers evicted = (peers, evicted)
expire_from ttl now ((ip, p) ∷ m) peers evicted =
    expire_from ttl now m (if is_stale ttl now p then delete bytes_discrete ip peers else peers)
      (if is_stale ttl now p then evicted ++ ip ∷ [] else evicted)

unfoldable pub evict_expired : ℕ → PeerSet → PeerSet × List Bytes
evict_expired now s =
    let (peers, evicted) = expire_from s.ttl now s.peers s.peers [] in
    (record s { peers = peers; evicted_total = u64 (s.evicted_total + length evicted) }, evicted)

unfoldable pub count_seen : ℕ → ℕ → List (Bytes × Peer) → ℕ
count_seen d now [] = 0
count_seen d now ((ip, p) ∷ m) = (if is_stale d now p then 0 else 1) + count_seen d now m

unfoldable pub unique_seen_in : ℕ → ℕ → PeerSet → ℕ
unique_seen_in d now s = count_seen d now s.peers

unfoldable pub len : PeerSet → ℕ
len s = length s.peers

-- `Snapshot` copies the IP and the two times; the directions of its peers are empty.
unfoldable pub snapshot : PeerSet → List Peer
snapshot s =
    map
      (λ e. record {
        ip = e.1.ip;
        first_seen = e.1.first_seen;
        last_seen = e.1.last_seen;
        directions = [];
      })
      s.peers
