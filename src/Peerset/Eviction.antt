-- ===== src/Peerset/Eviction.antt =====
-- `evictOldestLocked` of internal/peerset/peerset.go: the peer that goes is the one seen longest ago.
use mathlib.Core.List.{lookup}
use hyperliquid_exporter.Base.Dict.{delete, Distinct}
use hyperliquid_exporter.Peerset.{Peer, PeerSet, u64, oldest_from, evict_oldest_locked}
use hyperliquid_exporter.Base.{
  ℕ, ◌+◌, ◌≤◌, ◌<◌, ◌≡◌, refl, ◌⊎◌, inl, inr, some, List, [], ◌∷◌, arith, ltb, Bool-cases, Bytes,
  bytes_discrete, length, All,
}

abbrev pub AreNoOlder : ℕ → List (Bytes × Peer) → Type 0
AreNoOlder t m = All (λ e. t ≤ e.1.last_seen) m

-- What the loop finds: a time no later than any seen, at the IP that it belongs to.
record Found (q : Bytes) (t : ℕ) (m : List (Bytes × Peer)) : Type 0 where
  ip : Bytes
  time : ℕ
  result : oldest_from (some (q, t)) m ≡ some (ip, time)
  least : time ≤ t
  no_older : AreNoOlder time m
  owner :
      ((ip ≡ q) × (time ≡ t))
      ⊎ ((p : Peer) × (lookup bytes_discrete ip m ≡ some p) × (p.last_seen ≡ time))

AreNoOlder-weaken : (t u : ℕ) (m : List (Bytes × Peer)) → t ≤ u → AreNoOlder u m → AreNoOlder t m
AreNoOlder-weaken t u [] h a = tt
AreNoOlder-weaken t u (e ∷ m) h a = (omega (arith, a.0), AreNoOlder-weaken t u m h a.1)

oldest_from-Found :
    (q : Bytes) (t : ℕ) (m : List (Bytes × Peer)) → Distinct bytes_discrete m → Found q t m
unfolding oldest_from lookup
oldest_from-Found q t [] d = record {
  ip = q;
  time = t;
  result = refl;
  least = omega arith;
  no_older = tt;
  owner = inl (refl, refl);
}
oldest_from-Found q t ((ip, p) ∷ m) d = elim (Bool-cases (ltb p.last_seen t)) [
  | inl older ↦
      let f = oldest_from-Found ip p.last_seen m d.1 in
      record {
        ip = f.ip;
        time = f.time;
        result = ground (arith, f.result);
        least = ground (arith, f.least);
        no_older = (f.least, f.no_older);
        owner = inr (elim f.owner [
          | inl (e, u) ↦ (p, ground arith, ground arith)
          | inr (r, found, u) ↦ (r, ground (arith, d.0), u)
        ]);
      }
  | inr newer ↦
      let f = oldest_from-Found q t m d.1 in
      record {
        ip = f.ip;
        time = f.time;
        result = ground (arith, f.result);
        least = f.least;
        no_older = (ground (arith, f.least), f.no_older);
        owner = elim f.owner [
          | inl same ↦ inl same
          | inr (r, found, u) ↦ inr (r, ground (arith, d.0), u)
        ];
      }
]

-- Evicting from a set with a peer removes one that no other peer was seen before, and counts it.
pub record Evicts (s : PeerSet) : Type 0 where
  pub ip : Bytes
  pub peer : Peer
  pub found : lookup bytes_discrete ip s.peers ≡ some peer
  pub oldest : AreNoOlder peer.last_seen s.peers
  pub result : evict_oldest_locked s ≡ (
    record s {
      peers = delete bytes_discrete ip s.peers;
      evicted_total = u64 (s.evicted_total + 1);
    },
    ip,
  )

Evicts-of :
    (s : PeerSet) (m : List (Bytes × Peer))
    → s.peers ≡ m
    → Distinct bytes_discrete m
    → 0 < length m
    → Evicts s
unfolding evict_oldest_locked oldest_from lookup
Evicts-of s [] e d pos = absurd (omega arith)
Evicts-of s ((ip, p) ∷ m) e d pos =
    let f = oldest_from-Found ip p.last_seen m d.1 in
    elim f.owner [
      | inl (same, time) ↦ record {
        ip = f.ip;
        peer = p;
        found = ground arith;
        oldest = rw e (
          omega (arith, time),
          AreNoOlder-weaken p.last_seen f.time m (omega (arith, time)) f.no_older,
        );
        result = ground (arith, f.result);
      }
      | inr (r, found, time) ↦ record {
        ip = f.ip;
        peer = r;
        found = ground (arith, d.0);
        oldest = rw e (
          omega (arith, time, f.least),
          AreNoOlder-weaken r.last_seen f.time m (omega (arith, time)) f.no_older,
        );
        result = ground (arith, f.result);
      }
    ]

pub evict_oldest_locked-Evicts :
    (s : PeerSet) → Distinct bytes_discrete s.peers → 0 < length s.peers → Evicts s
evict_oldest_locked-Evicts s d pos = Evicts-of s s.peers refl d pos
