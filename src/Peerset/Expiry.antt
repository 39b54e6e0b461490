-- ===== src/Peerset/Expiry.antt =====
-- `EvictExpired` and `UniqueSeenIn` of internal/peerset/peerset.go.
use mathlib.Core.List.{lookup, append-nil, append_assoc}
use hyperliquid_exporter.Base.Dict.{Distinct, delete-Distinct, delete-middle}
use hyperliquid_exporter.Peerset.{
  Peer, PeerSet, is_stale, expire_from, evict_expired, count_seen, unique_seen_in, len,
}
use hyperliquid_exporter.Peerset.Invariant.{IsNamed, IsValid}
use hyperliquid_exporter.Base.{
  ℕ, ◌+◌, ◌≤◌, ◌≡◌, refl, sym, ap, ◌∙◌, inl, inr, Bool, none, List, [], ◌∷◌, ◌++◌, map, arith,
  Bool-cases, Bytes, bytes_discrete, length, All, keep, leb, ltb,
}

abbrev pub ip_of : Bytes × Peer → Bytes
ip_of e = e.0

abbrev pub stale : ℕ → ℕ → Bytes × Peer → Bool
stale ttl now e = ltb (e.1.last_seen + ttl) now

abbrev pub live : ℕ → ℕ → Bytes × Peer → Bool
live ttl now e = leb now (e.1.last_seen + ttl)

-- The loop, when it has visited `seen` and has `m` left.
expire_from-keep :
    (ttl now : ℕ) (m seen : List (Bytes × Peer)) (evicted : List Bytes)
    → Distinct bytes_discrete (seen ++ m)
    → ((expire_from ttl now m (seen ++ m) evicted).0 ≡ seen ++ keep (live ttl now) m)
      × ((expire_from ttl now m (seen ++ m) evicted).1
          ≡ evicted ++ map ip_of (keep (stale ttl now) m))
unfolding expire_from keep is_stale
expire_from-keep ttl now [] seen evicted d = (refl, sym (append-nil evicted))
expire_from-keep ttl now ((ip, p) ∷ m) seen evicted d =
    elim (Bool-cases (ltb (p.last_seen + ttl) now)) [
      | inl old ↦
          let gone = delete-middle bytes_discrete ip p seen m d in
          let ih =
            expire_from-keep ttl now m seen (evicted ++ ip ∷ [])
              (rw (← gone) (delete-Distinct bytes_discrete ip (seen ++ (ip, p) ∷ m) d)) in
          ground
            (arith, gone, ih, append_assoc evicted (ip ∷ []) (map ip_of (keep (stale ttl now) m)))
      | inr fresh ↦
          let regroup = append_assoc seen ((ip, p) ∷ []) m in
          let ih = expire_from-keep ttl now m (seen ++ (ip, p) ∷ []) evicted (rw regroup d) in
          ground (arith, regroup, ih, append_assoc seen ((ip, p) ∷ []) (keep (live ttl now) m))
    ]

-- `EvictExpired` keeps exactly the peers whose last sighting is not older than the TTL, in their
-- order, and returns the IPs of the others.
pub evict_expired-keep :
    (now : ℕ) (s : PeerSet)
    → IsValid s
    → ((evict_expired now s).0.peers ≡ keep (live s.ttl now) s.peers)
      × ((evict_expired now s).1 ≡ map ip_of (keep (stale s.ttl now) s.peers))
unfolding evict_expired
evict_expired-keep now s v = expire_from-keep s.ttl now s.peers [] [] v.distinct

length-live :
    (ttl now : ℕ) (m : List (Bytes × Peer))
    → length (keep (live ttl now) m) + length (map ip_of (keep (stale ttl now) m)) ≡ length m
unfolding keep
length-live ttl now [] = refl
length-live ttl now ((ip, p) ∷ m) = ground (arith, length-live ttl now m)

keep-lookup-none :
    (ttl now : ℕ) (k : Bytes) (m : List (Bytes × Peer))
    → lookup bytes_discrete k m ≡ none
    → lookup bytes_discrete k (keep (live ttl now) m) ≡ none
unfolding keep lookup
keep-lookup-none ttl now k [] h = refl
keep-lookup-none ttl now k ((ip, p) ∷ m) h = ground (arith, keep-lookup-none ttl now k m)

keep-Distinct :
    (ttl now : ℕ) (m : List (Bytes × Peer))
    → Distinct bytes_discrete m
    → Distinct bytes_discrete (keep (live ttl now) m)
unfolding keep
keep-Distinct ttl now [] d = tt
keep-Distinct ttl now ((ip, p) ∷ m) d =
    ground (arith, keep-Distinct ttl now m d.1, keep-lookup-none ttl now ip m d.0)

keep-IsNamed :
    (ttl now : ℕ) (m : List (Bytes × Peer)) → All IsNamed m → All IsNamed (keep (live ttl now) m)
unfolding keep
keep-IsNamed ttl now [] a = tt
keep-IsNamed ttl now ((ip, p) ∷ m) a = ground (arith, keep-IsNamed ttl now m a.1)

-- `EvictExpired` keeps the invariant: every peer that goes is counted.
pub evict_expired-IsValid : (now : ℕ) (s : PeerSet) → IsValid s → IsValid (evict_expired now s).0
unfolding evict_expired
evict_expired-IsValid now s v =
    let (kept, gone) = evict_expired-keep now s v in
    record {
      distinct = rw kept (keep-Distinct s.ttl now s.peers v.distinct);
      bounded = omega (arith, ap length kept, length-live s.ttl now s.peers, v.bounded);
      named = rw kept (keep-IsNamed s.ttl now s.peers v.named);
      accounted =
          omega (arith, ap length kept, ap length gone, length-live s.ttl now s.peers, v.accounted);
    }

count_seen-length :
    (d now : ℕ) (m : List (Bytes × Peer)) → count_seen d now m ≡ length (keep (live d now) m)
unfolding count_seen keep is_stale
count_seen-length d now [] = refl
count_seen-length d now ((ip, p) ∷ m) = ground (arith, count_seen-length d now m)

keep_idem :
    (ttl now : ℕ) (m : List (Bytes × Peer))
    → keep (live ttl now) (keep (live ttl now) m) ≡ keep (live ttl now) m
unfolding keep
keep_idem ttl now [] = refl
keep_idem ttl now ((ip, p) ∷ m) = ground (arith, keep_idem ttl now m)

-- Right after `EvictExpired`, the unique count over the TTL is the size of the set, and it is the
-- count that the set had before.
pub unique_seen_in-evict_expired :
    (now : ℕ) (s : PeerSet)
    → IsValid s
    → (unique_seen_in s.ttl now (evict_expired now s).0 ≡ len (evict_expired now s).0)
      × (len (evict_expired now s).0 ≡ unique_seen_in s.ttl now s)
unfolding unique_seen_in len
unique_seen_in-evict_expired now s v =
    let (kept, gone) = evict_expired-keep now s v in
    rw kept (
      count_seen-length s.ttl now (keep (live s.ttl now) s.peers)
          ∙ ap length (keep_idem s.ttl now s.peers),
      sym (count_seen-length s.ttl now s.peers),
    )

count_seen-le :
    (d e now : ℕ) (m : List (Bytes × Peer))
    → d ≤ e
    → (count_seen d now m ≤ count_seen e now m) × (count_seen e now m ≤ length m)
unfolding count_seen is_stale
count_seen-le d e now [] h = omega arith
count_seen-le d e now ((ip, p) ∷ m) h = ground (arith, count_seen-le d e now m h)

-- A longer window counts at least the peers of a shorter one, and never more than the set holds.
pub unique_seen_in-le :
    (d e now : ℕ) (s : PeerSet)
    → d ≤ e
    → (unique_seen_in d now s ≤ unique_seen_in e now s) × (unique_seen_in e now s ≤ len s)
unfolding unique_seen_in len
unique_seen_in-le d e now s h = count_seen-le d e now s.peers h
