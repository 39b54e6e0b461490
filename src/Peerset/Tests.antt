-- ===== src/Peerset/Tests.antt =====
-- Runs of the peer set of internal/peerset/peerset.go, and the theorems at such inputs.
use mathlib.Core.List.{lookup}
use hyperliquid_exporter.Base.Dict.{insert, delete}
use hyperliquid_exporter.Peerset.Expiry.{ip_of, stale, live, evict_expired-keep, unique_seen_in-le}
use hyperliquid_exporter.Peerset.Invariant.{IsValid, new-IsValid, register-IsValid}
use hyperliquid_exporter.Peerset.Registration.{
  seen_peer, EvictsOldest, lookup-register_self, register-EvictsOldest,
}
use hyperliquid_exporter.Peerset.{
  PeerSet, new, add_direction, oldest_from, evict_oldest_locked, add_peer, is_empty, make_room,
  register, is_stale, expire_from, evict_expired, count_seen, unique_seen_in, len, snapshot,
}
use hyperliquid_exporter.Base.{
  ◌≤◌, ◌<◌, ◌≡◌, refl, true, some, [], ◌∷◌, map, arith, Bytes, codes, bytes_discrete, length, keep,
  ℕ_discrete,
}

program : Unit {0}
unfolding new add_direction oldest_from evict_oldest_locked add_peer is_empty make_room register
    is_stale expire_from evict_expired count_seen unique_seen_in len snapshot insert delete lookup
    keep bytes_discrete ℕ_discrete
program = tt

abbrev a : Bytes
a = codes "10.0.0.1"

abbrev b : Bytes
b = codes "10.0.0.2"

abbrev d : Bytes
d = codes "10.0.0.3"

abbrev start : PeerSet
start = record { peers = []; cap = 2; ttl = 100; added_total = 0; evicted_total = 0 }

start-IsValid : IsValid start
unfolding new
start-IsValid = new-IsValid 2 100

-- Two peers, of which the first is seen again.
abbrev one : PeerSet
one = (register a (codes "in") 10 start).0

abbrev two : PeerSet
two = (register b (codes "out") 20 one).0

abbrev three : PeerSet
three = (register a (codes "out") 30 two).0

three-IsValid : IsValid three
unfolding program
three-IsValid =
    register-IsValid a (codes "out") 30 two
      (register-IsValid b (codes "out") 20 one
        (register-IsValid a (codes "in") 10 start start-IsValid (omega arith)) (omega arith))
      (omega arith)

cap-three : 0 < three.cap
unfolding program
cap-three = omega arith

runs :
    ((register d (codes "in") 40 three).1 ≡ b)
    × ((register d (codes "in") 40 three).2 ≡ true)
    × ((evict_expired 125 three).1 ≡ b ∷ [])
    × (unique_seen_in 15 40 three ≡ 1)
    × (three.added_total ≡ 2)
    × (map (λ p. length p.directions) (snapshot three) ≡ 0 ∷ 0 ∷ [])
unfolding program
runs = (refl, refl, refl, refl, refl, refl)

register-IsValid_example : IsValid (register d (codes "in") 40 three).0
register-IsValid_example = register-IsValid d (codes "in") 40 three three-IsValid cap-three

lookup-register_self_example :
    lookup bytes_discrete a (register a (codes "in") 50 three).0.peers
    ≡ some (seen_peer a (codes "in") 50 (lookup bytes_discrete a three.peers))
unfolding is_empty
lookup-register_self_example = lookup-register_self a (codes "in") 50 three refl

register-EvictsOldest_example :
    EvictsOldest d (codes "in") 40 three (register d (codes "in") 40 three).1
register-EvictsOldest_example =
    register-EvictsOldest d (codes "in") 40 three three-IsValid cap-three runs.1

evict_expired-keep_example :
    ((evict_expired 125 three).0.peers ≡ keep (live three.ttl 125) three.peers)
    × ((evict_expired 125 three).1 ≡ map ip_of (keep (stale three.ttl 125) three.peers))
evict_expired-keep_example = evict_expired-keep 125 three three-IsValid

unique_seen_in-le_example :
    (unique_seen_in 15 40 three ≤ unique_seen_in 60 40 three)
    × (unique_seen_in 60 40 three ≤ len three)
unique_seen_in-le_example = unique_seen_in-le 15 60 40 three (omega arith)
