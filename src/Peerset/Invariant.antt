-- ===== src/Peerset/Invariant.antt =====
-- The invariant of the peer set of internal/peerset/peerset.go: within its capacity, no IP twice,
-- and counters that account for every peer. `Register` keeps it.
use mathlib.Core.List.{lookup}
use hyperliquid_exporter.Base.Dict.{
  delete, Distinct, lookup-delete, insert-Distinct, delete-Distinct, length-insert_new,
  length-insert_old, length-delete, insert-All, delete-All, lookup-All,
}
use hyperliquid_exporter.Peerset.{
  Peer, PeerSet, u64, new, new_peer, add_peer, touch_peer, is_empty, make_room, register,
}
use hyperliquid_exporter.Peerset.Eviction.{Evicts, evict_oldest_locked-Evicts}
use hyperliquid_exporter.Base.{
  ℕ, ◌+◌, ◌≤◌, ◌<◌, ◌≡◌, refl, ◌⊎◌, inl, inr, false, none, [], arith, Bool-cases, Option-cases,
  Bytes, bytes_discrete, length, All, dec_lt,
}

-- An entry stands under its own IP, which is not the empty string.
abbrev pub IsNamed : Bytes × Peer → Type 0
IsNamed e = (e.1.ip ≡ e.0) × (is_empty e.0 ≡ false)

pub record IsValid (s : PeerSet) : Type 0 where
  pub distinct : Distinct bytes_discrete s.peers
  pub bounded : length s.peers ≤ s.cap
  pub named : All IsNamed s.peers
  pub accounted : s.added_total ≡ u64 (s.evicted_total + length s.peers)

pub new-IsValid : (cap ttl : ℕ) → IsValid (new cap ttl)
unfolding new
new-IsValid cap ttl = record {
  distinct = tt;
  bounded = omega arith;
  named = tt;
  accounted = omega arith;
}

-- With room for one more.
record HasRoom (s : PeerSet) : Type 0 where
  distinct : Distinct bytes_discrete s.peers
  below : length s.peers < s.cap
  named : All IsNamed s.peers
  accounted : s.added_total ≡ u64 (s.evicted_total + length s.peers)

module _ (s : PeerSet) (v : IsValid s) (pos : 0 < s.cap) where
  -- At capacity `Register` evicts the least recently seen peer, and otherwise nobody.
  pub make_room_cases :
      ((length s.peers < s.cap) × (make_room s ≡ (s, [])))
      ⊎ ((e : Evicts s) × (length s.peers ≡ s.cap)
          × (make_room s ≡ (
            record s {
              peers = delete bytes_discrete e.ip s.peers;
              evicted_total = u64 (s.evicted_total + 1);
            },
            e.ip,
          )))
  unfolding make_room
  make_room_cases = elim (dec_lt (length s.peers) s.cap) [
    | yes below ↦ inl (below, ground arith)
    | no full ↦
        let e = evict_oldest_locked-Evicts s v.distinct (omega (arith, v.bounded)) in
        inr (e, omega (arith, v.bounded), ground (arith, e.result))
  ]

  make_room-HasRoom : HasRoom (make_room s).0
  make_room-HasRoom = elim make_room_cases [
    | inl (below, same) ↦
        rw same (record {
          distinct = v.distinct;
          below = below;
          named = v.named;
          accounted = v.accounted;
        })
    | inr (e, full, evicted) ↦
        let shorter = length-delete bytes_discrete e.ip e.peer s.peers v.distinct e.found in
        rw evicted (record {
          distinct = delete-Distinct bytes_discrete e.ip s.peers v.distinct;
          below = omega arith;
          named = delete-All bytes_discrete IsNamed e.ip s.peers v.named;
          accounted = omega (arith, v.accounted);
        })
  ]

add_peer-IsValid :
    (ip direction : Bytes) (now : ℕ) (s : PeerSet)
    → HasRoom s
    → is_empty ip ≡ false
    → lookup bytes_discrete ip s.peers ≡ none
    → IsValid (add_peer ip direction now s)
unfolding add_peer
add_peer-IsValid ip direction now s r name absent =
    let longer =
      length-insert_new {V = Peer} bytes_discrete ip (new_peer ip direction now) s.peers absent in
    record {
      distinct = insert-Distinct bytes_discrete ip (new_peer ip direction now) s.peers r.distinct;
      bounded = omega (arith, r.below, longer);
      named =
          insert-All bytes_discrete IsNamed ip (new_peer ip direction now) s.peers (refl, name)
            r.named;
      accounted = omega (arith, r.accounted, longer);
    }

make_room_absent :
    (ip : Bytes) (s : PeerSet) (v : IsValid s) (pos : 0 < s.cap)
    → lookup bytes_discrete ip s.peers ≡ none
    → lookup bytes_discrete ip (make_room s).0.peers ≡ none
make_room_absent ip s v pos absent = elim (make_room_cases s v pos) [
  | inl (below, same) ↦ rw same absent
  | inr (e, full, evicted) ↦
      rw evicted (ground (arith, lookup-delete bytes_discrete ip e.ip s.peers))
]

-- `Register` keeps the set within its capacity and its counters exact, on every branch.
pub register-IsValid :
    (ip direction : Bytes) (now : ℕ) (s : PeerSet)
    → IsValid s
    → 0 < s.cap
    → IsValid (register ip direction now s).0
unfolding register
register-IsValid ip direction now s v pos = elim (Bool-cases (is_empty ip)) [
  | inl empty ↦ rw (empty, register) v
  | inr name ↦ elim (Option-cases (lookup bytes_discrete ip s.peers)) [
    | inl absent ↦
        rw (name, register, absent)
          (add_peer-IsValid ip direction now (make_room s).0 (make_room-HasRoom s v pos) name
            (make_room_absent ip s v pos absent))
    | inr (p, here) ↦
        let same =
          length-insert_old bytes_discrete ip (touch_peer direction now p) p s.peers here in
        rw (name, register, here)
          (record {
            distinct =
                insert-Distinct bytes_discrete ip (touch_peer direction now p) s.peers v.distinct;
            bounded = omega (arith, v.bounded, same);
            named =
                insert-All bytes_discrete IsNamed ip (touch_peer direction now p) s.peers
                  (lookup-All bytes_discrete IsNamed ip p s.peers v.named here) v.named;
            accounted = omega (arith, v.accounted, same);
          })
  ]
]
