-- ===== src/Peerset/Registration.antt =====
-- What `Register` of internal/peerset/peerset.go records, and whom it evicts.
use mathlib.Core.List.{lookup}
use hyperliquid_exporter.Base.Dict.{delete, lookup-insert, lookup-delete}
use hyperliquid_exporter.Peerset.{
  Peer, PeerSet, new_peer, add_peer, touch_peer, is_empty, make_room, register,
}
use hyperliquid_exporter.Peerset.Eviction.{AreNoOlder}
use hyperliquid_exporter.Peerset.Invariant.{IsValid, make_room_cases}
use hyperliquid_exporter.Base.{
  ℕ, ◌<◌, ◌≡◌, ◌≢◌, inl, inr, true, false, Option, none, some, arith, Option-cases, Bytes,
  bytes_discrete, length,
}

-- The peer that `Register` leaves under its IP.
abbrev pub seen_peer : Bytes → Bytes → ℕ → Option Peer → Peer
seen_peer ip direction now none = new_peer ip direction now
seen_peer ip direction now (some p) = touch_peer direction now p

module _ (ip direction : Bytes) (now : ℕ) (s : PeerSet) where
  -- After `Register` the peer is in the set, last seen now: new if it was not there, and with its
  -- first time and its directions kept if it was.
  pub lookup-register_self :
      is_empty ip ≡ false
      → lookup bytes_discrete ip (register ip direction now s).0.peers
        ≡ some (seen_peer ip direction now (lookup bytes_discrete ip s.peers))
  unfolding register add_peer
  lookup-register_self name = elim (Option-cases (lookup bytes_discrete ip s.peers)) [
    | inl absent ↦ ground (
      arith,
      lookup-insert bytes_discrete ip ip (new_peer ip direction now) (make_room s).0.peers,
    )
    | inr (p, here) ↦
        ground (arith, lookup-insert bytes_discrete ip ip (touch_peer direction now p) s.peers)
  ]

  -- No other peer changes, but for the one that is reported as evicted.
  pub lookup-register_ne :
      (j : Bytes)
      → IsValid s
      → 0 < s.cap
      → j ≢ ip
      → j ≢ (register ip direction now s).1
      → lookup bytes_discrete j (register ip direction now s).0.peers
        ≡ lookup bytes_discrete j s.peers
  unfolding register add_peer
  lookup-register_ne j v pos other kept = elim (Option-cases (lookup bytes_discrete ip s.peers)) [
    | inl absent ↦ elim (make_room_cases s v pos) [
      | inl (below, same) ↦
          ground (arith, lookup-insert bytes_discrete j ip (new_peer ip direction now) s.peers)
      | inr (e, full, evicted) ↦ ground (
        arith,
        lookup-insert bytes_discrete j ip (new_peer ip direction now)
            (delete bytes_discrete e.ip s.peers),
        lookup-delete bytes_discrete j e.ip s.peers,
      )
    ]
    | inr (p, here) ↦
        ground (arith, lookup-insert bytes_discrete j ip (touch_peer direction now p) s.peers)
  ]

  -- What a reported eviction means.
  pub record EvictsOldest (q : Bytes) : Type 0 where
    pub peer : Peer
    pub was_there : lookup bytes_discrete q s.peers ≡ some peer
    pub oldest : AreNoOlder peer.last_seen s.peers
    pub is_gone : lookup bytes_discrete q (register ip direction now s).0.peers ≡ none
    pub full : length s.peers ≡ s.cap

  -- `Register` reports an eviction only from a full set, of a peer that no other was seen before.
  pub register-EvictsOldest :
      IsValid s
      → 0 < s.cap
      → (register ip direction now s).2 ≡ true
      → EvictsOldest (register ip direction now s).1
  unfolding register add_peer
  register-EvictsOldest v pos flag = elim (Option-cases (lookup bytes_discrete ip s.peers)) [
    | inl absent ↦ elim (make_room_cases s v pos) [
      | inl (below, same) ↦ absurd (unfold is_empty in ground arith)
      | inr (e, full, evicted) ↦
          let key : (register ip direction now s).1 ≡ e.ip = ground arith in
          rw key (record {
            peer = e.peer;
            was_there = e.found;
            oldest = e.oldest;
            is_gone = ground (
              arith,
              e.found,
              lookup-insert bytes_discrete e.ip ip (new_peer ip direction now)
                  (delete bytes_discrete e.ip s.peers),
              lookup-delete bytes_discrete e.ip e.ip s.peers,
            );
            full = full;
          })
    ]
    | inr (p, here) ↦ absurd (ground arith)
  ]
