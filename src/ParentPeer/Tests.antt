-- ===== src/ParentPeer/Tests.antt =====
-- Ticks of the parent-peer monitor, and the theorem at such an input.
use hyperliquid_exporter.Base.Dict.{insert, delete}
use hyperliquid_exporter.ParentPeer.{
  Tick, new_parent_peer, leave_parent, change_parent, publish_parent, tick_peers, tick_parent_peer,
  run,
}
use hyperliquid_exporter.ParentPeer.Changes.{
  has_name, only, first_ip, top_of, tops, last_of, changes, IsShown, run-parent,
}
use hyperliquid_exporter.Base.{
  ℕ, ◌≡◌, refl, some, List, [], ◌∷◌, Bytes, codes, bytes_discrete, ℕ_discrete,
}

program : Unit {0}
unfolding insert delete new_parent_peer leave_parent change_parent publish_parent tick_peers
    tick_parent_peer run has_name only first_ip top_of tops last_of changes bytes_discrete
    ℕ_discrete
program = tt

abbrev sample : ℕ → List (Bytes × ℕ) → Tick ℕ
sample now incoming = record { now = now; snapshot_time = now; incoming = incoming }

-- Two ticks with one parent, a tick before any sample, and one with another parent.
abbrev ticks : List (Tick ℕ)
ticks =
    record { now = 1; snapshot_time = 0; incoming = [] }
    ∷ sample 2 ((codes "a", 9) ∷ (codes "b", 3) ∷ [])
    ∷ sample 5 ((codes "a", 8) ∷ [])
    ∷ sample 9 ((codes "b", 7) ∷ [])
    ∷ []

new_tenure : (run ticks new_parent_peer).tenure ≡ some 0
unfolding program
new_tenure = refl

run-parent_example : IsShown (run ticks new_parent_peer) (codes "b") 1
unfolding program
run-parent_example = run-parent ticks (refl, (refl, (refl, tt)))
