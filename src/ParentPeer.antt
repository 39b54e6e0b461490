-- ===== src/ParentPeer.antt =====
-- internal/monitors/parent_peer_monitor.go: the peer with the most incoming traffic, with the
-- series that names it. `F` is the type of traffic; the snapshot of the TCP traffic monitor is an
-- argument, its time 0 if it is the zero time. The warning about a close second is left out.
pub mod Changes
mod Tests
use hyperliquid_exporter.Base.Dict.{insert, delete}
use hyperliquid_exporter.Base.{
  ℕ, zero, suc, ◌+◌, ◌-◌, ◌*◌, ◌%◌, ◌^◌, ◌/◌, ◌≤◌, ◌<◌, ◌≡◌, refl, sym, ap, ◌∙◌, fun_ext, ◌≢◌, ◌↔◌,
  ◌⊎◌, inl, inr, Bool, true, false, not, ◌&&◌, ◌||◌, Option, none, some, List, [], ◌∷◌, ◌++◌, map,
  take, drop, arith, ltb, leb, ◌==◌, if◌then◌else◌, ==_iff, Bool-cases, Option-cases, Bytes, codes,
  bytes_discrete, length, All, has, List-cases, keep, ite, dec_lt, dec_le, ℕ_discrete, if_pos,
  if_neg,
}

-- The ticker's clock, and the snapshot: its time and the incoming peers, the first the largest.
pub record Tick (F : Type 0) : Type 0 where
  pub now : ℕ
  pub snapshot_time : ℕ
  pub incoming : List (Bytes × F)

-- `currentParent` and `parentSince`, and the metrics.
pub record ParentPeer (F : Type 0) : Type 0 where
  pub current_parent : Bytes
  pub parent_since : ℕ
  pub info_series : List (Bytes × ℕ)
  pub switches : ℕ
  pub traffic : Option F
  pub tenure : Option ℕ

module _ {F : Type 0} where
  unfoldable pub new_parent_peer : ParentPeer F
  new_parent_peer = record {
    current_parent = [];
    parent_since = 0;
    info_series = [];
    switches = 0;
    traffic = none;
    tenure = none;
  }

  -- The series of the old parent goes, unless there was none.
  unfoldable pub leave_parent : ParentPeer F → ParentPeer F
  leave_parent p = elim p.current_parent [
    | [] ↦ p
    | b ∷ bs ↦ record p {
      info_series = delete bytes_discrete p.current_parent p.info_series;
      switches = p.switches + 1;
    }
  ]

  unfoldable pub change_parent : ℕ → Bytes → ParentPeer F → ParentPeer F
  change_parent now ip p =
      ite (bytes_discrete ip p.current_parent) p
        (record (leave_parent p) { current_parent = ip; parent_since = now })

  unfoldable pub publish_parent : ℕ → Bytes → F → ParentPeer F → ParentPeer F
  publish_parent now ip value p = record p {
    info_series = insert bytes_discrete ip 1 p.info_series;
    traffic = some value;
    tenure = some (now - p.parent_since);
  }

  unfoldable pub tick_peers : ℕ → List (Bytes × F) → ParentPeer F → ParentPeer F
  tick_peers now [] p = p
  tick_peers now ((ip, value) ∷ peers) p = publish_parent now ip value (change_parent now ip p)

  unfoldable pub tick_parent_peer : Tick F → ParentPeer F → ParentPeer F
  tick_parent_peer t p = if t.snapshot_time == 0 then p else tick_peers t.now t.incoming p

  unfoldable pub run : List (Tick F) → ParentPeer F → ParentPeer F
  run [] p = p
  run (t ∷ ticks) p = run ticks (tick_parent_peer t p)
