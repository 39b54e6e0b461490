-- ===== src/Traffic.antt =====
-- internal/monitors/tcp_traffic_monitor.go: the accumulation of the flows, the feed of the peer
-- set, and `publishTCPDirection`, which keeps the per-peer series of one direction.
--
-- A traffic value is a number that stands for a float64. The addition of the flows of an address is
-- an argument, `plus`, of which nothing is assumed; the sums of `publishTCPDirection` are exact, as
-- the rounding of float64 is left out there. The series of one direction are a map from the label `ip`; `samples` come sorted, as `sort.Slice` leaves them.
pub mod Series
pub mod Totals
pub mod Feed
mod Tests
use mathlib.Core.List.{lookup}
use hyperliquid_exporter.Base.Dict.{insert, delete}
use hyperliquid_exporter.Peerset.{PeerSet, register}
use hyperliquid_exporter.Base.{
  ℕ, zero, suc, ◌+◌, ◌-◌, ◌%◌, ◌≤◌, ◌<◌, ◌≡◌, refl, sym, ap, ◌∙◌, fun_ext, ◌≢◌, ◌↔◌, ◌⊎◌, inl, inr,
  Bool, true, false, not, ◌&&◌, ◌||◌, Option, none, some, List, [], ◌∷◌, ◌++◌, map, take, drop,
  arith, ltb, leb, ◌==◌, if◌then◌else◌, ==_iff, Bool-cases, Option-cases, Bytes, codes,
  bytes_discrete, length, All, keep, ite, dec_lt, dec_le, ℕ_discrete, if_pos, if_neg,
}

pub record PeerSample : Type 0 where
  pub ip : Bytes
  pub value : ℕ

abbrev pub top_n : ℕ
top_n = 16

abbrev pub other : Bytes
other = codes "other"

-- The series of one direction, the labels published before, and the two gauges.
pub record Direction : Type 0 where
  pub series : List (Bytes × ℕ)
  pub prev : List (Bytes × Bool)
  pub total_traffic : ℕ
  pub peer_count : ℕ

-- The loop over the samples, at index `i`.
unfoldable pub set_top :
    ℕ
    → List PeerSample
    → List (Bytes × ℕ) × List (Bytes × Bool)
    → List (Bytes × ℕ) × List (Bytes × Bool)
set_top i [] acc = acc
set_top i (s ∷ samples) (series, current) = set_top (i + 1) samples (
  (if ltb i top_n then insert bytes_discrete s.ip s.value series else series),
  (if ltb i top_n then insert bytes_discrete s.ip true current else current),
)

unfoldable pub top_sum : ℕ → List PeerSample → ℕ
top_sum i [] = 0
top_sum i (s ∷ samples) = (if ltb i top_n then s.value else 0) + top_sum (i + 1) samples

unfoldable pub other_sum : ℕ → List PeerSample → ℕ
other_sum i [] = 0
other_sum i (s ∷ samples) = (if ltb i top_n then 0 else s.value) + other_sum (i + 1) samples

-- `if otherSum > 0`
unfoldable pub set_other :
    ℕ → List (Bytes × ℕ) × List (Bytes × Bool) → List (Bytes × ℕ) × List (Bytes × Bool)
set_other sum (series, current) =
    if ltb 0 sum
    then (insert bytes_discrete other sum series, insert bytes_discrete other true current)
    else (series, current)

-- The loop over the labels published before; `!current[ip]`.
unfoldable pub drop_series :
    List (Bytes × Bool)
    → List (Bytes × Bool)
    → List (Bytes × ℕ) × List (Bytes × Bool)
    → List (Bytes × ℕ) × List (Bytes × Bool)
drop_series current [] acc = acc
drop_series current ((ip, x) ∷ walk) (series, prev) =
    drop_series current walk (elim (lookup bytes_discrete ip current) [
      | some true ↦ (series, prev)
      | some false ↦ (delete bytes_discrete ip series, delete bytes_discrete ip prev)
      | none ↦ (delete bytes_discrete ip series, delete bytes_discrete ip prev)
    ])

unfoldable pub add_labels : List (Bytes × Bool) → List (Bytes × Bool) → List (Bytes × Bool)
add_labels [] prev = prev
add_labels ((ip, x) ∷ current) prev = add_labels current (insert bytes_discrete ip true prev)

unfoldable pub publish_tcp_direction : List PeerSample → Direction → Direction
publish_tcp_direction samples d =
    let (series, current) = set_other (other_sum 0 samples) (set_top 0 samples (d.series, [])) in
    let (series', prev) = drop_series current d.prev (series, d.prev) in
    record {
      series = series';
      prev = add_labels current prev;
      total_traffic = top_sum 0 samples + other_sum 0 samples;
      peer_count = length samples;
    }

-- A flow that decodes.
pub data FlowDirection : Type 0 where
  flow_in flow_out flow_unknown : FlowDirection

pub record Flow : Type 0 where
  pub direction : FlowDirection
  pub ip : Bytes
  pub value : ℕ

-- `acc[ip] += value`
unfoldable pub add_value : (ℕ → ℕ → ℕ) → Bytes → ℕ → List (Bytes × ℕ) → List (Bytes × ℕ)
add_value plus ip value acc =
    let old : ℕ = elim (lookup bytes_discrete ip acc) [ none ↦ 0 | some n ↦ n ] in
    insert bytes_discrete ip (plus old value) acc

unfoldable pub add_flow :
    (ℕ → ℕ → ℕ) → Flow → List (Bytes × ℕ) × List (Bytes × ℕ) → List (Bytes × ℕ) × List (Bytes × ℕ)
add_flow plus f (inbound, outbound) = elim f.direction [
  | flow_in ↦ (add_value plus f.ip f.value inbound, outbound)
  | flow_out ↦ (inbound, add_value plus f.ip f.value outbound)
  | flow_unknown ↦ (inbound, outbound)
]

-- The loop over the flows; a flow that does not decode is `none`, and skipped.
unfoldable pub add_flows :
    (ℕ → ℕ → ℕ)
    → List (Option Flow)
    → List (Bytes × ℕ) × List (Bytes × ℕ)
    → List (Bytes × ℕ) × List (Bytes × ℕ)
add_flows plus [] acc = acc
add_flows plus (none ∷ flows) acc = add_flows plus flows acc
add_flows plus (some f ∷ flows) acc = add_flows plus flows (add_flow plus f acc)

unfoldable pub samples_of : List (Bytes × ℕ) → List PeerSample
samples_of acc = map (λ e. record { ip = e.0; value = e.1 }) acc

unfoldable pub parse_flows : (ℕ → ℕ → ℕ) → List (Option Flow) → List PeerSample × List PeerSample
parse_flows plus flows =
    let (inbound, outbound) = add_flows plus flows ([], []) in
    (samples_of inbound, samples_of outbound)

-- The loop that feeds the peer set with the samples of one direction that have traffic.
unfoldable pub feed :
    Bytes
    → ℕ
    → List PeerSample
    → PeerSet × List (Bytes × Unit {0})
    → PeerSet × List (Bytes × Unit {0})
feed direction now [] acc = acc
feed direction now (p ∷ samples) (set, active) = feed direction now samples (
  (if p.value == 0 then set else (register p.ip direction now set).0),
  (if p.value == 0 then active else insert bytes_discrete p.ip tt active),
)

-- What a tick does to the peer set, and `hl_p2p_peers`.
unfoldable pub feed_peers : ℕ → List PeerSample → List PeerSample → PeerSet → PeerSet × ℕ
feed_peers now inbound outbound set =
    let (set', active) =
      feed (codes "out") now outbound (feed (codes "in") now inbound (set, [])) in
    (set', length active)
