-- ===== src/Traffic/Tests.antt =====
-- Runs of internal/monitors/tcp_traffic_monitor.go, and the theorems at such inputs.
use mathlib.Core.List.{lookup}
use hyperliquid_exporter.Base.Dict.{insert, delete}
use hyperliquid_exporter.Peerset.{PeerSet}
use hyperliquid_exporter.Peerset
use hyperliquid_exporter.Peerset.Invariant.{IsValid, new-IsValid}
use hyperliquid_exporter.Traffic.{
  PeerSample, Direction, set_top, top_sum, other_sum, set_other, drop_series, add_labels,
  publish_tcp_direction, flow_in, flow_out, flow_unknown, Flow, add_value, add_flow, add_flows,
  samples_of, parse_flows, feed, feed_peers,
}
use hyperliquid_exporter.Traffic.Series.{
  is_published, in_top, is_current, publish_tcp_direction-Published,
}
use hyperliquid_exporter.Traffic.Totals.{
  sum_samples, values_at, flow_values, added_up, values_at-parse_flows,
}
use hyperliquid_exporter.Traffic.Feed.{is_active}
use hyperliquid_exporter.Base.{
  ℕ, ◌+◌, ◌≡◌, refl, true, Option, none, some, List, [], ◌∷◌, arith, Bytes, codes, bytes_discrete,
  has, ℕ_discrete,
}

program : Unit {0}
unfolding set_top top_sum other_sum set_other drop_series add_labels publish_tcp_direction add_value
    add_flow add_flows samples_of parse_flows feed feed_peers insert delete lookup bytes_discrete
    ℕ_discrete has is_published in_top is_current sum_samples values_at flow_values added_up
    is_active Peerset.register Peerset.make_room Peerset.add_peer Peerset.is_empty Peerset.new
    Peerset.add_direction
program = tt

abbrev a : Bytes
a = codes "10.0.0.1"

abbrev b : Bytes
b = codes "10.0.0.2"

-- The peer `a` holds two connections.
abbrev flows : List (Option Flow)
flows =
    some (record { direction = flow_in; ip = a; value = 10 })
    ∷ none
    ∷ some (record { direction = flow_out; ip = b; value = 3 })
    ∷ some (record { direction = flow_in; ip = a; value = 5 })
    ∷ some (record { direction = flow_unknown; ip = b; value = 9 })
    ∷ []

abbrev plus : ℕ → ℕ → ℕ
plus x y = x + y

abbrev inbound : List PeerSample
inbound = (parse_flows plus flows).0

parsed : inbound ≡ record { ip = a; value = 15 } ∷ []
unfolding program
parsed = refl

values_at-parse_flows_example :
    (values_at a (parse_flows plus flows).0 ≡ 15 ∷ [])
    × (values_at a (parse_flows plus flows).1 ≡ [])
unfolding program
values_at-parse_flows_example = values_at-parse_flows plus a flows

-- The series of a peer that has gone.
abbrev before : Direction
before = record { series = (b, 7) ∷ []; prev = (b, true) ∷ []; total_traffic = 7; peer_count = 1 }

after : (publish_tcp_direction inbound before).series ≡ (a, 15) ∷ []
unfolding program
after = refl

before-same :
    (k : Bytes)
    → has (lookup bytes_discrete k before.series) ≡ has (lookup bytes_discrete k before.prev)
unfolding lookup has
before-same k = ground arith

publish_tcp_direction-Published_example :
    (has (lookup bytes_discrete b (publish_tcp_direction inbound before).series)
      ≡ is_published b inbound)
    × (has (lookup bytes_discrete b (publish_tcp_direction inbound before).prev)
        ≡ is_published b inbound)
publish_tcp_direction-Published_example =
    publish_tcp_direction-Published inbound before before-same b

abbrev start : PeerSet
start = record { peers = []; cap = 2; ttl = 100; added_total = 0; evicted_total = 0 }

start-IsValid : IsValid start
unfolding Peerset.new
start-IsValid = new-IsValid 2 100

-- A peer without traffic is not counted.
fed : (feed_peers 5 inbound (record { ip = b; value = 0 } ∷ []) start).1 ≡ 1
unfolding program
fed = refl
