-- ===== src/Health/Tests.antt =====
-- Runs of internal/metrics/health.go.
use mathlib.Core.List.{lookup}
use hyperliquid_exporter.Base.Dict.{insert}
use hyperliquid_exporter.Health.{
  Monitors, register_monitor, get_or_create, mark_monitor_started, mark_monitor_tick,
  inc_monitor_panic, inc_monitor_error, all_started, ready, snapshot_monitors,
}
use hyperliquid_exporter.Health.Readiness.{step, IsSteady}
use hyperliquid_exporter.Base.{
  ◌≡◌, refl, true, false, [], Bytes, codes, bytes_discrete, length, ℕ_discrete,
}

program : Unit {0}
unfolding register_monitor get_or_create mark_monitor_started mark_monitor_tick inc_monitor_panic
    inc_monitor_error all_started ready snapshot_monitors insert lookup bytes_discrete ℕ_discrete
    step IsSteady
program = tt

abbrev a : Bytes
a = codes "evm"

abbrev b : Bytes
b = codes "gossip"

abbrev declared : Monitors
declared = register_monitor b (register_monitor a [])

-- Two monitors are declared, and both have to start; no tick is asked for.
waiting : ready (mark_monitor_started 100 a declared) ≡ false
unfolding program
waiting = refl

abbrev running : Monitors
running = mark_monitor_started 101 b (mark_monitor_started 100 a declared)

is_running : ready running ≡ true
unfolding program
is_running = refl

none_declared : ready [] ≡ false
unfolding program
none_declared = refl

snapshot_length : length (snapshot_monitors (inc_monitor_error a running)) ≡ 2
unfolding program
snapshot_length = refl
