-- ===== src/Health.antt =====
-- internal/metrics/health.go: the states of the monitors and `Ready`. Times are Unix seconds; the
-- int64 counts are exact numbers. The Prometheus counters that are incremented beside a count are
-- left out.
pub mod Readiness
mod Tests
use mathlib.Core.List.{lookup}
use hyperliquid_exporter.Base.Dict.{insert}
use hyperliquid_exporter.Base.{
  ℕ, zero, suc, ◌+◌, ◌-◌, ◌%◌, ◌≤◌, ◌<◌, ◌≡◌, refl, sym, ap, ◌∙◌, fun_ext, ◌≢◌, ◌↔◌, ◌⊎◌, inl, inr,
  Bool, true, false, not, ◌&&◌, ◌||◌, Option, none, some, List, [], ◌∷◌, ◌++◌, map, arith, ltb, leb,
  ◌==◌, if◌then◌else◌, ==_iff, Bool-cases, Option-cases, Bytes, codes, bytes_discrete, length, All,
  keep, ite, dec_lt, dec_le, ℕ_discrete, if_pos, if_neg,
}

pub record MonitorState : Type 0 where
  pub started_unix : ℕ
  pub last_tick_unix : ℕ
  pub panics : ℕ
  pub errors : ℕ
  pub registered : Bool

abbrev pub Monitors : Type 0
Monitors = List (Bytes × MonitorState)

abbrev pub new_state : Bool → MonitorState
new_state registered = record {
  started_unix = 0;
  last_tick_unix = 0;
  panics = 0;
  errors = 0;
  registered = registered;
}

unfoldable pub register_monitor : Bytes → Monitors → Monitors
register_monitor name m = elim (lookup bytes_discrete name m) [
  | some s ↦ m
  | none ↦ insert bytes_discrete name (new_state true) m
]

unfoldable pub get_or_create : Bytes → Monitors → MonitorState
get_or_create name m = elim (lookup bytes_discrete name m) [ some s ↦ s | none ↦ new_state false ]

unfoldable pub mark_monitor_started : ℕ → Bytes → Monitors → Monitors
mark_monitor_started now name m =
    insert bytes_discrete name (record (get_or_create name m) { started_unix = now }) m

unfoldable pub mark_monitor_tick : ℕ → Bytes → Monitors → Monitors
mark_monitor_tick now name m =
    insert bytes_discrete name (record (get_or_create name m) { last_tick_unix = now }) m

unfoldable pub inc_monitor_panic : Bytes → Monitors → Monitors
inc_monitor_panic name m =
    let s = get_or_create name m in
    insert bytes_discrete name (record s { panics = s.panics + 1 }) m

unfoldable pub inc_monitor_error : Bytes → Monitors → Monitors
inc_monitor_error name m =
    let s = get_or_create name m in
    insert bytes_discrete name (record s { errors = s.errors + 1 }) m

-- The loop of `Ready`.
unfoldable pub all_started : Monitors → Bool
all_started [] = true
all_started ((name, s) ∷ m) =
    let rest = all_started m in
    if not s.registered then rest else if s.started_unix == 0 then false else rest

unfoldable pub ready : Monitors → Bool
ready [] = false
ready (e ∷ m) = all_started (e ∷ m)

pub record MonitorSnapshot : Type 0 where
  pub name : Bytes
  pub started_unix : ℕ
  pub last_tick_unix : ℕ
  pub panics : ℕ
  pub errors : ℕ

unfoldable pub snapshot_monitors : Monitors → List MonitorSnapshot
snapshot_monitors m =
    map
      (λ e. record {
        name = e.0;
        started_unix = e.1.started_unix;
        last_tick_unix = e.1.last_tick_unix;
        panics = e.1.panics;
        errors = e.1.errors;
      })
      m
