-- ===== src/Health/Readiness.antt =====
-- `Ready` of internal/metrics/health.go over the operations that change the monitors.
use mathlib.Core.List.{lookup}
use hyperliquid_exporter.Base.Dict.{insert}
use hyperliquid_exporter.Health.{
  MonitorState, Monitors, register_monitor, get_or_create, mark_monitor_started, mark_monitor_tick,
  inc_monitor_panic, inc_monitor_error, all_started, ready,
}
use hyperliquid_exporter.Base.{
  ℕ, ◌+◌, ◌<◌, ◌≡◌, refl, ◌∙◌, inl, inr, Bool, true, not, ◌&&◌, ◌||◌, some, [], ◌∷◌, arith, ltb,
  Option-cases, Bytes, bytes_discrete, has, if_pos, if_neg,
}

-- An operation, with the time at which it runs.
pub data Operation : Type 0 where
  register_op : Bytes → Operation
  start_op : ℕ → Bytes → Operation
  tick_op : ℕ → Bytes → Operation
  panic_op : Bytes → Operation
  error_op : Bytes → Operation

unfoldable pub step : Operation → Monitors → Monitors
step (register_op name) m = register_monitor name m
step (start_op now name) m = mark_monitor_started now name m
step (tick_op now name) m = mark_monitor_tick now name m
step (panic_op name) m = inc_monitor_panic name m
step (error_op name) m = inc_monitor_error name m

-- A monitor that does not keep the exporter from being ready.
unfoldable pub is_up : MonitorState → Bool
is_up s = not s.registered || ltb 0 s.started_unix

all_started-cons :
    (name : Bytes) (s : MonitorState) (m : Monitors)
    → all_started ((name, s) ∷ m) ≡ is_up s && all_started m
unfolding all_started is_up
all_started-cons name s m = ground arith

all_started-insert :
    (name : Bytes) (s : MonitorState) (m : Monitors)
    → is_up s ≡ true
    → all_started m ≡ true
    → all_started (insert bytes_discrete name s m) ≡ true
unfolding insert
all_started-insert name s [] up h = ground (arith, all_started-cons name s [], h)
all_started-insert name s ((j, t) ∷ m) up h = ground (
  arith,
  all_started-cons j t m,
  all_started-cons name s m,
  all_started-cons j t (insert bytes_discrete name s m),
  all_started-insert name s m up,
)

lookup-all_started :
    (name : Bytes) (s : MonitorState) (m : Monitors)
    → all_started m ≡ true
    → lookup bytes_discrete name m ≡ some s
    → is_up s ≡ true
unfolding lookup
lookup-all_started name s [] h found = cc
lookup-all_started name s ((j, t) ∷ m) h found =
    ground (arith, all_started-cons j t m, lookup-all_started name s m)

get_or_create-up :
    (name : Bytes) (m : Monitors) → all_started m ≡ true → is_up (get_or_create name m) ≡ true
unfolding get_or_create is_up
get_or_create-up name m h = elim (Option-cases (lookup bytes_discrete name m)) [
  | inl absent ↦ rw (absent, get_or_create) refl
  | inr (s, found) ↦ rw (found, get_or_create) (lookup-all_started name s m h found)
]

ready_iff :
    (name : Bytes) (s : MonitorState) (m : Monitors)
    → ready (insert bytes_discrete name s m) ≡ all_started (insert bytes_discrete name s m)
unfolding insert ready
ready_iff name s [] = refl
ready_iff name s ((j, t) ∷ m) = elim (bytes_discrete name j) [
  | yes e ↦ rw (if_pos _ e) refl
  | no e ↦ rw (if_neg _ e) refl
]

ready-all_started : (m : Monitors) → ready m ≡ true → all_started m ≡ true
unfolding ready
ready-all_started [] h = cc
ready-all_started (e ∷ m) h = h

ready-insert :
    (name : Bytes) (s : MonitorState) (m : Monitors)
    → ready m ≡ true
    → is_up s ≡ true
    → ready (insert bytes_discrete name s m) ≡ true
ready-insert name s m h up =
    ready_iff name s m ∙ all_started-insert name s m up (ready-all_started m h)

up_started : (s : MonitorState) (now : ℕ) → 0 < now → is_up (record s { started_unix = now }) ≡ true
unfolding is_up
up_started s now h = ground arith

up_counts :
    (s t : MonitorState)
    → t.registered ≡ s.registered
    → t.started_unix ≡ s.started_unix
    → is_up s ≡ true
    → is_up t ≡ true
unfolding is_up
up_counts s t r u h = ground (arith, r, u, h)

-- An operation that cannot undo readiness: no registration of a new monitor, no start at time 0.
unfoldable pub IsSteady : Operation → Monitors → Type 0
IsSteady (register_op name) m = has (lookup bytes_discrete name m) ≡ true
IsSteady (start_op now name) m = 0 < now
IsSteady _ m = Unit

-- Once the exporter is ready it stays so at every operation but the registration of a new monitor
-- and a start at time 0; ticks, panics and errors do not matter.
pub ready-step :
    (op : Operation) (m : Monitors) → ready m ≡ true → IsSteady op m → ready (step op m) ≡ true
unfolding step IsSteady register_monitor mark_monitor_started mark_monitor_tick inc_monitor_panic
    inc_monitor_error has
ready-step (register_op name) m h known = elim (Option-cases (lookup bytes_discrete name m)) [
  | inl absent ↦ ground (arith, known, absent)
  | inr (s, found) ↦ rw (found, register_monitor) h
]
ready-step (start_op now name) m h later =
    ready-insert name (record (get_or_create name m) { started_unix = now }) m h
      (up_started (get_or_create name m) now later)
ready-step (tick_op now name) m h u =
    let s = get_or_create name m in
    let up = get_or_create-up name m (ready-all_started m h) in
    ready-insert name (record s { last_tick_unix = now }) m h
      (up_counts s (record s { last_tick_unix = now }) refl refl up)
ready-step (panic_op name) m h u =
    let s = get_or_create name m in
    let up = get_or_create-up name m (ready-all_started m h) in
    ready-insert name (record s { panics = s.panics + 1 }) m h
      (up_counts s (record s { panics = s.panics + 1 }) refl refl up)
ready-step (error_op name) m h u =
    let s = get_or_create name m in
    let up = get_or_create-up name m (ready-all_started m h) in
    ready-insert name (record s { errors = s.errors + 1 }) m h
      (up_counts s (record s { errors = s.errors + 1 }) refl refl up)
