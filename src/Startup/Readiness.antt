-- ===== src/Startup/Readiness.antt =====
-- When `/ready` answers yes: internal/exporter/exporter.go and safego.go with `Ready` of
-- internal/metrics/health.go.
use mathlib.Core.List.{lookup}
use hyperliquid_exporter.Base.Dict.{Distinct}
use hyperliquid_exporter.Health.{Monitors, all_started, ready, mark_monitor_started}
use hyperliquid_exporter.Settings.{Config}
use hyperliquid_exporter.Startup.{
  Launch, run_monitor_calls, names_of, Exporter, start, member, remove_name, run_monitor,
  begin_monitor, Action, launch, begin, act, run,
}
use hyperliquid_exporter.Startup.Invariant.{Unique, unstarted, any_of, IsTracked, run-IsTracked}
use hyperliquid_exporter.Base.{
  ℕ, ◌<◌, ◌≡◌, refl, ap, ◌∙◌, inl, inr, Bool, true, false, not, ◌&&◌, List, [], ◌∷◌, ◌++◌, map,
  arith, Bool-cases, Bytes, bytes_discrete, ℕ_discrete,
}

unfoldable is_unique : List Bytes → Bool
is_unique [] = true
is_unique (n ∷ l) = not (member n l) && is_unique l

is_unique-Unique : (l : List Bytes) → is_unique l ≡ true → Unique l
unfolding is_unique
is_unique-Unique [] h = tt
is_unique-Unique (n ∷ l) h = (ground (arith, h), is_unique-Unique l (ground (arith, h)))

abbrev all_names : List Launch → List Bytes
all_names ls = map (λ l. l.name) ls

member-names_of :
    (n : Bytes) (ls : List Launch)
    → member n (all_names ls) ≡ false
    → member n (names_of ls) ≡ false
unfolding member names_of
member-names_of n [] h = refl
member-names_of n (l ∷ ls) h = ground (arith, h, member-names_of n ls)

names_of-Unique : (ls : List Launch) → Unique (all_names ls) → Unique (names_of ls)
unfolding names_of
names_of-Unique [] u = tt
names_of-Unique (l ∷ ls) u = elim (Bool-cases l.enabled) [
  | inl on ↦ rw on (member-names_of l.name ls u.0, names_of-Unique ls u.1)
  | inr off ↦ rw off (names_of-Unique ls u.1)
]

calls_unique :
    (cfg : Config) (binary_ready : Bool)
    → is_unique (all_names (run_monitor_calls cfg binary_ready)) ≡ true
unfolding is_unique member run_monitor_calls bytes_discrete ℕ_discrete
calls_unique cfg binary_ready = refl

start-IsTracked : (cfg : Config) (binary_ready : Bool) → IsTracked (start cfg binary_ready)
unfolding start lookup unstarted member any_of run_monitor_calls names_of
start-IsTracked cfg binary_ready = record {
  fresh = λ n known. refl;
  waits = λ n. refl;
  launches =
      names_of-Unique (run_monitor_calls cfg binary_ready)
        (is_unique-Unique _ (calls_unique cfg binary_ready));
  goroutines = tt;
  keys = tt;
  alive = refl;
}

all_started-lookup :
    (m : Monitors)
    → Distinct bytes_discrete m
    → ((n : Bytes) → unstarted (lookup bytes_discrete n m) ≡ false)
    → all_started m ≡ true
unfolding all_started lookup unstarted
all_started-lookup [] d h = refl
all_started-lookup ((j, s) ∷ m) d h =
    ground (arith, h j, all_started-lookup m d.1 (λ n. ground (arith, h n, d.0)))

lookup-all_started :
    (n : Bytes) (m : Monitors)
    → all_started m ≡ true
    → unstarted (lookup bytes_discrete n m) ≡ false
unfolding all_started lookup unstarted
lookup-all_started n [] h = refl
lookup-all_started n ((j, s) ∷ m) h = ground (arith, h, lookup-all_started n m)

ready-all_started : (m : Monitors) → ready m ≡ any_of m && all_started m
unfolding ready any_of
ready-all_started [] = refl
ready-all_started (e ∷ m) = refl

all_started-waiting :
    (waiting : List Bytes) (m : Monitors)
    → Distinct bytes_discrete m
    → ((n : Bytes) → unstarted (lookup bytes_discrete n m) ≡ member n waiting)
    → all_started m ≡ not (any_of waiting)
unfolding any_of member
all_started-waiting [] m d h = all_started-lookup m d h
all_started-waiting (n ∷ waiting) m d h = elim (Bool-cases (all_started m)) [
  | inr waits ↦ waits
  | inl started ↦ ground (arith, h n, lookup-all_started n m started)
]

IsTracked-ready :
    (e : Exporter) → IsTracked e → ready e.monitors ≡ any_of e.monitors && not (any_of e.waiting)
IsTracked-ready e w =
    ready-all_started e.monitors
    ∙ ap (λ b. any_of e.monitors && b) (all_started-waiting e.waiting e.monitors w.keys w.waits)

-- In every state that `Start` reaches, whatever the configuration and the scheduler, `/ready`
-- answers yes exactly when the tracker knows a monitor and no goroutine of a launched monitor is
-- still to begin; ticks, panics and errors, in any order, do not matter.
pub ready-run :
    (cfg : Config) (binary_ready : Bool) (actions : List Action)
    → ready (run actions (start cfg binary_ready)).monitors
      ≡ any_of (run actions (start cfg binary_ready)).monitors
        && not (any_of (run actions (start cfg binary_ready)).waiting)
ready-run cfg binary_ready actions =
    IsTracked-ready (run actions (start cfg binary_ready))
      (run-IsTracked actions (start cfg binary_ready) (start-IsTracked cfg binary_ready))

-- The rest of the launches, then every waiting goroutine begins.
unfoldable pub launches : List Bytes → List Action
launches [] = []
launches (n ∷ todo) = launch ∷ launches todo

unfoldable pub begins : ℕ → List Bytes → List Action
begins now [] = []
begins now (n ∷ waiting) = begin now n ∷ begins now waiting

run-launches :
    (todo waiting : List Bytes) (m : Monitors)
    → (run (launches todo) (record { to_launch = todo; waiting = waiting; monitors = m })).to_launch
      ≡ []
unfolding run launches act run_monitor
run-launches [] waiting m = refl
run-launches (n ∷ todo) waiting m = run-launches todo (n ∷ waiting) _

begin-head :
    (now : ℕ) (todo : List Bytes) (n : Bytes) (waiting : List Bytes) (m : Monitors)
    → 0 < now
    → act (begin now n) (record { to_launch = todo; waiting = n ∷ waiting; monitors = m })
      ≡ record { to_launch = todo; waiting = waiting; monitors = mark_monitor_started now n m }
unfolding act begin_monitor member remove_name
begin-head now todo n waiting m later = ground (arith, later)

run-begins :
    (now : ℕ) (todo waiting : List Bytes) (m : Monitors)
    → 0 < now
    → let e =
        run (begins now waiting) (record { to_launch = todo; waiting = waiting; monitors = m }) in
      (e.waiting ≡ []) × (e.to_launch ≡ todo)
unfolding run begins
run-begins now todo [] m later = (refl, refl)
run-begins now todo (n ∷ waiting) m later =
    let head = begin-head now todo n waiting m later in
    let rest = run-begins now todo waiting (mark_monitor_started now n m) later in
    (
      ap (λ e. (run (begins now waiting) e).waiting) head ∙ rest.0,
      ap (λ e. (run (begins now waiting) e).to_launch) head ∙ rest.1,
    )

run-append : (a b : List Action) (e : Exporter) → run (a ++ b) e ≡ run b (run a e)
unfolding run
run-append [] b e = refl
run-append (x ∷ a) b e = run-append a b (act x e)

over-ready :
    (e : Exporter) → IsTracked e → e.waiting ≡ [] → e.to_launch ≡ [] → ready e.monitors ≡ true
unfolding any_of
over-ready e w idle over = ground (arith, IsTracked-ready e w, w.alive, idle, over)

-- What is left for a state to become ready.
unfoldable pub finish : ℕ → Exporter → List Action
finish now e = launches e.to_launch ++ begins now (run (launches e.to_launch) e).waiting

-- `/ready` is never lost: from every state that `Start` reaches, whatever the configuration, the
-- scheduler, and the panics and errors before, the launches that are left and the beginning of
-- every goroutine that waits lead to a state in which `/ready` answers yes.
pub ready-finish :
    (cfg : Config) (binary_ready : Bool) (actions : List Action) (now : ℕ)
    → 0 < now
    → let e = run actions (start cfg binary_ready) in ready (run (finish now e) e).monitors ≡ true
unfolding finish
ready-finish cfg binary_ready actions now later =
    let e = run actions (start cfg binary_ready) in
    let launched = run (launches e.to_launch) e in
    let over = run-begins now launched.to_launch launched.waiting launched.monitors later in
    let w =
      run-IsTracked (finish now e) e
        (run-IsTracked actions (start cfg binary_ready) (start-IsTracked cfg binary_ready)) in
    let same = run-append (launches e.to_launch) (begins now launched.waiting) e in
    over-ready (run (finish now e) e) w (ap (λ x. x.waiting) same ∙ over.0)
      (ap (λ x. x.to_launch) same ∙ over.1 ∙ run-launches e.to_launch e.waiting e.monitors)
