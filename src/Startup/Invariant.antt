-- ===== src/Startup/Invariant.antt =====
-- What holds in every state of internal/exporter/exporter.go with its health tracker: who waits,
-- who is known, and no name twice.
use mathlib.Core.List.{lookup}
use hyperliquid_exporter.Base.Dict.{insert, lookup-insert, insert-Distinct, Distinct}
use hyperliquid_exporter.Health.{
  MonitorState, Monitors, new_state, register_monitor, get_or_create, mark_monitor_started,
  mark_monitor_tick, inc_monitor_panic, inc_monitor_error,
}
use hyperliquid_exporter.Startup.{
  error_cases, Exporter, member, remove_name, run_monitor, begin_monitor, receive_error, Action,
  launch, begin, tick, go_panic, error_from, act, run,
}
use hyperliquid_exporter.Base.{
  ℕ, ◌<◌, ◌≡◌, refl, inl, inr, Bool, true, false, not, ◌&&◌, ◌||◌, Option, none, some, List, [],
  ◌∷◌, arith, ltb, ◌==◌, Bool-cases, Bytes, bytes_discrete, List-cases, ite, if_pos, if_neg,
}

-- No name twice.
abbrev pub Unique : List Bytes → Type 0
Unique [] = Unit
Unique (n ∷ l) = (member n l ≡ false) × Unique l

-- The monitor keeps the exporter from being ready.
unfoldable pub unstarted : Option MonitorState → Bool
unstarted none = false
unstarted (some s) = s.registered && s.started_unix == 0

unfoldable pub any_of : {A : Type 0} → List A → Bool
any_of [] = false
any_of (x ∷ l) = true

-- The health tracker knows the waiting goroutines, and only those, as not started; the names still
-- to be launched are new to it.
pub record IsTracked (e : Exporter) : Type 0 where
  pub fresh : (n : Bytes) → member n e.to_launch ≡ true → lookup bytes_discrete n e.monitors ≡ none
  pub waits : (n : Bytes) → unstarted (lookup bytes_discrete n e.monitors) ≡ member n e.waiting
  pub launches : Unique e.to_launch
  pub goroutines : Unique e.waiting
  pub keys : Distinct bytes_discrete e.monitors
  pub alive : any_of e.to_launch || any_of e.monitors ≡ true

member-remove_name :
    (j n : Bytes) (l : List Bytes)
    → Unique l
    → member j (remove_name n l) ≡ member j l && not (ite (bytes_discrete n j) true false)
unfolding member remove_name
member-remove_name j n [] u = refl
member-remove_name j n (x ∷ l) u = ground (arith, u, member-remove_name j n l u.1)

remove_name-Unique : (n : Bytes) (l : List Bytes) → Unique l → Unique (remove_name n l)
unfolding remove_name member
remove_name-Unique n [] u = tt
remove_name-Unique n (x ∷ l) u = elim (bytes_discrete n x) [
  | yes same ↦ rw (if_pos _ same) u.1
  | no other ↦
      rw (if_neg _ other)
        (ground (arith, u, member-remove_name x n l u.1), remove_name-Unique n l u.1)
]

any_of-insert :
    (n : Bytes) (s : MonitorState) (m : Monitors) → any_of (insert bytes_discrete n s m) ≡ true
unfolding insert any_of
any_of-insert n s [] = refl
any_of-insert n s ((j, t) ∷ m) = ground arith

unstarted-get_or_create :
    (n : Bytes) (m : Monitors)
    → unstarted (some (get_or_create n m)) ≡ unstarted (lookup bytes_discrete n m)
unfolding unstarted get_or_create
unstarted-get_or_create n m = ground arith

-- A write of a state that starts nothing and registers nothing.
note-IsTracked :
    (n : Bytes) (s : MonitorState) (e : Exporter)
    → member n e.to_launch ≡ false
    → unstarted (some s) ≡ unstarted (lookup bytes_discrete n e.monitors)
    → IsTracked e
    → IsTracked (record e { monitors = insert bytes_discrete n s e.monitors })
note-IsTracked n s e new same w = record {
  fresh = λ j known.
      ground (arith, lookup-insert bytes_discrete j n s e.monitors, w.fresh j known, new, known);
  waits = λ j. ground (arith, lookup-insert bytes_discrete j n s e.monitors, w.waits j, same);
  launches = w.launches;
  goroutines = w.goroutines;
  keys = insert-Distinct bytes_discrete n s e.monitors w.keys;
  alive = ground (arith, any_of-insert n s e.monitors);
}

register_new :
    (n : Bytes) (m : Monitors)
    → lookup bytes_discrete n m ≡ none
    → register_monitor n m ≡ insert bytes_discrete n (new_state true) m
unfolding register_monitor
register_new n m h = rw (h, register_monitor) refl

run_monitor-IsTracked :
    (todo waiting : List Bytes) (m : Monitors)
    → IsTracked (record { to_launch = todo; waiting = waiting; monitors = m })
    → IsTracked (run_monitor todo (record { to_launch = todo; waiting = waiting; monitors = m }))
unfolding run_monitor member any_of unstarted
run_monitor-IsTracked [] waiting m w = w
run_monitor-IsTracked (n ∷ rest) waiting m w =
    let new = w.fresh n (ground arith) in
    let s = new_state true in
    rw (register_new n m new) (record {
      fresh = λ j known.
          ground (arith, lookup-insert bytes_discrete j n s m, w.fresh j, w.launches, known);
      waits = λ j. ground (arith, lookup-insert bytes_discrete j n s m, w.waits j);
      launches = w.launches.1;
      goroutines = (ground (arith, w.waits n, new), w.goroutines);
      keys = insert-Distinct bytes_discrete n s m w.keys;
      alive = ground (arith, any_of-insert n s m);
    })

begin_monitor-IsTracked :
    (now : ℕ) (n : Bytes) (e : Exporter)
    → 0 < now
    → member n e.waiting ≡ true
    → IsTracked e
    → IsTracked (begin_monitor now n e)
unfolding begin_monitor mark_monitor_started unstarted
begin_monitor-IsTracked now n e later here w =
    let s = record (get_or_create n e.monitors) { started_unix = now } in
    record {
      fresh = λ j known. ground (
        arith,
        lookup-insert bytes_discrete j n s e.monitors,
        w.fresh j known,
        w.waits j,
        here,
        known,
      );
      waits = λ j. ground (
        arith,
        later,
        lookup-insert bytes_discrete j n s e.monitors,
        w.waits j,
        member-remove_name j n e.waiting w.goroutines,
      );
      launches = w.launches;
      goroutines = remove_name-Unique n e.waiting w.goroutines;
      keys = insert-Distinct bytes_discrete n s e.monitors w.keys;
      alive = ground (arith, any_of-insert n s e.monitors);
    }

inc_monitor_error-IsTracked :
    (name : Bytes) (e : Exporter)
    → member name e.to_launch ≡ false
    → IsTracked e
    → IsTracked (record e { monitors = inc_monitor_error name e.monitors })
unfolding inc_monitor_error unstarted
inc_monitor_error-IsTracked name e new w =
    note-IsTracked name _ e new (unstarted-get_or_create name e.monitors) w

receive_error-IsTracked :
    (known : Option (Option Bytes)) (e : Exporter)
    → e.to_launch ≡ []
    → IsTracked e
    → IsTracked (record e { monitors = receive_error known e.monitors })
unfolding receive_error member
receive_error-IsTracked none e over w = w
receive_error-IsTracked (some none) e over w = w
receive_error-IsTracked (some (some name)) e over w =
    inc_monitor_error-IsTracked name e (rw over refl) w

pub act-IsTracked : (a : Action) (e : Exporter) → IsTracked e → IsTracked (act a e)
unfolding act mark_monitor_tick inc_monitor_panic unstarted
act-IsTracked launch e w = run_monitor-IsTracked e.to_launch e.waiting e.monitors w
act-IsTracked (begin now name) e w = elim (Bool-cases (member name e.waiting && ltb 0 now)) [
  | inl allowed ↦
      rw allowed
        (begin_monitor-IsTracked now name e (ground (arith, allowed)) (ground (arith, allowed)) w)
  | inr early ↦ rw early w
]
act-IsTracked (tick now name) e w = elim (Bool-cases (member name e.to_launch)) [
  | inl early ↦ rw early w
  | inr known ↦ rw known (note-IsTracked name _ e known (unstarted-get_or_create name e.monitors) w)
]
act-IsTracked (go_panic name) e w = elim (Bool-cases (member name e.to_launch)) [
  | inl early ↦ rw early w
  | inr known ↦ rw known (note-IsTracked name _ e known (unstarted-get_or_create name e.monitors) w)
]
act-IsTracked (error_from channel) e w = elim (List-cases e.to_launch) [
  | inl over ↦
      rw (over, act) (receive_error-IsTracked (lookup bytes_discrete channel error_cases) e over w)
  | inr (n, ns, early) ↦ rw (early, act) w
]

pub run-IsTracked : (actions : List Action) (e : Exporter) → IsTracked e → IsTracked (run actions e)
unfolding run
run-IsTracked [] e w = w
run-IsTracked (a ∷ actions) e w = run-IsTracked actions (act a e) (act-IsTracked a e w)
