-- ===== src/Blocks.antt =====
-- internal/monitors/block_monitor.go: `parseBlockTimeLine`, `parseLegacyBlockTimeLine` and the
-- choice of directories in `StartBlockMonitor`. The loops that feed them are in Follow.antt.
--
-- A float64 is a parameter `F` with `int64(·)` and `· * 1000`; `json.Unmarshal` and `time.Parse`
-- are parameters. A time counts nanoseconds from Go's zero time, so `IsZero` is 0; `now` is the
-- clock that the two LRU caches read.

pub mod Streams
pub mod Emissions
pub mod Runs
mod Tests
use mathlib.Core.List.{lookup}
use hyperliquid_exporter.Base.Int.{ℤ, minus}
use hyperliquid_exporter.Lru.{LruCache, new_lru_cache, get, set}
use hyperliquid_exporter.Base.{
  ℕ, zero, suc, ◌+◌, ◌-◌, ◌%◌, ◌^◌, ◌/◌, ◌≤◌, ◌<◌, ◌≡◌, refl, sym, ap, ◌∙◌, fun_ext, ◌≢◌, ◌↔◌, ◌⊎◌,
  inl, inr, Bool, true, false, not, ◌&&◌, ◌||◌, Option, none, some, List, [], ◌∷◌, ◌++◌, map, take,
  drop, arith, ltb, leb, ◌==◌, if◌then◌else◌, ==_iff, Bool-cases, Option-cases, Bytes, codes,
  bytes_discrete, length, All, has, List-cases, keep, ite, dec_lt, dec_le, ℕ_discrete, if_pos,
  if_neg,
}

-- A value of a decoded object.
pub data Value (F : Type 0) : Type 0 where
  number : F → Value F
  text : Bytes → Value F
  other : Value F

abbrev pub Object : Type 0 → Type 0
Object F = List (Bytes × Value F)

unfoldable pub as_number : {F : Type 0} → Option (Value F) → Option F
as_number (some (number x)) = some x
as_number _ = none

unfoldable pub as_text : {F : Type 0} → Option (Value F) → Option Bytes
as_text (some (text s)) = some s
as_text _ = none

-- What the block monitor calls in `metrics`.
pub data Emission (F : Type 0) : Type 0 where
  record_block_time_with_label : ℕ → Bytes → Emission F
  record_block_time : ℕ → Emission F
  set_block_height : ℤ → Emission F
  set_latest_block_time : ℤ → Emission F
  record_apply_duration_with_label : F → Bytes → Emission F
  record_apply_duration : F → Emission F
  mark_monitor_tick : Bytes → Emission F

pub data ParseError : Type 0 where
  bad_json : ParseError
  no_height : ParseError
  no_block_time : ParseError
  no_apply_duration : ParseError
  bad_time : ParseError

-- A line that passed the checks.
pub record BlockLine (F : Type 0) : Type 0 where
  pub height : ℤ
  pub parsed_time : ℕ
  pub apply_duration_ms : F

-- `lastBlockTimes` and `blockHeightsByState`.
pub record BlockState : Type 0 where
  pub last_block_times : LruCache ℕ
  pub block_heights_by_state : LruCache (List ℤ)

unfoldable pub new_block_state : BlockState
new_block_state = record {
  last_block_times = new_lru_cache 10 0;
  block_heights_by_state = new_lru_cache 10 0;
}

abbrev pub max_block_history : ℕ
max_block_history = 100

-- `Sub` is at most the largest int64.
abbrev pub max_duration : ℕ
max_duration = 2 ^ 63 - 1

abbrev pub fast : Bytes
fast = codes "fast"

abbrev pub slow : Bytes
slow = codes "slow"

abbrev pub legacy : Bytes
legacy = codes "legacy"

-- `parsedTime.Sub(lastTime).Milliseconds()` where it is positive; of a difference that is not, only
-- that it is not, so 0.
unfoldable pub block_time_diff : ℕ → ℕ → ℕ
block_time_diff time last =
    (if ltb max_duration (time - last) then max_duration else time - last) / 1000000

-- The difference that is recorded, if the last time allows one.
unfoldable pub recorded_diff : ℕ → Option ℕ → Option ℕ
recorded_diff time none = none
recorded_diff time (some last) =
    if last == 0
    then none
    else if ltb 0 (block_time_diff time last)
    then some (block_time_diff time last)
    else none

-- The cleanup of the heights of a state.
unfoldable pub trim_heights : List ℤ → List ℤ
trim_heights heights =
    if ltb max_block_history (length heights)
    then drop (length heights - max_block_history) heights
    else heights

unfoldable pub or_empty : Option (List ℤ) → List ℤ
or_empty none = []
or_empty (some heights) = heights

-- The part under the lock: the difference, and the caches with the line in them.
unfoldable pub track_block : ℕ → Bytes → ℤ → ℕ → BlockState → BlockState × Option ℕ
track_block now state_type height time st =
    let (times, last) = get now state_type st.last_block_times in
    let (histories, old) = get now state_type st.block_heights_by_state in
    (
      record {
        last_block_times = set now state_type time times;
        block_heights_by_state =
            set now state_type (trim_heights (or_empty old ++ height ∷ [])) histories;
      },
      recorded_diff time last,
    )

-- `Unix()` of a time: seconds from 1970, rounded down.
unfoldable pub unix : ℕ → ℤ
unix time = minus (time / 1000000000) 62135596800

-- `return err` unless the value is there.
unfoldable pub require :
    {A B : Type 0} → Option A → ParseError → (A → ParseError ⊎ B) → ParseError ⊎ B
require none e go = inl e
require (some x) e go = go x

module _ {F : Type 0} where
  unfoldable pub block_time_emission : Bytes → Option ℕ → List (Emission F)
  block_time_emission state_type none = []
  block_time_emission state_type (some ms) = record_block_time_with_label ms state_type ∷ []

  unfoldable pub legacy_block_time_emission : Option ℕ → List (Emission F)
  legacy_block_time_emission none = []
  legacy_block_time_emission (some ms) = record_block_time ms ∷ []

  -- Only the fast state sets the height and the latest time.
  unfoldable pub height_emissions : Bytes → BlockLine F → List (Emission F)
  height_emissions state_type l =
      ite (bytes_discrete state_type fast)
        (set_block_height l.height ∷ set_latest_block_time (unix l.parsed_time) ∷ []) []

  unfoldable pub accept_line : ℕ → Bytes → BlockLine F → BlockState → BlockState × List (Emission F)
  accept_line now state_type l st =
      let (tracked, diff) = track_block now state_type l.height l.parsed_time st in
      (
        tracked,
        block_time_emission state_type diff
            ++ height_emissions state_type l
            ++ record_apply_duration_with_label l.apply_duration_ms state_type
              ∷ mark_monitor_tick (codes "block")
              ∷ [],
      )

  unfoldable pub accept_legacy : ℕ → BlockLine F → BlockState → BlockState × List (Emission F)
  accept_legacy now l st =
      let (tracked, diff) = track_block now legacy l.height l.parsed_time st in
      (
        tracked,
        legacy_block_time_emission diff
            ++ set_block_height l.height
              ∷ record_apply_duration l.apply_duration_ms
              ∷ set_latest_block_time (unix l.parsed_time)
              ∷ [],
      )

  -- An error comes with the state as it was: every check is made before the lock is taken.
  unfoldable pub accepted :
      BlockState
      → (BlockLine F → BlockState × List (Emission F))
      → ParseError ⊎ BlockLine F
      → Option ParseError × BlockState × List (Emission F)
  accepted st accept (inl e) = (some e, st, [])
  accepted st accept (inr l) = (none, (accept l).0, (accept l).1)

module _ {F : Type 0} (to_int64 : F → ℤ) (times_1000 : F → F)
    (unmarshal : Bytes → Option (Object F)) (parse_time : Bytes → Option ℕ) where
  -- The checks, in the order of the code, which are the same for both formats.
  unfoldable pub check_line : Bytes → ParseError ⊎ BlockLine F
  check_line line = require (unmarshal line) bad_json (λ object.
      require (as_number (lookup bytes_discrete (codes "height") object)) no_height (λ height.
        require (as_text (lookup bytes_discrete (codes "block_time") object)) no_block_time
          (λ block_time.
            require (as_number (lookup bytes_discrete (codes "apply_duration") object))
              no_apply_duration
              (λ apply_duration. require (parse_time block_time) bad_time (λ time. inr (record {
                height = to_int64 height;
                parsed_time = time;
                apply_duration_ms = times_1000 apply_duration;
              }))))))

  unfoldable pub parse_block_time_line :
      ℕ → Bytes → Bytes → BlockState → Option ParseError × BlockState × List (Emission F)
  parse_block_time_line now line state_type st =
      accepted st (λ l. accept_line now state_type l st) (check_line line)

  unfoldable pub parse_legacy_block_time_line :
      ℕ → Bytes → BlockState → Option ParseError × BlockState × List (Emission F)
  parse_legacy_block_time_line now line st =
      accepted st (λ l. accept_legacy now l st) (check_line line)

-- The goroutines of `StartBlockMonitor`.
pub data Launch : Type 0 where
  launch_state : Bytes → Bytes → Launch
  launch_legacy : Launch

unfoldable pub start_block_monitor : Bool → Bool → Bool → BlockState × List Launch
start_block_monitor fast_exists slow_exists old_exists = (
  new_block_state,
  if fast_exists || slow_exists
      then (if fast_exists then launch_state fast (codes "node_fast_block_times") ∷ [] else [])
        ++ (if slow_exists then launch_state slow (codes "node_slow_block_times") ∷ [] else [])
      else if old_exists
      then launch_legacy ∷ []
      else [],
)
