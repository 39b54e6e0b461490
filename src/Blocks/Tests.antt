-- ===== src/Blocks/Tests.antt =====
-- Lines of the block monitor, and the theorems at such inputs.
use mathlib.Core.List.{lookup}
use hyperliquid_exporter.Base.Int.{ℤ, pos}
use hyperliquid_exporter.Lru.{get}
use hyperliquid_exporter.Blocks.{
  number, text, Object, as_number, as_text, new_block_state, fast, recorded_diff, block_time_diff,
  check_line, require, parse_block_time_line, accepted, start_block_monitor, launch_state,
}
use hyperliquid_exporter.Blocks.Emissions.{diffs_of, successive_diffs, optional}
use hyperliquid_exporter.Blocks.Streams.{Stream, fast_state, slow_state, name_of, same_stream}
use hyperliquid_exporter.Blocks.Runs.{
  Event, run, history, add_line, times_of, last_heights, last_n, run-successive, run-heights,
}
use hyperliquid_exporter.Base.{
  ℕ, ◌*◌, ◌≡◌, refl, true, Option, none, some, List, [], ◌∷◌, drop, Bytes, codes, bytes_discrete,
  keep, ℕ_discrete,
}

program : Unit {0}
unfolding lookup as_number as_text new_block_state recorded_diff block_time_diff check_line require
    accepted parse_block_time_line start_block_monitor successive_diffs optional same_stream history
    add_line last_heights last_n keep drop bytes_discrete ℕ_discrete
program = tt

-- A line is its height, a second and, unless it is torn, a duration.
abbrev unmarshal : Bytes → Option (Object ℤ)
unmarshal (h ∷ t ∷ d ∷ rest) = some (
    (codes "height", number (pos h))
    ∷ (codes "block_time", text (t ∷ []))
    ∷ (codes "apply_duration", number (pos d))
    ∷ [])
unmarshal (h ∷ rest) = some ((codes "height", number (pos h)) ∷ [])
unmarshal [] = none

abbrev parse_time : Bytes → Option ℕ
parse_time (t ∷ rest) = some (t * 1000000000)
parse_time [] = none

abbrev event : ℕ → Stream → Bytes → Event
event now s line = record { now = now; stream = s; line = line }

abbrev events : List Event
events =
    event 1 fast_state (1 ∷ 10 ∷ 3 ∷ [])
    ∷ event 2 slow_state (1 ∷ 11 ∷ 3 ∷ [])
    ∷ event 3 fast_state (2 ∷ [])
    ∷ event 4 fast_state (2 ∷ 12 ∷ 3 ∷ [])
    ∷ event 5 slow_state (2 ∷ 16 ∷ 3 ∷ [])
    ∷ event 6 fast_state (3 ∷ 12 ∷ 3 ∷ [])
    ∷ []

fast_diffs :
    successive_diffs none (
      times_of
        (λ h. h)
        (λ d. d)
        unmarshal
        parse_time
        (history (λ h. h) (λ d. d) unmarshal parse_time fast_state events))
    ≡ 2000 ∷ []
unfolding program
fast_diffs = refl

both_directories :
    (start_block_monitor true true true).1
    ≡ launch_state fast (codes "node_fast_block_times")
      ∷ launch_state (codes "slow") (codes "node_slow_block_times")
      ∷ []
unfolding program
both_directories = refl

run-successive_example :
    diffs_of fast_state (run (λ h. h) (λ d. d) unmarshal parse_time events new_block_state).1
    ≡ 2000 ∷ []
unfolding program
run-successive_example = run-successive (λ h. h) (λ d. d) unmarshal parse_time fast_state events

run-heights_example :
    (get 9
      (name_of slow_state)
      (run
        (λ h. h)
        (λ d. d)
        unmarshal
        parse_time
        events
        new_block_state).0.block_heights_by_state).1
    ≡ some (pos 1 ∷ pos 2 ∷ [])
unfolding program
run-heights_example = run-heights (λ h. h) (λ d. d) unmarshal parse_time 9 slow_state events
