-- ===== src/Follow/Tests.antt =====
-- Runs of the loops that follow a log, and the theorems at such inputs.
use hyperliquid_exporter.Follow.{
  FileInfo, walk_latest, get_latest_file, Follower, Round, new_follower, is_empty, same_file,
  open_file, switch_file, split_lines, read_lines, lines_read, panicked, read_unguarded,
  read_guarded, monitor_block_state, start_proposal_monitor, monitor_legacy_block_state,
  follow_named, monitor_consensus_logs, monitor_status_logs, start_round_advance_monitor,
  after_lines, continue_with, run, is_ascii_space, is_space_2, is_space_3, space_width, trim_left,
  trim_right, trim_space, non_empty_lines,
}
use hyperliquid_exporter.Follow.Latest.{FirstNewest, get_latest_file-FirstNewest}
use hyperliquid_exporter.Follow.Lines.{
  lines_of, joined, growing, no_newline, monitor_block_state-growing, monitor_block_state-torn,
}
use hyperliquid_exporter.Follow.Safety.{
  IsGood, run-block_state, monitor_block_state-empty_directory,
}
use hyperliquid_exporter.Base.{
  ◌≡◌, refl, ◌≢◌, true, false, Option, none, some, List, [], ◌∷◌, ◌++◌, take, drop, arith, Bytes,
  codes, bytes_discrete, length, has, ℕ_discrete,
}

program : Unit {0}
unfolding walk_latest get_latest_file is_empty same_file open_file switch_file split_lines
    read_lines read_unguarded read_guarded monitor_block_state start_proposal_monitor
    monitor_legacy_block_state follow_named monitor_consensus_logs monitor_status_logs
    start_round_advance_monitor after_lines continue_with run lines_of joined growing no_newline
    bytes_discrete ℕ_discrete take drop has is_ascii_space is_space_2 is_space_3 space_width
    trim_left trim_right trim_space non_empty_lines
program = tt

abbrev one : Bytes
one = codes "hourly/1"

abbrev two : Bytes
two = codes "hourly/2"

abbrev entries : List (Option FileInfo)
entries =
    some (record { path = codes "hourly"; is_dir = true; mod_time = 90 })
    ∷ some (record { path = one; is_dir = false; mod_time = 40 })
    ∷ some (record { path = two; is_dir = false; mod_time = 70 })
    ∷ []

newest : get_latest_file entries ≡ some two
unfolding program
newest = refl

-- Of two files with the same time the first is taken, and none with the time zero.
tied :
    (get_latest_file (
        some (record { path = one; is_dir = false; mod_time = 40 })
        ∷ some (record { path = two; is_dir = false; mod_time = 40 })
        ∷ [])
      ≡ some one)
    × (get_latest_file (some (record { path = two; is_dir = false; mod_time = 0 }) ∷ []) ≡ some [])
unfolding program
tied = (refl, refl)

get_latest_file-FirstNewest_example :
    (r : Bytes) × (get_latest_file entries ≡ some r) × FirstNewest 0 [] entries r
unfolding program
get_latest_file-FirstNewest_example = get_latest_file-FirstNewest entries (refl, (refl, (refl, tt)))

abbrev line : Bytes
line = codes "ab" ++ 10 ∷ []

abbrev follower : Follower
follower = record { current_file = one; offset = 3; has_reader = true; is_first_run = false }

monitor_block_state-growing_example :
    run monitor_block_state (growing one line (line ∷ [] ∷ (line ++ line) ∷ [])) follower
    ≡ lines_read
        (record follower { offset = length (line ++ joined (line ∷ [] ∷ (line ++ line) ∷ [])) })
        (non_empty_lines (lines_of (joined (line ∷ [] ∷ (line ++ line) ∷ []))))
unfolding program
monitor_block_state-growing_example =
    monitor_block_state-growing one line follower refl refl refl (line ∷ [] ∷ (line ++ line) ∷ [])
      (refl, (refl, (refl, tt)))

monitor_block_state-torn_example :
    (run monitor_block_state (growing one line (codes "ab" ∷ (codes "cd" ++ 10 ∷ []) ∷ [])) follower
      ≡ lines_read
          (record follower {
            offset = length (line ++ joined (codes "ab" ∷ (codes "cd" ++ 10 ∷ []) ∷ []));
          })
          (non_empty_lines (codes "cd" ∷ [])))
    × (lines_of (joined (codes "ab" ∷ (codes "cd" ++ 10 ∷ []) ∷ [])) ≡ codes "abcd" ∷ [])
unfolding program
monitor_block_state-torn_example =
    monitor_block_state-torn one line (codes "ab") (codes "cd") follower refl refl refl refl refl

-- Spaces around a line are dropped, also those of two and three bytes; a blank line is skipped.
trimmed :
    non_empty_lines
      ((32 ∷ codes "a b" ++ 194 ∷ 160 ∷ 13 ∷ []) ∷ (9 ∷ 226 ∷ 128 ∷ 175 ∷ []) ∷ codes "c" ∷ [])
    ≡ codes "a b" ∷ codes "c" ∷ []
unfolding program
trimmed = refl

-- A first round that finds a file of one line, and a second one that finds it one line longer.
abbrev first_round : Round
first_round = record { latest = some one; opened = some line; seeks = true; content = line }

abbrev second_round : Round
second_round = record first_round { content = line ++ line }

abbrev no_file : Round
no_file = record { latest = some []; opened = none; seeks = true; content = [] }

-- The first run starts at the end of the file; a later file is read from its start.
from_end :
    run monitor_block_state
      (first_round ∷ second_round ∷ record second_round { latest = some two } ∷ [])
      new_follower
    ≡ lines_read
        (record { current_file = two; offset = 6; has_reader = true; is_first_run = false })
        (codes "ab" ∷ codes "ab" ∷ codes "ab" ∷ [])
unfolding program
from_end = refl

-- The loops that test the name or the reader go on when the directory is empty.
guarded :
    (start_round_advance_monitor no_file new_follower ≡ lines_read new_follower [])
    × (monitor_legacy_block_state no_file new_follower ≡ lines_read new_follower [])
    × (monitor_status_logs no_file new_follower ≡ lines_read new_follower [])
    × (start_proposal_monitor no_file new_follower ≡ panicked)
unfolding program
guarded = (refl, refl, refl, refl)

first_round-IsGood : IsGood first_round
unfolding is_empty
first_round-IsGood = record {
  named = λ name e. ground (arith, e);
  opens = (line, refl);
  sought = refl;
}

run-block_state_example : run monitor_block_state (first_round ∷ []) new_follower ≢ panicked
run-block_state_example = run-block_state (first_round ∷ []) (first_round-IsGood, tt)

monitor_block_state-empty_directory_example : monitor_block_state no_file new_follower ≡ panicked
unfolding program
monitor_block_state-empty_directory_example = monitor_block_state-empty_directory [] no_file tt refl
