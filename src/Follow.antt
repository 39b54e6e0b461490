-- ===== src/Follow.antt =====
-- The loops that follow a growing log: `monitorBlockState` and `monitorLegacyBlockState` of
-- internal/monitors/block_monitor.go, `monitorConsensusLogs` and `monitorStatusLogs` of
-- internal/monitors/consensus_monitor.go, the loops of proposal_monitor.go and
-- round_advance_monitor.go, and `GetLatestFile` of internal/utils/utils.go.
--
-- One round of a loop is a step. What it meets of the file system is a `Round`; a wait and a
-- message on the error channel end the round and change nothing else.
-- The test at the start of `monitorBlockState` that its directory exists, errors of a read other than
-- the end of the file, and the end of the context are left out.
pub mod Latest
pub mod Lines
pub mod Safety
mod Tests
use hyperliquid_exporter.Base.{
  ℕ, zero, suc, ◌+◌, ◌-◌, ◌%◌, ◌≤◌, ◌<◌, ◌≡◌, refl, sym, ap, ◌∙◌, fun_ext, ◌≢◌, ◌↔◌, ◌⊎◌, inl, inr,
  Bool, true, false, not, ◌&&◌, ◌||◌, Option, none, some, List, [], ◌∷◌, ◌++◌, map, take, drop,
  arith, ltb, leb, ◌==◌, if◌then◌else◌, ==_iff, Bool-cases, Option-cases, Bytes, codes,
  bytes_discrete, length, All, has, keep, ite, dec_lt, dec_le, ℕ_discrete, if_pos, if_neg,
}

-- What `filepath.Walk` visits: an entry, or an error, at which the walk ends.
pub record FileInfo : Type 0 where
  pub path : Bytes
  pub is_dir : Bool
  pub mod_time : ℕ

-- The walk, with `latestModTime` and `latestFile`; the zero time is 0.
unfoldable pub walk_latest : ℕ → Bytes → List (Option FileInfo) → Option Bytes
walk_latest time file [] = some file
walk_latest time file (none ∷ entries) = none
walk_latest time file (some e ∷ entries) =
    let newer = not e.is_dir && ltb time e.mod_time in
    walk_latest (if newer then e.mod_time else time) (if newer then e.path else file) entries

-- `none` is an error; an empty directory gives the empty name.
unfoldable pub get_latest_file : List (Option FileInfo) → Option Bytes
get_latest_file entries = walk_latest 0 [] entries

-- `currentFile`, the position in it, `fileReader != nil` and `isFirstRun`.
pub record Follower : Type 0 where
  pub current_file : Bytes
  pub offset : ℕ
  pub has_reader : Bool
  pub is_first_run : Bool

-- What `GetLatestFile` returns, the bytes of that file when it is opened (`none` if `Open` fails),
-- whether `Seek` works, and the bytes of the file when it is read.
pub record Round : Type 0 where
  pub latest : Option Bytes
  pub opened : Option Bytes
  pub seeks : Bool
  pub content : Bytes

abbrev pub new_follower : Follower
new_follower = record { current_file = []; offset = 0; has_reader = false; is_first_run = true }

unfoldable pub is_empty : Bytes → Bool
is_empty [] = true
is_empty (b ∷ bs) = false

-- `latestFile != currentFile`
unfoldable pub same_file : Bytes → Bytes → Bool
same_file a b = ite (bytes_discrete a b) true false

unfoldable pub open_file : Bytes → Option Bytes → Bool → Follower → Follower × Bool
open_file name none seeks f = (record f { has_reader = false }, false)
open_file name (some bytes) seeks f =
    if f.is_first_run && not seeks then (record f { has_reader = false }, false) else (
      record {
        current_file = name;
        offset = if f.is_first_run then length bytes else 0;
        has_reader = true;
        is_first_run = false;
      },
      true,
    )

-- The switch to a new file; the flag says whether the round goes on to read.
unfoldable pub switch_file : Bytes → Round → Follower → Follower × Bool
switch_file name r f =
    if same_file name f.current_file then (f, true) else open_file name r.opened r.seeks f

-- The lines that end, without the newline, and the bytes after the last newline.
unfoldable pub split_lines : Bytes → List Bytes × Bytes
split_lines [] = ([], [])
split_lines (b ∷ bs) =
    let (lines, torn) = split_lines bs in
    if b == b'\n'
    then ([] ∷ lines, torn)
    else elim lines [ [] ↦ ([], b ∷ torn) | line ∷ more ↦ ((b ∷ line) ∷ more, torn) ]

unfoldable pub is_ascii_space : ℕ → Bool
is_ascii_space b = (leb 9 b && leb b 13) || b == 32

-- The Unicode spaces U+0085 and U+00A0.
unfoldable pub is_space_2 : ℕ → ℕ → Bool
is_space_2 a b = a == 194 && (b == 133 || b == 160)

-- The Unicode spaces U+1680, U+2000 to U+200A, U+2028, U+2029, U+202F, U+205F and U+3000.
unfoldable pub is_space_3 : ℕ → ℕ → ℕ → Bool
is_space_3 a b c =
    (a == 225 && b == 154 && c == 128)
    || (a == 226 && b == 128 && ((leb 128 c && leb c 138) || c == 168 || c == 169 || c == 175))
    || (a == 226 && b == 129 && c == 159)
    || (a == 227 && b == 128 && c == 128)

-- The number of bytes of the space at the start, in UTF-8; 0 if there is none.
unfoldable pub space_width : Bytes → ℕ
space_width [] = 0
space_width (a ∷ []) = if is_ascii_space a then 1 else 0
space_width (a ∷ b ∷ []) = if is_ascii_space a then 1 else if is_space_2 a b then 2 else 0
space_width (a ∷ b ∷ c ∷ bs) =
    if is_ascii_space a then 1 else if is_space_2 a b then 2 else if is_space_3 a b c then 3 else 0

-- The spaces at the start dropped; the number says how many bytes of a space are still to go.
unfoldable pub trim_left : ℕ → Bytes → Bytes
trim_left more [] = []
trim_left (suc more) (b ∷ bs) = trim_left more bs
trim_left zero (b ∷ bs) = elim (space_width (b ∷ bs)) [
  | zero ↦ b ∷ bs
  | suc more ↦ trim_left more bs
]

unfoldable pub trim_right : Bytes → Bytes
trim_right [] = []
trim_right (b ∷ bs) = elim (trim_left 0 (b ∷ bs)) [ [] ↦ [] | c ∷ cs ↦ b ∷ trim_right bs ]

-- `strings.TrimSpace`
unfoldable pub trim_space : Bytes → Bytes
trim_space line = trim_right (trim_left 0 line)

-- The lines that the two block loops hand on: trimmed, and not the empty ones.
unfoldable pub non_empty_lines : List Bytes → List Bytes
non_empty_lines [] = []
non_empty_lines (l ∷ lines) =
    let line = trim_space l in
    let more = non_empty_lines lines in if is_empty line then more else line ∷ more

-- The other loops hand on each line as it is read.
abbrev pub every_line : List Bytes → List Bytes
every_line lines = lines

-- The inner loop: `ReadString` until the end of the file, and the lines that the body hands on.
-- The bytes of a line without its newline are read too, and dropped.
unfoldable pub read_lines : (List Bytes → List Bytes) → Bytes → Follower → Follower × List Bytes
read_lines handed_on content f =
    let unread = drop f.offset content in
    (record f { offset = f.offset + length unread }, handed_on (split_lines unread).0)

-- How a round ends: with the lines it hands on, or by a call of a method of a nil reader.
pub data Outcome : Type 0 where
  lines_read : Follower → List Bytes → Outcome
  panicked : Outcome

abbrev pub read_outcome : Follower × List Bytes → Outcome
read_outcome (f, lines) = lines_read f lines

-- `fileReader.ReadString`, with no test of the reader.
unfoldable pub read_unguarded : (List Bytes → List Bytes) → Round → Follower × Bool → Outcome
read_unguarded handed_on r (f, false) = lines_read f []
read_unguarded handed_on r (f, true) =
    if f.has_reader then read_outcome (read_lines handed_on r.content f) else panicked

-- `if fileReader != nil`
unfoldable pub read_guarded : (List Bytes → List Bytes) → Round → Follower × Bool → Outcome
read_guarded handed_on r (f, false) = lines_read f []
read_guarded handed_on r (f, true) =
    if f.has_reader then read_outcome (read_lines handed_on r.content f) else lines_read f []

unfoldable pub monitor_block_state : Round → Follower → Outcome
monitor_block_state r f = elim r.latest [
  | none ↦ lines_read f []
  | some name ↦ read_unguarded non_empty_lines r (switch_file name r f)
]

-- The loop of the proposal monitor.
unfoldable pub start_proposal_monitor : Round → Follower → Outcome
start_proposal_monitor r f = elim r.latest [
  | none ↦ lines_read f []
  | some name ↦ read_unguarded every_line r (switch_file name r f)
]

unfoldable pub monitor_legacy_block_state : Round → Follower → Outcome
monitor_legacy_block_state r f = elim r.latest [
  | none ↦ lines_read f []
  | some name ↦ read_guarded non_empty_lines r (switch_file name r f)
]

-- `if latestFile == "" { continue }` before the switch.
unfoldable pub follow_named : Round → Follower → Outcome
follow_named r f = elim r.latest [
  | none ↦ lines_read f []
  | some name ↦
      if is_empty name then lines_read f [] else read_guarded every_line r (switch_file name r f)
]

unfoldable pub monitor_consensus_logs : Round → Follower → Outcome
monitor_consensus_logs r f = follow_named r f

unfoldable pub monitor_status_logs : Round → Follower → Outcome
monitor_status_logs r f = follow_named r f

unfoldable pub start_round_advance_monitor : Round → Follower → Outcome
start_round_advance_monitor r f = follow_named r f

-- The lines of one round before those of the later ones.
unfoldable pub after_lines : List Bytes → Outcome → Outcome
after_lines lines (lines_read f more) = lines_read f (lines ++ more)
after_lines lines panicked = panicked

unfoldable pub continue_with : Outcome → (Follower → Outcome) → Outcome
continue_with (lines_read f lines) rest = after_lines lines (rest f)
continue_with panicked rest = panicked

-- Rounds of a loop, until it panics.
unfoldable pub run : (Round → Follower → Outcome) → List Round → Follower → Outcome
run loop [] f = lines_read f []
run loop (r ∷ rounds) f = continue_with (loop r f) (run loop rounds)
