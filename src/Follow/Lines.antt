-- ===== src/Follow/Lines.antt =====
-- The lines that the loops hand on while a file grows.
use mathlib.Core.List.{append_assoc, append-nil}
use hyperliquid_exporter.Base.Lists.{length-append}
use hyperliquid_exporter.Follow.{
  Follower, Round, is_empty, same_file, switch_file, split_lines, read_lines, Outcome, lines_read,
  read_outcome, read_unguarded, read_guarded, monitor_block_state, monitor_consensus_logs,
  follow_named, run, continue_with, after_lines, trim_space, non_empty_lines, every_line,
}
use hyperliquid_exporter.Base.{
  ℕ, ◌≡◌, refl, sym, ap, ◌∙◌, inl, inr, Bool, true, false, not, ◌&&◌, some, List, [], ◌∷◌, ◌++◌,
  drop, arith, ◌==◌, if◌then◌else◌, Bool-cases, Bytes, length, All, List-cases,
}

-- The text ends with a newline, or is empty.
abbrev pub IsWhole : Bytes → Type 0
IsWhole bs = (split_lines bs).1 ≡ []

unfoldable pub lines_of : Bytes → List Bytes
lines_of bs = (split_lines bs).0

split_lines-cons :
    (b : ℕ) (bs : Bytes)
    → split_lines (b ∷ bs) ≡ (
        if b == b'\n'
        then ([] ∷ (split_lines bs).0, (split_lines bs).1)
        else elim (split_lines bs).0 [
          | [] ↦ ([], b ∷ (split_lines bs).1)
          | line ∷ more ↦ ((b ∷ line) ∷ more, (split_lines bs).1)
        ])
unfolding split_lines
split_lines-cons b bs = refl

split_lines-append :
    (a b : Bytes)
    → IsWhole a
    → (lines_of (a ++ b) ≡ lines_of a ++ lines_of b)
      × ((split_lines (a ++ b)).1 ≡ (split_lines b).1)
unfolding lines_of split_lines
split_lines-append [] b w = (refl, refl)
split_lines-append (x ∷ a) b w = elim (Bool-cases (x == b'\n')) [
  | inl newline ↦ ground (arith, newline, w, split_lines-append a b)
  | inr other ↦ elim (List-cases (split_lines a).0) [
    | inl none_ended ↦ ground (arith, other, none_ended, w)
    | inr (line, more, some_ended) ↦ ground (arith, other, some_ended, w, split_lines-append a b)
  ]
]

-- The bytes of the pieces in which a file grows.
unfoldable pub joined : List Bytes → Bytes
joined [] = []
joined (w ∷ ws) = w ++ joined ws

-- The rounds in which the loop finds the same file, each time one piece longer.
unfoldable pub growing : Bytes → Bytes → List Bytes → List Round
growing name c [] = []
growing name c (w ∷ ws) =
    record { latest = some name; opened = some (c ++ w); seeks = true; content = c ++ w }
    ∷ growing name (c ++ w) ws

-- What is handed on of the lines that end in the pieces, each piece read by itself.
unfoldable pub lines_by_piece : (List Bytes → List Bytes) → List Bytes → List Bytes
lines_by_piece handed_on [] = []
lines_by_piece handed_on (w ∷ ws) = handed_on (lines_of w) ++ lines_by_piece handed_on ws

-- What a loop hands on of lines depends on each line alone.
abbrev IsLinewise : (List Bytes → List Bytes) → Type 0
IsLinewise handed_on =
    (handed_on [] ≡ []) × ((a b : List Bytes) → handed_on (a ++ b) ≡ handed_on a ++ handed_on b)

non_empty_lines-append :
    (a b : List Bytes) → non_empty_lines (a ++ b) ≡ non_empty_lines a ++ non_empty_lines b
unfolding non_empty_lines
non_empty_lines-append [] b = refl
non_empty_lines-append (l ∷ a) b = elim (Bool-cases (is_empty (trim_space l))) [
  | inl blank ↦ rw (blank, non_empty_lines-append a b) refl
  | inr kept ↦ rw (kept, non_empty_lines-append a b) refl
]

non_empty_lines-IsLinewise : IsLinewise non_empty_lines
unfolding non_empty_lines
non_empty_lines-IsLinewise = (refl, non_empty_lines-append)

drop-append : (c w : Bytes) → drop (length c) (c ++ w) ≡ w
unfolding drop
drop-append [] w = refl
drop-append (b ∷ c) w = drop-append c w

-- A loop that reads when it finds the file that it has open.
abbrev Reads : (Round → Follower → Outcome) → (List Bytes → List Bytes) → Bytes → Type 0
Reads loop handed_on name =
    (r : Round) (f : Follower)
    → r.latest ≡ some name
    → f.current_file ≡ name
    → f.has_reader ≡ true
    → loop r f ≡ read_outcome (read_lines handed_on r.content f)

same_file_refl : (name : Bytes) → same_file name name ≡ true
unfolding same_file
same_file_refl name = ground arith

monitor_block_state-Reads : (name : Bytes) → Reads monitor_block_state non_empty_lines name
unfolding monitor_block_state read_unguarded switch_file
monitor_block_state-Reads name r f latest current reader =
    rw (latest, current, same_file_refl name, reader) refl

monitor_consensus_logs-Reads :
    (name : Bytes) → is_empty name ≡ false → Reads monitor_consensus_logs every_line name
unfolding monitor_consensus_logs follow_named read_guarded switch_file
monitor_consensus_logs-Reads name named r f latest current reader =
    rw (latest, named, current, same_file_refl name, reader) refl

read_lines-piece :
    (handed_on : List Bytes → List Bytes) (c w : Bytes) (f : Follower)
    → f.offset ≡ length c
    → read_lines handed_on (c ++ w) f
      ≡ (record f { offset = length (c ++ w) }, handed_on (lines_of w))
unfolding read_lines lines_of
read_lines-piece handed_on c w f at = rw (at, drop-append c w, length-append c w) refl

run-growing :
    (loop : Round → Follower → Outcome) (handed_on : List Bytes → List Bytes) (name : Bytes)
    → Reads loop handed_on name
    → (c : Bytes) (ws : List Bytes) (f : Follower) → f.current_file ≡ name
    → f.has_reader ≡ true
    → f.offset ≡ length c
    → run loop (growing name c ws) f
      ≡ lines_read (record f { offset = length (c ++ joined ws) }) (lines_by_piece handed_on ws)
unfolding run continue_with after_lines growing joined lines_by_piece
run-growing loop handed_on name reads c [] f current reader at = rw (append-nil c, ← at) refl
run-growing loop handed_on name reads c (w ∷ ws) f current reader at =
    let r : Round = record {
      latest = some name;
      opened = some (c ++ w);
      seeks = true;
      content = c ++ w;
    } in
    let f' : Follower = record f { offset = length (c ++ w) } in
    let here : loop r f ≡ lines_read f' (handed_on (lines_of w)) =
      reads r f refl current reader ∙ ap read_outcome (read_lines-piece handed_on c w f at) in
    rw
      (
        here,
        run-growing loop handed_on name reads (c ++ w) ws f' current reader refl,
        append_assoc c w (joined ws),
      )
      refl

-- Read piece by piece, each piece whole, a file gives the lines of its new bytes, each once.
lines_by_piece-whole :
    (handed_on : List Bytes → List Bytes) (ws : List Bytes)
    → IsLinewise handed_on
    → All IsWhole ws
    → lines_by_piece handed_on ws ≡ handed_on (lines_of (joined ws))
unfolding lines_by_piece joined lines_of split_lines
lines_by_piece-whole handed_on [] l a = sym l.0
lines_by_piece-whole handed_on (w ∷ ws) l a =
    ap (◌++◌ (handed_on (lines_of w))) (lines_by_piece-whole handed_on ws l a.1)
    ∙ sym (l.1 (lines_of w) (lines_of (joined ws)))
    ∙ ap handed_on (sym (split_lines-append w (joined ws) a.0).0)

module _ (name c : Bytes) (f : Follower) (current : f.current_file ≡ name)
    (reader : f.has_reader ≡ true) (at : f.offset ≡ length c) where
  -- While the file that is open grows by whole lines, the rounds of `monitorBlockState` hand on the
  -- lines of the new bytes, trimmed and without the empty ones, each once and in order, however the
  -- bytes are split over the rounds, and the position ends at the end of the file.
  pub monitor_block_state-growing :
      (ws : List Bytes)
      → All IsWhole ws
      → run monitor_block_state (growing name c ws) f
        ≡ lines_read
            (record f { offset = length (c ++ joined ws) })
            (non_empty_lines (lines_of (joined ws)))
  monitor_block_state-growing ws whole =
      run-growing monitor_block_state non_empty_lines name (monitor_block_state-Reads name) c ws f
        current reader at
      ∙ ap (lines_read (record f { offset = length (c ++ joined ws) }))
          (lines_by_piece-whole non_empty_lines ws non_empty_lines-IsLinewise whole)

  -- The same of `monitorConsensusLogs`, which hands on each line as it is.
  pub monitor_consensus_logs-growing :
      (ws : List Bytes)
      → is_empty name ≡ false
      → All IsWhole ws
      → run monitor_consensus_logs (growing name c ws) f
        ≡ lines_read (record f { offset = length (c ++ joined ws) }) (lines_of (joined ws))
  monitor_consensus_logs-growing ws named whole =
      run-growing monitor_consensus_logs every_line name (monitor_consensus_logs-Reads name named) c
        ws f current reader at
      ∙ ap (lines_read (record f { offset = length (c ++ joined ws) }))
          (lines_by_piece-whole every_line ws (refl, λ a b. refl) whole)

unfoldable pub no_newline : Bytes → Bool
no_newline [] = true
no_newline (b ∷ bs) = not (b == b'\n') && no_newline bs

lines_of-ended : (p : Bytes) → no_newline p ≡ true → lines_of (p ++ b'\n' ∷ []) ≡ p ∷ []
unfolding lines_of split_lines no_newline
lines_of-ended [] h = refl
lines_of-ended (b ∷ p) h = ground (arith, lines_of-ended p, h)

lines_of-torn : (p : Bytes) → no_newline p ≡ true → lines_of p ≡ []
unfolding lines_of split_lines no_newline
lines_of-torn [] h = refl
lines_of-torn (b ∷ p) h = ground (arith, lines_of-torn p, h)

no_newline-append :
    (p q : Bytes) → no_newline p ≡ true → no_newline q ≡ true → no_newline (p ++ q) ≡ true
unfolding no_newline
no_newline-append [] q h k = k
no_newline-append (b ∷ p) q h k = ground (arith, no_newline-append p q, h, k)

-- If a round falls between the two parts `p` and `q` of a line, `monitorBlockState` hands on `q`
-- alone, trimmed, or nothing if `q` is blank; the bytes of `p` are lost, and the line of the file is
-- `p ++ q`.
pub monitor_block_state-torn :
    (name c p q : Bytes) (f : Follower)
    → f.current_file ≡ name
    → f.has_reader ≡ true
    → f.offset ≡ length c
    → no_newline p ≡ true
    → no_newline q ≡ true
    → (run monitor_block_state (growing name c (p ∷ (q ++ b'\n' ∷ []) ∷ [])) f
        ≡ lines_read
            (record f { offset = length (c ++ joined (p ∷ (q ++ b'\n' ∷ []) ∷ [])) })
            (non_empty_lines (q ∷ [])))
      × (lines_of (joined (p ∷ (q ++ b'\n' ∷ []) ∷ [])) ≡ (p ++ q) ∷ [])
unfolding joined lines_by_piece
monitor_block_state-torn name c p q f current reader at hp hq =
    let ws : List Bytes = p ∷ (q ++ b'\n' ∷ []) ∷ [] in
    let pieces : lines_by_piece non_empty_lines ws ≡ non_empty_lines (q ∷ []) =
      ap (λ l. non_empty_lines l ++ lines_by_piece non_empty_lines ((q ++ b'\n' ∷ []) ∷ []))
        (lines_of-torn p hp)
      ∙ ap (λ l. l ++ lines_by_piece non_empty_lines ((q ++ b'\n' ∷ []) ∷ []))
          non_empty_lines-IsLinewise.0
      ∙ append-nil (non_empty_lines (lines_of (q ++ b'\n' ∷ [])))
      ∙ ap non_empty_lines (lines_of-ended q hq) in
    (
      run-growing monitor_block_state non_empty_lines name (monitor_block_state-Reads name) c ws f
            current reader at
          ∙ ap (lines_read (record f { offset = length (c ++ joined ws) })) pieces,
      ap lines_of (ap (◌++◌ p) (append-nil (q ++ b'\n' ∷ [])) ∙ sym (append_assoc p q (b'\n' ∷ [])))
          ∙ lines_of-ended (p ++ q) (no_newline-append p q hp hq),
    )
