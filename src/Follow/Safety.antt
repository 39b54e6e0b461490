-- ===== src/Follow/Safety.antt =====
-- When the loops that follow a log panic.
use hyperliquid_exporter.Follow.{
  FileInfo, get_latest_file, Follower, Round, new_follower, is_empty, same_file, open_file,
  switch_file, non_empty_lines, read_lines, Outcome, lines_read, panicked, read_unguarded,
  read_guarded, monitor_block_state, monitor_legacy_block_state, run, continue_with, after_lines,
}
use hyperliquid_exporter.Follow.Latest.{get_latest_file_dirs}
use hyperliquid_exporter.Base.{
  ◌≡◌, refl, ◌∙◌, ◌≢◌, ◌⊎◌, inl, inr, Bool, true, false, Option, none, some, List, [], ◌∷◌, arith,
  Bool-cases, Option-cases, Bytes, bytes_discrete, All,
}

-- The round ends without a panic, in a state with a property.
abbrev pub EndsIn : (Follower → Type 0) → Outcome → Type 0
EndsIn P (lines_read f lines) = P f
EndsIn P panicked = ⊥

read_guarded-Ends :
    (handed_on : List Bytes → List Bytes) (r : Round) (x : Follower × Bool)
    → EndsIn (λ f. Unit) (read_guarded handed_on r x)
unfolding read_guarded
read_guarded-Ends handed_on r (f, false) = tt
read_guarded-Ends handed_on r (f, true) = elim (Bool-cases f.has_reader) [
  | inl h ↦ rw h tt
  | inr h ↦ rw h tt
]

monitor_legacy_block_state-Ends :
    (r : Round) (f : Follower) → EndsIn (λ f. Unit) (monitor_legacy_block_state r f)
unfolding monitor_legacy_block_state switch_file read_guarded
monitor_legacy_block_state-Ends r f = elim (Option-cases r.latest) [
  | inl h ↦ rw h tt
  | inr (name, h) ↦ rw h (read_guarded-Ends non_empty_lines r (switch_file name r f))
]

after_lines-EndsIn :
    (P : Follower → Type 0) (lines : List Bytes) (o : Outcome)
    → EndsIn P o
    → EndsIn P (after_lines lines o)
unfolding after_lines
after_lines-EndsIn P lines (lines_read f more) h = h
after_lines-EndsIn P lines panicked h = h

continue_with-EndsIn :
    (P : Follower → Type 0) (rest : Follower → Outcome)
    → ((f : Follower) → P f → EndsIn P (rest f))
    → (o : Outcome) → EndsIn P o
    → EndsIn P (continue_with o rest)
unfolding continue_with
continue_with-EndsIn P rest keeps (lines_read f lines) h =
    after_lines-EndsIn P lines (rest f) (keeps f h)
continue_with-EndsIn P rest keeps panicked h = h

-- A loop that keeps a property at the rounds of a kind keeps it over a run of them.
run-EndsIn :
    (loop : Round → Follower → Outcome) (P : Follower → Type 0) (Good : Round → Type 0)
    → ((r : Round) (f : Follower) → Good r → P f → EndsIn P (loop r f))
    → (rounds : List Round) (f : Follower) → All Good rounds
    → P f
    → EndsIn P (run loop rounds f)
unfolding run
run-EndsIn loop P Good keeps [] f g h = h
run-EndsIn loop P Good keeps (r ∷ rounds) f g h =
    continue_with-EndsIn P (run loop rounds)
      (λ f' h'. run-EndsIn loop P Good keeps rounds f' g.1 h') (loop r f) (keeps r f g.0 h)

All-unit : (rounds : List Round) → All (λ r. Unit {0}) rounds
All-unit [] = tt
All-unit (r ∷ rounds) = (tt, All-unit rounds)

-- Whatever the rounds meet, `monitorLegacyBlockState` does not panic: it tests its reader.
pub run-legacy :
    (rounds : List Round) (f : Follower) → run monitor_legacy_block_state rounds f ≢ panicked
run-legacy rounds f e =
    let ends =
      run-EndsIn monitor_legacy_block_state (λ f. Unit) (λ r. Unit)
        (λ r f g h. monitor_legacy_block_state-Ends r f) rounds f (All-unit rounds) tt in
    rw e at ends

-- A round at which no error occurs: the name found is not empty, and the file opens and seeks.
pub record IsGood (r : Round) : Type 0 where
  pub named : (name : Bytes) → r.latest ≡ some name → is_empty name ≡ false
  pub opens : (bytes : Bytes) × (r.opened ≡ some bytes)
  pub sought : r.seeks ≡ true

-- There is a reader, or no file has been switched to yet.
abbrev pub IsReady : Follower → Type 0
IsReady f = (f.has_reader ≡ true) ⊎ (f.current_file ≡ [])

read_unguarded-Ready :
    (r : Round) (x : Follower × Bool)
    → IsReady x.0
    → (x.1 ≡ true → x.0.has_reader ≡ true)
    → EndsIn IsReady (read_unguarded non_empty_lines r x)
unfolding read_unguarded read_lines
read_unguarded-Ready r (f, false) ready reader = ready
read_unguarded-Ready r (f, true) ready reader = rw (reader refl) (inl refl)

is_empty-nil : (bs : Bytes) → is_empty bs ≡ false → bs ≢ []
unfolding is_empty
is_empty-nil [] h e = ground (arith, h)
is_empty-nil (b ∷ bs) h e = ground (arith, e)

switch_file-Ready :
    (r : Round) (f : Follower) (name : Bytes)
    → IsGood r
    → is_empty name ≡ false
    → IsReady f
    → (switch_file name r f).0.has_reader ≡ true
unfolding switch_file same_file open_file
switch_file-Ready r f name g named ready =
    let (bytes, opens) = g.opens in
    elim (bytes_discrete name f.current_file) [
      | yes e ↦ elim ready [
        | inl reader ↦ ground (arith, e, reader)
        | inr none_yet ↦ absurd (is_empty-nil name named (e ∙ none_yet))
      ]
      | no e ↦ ground (arith, opens, g.sought)
    ]

monitor_block_state-Ready :
    (r : Round) (f : Follower) → IsGood r → IsReady f → EndsIn IsReady (monitor_block_state r f)
unfolding monitor_block_state
monitor_block_state-Ready r f g ready = from_latest r.latest refl
  where
    from_latest :
        (latest : Option Bytes)
        → r.latest ≡ latest
        → EndsIn IsReady (elim latest [
          | none ↦ lines_read f []
          | some name ↦ read_unguarded non_empty_lines r (switch_file name r f)
        ])
    from_latest none h = ready
    from_latest (some name) h =
        let reader = switch_file-Ready r f name g (g.named name h) ready in
        read_unguarded-Ready r (switch_file name r f) (inl reader) (λ u. reader)

-- From its start, `monitorBlockState` does not panic in a run of rounds at which a named file is
-- found or none, and opening and seeking work.
pub run-block_state :
    (rounds : List Round)
    → All IsGood rounds
    → run monitor_block_state rounds new_follower ≢ panicked
run-block_state rounds good e =
    let ends =
      run-EndsIn monitor_block_state IsReady IsGood monitor_block_state-Ready rounds new_follower
        good (inr refl) in
    rw e at ends

-- If the directory holds directories alone, or nothing, the first round of `monitorBlockState`
-- calls a method of a nil reader.
pub monitor_block_state-empty_directory :
    (entries : List (Option FileInfo)) (r : Round)
    → All (λ e. (d : FileInfo) × (e ≡ some d) × (d.is_dir ≡ true)) entries
    → r.latest ≡ get_latest_file entries
    → monitor_block_state r new_follower ≡ panicked
unfolding monitor_block_state read_unguarded switch_file same_file bytes_discrete
monitor_block_state-empty_directory entries r dirs found =
    rw (found ∙ get_latest_file_dirs entries dirs) refl
