-- ===== src/Blocks/Runs.antt =====
-- Runs of the block monitor over the lines of the three streams in any order: what is recorded of
-- each stream, and the heights that are kept (internal/monitors/block_monitor.go).
use hyperliquid_exporter.Blocks.Emissions.{
  IsTracked, new-IsTracked, next_heights, track_block-IsTracked, track_block-diff, successive_diffs,
  kept_heights, diffs_of, diffs_of-append, accept, accept-state, accept-diffs, next-diffs,
  next-kept,
}
use hyperliquid_exporter.Base.Int.{ℤ}
use hyperliquid_exporter.Base.Lists.{length-append}
use hyperliquid_exporter.Lru.{get}
use hyperliquid_exporter.Lru.Stable.{updated}
use hyperliquid_exporter.Blocks.Streams.{
  Stream, fast_state, slow_state, legacy_state, name_of, same_stream,
}
use hyperliquid_exporter.Blocks.{
  Object, Emission, ParseError, BlockLine, BlockState, new_block_state, fast, slow, trim_heights,
  or_empty, check_line, accepted, parse_block_time_line, parse_legacy_block_time_line,
  max_block_history,
}
use mathlib.Core.List.{append_assoc, append-nil}
use hyperliquid_exporter.Base.{
  ℕ, zero, suc, ◌+◌, ◌-◌, ◌≤◌, ◌≡◌, refl, sym, ap, ◌∙◌, ◌⊎◌, inl, inr, Bool, Option, none, some,
  List, [], ◌∷◌, ◌++◌, map, drop, arith, ltb, if◌then◌else◌, Bool-cases, Bytes, length,
}

pub record Event : Type 0 where
  pub now : ℕ
  pub stream : Stream
  pub line : Bytes

-- The last `n` of a list.
unfoldable pub last_n : ℕ → List ℤ → List ℤ
last_n n l = drop (length l - n) l

unfoldable pub last_heights : List ℤ → Option (List ℤ)
last_heights [] = none
last_heights (h ∷ hs) = some (last_n max_block_history (h ∷ hs))

drop-append : (n : ℕ) (l r : List ℤ) → n ≤ length l → drop n (l ++ r) ≡ drop n l ++ r
unfolding drop
drop-append zero l r h = refl
drop-append (suc n) [] r h = ground (arith, h)
drop-append (suc n) (x ∷ l) r h = drop-append n l r (omega (arith, h))

drop-nil : (n : ℕ) → drop {A = ℤ} n [] ≡ []
unfolding drop
drop-nil zero = refl
drop-nil (suc n) = refl

drop-drop : (m n : ℕ) (l : List ℤ) → drop m (drop n l) ≡ drop (n + m) l
unfolding drop
drop-drop m zero l = ground arith
drop-drop zero (suc n) [] = ground arith
drop-drop (suc m) (suc n) [] = rw (drop-nil (suc n + suc m)) refl
drop-drop m (suc n) (x ∷ l) =
    let shift : suc (n + m) ≡ suc n + m = omega arith in
    drop-drop m n l ∙ ap (λ k. drop k (x ∷ l)) shift

length-drop : (n : ℕ) (l : List ℤ) → length (drop n l) ≡ length l - n
unfolding drop
length-drop zero l = ground arith
length-drop (suc n) [] = ground arith
length-drop (suc n) (x ∷ l) = ground (arith, length-drop n l)

trim_heights-last_n : (l : List ℤ) → trim_heights l ≡ last_n max_block_history l
unfolding trim_heights last_n drop
trim_heights-last_n l = elim (Bool-cases (ltb max_block_history (length l))) [
  | inl over ↦ rw over refl
  | inr fits ↦
      let none_over : length l - max_block_history ≡ 0 = ground (arith, fits) in
      rw (fits, none_over) refl
]

last_n-snoc :
    (n : ℕ) (l : List ℤ) (h : ℤ) → last_n n (last_n n l ++ h ∷ []) ≡ last_n n (l ++ h ∷ [])
unfolding last_n
last_n-snoc n l h =
    let k = length l - n in
    let kept = sym (drop-append k l (h ∷ []) (omega arith)) in
    ap (λ r. drop (length r - n) r) kept
    ∙ drop-drop (length (drop k (l ++ h ∷ [])) - n) k (l ++ h ∷ [])
    ∙ ap (λ m. drop m (l ++ h ∷ []))
        (omega (arith, length-drop k (l ++ h ∷ []), length-append l (h ∷ [])))

kept_heights-some :
    (l hs : List ℤ)
    → kept_heights (some (last_n max_block_history l)) hs
      ≡ some (last_n max_block_history (l ++ hs))
unfolding kept_heights next_heights or_empty
kept_heights-some l [] = rw (append-nil l) refl
kept_heights-some l (h ∷ hs) =
    rw
      (
        trim_heights-last_n (last_n max_block_history l ++ h ∷ []),
        last_n-snoc max_block_history l h,
        kept_heights-some (l ++ h ∷ []) hs,
        append_assoc l (h ∷ []) hs,
      )
      refl

kept_heights-none : (hs : List ℤ) → kept_heights none hs ≡ last_heights hs
unfolding kept_heights last_heights next_heights or_empty
kept_heights-none [] = refl
kept_heights-none (h ∷ hs) = rw (trim_heights-last_n (h ∷ [])) (kept_heights-some (h ∷ []) hs)

Sum-cases : {A B : Type 0} (r : A ⊎ B) → ((a : A) × (r ≡ inl a)) ⊎ ((b : B) × (r ≡ inr b))
Sum-cases (inl a) = inl (a, refl)
Sum-cases (inr b) = inr (b, refl)

module _ {F : Type 0} (to_int64 : F → ℤ) (times_1000 : F → F)
    (unmarshal : Bytes → Option (Object F)) (parse_time : Bytes → Option ℕ) where
  abbrev pub check : Bytes → ParseError ⊎ BlockLine F
  check = check_line to_int64 times_1000 unmarshal parse_time

  -- What a loop does with a line; it drops the error.
  unfoldable pub parse_line :
      Event → BlockState → Option ParseError × BlockState × List (Emission F)
  parse_line e st = elim e.stream [
    | fast_state ↦
        parse_block_time_line to_int64 times_1000 unmarshal parse_time e.now e.line fast st
    | slow_state ↦
        parse_block_time_line to_int64 times_1000 unmarshal parse_time e.now e.line slow st
    | legacy_state ↦
        parse_legacy_block_time_line to_int64 times_1000 unmarshal parse_time e.now e.line st
  ]

  unfoldable pub run : List Event → BlockState → BlockState × List (Emission F)
  run [] st = (st, [])
  run (e ∷ events) st =
      let (err, next, out) = parse_line e st in
      let (last, rest) = run events next in (last, out ++ rest)

  unfoldable pub add_line :
      Bool → ParseError ⊎ BlockLine F → List (BlockLine F) → List (BlockLine F)
  add_line own (inl err) ls = ls
  add_line own (inr l) ls = if own then l ∷ ls else ls

  -- The lines of a stream that pass the checks.
  unfoldable pub history : Stream → List Event → List (BlockLine F)
  history s [] = []
  history s (e ∷ events) = add_line (same_stream e.stream s) (check e.line) (history s events)

  parse_line-accepted :
      (now : ℕ) (s : Stream) (line : Bytes) (st : BlockState)
      → parse_line (record { now = now; stream = s; line = line }) st
        ≡ accepted st (λ l. accept now s l st) (check line)
  unfolding parse_line parse_block_time_line parse_legacy_block_time_line accept
  parse_line-accepted now fast_state line st = refl
  parse_line-accepted now slow_state line st = refl
  parse_line-accepted now legacy_state line st = refl

  abbrev pub times_of : List (BlockLine F) → List ℕ
  times_of ls = map (λ l. l.parsed_time) ls

  abbrev pub heights_of : List (BlockLine F) → List ℤ
  heights_of ls = map (λ l. l.height) ls

  accept-IsTracked :
      (now : ℕ) (s : Stream) (l : BlockLine F) (st : BlockState) (f : Bytes → Option ℕ)
      (g : Bytes → Option (List ℤ))
      → IsTracked st f g
      → IsTracked
          (accept now s l st).0
          (updated (name_of s) l.parsed_time f)
          (updated (name_of s) (next_heights (g (name_of s)) l.height) g)
  accept-IsTracked now s l st f g w =
      rw (accept-state now s l st) (track_block-IsTracked now s l.height l.parsed_time st f g w)

  map-if :
      {B : Type 0} (own : Bool) (p : BlockLine F → B) (l : BlockLine F) (ls : List (BlockLine F))
      → map p (if own then l ∷ ls else ls) ≡ (if own then p l ∷ map p ls else map p ls)
  map-if own p l ls = ground arith

  -- What the state records of a stream once the checks of the first line are done.
  checked-diffs :
      (now : ℕ) (s t : Stream) (r : ParseError ⊎ BlockLine F) (events : List Event)
      (st : BlockState) (f : Bytes → Option ℕ) (g : Bytes → Option (List ℤ))
      → ((u : BlockState) (f1 : Bytes → Option ℕ) (g1 : Bytes → Option (List ℤ))
          → IsTracked u f1 g1
          → diffs_of t (run events u).1
            ≡ successive_diffs (f1 (name_of t)) (times_of (history t events)))
      → IsTracked st f g
      → diffs_of t (
          (accepted st (λ l. accept now s l st) r).2
          ++ (run events (accepted st (λ l. accept now s l st) r).1).1)
        ≡ successive_diffs
            (f (name_of t))
            (times_of (add_line (same_stream s t) r (history t events)))
  unfolding accepted add_line
  checked-diffs now s t (inl e) events st f g ih w = ih st f g w
  checked-diffs now s t (inr l) events st f g ih w =
      diffs_of-append t (accept now s l st).1 (run events (accept now s l st).0).1
      ∙ rw
          (
            accept-diffs now s t l st,
            track_block-diff now s l.height l.parsed_time st f g w,
            map-if (same_stream s t) (λ l. l.parsed_time) l (history t events),
          )
          (next-diffs s t l.parsed_time f (times_of (history t events))
            (diffs_of t (run events (accept now s l st).0).1)
            (ih (accept now s l st).0 _ _ (accept-IsTracked now s l st f g w)))

  run-diffs :
      (t : Stream) (events : List Event) (st : BlockState) (f : Bytes → Option ℕ)
      (g : Bytes → Option (List ℤ))
      → IsTracked st f g
      → diffs_of t (run events st).1
        ≡ successive_diffs (f (name_of t)) (times_of (history t events))
  unfolding run history diffs_of successive_diffs
  run-diffs t [] st f g w = refl
  run-diffs t (e ∷ events) st f g w =
      rw (parse_line-accepted e.now e.stream e.line st)
        (checked-diffs e.now e.stream t (check e.line) events st f g (run-diffs t events) w)

  checked-heights :
      (now later : ℕ) (s t : Stream) (r : ParseError ⊎ BlockLine F) (events : List Event)
      (st : BlockState) (f : Bytes → Option ℕ) (g : Bytes → Option (List ℤ))
      → ((u : BlockState) (f1 : Bytes → Option ℕ) (g1 : Bytes → Option (List ℤ))
          → IsTracked u f1 g1
          → (get later (name_of t) (run events u).0.block_heights_by_state).1
            ≡ kept_heights (g1 (name_of t)) (heights_of (history t events)))
      → IsTracked st f g
      → (get later
          (name_of t)
          (run events (accepted st (λ l. accept now s l st) r).1).0.block_heights_by_state).1
        ≡ kept_heights
            (g (name_of t))
            (heights_of (add_line (same_stream s t) r (history t events)))
  unfolding accepted add_line
  checked-heights now later s t (inl e) events st f g ih w = ih st f g w
  checked-heights now later s t (inr l) events st f g ih w =
      ih (accept now s l st).0 _ _ (accept-IsTracked now s l st f g w)
      ∙ next-kept s t l.height g (heights_of (history t events))
      ∙ ap (kept_heights (g (name_of t)))
          (sym (map-if (same_stream s t) (λ l. l.height) l (history t events)))

  run-kept :
      (later : ℕ) (t : Stream) (events : List Event) (st : BlockState) (f : Bytes → Option ℕ)
      (g : Bytes → Option (List ℤ))
      → IsTracked st f g
      → (get later (name_of t) (run events st).0.block_heights_by_state).1
        ≡ kept_heights (g (name_of t)) (heights_of (history t events))
  unfolding run history kept_heights
  run-kept later t [] st f g w = w.histories.table.reads later (name_of t)
  run-kept later t (e ∷ events) st f g w = rw (parse_line-accepted e.now e.stream e.line st) (
      checked-heights e.now later e.stream t (check e.line) events st f g (run-kept later t events)
        w)

  -- Block times: whatever the order in which the lines of the streams come, the differences
  -- recorded for a stream are those of the successive times of its own accepted lines: in
  -- milliseconds, those that are positive, and none for the first line or after the zero time.
  pub run-successive :
      (t : Stream) (events : List Event)
      → diffs_of t (run events new_block_state).1
        ≡ successive_diffs none (times_of (history t events))
  run-successive t events = run-diffs t events new_block_state (λ k. none) (λ k. none) new-IsTracked

  -- The heights that the cache holds for a stream after any lines of the three streams, in any
  -- order, are the last hundred of its own accepted lines, oldest first.
  pub run-heights :
      (later : ℕ) (t : Stream) (events : List Event)
      → (get later (name_of t) (run events new_block_state).0.block_heights_by_state).1
        ≡ last_heights (heights_of (history t events))
  run-heights later t events =
      run-kept later t events new_block_state (λ k. none) (λ k. none) new-IsTracked
      ∙ kept_heights-none (heights_of (history t events))
