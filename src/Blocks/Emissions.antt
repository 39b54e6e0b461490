-- ===== src/Blocks/Emissions.antt =====
-- What one accepted line does to the caches of internal/monitors/block_monitor.go and what it
-- emits, for each stream.
use hyperliquid_exporter.Base.Int.{ℤ}
use hyperliquid_exporter.Lru.Stable.{updated}
use hyperliquid_exporter.Blocks.Streams.{
  Stream, fast_state, slow_state, legacy_state, name_of, same_stream, IsTracking, updated-name,
  track-IsTracking, new-IsTracking,
}
use hyperliquid_exporter.Blocks.{
  Emission, record_block_time_with_label, record_block_time, BlockLine, BlockState, new_block_state,
  fast, slow, legacy, recorded_diff, trim_heights, or_empty, track_block, accept_line,
  accept_legacy, block_time_emission, legacy_block_time_emission, height_emissions,
  set_block_height, set_latest_block_time, record_apply_duration_with_label, record_apply_duration,
  mark_monitor_tick, unix,
}
use hyperliquid_exporter.Base.{
  ℕ, ◌≡◌, refl, ap, ◌∙◌, inl, inr, true, Option, none, some, List, [], ◌∷◌, ◌++◌, arith,
  if◌then◌else◌, Bool-cases, Bytes, codes, bytes_discrete, ite, ℕ_discrete,
}

pub record IsTracked (st : BlockState) (f : Bytes → Option ℕ) (g : Bytes → Option (List ℤ))
    : Type 0 where
  pub times : IsTracking st.last_block_times f
  pub histories : IsTracking st.block_heights_by_state g

pub new-IsTracked : IsTracked new_block_state (λ k. none) (λ k. none)
unfolding new_block_state
new-IsTracked = record { times = new-IsTracking; histories = new-IsTracking }

unfoldable pub next_heights : Option (List ℤ) → ℤ → List ℤ
next_heights old h = trim_heights (or_empty old ++ h ∷ [])

pub track_block-IsTracked :
    (now : ℕ) (s : Stream) (h : ℤ) (t : ℕ) (st : BlockState) (f : Bytes → Option ℕ)
    (g : Bytes → Option (List ℤ))
    → IsTracked st f g
    → IsTracked
        (track_block now (name_of s) h t st).0
        (updated (name_of s) t f)
        (updated (name_of s) (next_heights (g (name_of s)) h) g)
unfolding track_block next_heights
track_block-IsTracked now s h t st f g w = record {
  times = track-IsTracking now s t st.last_block_times f w.times;
  histories = rw (w.histories.table.reads now (name_of s)) (
      track-IsTracking now s (next_heights (g (name_of s)) h) st.block_heights_by_state g
        w.histories);
}

pub track_block-diff :
    (now : ℕ) (s : Stream) (h : ℤ) (t : ℕ) (st : BlockState) (f : Bytes → Option ℕ)
    (g : Bytes → Option (List ℤ))
    → IsTracked st f g
    → (track_block now (name_of s) h t st).1 ≡ recorded_diff t (f (name_of s))
unfolding track_block
track_block-diff now s h t st f g w = ap (recorded_diff t) (w.times.table.reads now (name_of s))

unfoldable pub optional : Option ℕ → List ℕ
optional none = []
optional (some n) = n ∷ []

-- The differences of successive times that are recorded, after a last time.
unfoldable pub successive_diffs : Option ℕ → List ℕ → List ℕ
successive_diffs last [] = []
successive_diffs last (t ∷ ts) = optional (recorded_diff t last) ++ successive_diffs (some t) ts

unfoldable pub kept_heights : Option (List ℤ) → List ℤ → Option (List ℤ)
kept_heights old [] = old
kept_heights old (h ∷ hs) = kept_heights (some (next_heights old h)) hs

same_stream-name :
    (s t : Stream) (xs ys : List ℕ)
    → ite (bytes_discrete (name_of s) (name_of t)) xs ys ≡ (if same_stream s t then xs else ys)
unfolding same_stream bytes_discrete ℕ_discrete
same_stream-name fast_state fast_state xs ys = refl
same_stream-name fast_state slow_state xs ys = refl
same_stream-name fast_state legacy_state xs ys = refl
same_stream-name slow_state fast_state xs ys = refl
same_stream-name slow_state slow_state xs ys = refl
same_stream-name slow_state legacy_state xs ys = refl
same_stream-name legacy_state fast_state xs ys = refl
same_stream-name legacy_state slow_state xs ys = refl
same_stream-name legacy_state legacy_state xs ys = refl

pub same_stream_comm : (s t : Stream) → same_stream s t ≡ same_stream t s
unfolding same_stream
same_stream_comm fast_state fast_state = refl
same_stream_comm fast_state slow_state = refl
same_stream_comm fast_state legacy_state = refl
same_stream_comm slow_state fast_state = refl
same_stream_comm slow_state slow_state = refl
same_stream_comm slow_state legacy_state = refl
same_stream_comm legacy_state fast_state = refl
same_stream_comm legacy_state slow_state = refl
same_stream_comm legacy_state legacy_state = refl

same_stream_name : (s t : Stream) → same_stream s t ≡ true → name_of s ≡ name_of t
same_stream_name s t h = elim (bytes_discrete (name_of s) (name_of t)) [
  | yes same ↦ same
  | no other ↦ ground (arith, h, other, same_stream-name s t (0 ∷ []) [])
]

module _ {F : Type 0} where
  -- The differences that the emissions record for a stream.
  unfoldable pub diffs_of : Stream → List (Emission F) → List ℕ
  diffs_of s [] = []
  diffs_of s (record_block_time_with_label ms label ∷ es) =
      let rest = diffs_of s es in ite (bytes_discrete label (name_of s)) (ms ∷ rest) rest
  diffs_of s (record_block_time ms ∷ es) =
      let rest = diffs_of s es in if same_stream s legacy_state then ms ∷ rest else rest
  diffs_of s (set_block_height h ∷ es) = diffs_of s es
  diffs_of s (set_latest_block_time t ∷ es) = diffs_of s es
  diffs_of s (record_apply_duration_with_label d label ∷ es) = diffs_of s es
  diffs_of s (record_apply_duration d ∷ es) = diffs_of s es
  diffs_of s (mark_monitor_tick m ∷ es) = diffs_of s es

  pub diffs_of-append :
      (s : Stream) (xs ys : List (Emission F))
      → diffs_of s (xs ++ ys) ≡ diffs_of s xs ++ diffs_of s ys
  unfolding diffs_of
  diffs_of-append s [] ys = refl
  diffs_of-append s (record_block_time_with_label ms label ∷ xs) ys =
      ground (arith, diffs_of-append s xs ys)
  diffs_of-append s (record_block_time ms ∷ xs) ys = ground (arith, diffs_of-append s xs ys)
  diffs_of-append s (set_block_height h ∷ xs) ys = diffs_of-append s xs ys
  diffs_of-append s (set_latest_block_time t ∷ xs) ys = diffs_of-append s xs ys
  diffs_of-append s (record_apply_duration_with_label d label ∷ xs) ys = diffs_of-append s xs ys
  diffs_of-append s (record_apply_duration d ∷ xs) ys = diffs_of-append s xs ys
  diffs_of-append s (mark_monitor_tick m ∷ xs) ys = diffs_of-append s xs ys

  unfoldable pub accept : ℕ → Stream → BlockLine F → BlockState → BlockState × List (Emission F)
  accept now fast_state l st = accept_line now fast l st
  accept now slow_state l st = accept_line now slow l st
  accept now legacy_state l st = accept_legacy now l st

  pub accept-state :
      (now : ℕ) (s : Stream) (l : BlockLine F) (st : BlockState)
      → (accept now s l st).0 ≡ (track_block now (name_of s) l.height l.parsed_time st).0
  unfolding accept accept_line accept_legacy
  accept-state now fast_state l st = refl
  accept-state now slow_state l st = refl
  accept-state now legacy_state l st = refl

  diffs_of-accept_line :
      (s : Stream) (label : Bytes) (l : BlockLine F) (diff : Option ℕ)
      → diffs_of s (
          block_time_emission label diff
          ++ height_emissions label l
          ++ record_apply_duration_with_label l.apply_duration_ms label
            ∷ mark_monitor_tick (codes "block")
            ∷ [])
        ≡ ite (bytes_discrete label (name_of s)) (optional diff) []
  unfolding diffs_of block_time_emission height_emissions optional
  diffs_of-accept_line s label l none = ground arith
  diffs_of-accept_line s label l (some ms) = ground arith

  diffs_of-accept_legacy :
      (s : Stream) (l : BlockLine F) (diff : Option ℕ) (es : List (Emission F))
      → diffs_of s es ≡ []
      → diffs_of s (legacy_block_time_emission diff ++ es)
        ≡ (if same_stream s legacy_state then optional diff else [])
  unfolding diffs_of legacy_block_time_emission optional
  diffs_of-accept_legacy s l none es h = ground arith
  diffs_of-accept_legacy s l (some ms) es h = ground arith

  -- A line records for its own stream the difference to the last time, and for no other.
  pub accept-diffs :
      (now : ℕ) (s t : Stream) (l : BlockLine F) (st : BlockState)
      → diffs_of t (accept now s l st).1 ≡ (
          if same_stream s t
          then optional (track_block now (name_of s) l.height l.parsed_time st).1
          else [])
  unfolding accept accept_line accept_legacy diffs_of
  accept-diffs now fast_state t l st =
      diffs_of-accept_line t fast l (track_block now fast l.height l.parsed_time st).1
      ∙ same_stream-name fast_state t _ _
  accept-diffs now slow_state t l st =
      diffs_of-accept_line t slow l (track_block now slow l.height l.parsed_time st).1
      ∙ same_stream-name slow_state t _ _
  accept-diffs now legacy_state t l st =
      diffs_of-accept_legacy t l (track_block now legacy l.height l.parsed_time st).1 _ quiet
      ∙ rw (same_stream_comm t legacy_state) refl
    where
      quiet :
          diffs_of t (
            set_block_height l.height
            ∷ record_apply_duration l.apply_duration_ms
            ∷ set_latest_block_time (unix l.parsed_time)
            ∷ [])
          ≡ []
      quiet = refl

-- The step of the differences, as the stream of the line is the one looked at or not.
pub next-diffs :
    (s t : Stream) (time : ℕ) (f : Bytes → Option ℕ) (ts rest : List ℕ)
    → rest ≡ successive_diffs (updated (name_of s) time f (name_of t)) ts
    → (if same_stream s t then optional (recorded_diff time (f (name_of s))) else []) ++ rest
      ≡ successive_diffs (f (name_of t)) (if same_stream s t then time ∷ ts else ts)
unfolding successive_diffs
next-diffs s t time f ts rest h = elim (Bool-cases (same_stream s t)) [
  | inl same ↦ ground (arith, same, h, updated-name s t time f, same_stream_name s t same)
  | inr other ↦ ground (arith, other, h, updated-name s t time f)
]

pub next-kept :
    (s t : Stream) (h : ℤ) (g : Bytes → Option (List ℤ)) (hs : List ℤ)
    → kept_heights (updated (name_of s) (next_heights (g (name_of s)) h) g (name_of t)) hs
      ≡ kept_heights (g (name_of t)) (if same_stream s t then h ∷ hs else hs)
unfolding kept_heights
next-kept s t h g hs = elim (Bool-cases (same_stream s t)) [
  | inl same ↦
      ground (
        arith,
        same,
        updated-name s t (next_heights (g (name_of s)) h) g,
        same_stream_name s t same,
      )
  | inr other ↦ ground (arith, other, updated-name s t (next_heights (g (name_of s)) h) g)
]
