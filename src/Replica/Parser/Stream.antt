-- ===== src/Replica/Parser/Stream.antt =====
-- The loops of internal/replica/parser.go against what a file says, block by block: blocks that go
-- round through the pool change nothing.
use mathlib.Core.List.{append-nil, append_assoc}
use hyperliquid_exporter.Replica.Parser.{
  reset, zero_block, BlockText, decode, Pool, get_block, ParseError, decode_block, callback_error,
  Result, ok, err, BlockMetrics, TimeLayouts, extract_metrics, add_metrics, parse_blocks_from,
  parse_blocks, stream_file, parse_block_from_line,
}
use hyperliquid_exporter.Base.{
  ℕ, ◌≡◌, refl, sym, ap, ◌∙◌, ◌⊎◌, inl, inr, Bool, true, false, Option, none, some, List, [], ◌∷◌,
  ◌++◌, arith, if◌then◌else◌,
}

-- Whatever the pool holds, the block that it hands out is a zero block.
get_block-zero : (pool : Pool) → (get_block pool).0 ≡ zero_block
unfolding get_block reset
get_block-zero [] = refl
get_block-zero (b ∷ pool) = refl

-- A line is decoded into a zero block, whatever blocks were returned to the pool before.
pub parse_block_from_line-zero :
    (line : Option BlockText) (pool : Pool)
    → (parse_block_from_line line pool).0
      ≡ elim line [ none ↦ none | some t ↦ some (decode t zero_block) ]
unfolding parse_block_from_line
parse_block_from_line-zero none pool = refl
parse_block_from_line-zero (some t) pool = ap (λ b. some (decode t b)) (get_block-zero pool)

Result-cases :
    (r : Result BlockMetrics) → ((m : BlockMetrics) × (r ≡ ok m)) ⊎ ((e : ParseError) × (r ≡ err e))
Result-cases (ok m) = inl (m, refl)
Result-cases (err e) = inr (e, refl)

module _ (layouts : TimeLayouts) where
  -- The metrics of a text that is decoded into a zero block.
  abbrev pub text_metrics : BlockText → ℕ → Result BlockMetrics
  text_metrics t elapsed = (extract_metrics layouts elapsed (decode t zero_block)).1

  abbrev pub cons_metrics : Result BlockMetrics → List BlockMetrics → List BlockMetrics
  cons_metrics (err e) l = l
  cons_metrics (ok m) l = m ∷ l

  -- The blocks before the first error of the decoder, without those whose metrics fail.
  unfoldable pub file_metrics : List (Option (BlockText × ℕ)) → List BlockMetrics
  file_metrics [] = []
  file_metrics (none ∷ file) = []
  file_metrics (some (t, elapsed) ∷ file) =
      cons_metrics (text_metrics t elapsed) (file_metrics file)

  unfoldable pub file_error : List (Option (BlockText × ℕ)) → Option ParseError
  file_error [] = none
  file_error (none ∷ file) = some decode_block
  file_error (some t ∷ file) = file_error file

  add-cons :
      (r : Result BlockMetrics) (blocks l : List BlockMetrics)
      → add_metrics layouts r blocks ++ l ≡ blocks ++ cons_metrics r l
  add-cons (err e) blocks l = refl
  add-cons (ok m) blocks l = append_assoc blocks (m ∷ []) l

  parse_blocks_from-file :
      (file : List (Option (BlockText × ℕ))) (blocks : List BlockMetrics) (pool : Pool)
      → ((parse_blocks_from layouts file blocks pool).0 ≡ blocks ++ file_metrics file)
        × ((parse_blocks_from layouts file blocks pool).1 ≡ file_error file)
  unfolding parse_blocks_from file_metrics file_error
  parse_blocks_from-file [] blocks pool = (sym (append-nil blocks), refl)
  parse_blocks_from-file (none ∷ file) blocks pool = (sym (append-nil blocks), refl)
  parse_blocks_from-file (some (t, elapsed) ∷ file) blocks pool =
      let x = extract_metrics layouts elapsed (decode t (get_block pool).0) in
      let pool' = x.0 ∷ (get_block pool).1 in
      let (metrics, error) = parse_blocks_from-file file (add_metrics layouts x.1 blocks) pool' in
      (
        metrics
            ∙ add-cons x.1 blocks (file_metrics file)
            ∙ ap
                (λ b.
                  blocks
                  ++ cons_metrics (extract_metrics layouts elapsed (decode t b)).1
                      (file_metrics file))
                (get_block-zero pool),
        error,
      )

  -- Whatever blocks the pool holds, `parseBlocks` returns the metrics of each block of the file
  -- decoded on its own, up to the first text that does not decode, which is the error returned; a
  -- block whose time or bundles do not parse is left out.
  pub parse_blocks-file :
      (file : List (Option (BlockText × ℕ))) (pool : Pool)
      → ((parse_blocks layouts file pool).0 ≡ file_metrics file)
        × ((parse_blocks layouts file pool).1 ≡ file_error file)
  unfolding parse_blocks
  parse_blocks-file file pool = parse_blocks_from-file file [] pool

  module _ {S : Type 0} (callback : BlockMetrics → S → S × Bool) where
    -- The callback on a list of metrics, until it fails.
    unfoldable pub deliver : List BlockMetrics → S → S × Bool
    deliver [] s = (s, true)
    deliver (m ∷ l) s =
        let rest = deliver l (callback m s).0 in
        if (callback m s).1 then rest else ((callback m s).0, false)

    -- `StreamFile` hands the callback the metrics that `parseBlocks` collects, in order, and stops
    -- at the first failure of the callback, which is then the error, or else at that of the decoder.
    pub stream_file-deliver :
        (file : List (Option (BlockText × ℕ))) (s : S) (pool : Pool)
        → ((stream_file layouts callback file s pool).0 ≡ (deliver (file_metrics file) s).0)
          × ((stream_file layouts callback file s pool).1 ≡ (
              if (deliver (file_metrics file) s).1 then file_error file else some callback_error))
    unfolding stream_file file_metrics file_error deliver
    stream_file-deliver [] s pool = (refl, refl)
    stream_file-deliver (none ∷ file) s pool = (refl, refl)
    stream_file-deliver (some (t, elapsed) ∷ file) s pool =
        let x = extract_metrics layouts elapsed (decode t (get_block pool).0) in
        let pool' = x.0 ∷ (get_block pool).1 in
        elim (Result-cases x.1) [
          | inl (m, good) ↦
              ground (arith, get_block-zero pool, stream_file-deliver file (callback m s).0 pool')
          | inr (e, bad) ↦ ground (arith, get_block-zero pool, stream_file-deliver file s pool')
        ]
