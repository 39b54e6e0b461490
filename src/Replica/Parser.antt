-- ===== src/Replica/Parser.antt =====
-- internal/replica/parser.go: the block pool, `ExtractMetrics`, and the loops `parseBlocks` and
-- `StreamFile`, over the types of internal/replica/types.go.
--
-- A file is the sequence of what `decoder.Decode` meets: the fields of the next block, or an
-- error, after which the loops stop. `Decode` writes the fields that the text has and leaves the
-- others of the block as they are. `time.Parse` is a parameter, and so is what `time.Since` reads.
pub mod Stream
use hyperliquid_exporter.Base.Int.{ℤ, pos}
use hyperliquid_exporter.Replica.Actions.{Counts, no_counts, parse_action_bundles}
use hyperliquid_exporter.Replica.Json.{Json}
use hyperliquid_exporter.Base.{
  ℕ, zero, suc, ◌+◌, ◌-◌, ◌≤◌, ◌<◌, ◌≡◌, refl, sym, ap, ◌∙◌, fun_ext, ◌≢◌, ◌↔◌, ◌⊎◌, inl, inr, Bool,
  true, false, not, ◌&&◌, ◌||◌, Option, none, some, List, [], ◌∷◌, ◌++◌, map, arith, ltb, leb, ◌==◌,
  if◌then◌else◌, ==_iff, Bool-cases, Option-cases, Bytes, codes, bytes_discrete, length, All, keep,
  ite, dec_lt, dec_le, ℕ_discrete, if_pos, if_neg,
}

pub record HardforkInfo : Type 0 where
  pub version : ℤ
  pub round : ℤ

pub record ReplicaBlock : Type 0 where
  pub time : Bytes
  pub round : ℤ
  pub parent_round : ℤ
  pub proposer : Bytes
  pub signed_action_bundles : Option Json
  pub hardfork : HardforkInfo
  pub resps : Option Json

-- `Reset` assigns every field, so the block it is called on does not matter.
unfoldable pub reset : ReplicaBlock → ReplicaBlock
reset r = record r {
  time = [];
  round = pos 0;
  parent_round = pos 0;
  proposer = [];
  signed_action_bundles = none;
  hardfork = record { version = pos 0; round = pos 0 };
  resps = none;
}

abbrev pub zero_block : ReplicaBlock
zero_block = record {
  time = [];
  round = pos 0;
  parent_round = pos 0;
  proposer = [];
  signed_action_bundles = none;
  hardfork = record { version = pos 0; round = pos 0 };
  resps = none;
}

-- The fields that a block's text has.
pub record BlockText : Type 0 where
  pub time : Option Bytes
  pub round : Option ℤ
  pub parent_round : Option ℤ
  pub proposer : Option Bytes
  pub signed_action_bundles : Option Json
  pub hardfork_version : Option ℤ
  pub hardfork_round : Option ℤ
  pub resps : Option Json

abbrev pub given {ℓ} : {A : Type ℓ} → Option A → A → A
given none old = old
given (some new) old = new

abbrev pub given_raw : Option Json → Option Json → Option Json
given_raw none old = old
given_raw (some new) old = some new

-- `decoder.Decode(block)`
unfoldable pub decode : BlockText → ReplicaBlock → ReplicaBlock
decode t b = record {
  time = given t.time b.time;
  round = given t.round b.round;
  parent_round = given t.parent_round b.parent_round;
  proposer = given t.proposer b.proposer;
  signed_action_bundles = given_raw t.signed_action_bundles b.signed_action_bundles;
  hardfork = record {
    version = given t.hardfork_version b.hardfork.version;
    round = given t.hardfork_round b.hardfork.round;
  };
  resps = given_raw t.resps b.resps;
}

-- The blocks that `sync.Pool` holds. `Get` takes one of them or, if there is none, a new one.
abbrev pub Pool : Type 0
Pool = List ReplicaBlock

unfoldable pub get_block : Pool → ReplicaBlock × Pool
get_block [] = (reset zero_block, [])
get_block (b ∷ pool) = (reset b, pool)

unfoldable pub return_block : ReplicaBlock → Pool → Pool
return_block b pool = reset b ∷ pool

pub data ParseError : Type 0 where
  parse_time parse_bundles decode_block callback_error : ParseError

pub data Result {ℓ} (A : Type ℓ) : Type ℓ where
  ok : A → Result A
  err : ParseError → Result A

pub record BlockMetrics : Type 0 where
  pub height : ℤ
  pub round : ℤ
  pub time : ℕ
  pub proposer : Bytes
  pub total_actions : ℕ
  pub action_counts : List (Bytes × ℕ)
  pub total_operations : ℕ
  pub operation_counts : List (Bytes × ℕ)
  pub process_duration : ℕ

-- `time.Parse` with the layout RFC3339Nano, and with the layout that has no zone.
pub record TimeLayouts : Type 0 where
  pub rfc3339_nano : Bytes → Option ℕ
  pub no_zone : Bytes → Option ℕ

-- What `ParseBlockFromLine` returns, with the pool that it leaves; `none` is a line that does not
-- decode, and its block goes back to the pool as it is.
unfoldable pub parse_block_from_line : Option BlockText → Pool → Option ReplicaBlock × Pool
parse_block_from_line line pool =
    let (b, rest) = get_block pool in
    elim line [ none ↦ (none, b ∷ rest) | some t ↦ (some (decode t b), rest) ]

module _ (layouts : TimeLayouts) where
  unfoldable pub block_time : Bytes → Option ℕ
  block_time s = elim (layouts.rfc3339_nano s) [ some t ↦ some t | none ↦ layouts.no_zone s ]

  unfoldable pub bundle_counts : Option Json → Option Counts
  bundle_counts none = some no_counts
  bundle_counts (some v) = parse_action_bundles v no_counts

  unfoldable pub metrics_of : ReplicaBlock → ℕ → ℕ → Counts → BlockMetrics
  metrics_of b t elapsed c = record {
    height = pos 0;
    round = b.round;
    time = t;
    proposer = b.proposer;
    total_actions = c.total_actions;
    action_counts = c.action_counts;
    total_operations = c.total_operations;
    operation_counts = c.operation_counts;
    process_duration = elapsed;
  }

  -- The block that is left has its raw bundles cleared, unless an error came first.
  unfoldable pub extract_metrics : ℕ → ReplicaBlock → ReplicaBlock × Result BlockMetrics
  extract_metrics elapsed b = elim (block_time b.time) [
    | none ↦ (b, err parse_time)
    | some t ↦ elim (bundle_counts b.signed_action_bundles) [
      | none ↦ (b, err parse_bundles)
      | some c ↦ (record b { signed_action_bundles = none }, ok (metrics_of b t elapsed c))
    ]
  ]

  abbrev pub add_metrics : Result BlockMetrics → List BlockMetrics → List BlockMetrics
  add_metrics (err e) blocks = blocks
  add_metrics (ok m) blocks = blocks ++ m ∷ []

  -- The loop of `parseBlocks`: a text that decodes, with the time that its block takes, or `none`
  -- for an error of the decoder. The end of the list is the end of the file.
  unfoldable pub parse_blocks_from :
      List (Option (BlockText × ℕ))
      → List BlockMetrics
      → Pool
      → List BlockMetrics × Option ParseError × Pool
  parse_blocks_from [] blocks pool = let (b, rest) = get_block pool in (blocks, none, b ∷ rest)
  parse_blocks_from (none ∷ file) blocks pool =
      let (b, rest) = get_block pool in (blocks, some decode_block, b ∷ rest)
  parse_blocks_from (some (t, elapsed) ∷ file) blocks pool =
      let (b, rest) = get_block pool in
      let (b', result) = extract_metrics elapsed (decode t b) in
      parse_blocks_from file (add_metrics result blocks) (b' ∷ rest)

  unfoldable pub parse_blocks :
      List (Option (BlockText × ℕ)) → Pool → List BlockMetrics × Option ParseError × Pool
  parse_blocks file pool = parse_blocks_from file [] pool

  -- The loop of `StreamFile`. The callback changes a state of its own, and may fail.
  module _ {S : Type 0} (callback : BlockMetrics → S → S × Bool) where
    unfoldable pub stream_file :
        List (Option (BlockText × ℕ)) → S → Pool → S × Option ParseError × Pool
    stream_file [] s pool = let (b, rest) = get_block pool in (s, none, b ∷ rest)
    stream_file (none ∷ file) s pool =
        let (b, rest) = get_block pool in (s, some decode_block, b ∷ rest)
    stream_file (some (t, elapsed) ∷ file) s pool =
        let (b, rest) = get_block pool in
        let (b', result) = extract_metrics elapsed (decode t b) in
        let pool' = b' ∷ rest in
        elim result [
          | err e ↦ stream_file file s pool'
          | ok m ↦
              let s' = (callback m s).0 in
              elim (callback m s).1 [
                | true ↦ stream_file file s' pool'
                | false ↦ (s', some callback_error, pool')
              ]
        ]
