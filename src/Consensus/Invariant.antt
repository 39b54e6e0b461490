-- ===== src/Consensus/Invariant.antt =====
-- The invariant of the signature counts of internal/monitors/consensus_monitor.go over
-- `processBlockRaw`, `processVoteStruct` and `trimStaleValidators`.
use mathlib.Core.List.{lookup}
use hyperliquid_exporter.Base.Int.{ℤ}
use hyperliquid_exporter.Base.Dict.{Distinct}
use hyperliquid_exporter.Consensus.{
  ConsensusMonitor, is_empty, nanoseconds_per_hour, int64_of, get_validator_for_signer,
}
use hyperliquid_exporter.Consensus.Blocks.{
  process_signer, process_signers, process_qc, process_tc, process_round, process_evidence,
  process_timeout_certificate, process_block, add_qc_window_entry, trim_stale,
  trim_stale_validators, QcEvidence, ConsensusBlockMessage,
}
use hyperliquid_exporter.Consensus.Signatures.{
  Tied, IsConsistent, process_signers-Tied, process_signers_rest, process_timeouts-Tied,
  process_timeouts_rest, Tied-trim_stale, lookup-trim_stale, expired, count_of, count_of-increment,
  occurrences,
}
use hyperliquid_exporter.Base.{
  ℕ, ◌+◌, ◌≡◌, refl, ap, ◌∙◌, false, Option, none, some, List, [], ◌∷◌, arith, ltb, if◌then◌else◌,
  Option-cases, Bytes, bytes_discrete, has,
}

-- The four maps are the same.
record SameMaps (m n : ConsensusMonitor) : Type 0 where
  qc_seen : n.qc_last_seen ≡ m.qc_last_seen
  qc_counts : n.qc_signatures ≡ m.qc_signatures
  tc_seen : n.tc_last_seen ≡ m.tc_last_seen
  tc_counts : n.tc_votes ≡ m.tc_votes

SameMaps-IsConsistent : (m n : ConsensusMonitor) → SameMaps m n → IsConsistent m → IsConsistent n
SameMaps-IsConsistent m n same c = record {
  qc = rw (same.qc_seen, same.qc_counts) c.qc;
  tc = rw (same.tc_seen, same.tc_counts) c.tc;
}

get_validator_for_signer-SameMaps :
    (now : ℕ) (signer : Bytes) (m : ConsensusMonitor)
    → SameMaps m (get_validator_for_signer now signer m).0
unfolding get_validator_for_signer
get_validator_for_signer-SameMaps now signer m = record {
  qc_seen = ground arith;
  qc_counts = ground arith;
  tc_seen = ground arith;
  tc_counts = ground arith;
}

process_round-SameMaps : (round : ℤ) (m : ConsensusMonitor) → SameMaps m (process_round round m).0
unfolding process_round
process_round-SameMaps round m = record {
  qc_seen = ground arith;
  qc_counts = ground arith;
  tc_seen = ground arith;
  tc_counts = ground arith;
}

process_evidence-IsConsistent :
    (now : ℕ) (qc : Option QcEvidence) (m : ConsensusMonitor)
    → IsConsistent m
    → IsConsistent (process_evidence now qc m).0
unfolding process_evidence process_qc add_qc_window_entry
process_evidence-IsConsistent now none m c = c
process_evidence-IsConsistent now (some qc) m c =
    let (seen, votes) = process_signers_rest now qc.signers m in
    record { qc = process_signers-Tied now qc.signers m c.qc; tc = rw (seen, votes) c.tc }

process_tc-IsConsistent :
    (now : ℕ) (tc : Option (List Bytes)) (m : ConsensusMonitor)
    → IsConsistent m
    → IsConsistent (process_tc now tc m).0
unfolding process_tc
process_tc-IsConsistent now none m c = c
process_tc-IsConsistent now (some timeouts) m c =
    let m' : ConsensusMonitor = record m {
      verification_stats = record m.verification_stats {
        tcs_processed = m.verification_stats.tcs_processed + 1;
      };
    } in
    let (seen, counts) = process_timeouts_rest now timeouts m' in
    record { qc = rw (seen, counts) c.qc; tc = process_timeouts-Tied now timeouts m' c.tc }

process_timeout_certificate-IsConsistent :
    (now : ℕ) (proposer : Bytes) (tc : Option (Option (List Bytes))) (m : ConsensusMonitor)
    → IsConsistent m
    → IsConsistent (process_timeout_certificate now proposer tc m).0
unfolding process_timeout_certificate
process_timeout_certificate-IsConsistent now proposer none m c = c
process_timeout_certificate-IsConsistent now proposer (some tc) m c =
    process_tc-IsConsistent now tc m c

-- If every validator with a signature or vote count has a last-seen time, and conversely, that
-- is so after a block is processed.
pub process_block-IsConsistent :
    (now : ℕ) (block : ConsensusBlockMessage) (m : ConsensusMonitor)
    → IsConsistent m
    → IsConsistent (process_block now block m).0
unfolding process_block
process_block-IsConsistent now block m c =
    let (m1, mapped) = get_validator_for_signer now block.proposer m in
    let proposer = if is_empty mapped then block.proposer else mapped in
    let m2 = (process_round (int64_of block.round) m1).0 in
    let m3 = (process_evidence now block.qc m2).0 in
    process_timeout_certificate-IsConsistent now proposer block.tc m3 (
      process_evidence-IsConsistent now block.qc m2 (
        SameMaps-IsConsistent m1 m2 (process_round-SameMaps (int64_of block.round) m1)
          (SameMaps-IsConsistent m m1 (get_validator_for_signer-SameMaps now block.proposer m) c)))

pub trim_stale_validators-IsConsistent :
    (now : ℕ) (m : ConsensusMonitor) → IsConsistent m → IsConsistent (trim_stale_validators now m)
unfolding trim_stale_validators
trim_stale_validators-IsConsistent now m c = record {
  qc = Tied-trim_stale now m.qc_last_seen m.qc_last_seen m.qc_signatures c.qc;
  tc = Tied-trim_stale now m.tc_last_seen m.tc_last_seen m.tc_votes c.tc;
}

-- In a map without repeated keys, an entry is stale if the time that a lookup finds is.
expired-lookup :
    (now : ℕ) (k : Bytes) (seen : List (Bytes × ℕ))
    → Distinct bytes_discrete seen
    → expired now k seen ≡ elim (lookup bytes_discrete k seen) [
      | none ↦ false
      | some t ↦ ltb (t + nanoseconds_per_hour) now
    ]
unfolding expired lookup
expired-lookup now k [] d = refl
expired-lookup now k ((v, t) ∷ seen) d = ground (arith, expired-lookup now k seen d.1)

-- What the trim leaves of a count.
unfoldable pub trimmed : ℕ → Option ℕ → Option ℕ → Option ℕ
trimmed now none n = none
trimmed now (some t) n = if ltb (t + nanoseconds_per_hour) now then none else n

absent_count :
    (k : Bytes) (seen counts : List (Bytes × ℕ))
    → Tied seen counts
    → lookup bytes_discrete k seen ≡ none
    → lookup bytes_discrete k counts ≡ none
unfolding has
absent_count k seen counts t h =
    ground (arith, t.same_keys k, Option-cases (lookup bytes_discrete k counts))

lookup-trim :
    (now : ℕ) (k : Bytes) (seen counts : List (Bytes × ℕ))
    → Tied seen counts
    → lookup bytes_discrete k (trim_stale now seen (seen, counts)).1
      ≡ trimmed now (lookup bytes_discrete k seen) (lookup bytes_discrete k counts)
unfolding trimmed
lookup-trim now k seen counts t = ground (
  arith,
  lookup-trim_stale now k seen seen counts,
  expired-lookup now k seen t.seen_distinct,
  absent_count k seen counts t,
  Option-cases (lookup bytes_discrete k seen),
)

-- `trimStaleValidators` forgets the counts of exactly the validators that were not seen for more
-- than an hour, and keeps those of the others as they are.
pub lookup-trim_stale_validators :
    (now : ℕ) (k : Bytes) (m : ConsensusMonitor)
    → IsConsistent m
    → (lookup bytes_discrete k (trim_stale_validators now m).qc_signatures
        ≡ trimmed now
            (lookup bytes_discrete k m.qc_last_seen)
            (lookup bytes_discrete k m.qc_signatures))
      × (lookup bytes_discrete k (trim_stale_validators now m).tc_votes
          ≡ trimmed now
              (lookup bytes_discrete k m.tc_last_seen)
              (lookup bytes_discrete k m.tc_votes))
unfolding trim_stale_validators
lookup-trim_stale_validators now k m c = (
  lookup-trim now k m.qc_last_seen m.qc_signatures c.qc,
  lookup-trim now k m.tc_last_seen m.tc_votes c.tc,
)

-- A validator that is not the empty string gains as many signatures as its occurrences.
count_of-process_signers :
    (now : ℕ) (k : Bytes) (signers : List Bytes) (m : ConsensusMonitor)
    → is_empty k ≡ false
    → count_of k (process_signers now signers m).qc_signatures
      ≡ count_of k m.qc_signatures + occurrences k signers
unfolding process_signers process_signer occurrences
count_of-process_signers now k [] m h = ground arith
count_of-process_signers now k (s ∷ signers) m h = ground (
  arith,
  count_of-process_signers now k signers (process_signer now s m) h,
  count_of-increment k s m.qc_signatures,
)

process_timeout_certificate_rest :
    (now : ℕ) (proposer : Bytes) (tc : Option (Option (List Bytes))) (m : ConsensusMonitor)
    → (process_timeout_certificate now proposer tc m).0.qc_signatures ≡ m.qc_signatures
unfolding process_timeout_certificate process_tc
process_timeout_certificate_rest now proposer none m = refl
process_timeout_certificate_rest now proposer (some none) m = refl
process_timeout_certificate_rest now proposer (some (some timeouts)) m =
    (process_timeouts_rest now timeouts (record m {
      verification_stats = record m.verification_stats {
        tcs_processed = m.verification_stats.tcs_processed + 1;
      };
    })).1

-- Processing a block adds, to the count of every validator with a name, its occurrences among
-- the signers of the QC.
pub count_of-process_block :
    (now : ℕ) (k : Bytes) (qc : QcEvidence) (block : ConsensusBlockMessage) (m : ConsensusMonitor)
    → is_empty k ≡ false
    → block.qc ≡ some qc
    → count_of k (process_block now block m).0.qc_signatures
      ≡ count_of k m.qc_signatures + occurrences k qc.signers
unfolding process_block process_evidence process_qc add_qc_window_entry
count_of-process_block now k qc block m named h =
    let (m1, mapped) = get_validator_for_signer now block.proposer m in
    let m2 = (process_round (int64_of block.round) m1).0 in
    let proposer = if is_empty mapped then block.proposer else mapped in
    let m3 = (process_qc now qc m2).0 in
    rw h (
      ap (count_of k) (process_timeout_certificate_rest now proposer block.tc m3)
      ∙ count_of-process_signers now k qc.signers m2 named
      ∙ ap (λ c. count_of k c + occurrences k qc.signers)
          ((process_round-SameMaps (int64_of block.round) m1).qc_counts
            ∙ (get_validator_for_signer-SameMaps now block.proposer m).qc_counts))
