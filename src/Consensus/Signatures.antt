-- ===== src/Consensus/Signatures.antt =====
-- The counts of QC signatures and TC votes of internal/monitors/consensus_monitor.go, their
-- last-seen times, and `trimStaleValidators`.
use mathlib.Core.List.{lookup}
use hyperliquid_exporter.Base.Dict.{
  insert, delete, Distinct, lookup-insert, lookup-delete, insert-Distinct, delete-Distinct,
}
use hyperliquid_exporter.Consensus.{ConsensusMonitor, is_empty, nanoseconds_per_hour}
use hyperliquid_exporter.Consensus.Blocks.{
  increment, process_signer, process_signers, process_timeouts, trim_stale,
}
use hyperliquid_exporter.Base.{
  ℕ, ◌+◌, ◌≡◌, refl, inl, inr, Bool, true, false, ◌||◌, none, some, List, [], ◌∷◌, arith, ltb,
  if◌then◌else◌, Bool-cases, Option-cases, Bytes, bytes_discrete, has, ite,
}

unfoldable pub count_of : Bytes → List (Bytes × ℕ) → ℕ
count_of k m = elim (lookup bytes_discrete k m) [ none ↦ 0 | some n ↦ n ]

-- How often a validator stands in a list of signers.
unfoldable pub occurrences : Bytes → List Bytes → ℕ
occurrences k [] = 0
occurrences k (j ∷ l) = ite (bytes_discrete j k) 1 0 + occurrences k l

pub count_of-increment :
    (k j : Bytes) (m : List (Bytes × ℕ))
    → count_of k (increment j m) ≡ ite (bytes_discrete j k) 1 0 + count_of k m
unfolding count_of increment
count_of-increment k j m = ground (
  arith,
  lookup-insert bytes_discrete k j (elim (lookup bytes_discrete j m) [ none ↦ 1 | some n ↦ n + 1 ])
      m,
  Option-cases (lookup bytes_discrete j m),
  Option-cases (lookup bytes_discrete k m),
)

pub has-increment :
    (k j : Bytes) (m : List (Bytes × ℕ))
    → has (lookup bytes_discrete k (increment j m))
      ≡ ite (bytes_discrete j k) true (has (lookup bytes_discrete k m))
unfolding increment has
has-increment k j m = ground (
  arith,
  lookup-insert bytes_discrete k j (elim (lookup bytes_discrete j m) [ none ↦ 1 | some n ↦ n + 1 ])
      m,
)

-- A count map and its last-seen map: the same keys, and none twice.
pub record Tied (seen counts : List (Bytes × ℕ)) : Type 0 where
  pub seen_distinct : Distinct bytes_discrete seen
  pub counts_distinct : Distinct bytes_discrete counts
  pub same_keys :
      (k : Bytes) → has (lookup bytes_discrete k seen) ≡ has (lookup bytes_discrete k counts)

Tied-increment :
    (k : Bytes) (now : ℕ) (seen counts : List (Bytes × ℕ))
    → Tied seen counts
    → Tied (insert bytes_discrete k now seen) (increment k counts)
unfolding increment has
Tied-increment k now seen counts t =
    let n : ℕ = elim (lookup bytes_discrete k counts) [ none ↦ 1 | some n ↦ n + 1 ] in
    record {
      seen_distinct = insert-Distinct bytes_discrete k now seen t.seen_distinct;
      counts_distinct = insert-Distinct bytes_discrete k n counts t.counts_distinct;
      same_keys = λ j. ground (
        arith,
        lookup-insert bytes_discrete j k now seen,
        lookup-insert bytes_discrete j k n counts,
        t.same_keys j,
      );
    }

-- A walk has a stale time for the key.
unfoldable pub expired : ℕ → Bytes → List (Bytes × ℕ) → Bool
expired now k [] = false
expired now k ((v, t) ∷ walk) =
    ite (bytes_discrete v k) (ltb (t + nanoseconds_per_hour) now) false || expired now k walk

pub lookup-trim_stale :
    (now : ℕ) (k : Bytes) (walk seen counts : List (Bytes × ℕ))
    → (lookup bytes_discrete k (trim_stale now walk (seen, counts)).0
        ≡ (if expired now k walk then none else lookup bytes_discrete k seen))
      × (lookup bytes_discrete k (trim_stale now walk (seen, counts)).1
          ≡ (if expired now k walk then none else lookup bytes_discrete k counts))
unfolding trim_stale expired
lookup-trim_stale now k [] seen counts = (refl, refl)
lookup-trim_stale now k ((v, t) ∷ walk) seen counts =
    elim (Bool-cases (ltb (t + nanoseconds_per_hour) now)) [
      | inl h ↦ ground (
        arith,
        lookup-trim_stale now k walk (delete bytes_discrete v seen)
            (delete bytes_discrete v counts),
        lookup-delete bytes_discrete k v seen,
        lookup-delete bytes_discrete k v counts,
      )
      | inr h ↦ ground (arith, lookup-trim_stale now k walk seen counts)
    ]

Distinct-trim_stale :
    (now : ℕ) (walk seen counts : List (Bytes × ℕ))
    → Distinct bytes_discrete seen
    → Distinct bytes_discrete counts
    → Distinct bytes_discrete (trim_stale now walk (seen, counts)).0
      × Distinct bytes_discrete (trim_stale now walk (seen, counts)).1
unfolding trim_stale
Distinct-trim_stale now [] seen counts d e = (d, e)
Distinct-trim_stale now ((v, t) ∷ walk) seen counts d e =
    elim (Bool-cases (ltb (t + nanoseconds_per_hour) now)) [
      | inl h ↦
          rw (h, Distinct)
            (Distinct-trim_stale now walk (delete bytes_discrete v seen)
              (delete bytes_discrete v counts) (delete-Distinct bytes_discrete v seen d)
              (delete-Distinct bytes_discrete v counts e))
      | inr h ↦ rw (h, Distinct) (Distinct-trim_stale now walk seen counts d e)
    ]

pub Tied-trim_stale :
    (now : ℕ) (walk seen counts : List (Bytes × ℕ))
    → Tied seen counts
    → Tied (trim_stale now walk (seen, counts)).0 (trim_stale now walk (seen, counts)).1
unfolding has
Tied-trim_stale now walk seen counts t =
    let (d, e) = Distinct-trim_stale now walk seen counts t.seen_distinct t.counts_distinct in
    record {
      seen_distinct = d;
      counts_distinct = e;
      same_keys = λ k. ground (arith, lookup-trim_stale now k walk seen counts, t.same_keys k);
    }

-- Both pairs of maps are tied.
pub record IsConsistent (m : ConsensusMonitor) : Type 0 where
  pub qc : Tied m.qc_last_seen m.qc_signatures
  pub tc : Tied m.tc_last_seen m.tc_votes

pub process_signers-Tied :
    (now : ℕ) (signers : List Bytes) (m : ConsensusMonitor)
    → Tied m.qc_last_seen m.qc_signatures
    → Tied
        (process_signers now signers m).qc_last_seen
        (process_signers now signers m).qc_signatures
unfolding process_signers process_signer
process_signers-Tied now [] m t = t
process_signers-Tied now (s ∷ signers) m t = elim (Bool-cases (is_empty s)) [
  | inl h ↦ process_signers-Tied now signers (process_signer now s m) (rw (h, process_signer) t)
  | inr h ↦
      process_signers-Tied now signers (process_signer now s m)
        (rw (h, process_signer) (Tied-increment s now m.qc_last_seen m.qc_signatures t))
]

-- The loop over the signers leaves the rest of the state.
pub process_signers_rest :
    (now : ℕ) (signers : List Bytes) (m : ConsensusMonitor)
    → ((process_signers now signers m).tc_last_seen ≡ m.tc_last_seen)
      × ((process_signers now signers m).tc_votes ≡ m.tc_votes)
unfolding process_signers process_signer
process_signers_rest now [] m = (refl, refl)
process_signers_rest now (s ∷ signers) m =
    ground (arith, process_signers_rest now signers (process_signer now s m))

pub process_timeouts-Tied :
    (now : ℕ) (timeouts : List Bytes) (m : ConsensusMonitor)
    → Tied m.tc_last_seen m.tc_votes
    → Tied (process_timeouts now timeouts m).tc_last_seen (process_timeouts now timeouts m).tc_votes
unfolding process_timeouts
process_timeouts-Tied now [] m t = t
process_timeouts-Tied now (v ∷ timeouts) m t = elim (Bool-cases (is_empty v)) [
  | inl h ↦ rw (h, process_timeouts) (process_timeouts-Tied now timeouts m t)
  | inr h ↦
      rw (h, process_timeouts)
        (process_timeouts-Tied now timeouts
          (record m {
            tc_votes = increment v m.tc_votes;
            tc_last_seen = insert bytes_discrete v now m.tc_last_seen;
          })
          (Tied-increment v now m.tc_last_seen m.tc_votes t))
]

pub process_timeouts_rest :
    (now : ℕ) (timeouts : List Bytes) (m : ConsensusMonitor)
    → ((process_timeouts now timeouts m).qc_last_seen ≡ m.qc_last_seen)
      × ((process_timeouts now timeouts m).qc_signatures ≡ m.qc_signatures)
unfolding process_timeouts
process_timeouts_rest now [] m = (refl, refl)
process_timeouts_rest now (v ∷ timeouts) m = ground (
  arith,
  process_timeouts_rest now timeouts m,
  process_timeouts_rest now timeouts (record m {
    tc_votes = increment v m.tc_votes;
    tc_last_seen = insert bytes_discrete v now m.tc_last_seen;
  }),
)
