-- ===== src/Consensus/Rates.antt =====
-- The participation rates of internal/monitors/consensus_monitor.go: the counts over the QC
-- window, and the rates that `updateQCParticipationRates` sets.
use mathlib.Core.List.{
  lookup, Mem, mem-append_left, mem-append_right, mem-cons_self, mem-cons_of_mem,
}
use hyperliquid_exporter.Base.Dict.{Distinct, insert-Distinct}
use hyperliquid_exporter.Base.Lists.{All-append}
use hyperliquid_exporter.Consensus.{
  ConsensusMonitor, QcWindowEntry, Emission, qc_participation_rate, format_validator_address,
}
use hyperliquid_exporter.Consensus.Blocks.{
  increment, count_signers, count_window, rate_emissions, absent_emissions, window_rates,
  update_qc_participation_rates,
}
use hyperliquid_exporter.Consensus.Signatures.{count_of, count_of-increment, occurrences}
use hyperliquid_exporter.Base.{
  ℕ, ◌+◌, ◌≤◌, ◌<◌, ◌≡◌, refl, ap, inl, inr, none, some, List, [], ◌∷◌, arith, Option-cases, Bytes,
  bytes_discrete, length, All, ite,
}

-- The number of times that a validator signed in the window.
unfoldable pub window_occurrences : Bytes → List QcWindowEntry → ℕ
window_occurrences k [] = 0
window_occurrences k (e ∷ window) = occurrences k e.signers + window_occurrences k window

count_of-count_signers :
    (k : Bytes) (signers : List Bytes) (counts : List (Bytes × ℕ))
    → count_of k (count_signers signers counts) ≡ count_of k counts + occurrences k signers
unfolding count_signers occurrences
count_of-count_signers k [] counts = omega arith
count_of-count_signers k (s ∷ signers) counts =
    omega
      (arith, count_of-count_signers k signers (increment s counts), count_of-increment k s counts)

count_of-count_window_from :
    (k : Bytes) (window : List QcWindowEntry) (counts : List (Bytes × ℕ))
    → count_of k (count_window window counts) ≡ count_of k counts + window_occurrences k window
unfolding count_window window_occurrences
count_of-count_window_from k [] counts = omega arith
count_of-count_window_from k (e ∷ window) counts = omega (
  arith,
  count_of-count_window_from k window (count_signers e.signers counts),
  count_of-count_signers k e.signers counts,
)

-- No signer stands twice in a list.
unfoldable pub NoRepeat : List Bytes → Type 0
NoRepeat [] = Unit
NoRepeat (s ∷ signers) = (occurrences s signers ≡ 0) × NoRepeat signers

occurrences-le-one :
    (k : Bytes) (signers : List Bytes) → NoRepeat signers → occurrences k signers ≤ 1
unfolding occurrences NoRepeat
occurrences-le-one k [] n = omega arith
occurrences-le-one k (s ∷ signers) n = elim (bytes_discrete s k) [
  | yes e ↦ ground (arith, n.0, ap (λ j. occurrences j signers) e)
  | no e ↦ ground (arith, occurrences-le-one k signers n.1)
]

window_occurrences-le :
    (k : Bytes) (window : List QcWindowEntry)
    → All (λ e. NoRepeat e.signers) window
    → window_occurrences k window ≤ length window
unfolding window_occurrences
window_occurrences-le k [] n = omega arith
window_occurrences-le k (e ∷ window) n =
    omega (arith, occurrences-le-one k e.signers n.0, window_occurrences-le k window n.1)

-- An emission of a rate between 0 and 100 percent, of a total that is not 0.
abbrev pub IsRate : Emission → Type 0
IsRate (qc_participation_rate v count total) = (count ≤ total) × (0 < total)
IsRate _ = ⊥

count_signers-Distinct :
    (signers : List Bytes) (counts : List (Bytes × ℕ))
    → Distinct bytes_discrete counts
    → Distinct bytes_discrete (count_signers signers counts)
unfolding count_signers increment
count_signers-Distinct [] counts d = d
count_signers-Distinct (s ∷ signers) counts d =
    count_signers-Distinct signers (increment s counts) (
      insert-Distinct bytes_discrete s
        (elim (lookup bytes_discrete s counts) [ none ↦ 1 | some n ↦ n + 1 ]) counts d)

count_window-Distinct :
    (window : List QcWindowEntry) (counts : List (Bytes × ℕ))
    → Distinct bytes_discrete counts
    → Distinct bytes_discrete (count_window window counts)
unfolding count_window
count_window-Distinct [] counts d = d
count_window-Distinct (e ∷ window) counts d =
    count_window-Distinct window (count_signers e.signers counts)
      (count_signers-Distinct e.signers counts d)

count_of-head :
    (k v : Bytes) (c : ℕ) (m : List (Bytes × ℕ))
    → count_of k ((v, c) ∷ m) ≡ ite (bytes_discrete k v) c (count_of k m)
unfolding count_of lookup
count_of-head k v c m = ground arith

count_of_absent :
    (k : Bytes) (m : List (Bytes × ℕ)) → lookup bytes_discrete k m ≡ none → count_of k m ≡ 0
unfolding count_of
count_of_absent k m h = rw (h, count_of) refl

rate_emissions-IsRate :
    (total : ℕ) (m : List (Bytes × ℕ))
    → 0 < total
    → Distinct bytes_discrete m
    → ((k : Bytes) → count_of k m ≤ total)
    → All IsRate (rate_emissions total m)
unfolding rate_emissions
rate_emissions-IsRate total [] h d bound = tt
rate_emissions-IsRate total ((v, c) ∷ m) h d bound = (
  (ground (arith, bound v, count_of-head v v c m), h),
  rate_emissions-IsRate total m h d.1 (λ k. elim (bytes_discrete k v) [
    | yes e ↦ ground (arith, ap (λ j. count_of j m) e, count_of_absent v m d.0)
    | no e ↦ ground (arith, bound k, count_of-head k v c m)
  ]),
)

absent_emissions-IsRate :
    (total : ℕ) (counts known : List (Bytes × ℕ))
    → 0 < total
    → All IsRate (absent_emissions total counts known)
unfolding absent_emissions
absent_emissions-IsRate total counts [] h = tt
absent_emissions-IsRate total counts ((v, n) ∷ known) h =
    elim (Option-cases (lookup bytes_discrete v counts)) [
      | inl none_found ↦
          rw none_found ((omega arith, h), absent_emissions-IsRate total counts known h)
      | inr (c, found) ↦ rw found (absent_emissions-IsRate total counts known h)
    ]

count_of-window :
    (k : Bytes) (window : List QcWindowEntry)
    → count_of k (count_window window []) ≡ window_occurrences k window
unfolding count_of lookup
count_of-window k window = omega (arith, count_of-count_window_from k window [])

window_rates-IsRate :
    (window : List QcWindowEntry) (known : List (Bytes × ℕ))
    → All (λ e. NoRepeat e.signers) window
    → All IsRate (window_rates window known)
unfolding window_rates
window_rates-IsRate [] known n = tt
window_rates-IsRate (e ∷ window) known n =
    let l : List QcWindowEntry = e ∷ window in
    let counts = count_window l [] in
    let some_total : 0 < length l = omega arith in
    All-append IsRate (rate_emissions (length l) counts) (absent_emissions (length l) counts known)
      (rate_emissions-IsRate (length l) counts some_total (count_window-Distinct l [] tt)
        (λ k. omega (arith, count_of-window k l, window_occurrences-le k l n)))
      (absent_emissions-IsRate (length l) counts known some_total)

-- If no list of signers in the window repeats a signer, every rate that
-- `updateQCParticipationRates` sets is between 0 and 100 percent, and no division is by 0.
pub update_qc_participation_rates-IsRate :
    (m : ConsensusMonitor)
    → All (λ e. NoRepeat e.signers) m.qc_window
    → All IsRate (update_qc_participation_rates m)
unfolding update_qc_participation_rates
update_qc_participation_rates-IsRate m n = window_rates-IsRate m.qc_window m.qc_signatures n

rate_emissions-reports :
    (total : ℕ) (k : Bytes) (c : ℕ) (m : List (Bytes × ℕ))
    → lookup bytes_discrete k m ≡ some c
    → Mem (qc_participation_rate (format_validator_address k) c total) (rate_emissions total m)
unfolding rate_emissions lookup
rate_emissions-reports total k c [] h = cc
rate_emissions-reports total k c ((v, n) ∷ m) h = elim (bytes_discrete k v) [
  | yes e ↦ let same : n ≡ c = ground arith in rw (e, ← same) mem-cons_self
  | no e ↦ mem-cons_of_mem _ (rate_emissions-reports total k c m (ground arith))
]

absent_emissions-reports :
    (total : ℕ) (counts : List (Bytes × ℕ)) (k : Bytes) (n : ℕ) (known : List (Bytes × ℕ))
    → lookup bytes_discrete k counts ≡ none
    → lookup bytes_discrete k known ≡ some n
    → Mem
        (qc_participation_rate (format_validator_address k) 0 total)
        (absent_emissions total counts known)
unfolding absent_emissions lookup
absent_emissions-reports total counts k n [] absent h = cc
absent_emissions-reports total counts k n ((v, j) ∷ known) absent h = elim (bytes_discrete k v) [
  | yes e ↦
      let gone : lookup bytes_discrete v counts ≡ none = ground (arith, absent, e) in
      rw (e, gone) mem-cons_self
  | no e ↦
      mem-append_right _ (absent_emissions-reports total counts k n known absent (ground arith))
]

window_rates-reports :
    (k : Bytes) (n : ℕ) (window : List QcWindowEntry) (known : List (Bytes × ℕ))
    → lookup bytes_discrete k known ≡ some n
    → 0 < length window
    → Mem
        (qc_participation_rate
          (format_validator_address k)
          (window_occurrences k window)
          (length window))
        (window_rates window known)
unfolding window_rates count_of
window_rates-reports k n [] known h some_entry = absurd (omega (arith, some_entry))
window_rates-reports k n (e ∷ window) known h some_entry =
    let l : List QcWindowEntry = e ∷ window in
    let counts = count_window l [] in
    elim (Option-cases (lookup bytes_discrete k counts)) [
      | inl absent ↦
          let zero_count : window_occurrences k l ≡ 0 = ground (arith, count_of-window k l) in
          rw zero_count (
            mem-append_right (rate_emissions (length l) counts)
              (absent_emissions-reports (length l) counts k n known absent h))
      | inr (c, found) ↦
          let same : window_occurrences k l ≡ c = ground (arith, count_of-window k l) in
          rw same (
            mem-append_left (absent_emissions (length l) counts known)
              (rate_emissions-reports (length l) k c counts found))
    ]

-- For every validator with a signature count, `updateQCParticipationRates` sets the rate of the
-- window's blocks that it signed, 0 included, if the window holds a block.
pub update_qc_participation_rates-reports :
    (k : Bytes) (n : ℕ) (m : ConsensusMonitor)
    → lookup bytes_discrete k m.qc_signatures ≡ some n
    → 0 < length m.qc_window
    → Mem
        (qc_participation_rate
          (format_validator_address k)
          (window_occurrences k m.qc_window)
          (length m.qc_window))
        (update_qc_participation_rates m)
unfolding update_qc_participation_rates
update_qc_participation_rates-reports k n m = window_rates-reports k n m.qc_window m.qc_signatures
