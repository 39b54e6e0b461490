-- ===== src/ValidatorApi/Stakes.antt =====
-- What `updateValidatorMetrics` of internal/monitors/validator_api_monitor.go reports of the stakes.
use mathlib.Core.List.{lookup}
use hyperliquid_exporter.Base.Dict.{lookup-insert}
use hyperliquid_exporter.Base.Int.{pos}
use hyperliquid_exporter.Api.{ValidatorSummary}
use hyperliquid_exporter.Gauges.{
  Gauges, Number, float, int, Labels, LabeledValue, validator_labels, set_labeled, set_current,
  set_total_stake, set_validator_stake, set_validator_jailed_status, set_validator_active_status,
}
use hyperliquid_exporter.Gauges.Series.{shown, shown-set_labeled}
use hyperliquid_exporter.ValidatorApi.{
  Totals, Published, no_stake, add_stake, set_validator, publish_summary, publish_summaries,
  set_totals, publish_all,
}
use hyperliquid_exporter.Base.{
  ℕ, ◌≡◌, refl, ap, ◌∙◌, Bool, true, false, not, Option, some, List, [], ◌∷◌, ◌++◌, arith,
  if◌then◌else◌, Bytes, codes, bytes_discrete, ite, ℕ_discrete, length,
}

-- The stakes of the validators that pass a test, added up in the order of the summaries.
unfoldable pub stake_from :
    {F : Type 0} → (F → F → F) → (ValidatorSummary F → Bool) → F → List (ValidatorSummary F) → F
stake_from plus p acc [] = acc
stake_from plus p acc (s ∷ ss) = stake_from plus p (if p s then plus acc s.stake else acc) ss

-- The sums that five tests give.
abbrev AddedUp :
    {F : Type 0} → (F → F → F) → List (ValidatorSummary F) → Totals F → Totals F → Type 0
AddedUp plus ss t u =
    (u.total_stake ≡ stake_from plus (λ s. true) t.total_stake ss)
    × (u.jailed_stake ≡ stake_from plus (λ s. s.is_jailed) t.jailed_stake ss)
    × (u.not_jailed_stake ≡ stake_from plus (λ s. not s.is_jailed) t.not_jailed_stake ss)
    × (u.active_stake ≡ stake_from plus (λ s. s.is_active) t.active_stake ss)
    × (u.inactive_stake ≡ stake_from plus (λ s. not s.is_active) t.inactive_stake ss)

abbrev pub stake_gauge : Bytes
stake_gauge = codes "HLConsensusValidatorStakeGauge"

-- The stake that the gauge of the validators reports for an address after a list of summaries.
unfoldable pub last_stake :
    {F : Type 0}
    → Bytes
    → List (ValidatorSummary F)
    → Option (LabeledValue F)
    → Option (LabeledValue F)
last_stake key [] old = old
last_stake key (s ∷ ss) old = last_stake key ss (
    ite (bytes_discrete s.validator key)
      (some (record { value = s.stake; labels = validator_labels s.validator s.signer s.name }))
      old)

unfoldable apart : Bytes → Bytes → Bool
apart a b = ite (bytes_discrete a b) false true

shown-elsewhere :
    {F : Type 0}
    → (gauge key other other_key : Bytes) (value : F) (labels : Labels) (g : Gauges F)
    → apart other gauge ≡ true
    → shown gauge key (set_labeled other other_key value labels g) ≡ shown gauge key g
unfolding apart
shown-elsewhere gauge key other other_key value labels g h =
    ground (arith, h, shown-set_labeled gauge key other other_key value labels g)

shown-own :
    {F : Type 0}
    → (gauge key other_key : Bytes) (value : F) (labels : Labels) (g : Gauges F)
    → shown gauge key (set_labeled gauge other_key value labels g)
      ≡ ite
          (bytes_discrete other_key key)
          (some (record { value = value; labels = labels }))
          (shown gauge key g)
shown-own gauge key other_key value labels g =
    ground (arith, shown-set_labeled gauge key gauge other_key value labels g)

abbrev active_gauge : Bytes
active_gauge = codes "HLConsensusValidatorActiveStatus"

abbrev jailed_gauge : Bytes
jailed_gauge = codes "HLConsensusValidatorJailedStatus"

gauges_apart : (apart active_gauge stake_gauge ≡ true) × (apart jailed_gauge stake_gauge ≡ true)
unfolding apart bytes_discrete ℕ_discrete
gauges_apart = (refl, refl)

-- The plain value of a gauge.
unfoldable pub current : {F : Type 0} → Bytes → Gauges F → Option (Number F)
current gauge g = lookup bytes_discrete gauge g.current_values

current-set_current :
    {F : Type 0}
    → (gauge other : Bytes) (n : Number F) (g : Gauges F)
    → current gauge (set_current other n g)
      ≡ ite (bytes_discrete other gauge) (some n) (current gauge g)
unfolding current set_current
current-set_current gauge other n g = lookup-insert bytes_discrete gauge other n g.current_values

-- The plain gauges of an update.
abbrev Reports : {F : Type 0} → Totals F → ℕ → Gauges F → Type 0
Reports t count g =
    (current (codes "HLConsensusTotalStakeGauge") g ≡ some (float t.total_stake))
    × (current (codes "HLConsensusJailedStakeGauge") g ≡ some (float t.jailed_stake))
    × (current (codes "HLConsensusNotJailedStakeGauge") g ≡ some (float t.not_jailed_stake))
    × (current (codes "HLConsensusActiveStakeGauge") g ≡ some (float t.active_stake))
    × (current (codes "HLConsensusInactiveStakeGauge") g ≡ some (float t.inactive_stake))
    × (current (codes "HLConsensusValidatorCountGauge") g ≡ some (int (pos count)))

set_totals-Reports :
    {F : Type 0}
    → (t : Totals F) (count : ℕ) (g : Gauges F) → Reports t count (set_totals t count g)
unfolding set_totals set_total_stake bytes_discrete ℕ_discrete
set_totals-Reports t count g = (
  simp (current-set_current),
  simp (current-set_current),
  simp (current-set_current),
  simp (current-set_current),
  simp (current-set_current),
  simp (current-set_current),
)

shown-set_totals :
    {F : Type 0}
    → (key : Bytes) (t : Totals F) (count : ℕ) (g : Gauges F)
    → shown stake_gauge key (set_totals t count g) ≡ shown stake_gauge key g
unfolding set_totals set_total_stake set_current shown
shown-set_totals key t count g = refl

module _ {F : Type 0} (of_nat : ℕ → F) (plus : F → F → F) (lower : Bytes → Bytes)
    (common : Labels) where
  publish_summaries-AddedUp :
      (now : ℕ) (ss : List (ValidatorSummary F)) (p : Published F) (t : Totals F)
      → AddedUp plus ss t (publish_summaries of_nat plus lower common now ss (p, t)).1
  unfolding publish_summaries stake_from add_stake
  publish_summaries-AddedUp now [] p t = (refl, refl, refl, refl, refl)
  publish_summaries-AddedUp now (s ∷ ss) p t =
      let rest =
        publish_summaries-AddedUp now ss (publish_summary of_nat plus lower common now s p)
          (add_stake plus s t) in
      (rest.0, rest.1, ground (arith, rest.2), rest.3, ground (arith, rest.4))

  shown-set_validator :
      (key : Bytes) (s : ValidatorSummary F) (g : Gauges F)
      → shown stake_gauge key (set_validator of_nat plus lower common s g)
        ≡ ite
            (bytes_discrete s.validator key)
            (some
              (record { value = s.stake; labels = validator_labels s.validator s.signer s.name }))
            (shown stake_gauge key g)
  unfolding set_validator set_validator_active_status set_validator_jailed_status
      set_validator_stake
  shown-set_validator key s g =
      shown-elsewhere stake_gauge key active_gauge s.validator
        (of_nat (if s.is_active then 1 else 0))
        (validator_labels s.validator s.signer s.name ++ common) _ gauges_apart.0
      ∙ shown-elsewhere stake_gauge key jailed_gauge s.validator
          (of_nat (if s.is_jailed then 1 else 0))
          (validator_labels s.validator s.signer s.name ++ common) _ gauges_apart.1
      ∙ shown-own stake_gauge key s.validator s.stake (validator_labels s.validator s.signer s.name)
          g

  shown-publish_summaries :
      (now : ℕ) (key : Bytes) (ss : List (ValidatorSummary F)) (p : Published F) (t : Totals F)
      → shown stake_gauge key (publish_summaries of_nat plus lower common now ss (p, t)).0.gauges
        ≡ last_stake key ss (shown stake_gauge key p.gauges)
  unfolding publish_summaries last_stake publish_summary
  shown-publish_summaries now key [] p t = refl
  shown-publish_summaries now key (s ∷ ss) p t =
      shown-publish_summaries now key ss (publish_summary of_nat plus lower common now s p)
        (add_stake plus s t)
      ∙ ap (last_stake key ss) (shown-set_validator key s p.gauges)

  -- An update reports for every address the stake of its last summary, and goes on to report the
  -- old stake of an address that the summaries leave out; the five plain gauges report the stakes of
  -- all summaries, of the jailed, of the others, of the active and of the others, each added up
  -- from zero in the order of the summaries with whatever addition, and the count is the length.
  pub publish_all-stakes :
      (now : ℕ) (key : Bytes) (ss : List (ValidatorSummary F)) (p : Published F)
      → let g = (publish_all of_nat plus lower common now ss p).gauges in
        (shown stake_gauge key g ≡ last_stake key ss (shown stake_gauge key p.gauges))
        × Reports
            (record {
              total_stake = stake_from plus (λ s. true) (of_nat 0) ss;
              jailed_stake = stake_from plus (λ s. s.is_jailed) (of_nat 0) ss;
              not_jailed_stake = stake_from plus (λ s. not s.is_jailed) (of_nat 0) ss;
              active_stake = stake_from plus (λ s. s.is_active) (of_nat 0) ss;
              inactive_stake = stake_from plus (λ s. not s.is_active) (of_nat 0) ss;
            })
            (length ss)
            g
  unfolding publish_all
  publish_all-stakes now key ss p =
      let done = publish_summaries of_nat plus lower common now ss (p, no_stake of_nat) in
      let sums = publish_summaries-AddedUp now ss p (no_stake of_nat) in
      let plain = set_totals-Reports done.1 (length ss) done.0.gauges in
      (
        shown-set_totals key done.1 (length ss) done.0.gauges
            ∙ shown-publish_summaries now key ss p (no_stake of_nat),
        (
          plain.0 ∙ ap (λ x. some (float x)) sums.0,
          plain.1 ∙ ap (λ x. some (float x)) sums.1,
          plain.2 ∙ ap (λ x. some (float x)) sums.2,
          plain.3 ∙ ap (λ x. some (float x)) sums.3,
          plain.4 ∙ ap (λ x. some (float x)) sums.4,
          plain.5,
        ),
      )
