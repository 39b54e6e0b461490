-- ===== src/ValidatorApi.antt =====
-- internal/monitors/validator_api_monitor.go: `updateValidatorMetrics`, which takes the summaries of
-- the client (Api.antt), registers signers, addresses and infos, and sets the gauges (Gauges.antt).
-- `F` is the type of float64, with the value of a number and an addition, of which nothing is
-- assumed.
pub mod Stakes
mod Tests
use hyperliquid_exporter.Addresses.{AddressCache, register_full_address}
use hyperliquid_exporter.Api.{ValidatorSummary, Resolver, ApiError, get_validator_summaries}
use hyperliquid_exporter.Base.Int.{pos}
use hyperliquid_exporter.Gauges.{
  Gauges, Labels, float, int, set_current, set_total_stake, set_validator_stake,
  set_validator_jailed_status, set_validator_active_status,
}
use hyperliquid_exporter.Lru.{LruCache, set}
use hyperliquid_exporter.Base.{
  ℕ, zero, suc, ◌+◌, ◌-◌, ◌*◌, ◌%◌, ◌^◌, ◌/◌, ◌≤◌, ◌<◌, ◌≡◌, refl, sym, ap, ◌∙◌, fun_ext, ◌≢◌, ◌↔◌,
  ◌⊎◌, inl, inr, Bool, true, false, not, ◌&&◌, ◌||◌, Option, none, some, List, [], ◌∷◌, ◌++◌, map,
  take, drop, arith, ltb, leb, ◌==◌, if◌then◌else◌, ==_iff, Bool-cases, Option-cases, Bytes, codes,
  bytes_discrete, length, All, has, List-cases, keep, ite, dec_lt, dec_le, ℕ_discrete, if_pos,
  if_neg,
}

-- The sums of the loop.
pub record Totals (F : Type 0) : Type 0 where
  pub total_stake : F
  pub jailed_stake : F
  pub not_jailed_stake : F
  pub active_stake : F
  pub inactive_stake : F

-- What the update changes: the signer map, the infos by validator, the addresses and the gauges.
pub record Published (F : Type 0) : Type 0 where
  pub signer_map : LruCache Bytes
  pub validator_info : LruCache (Bytes × Bytes)
  pub addresses : AddressCache
  pub gauges : Gauges F

abbrev pub no_stake : {F : Type 0} → (ℕ → F) → Totals F
no_stake of_nat = record {
  total_stake = of_nat 0;
  jailed_stake = of_nat 0;
  not_jailed_stake = of_nat 0;
  active_stake = of_nat 0;
  inactive_stake = of_nat 0;
}

unfoldable pub add_stake : {F : Type 0} → (F → F → F) → ValidatorSummary F → Totals F → Totals F
add_stake plus s t = record {
  total_stake = plus t.total_stake s.stake;
  jailed_stake = if s.is_jailed then plus t.jailed_stake s.stake else t.jailed_stake;
  not_jailed_stake = if s.is_jailed then t.not_jailed_stake else plus t.not_jailed_stake s.stake;
  active_stake = if s.is_active then plus t.active_stake s.stake else t.active_stake;
  inactive_stake = if s.is_active then t.inactive_stake else plus t.inactive_stake s.stake;
}

-- `metrics.SetTotalStake` to `metrics.SetValidatorCount`
unfoldable pub set_totals : {F : Type 0} → Totals F → ℕ → Gauges F → Gauges F
set_totals t count g = set_current (codes "HLConsensusValidatorCountGauge") (int (pos count)) (
    set_current (codes "HLConsensusInactiveStakeGauge") (float t.inactive_stake) (
      set_current (codes "HLConsensusActiveStakeGauge") (float t.active_stake) (
        set_current (codes "HLConsensusNotJailedStakeGauge") (float t.not_jailed_stake) (
          set_current (codes "HLConsensusJailedStakeGauge") (float t.jailed_stake)
            (set_total_stake t.total_stake g)))))

module _ {F : Type 0} (of_nat : ℕ → F) (plus : F → F → F) (lower : Bytes → Bytes)
    (common : Labels) where
  -- The gauges of one validator.
  unfoldable pub set_validator : ValidatorSummary F → Gauges F → Gauges F
  set_validator s g =
      set_validator_active_status common s.validator s.signer s.name
        (of_nat (if s.is_active then 1 else 0))
        (set_validator_jailed_status common s.validator s.signer s.name
          (of_nat (if s.is_jailed then 1 else 0))
          (set_validator_stake s.validator s.signer s.name s.stake g))

  unfoldable pub publish_summary : ℕ → ValidatorSummary F → Published F → Published F
  publish_summary now s p = record {
    signer_map = set now (lower s.signer) (lower s.validator) p.signer_map;
    validator_info = set now (lower s.validator) (lower s.signer, s.name) p.validator_info;
    addresses =
        register_full_address (lower s.signer)
          (register_full_address (lower s.validator) p.addresses);
    gauges = set_validator s p.gauges;
  }

  unfoldable pub publish_summaries :
      ℕ → List (ValidatorSummary F) → Published F × Totals F → Published F × Totals F
  publish_summaries now [] pt = pt
  publish_summaries now (s ∷ ss) (p, t) =
      publish_summaries now ss (publish_summary now s p, add_stake plus s t)

  unfoldable pub publish_all : ℕ → List (ValidatorSummary F) → Published F → Published F
  publish_all now summaries p =
      let (published, totals) = publish_summaries now summaries (p, no_stake of_nat) in
      record published { gauges = set_totals totals (length summaries) published.gauges }

  -- An error of the client is returned before anything is set.
  unfoldable pub update_validator_metrics :
      ℕ
      → ℕ
      → ApiError ⊎ List (ValidatorSummary F)
      → Resolver F
      → Published F
      → Resolver F × Published F × Option ApiError
  update_validator_metrics now later fetched r p =
      let (next, answer) = get_validator_summaries lower now later false fetched r in
      elim answer [
        | inl err ↦ (next, p, some err)
        | inr summaries ↦ (next, publish_all later summaries p, none)
      ]
