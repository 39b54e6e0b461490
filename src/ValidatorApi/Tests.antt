-- ===== src/ValidatorApi/Tests.antt =====
-- Updates of the validator metrics, and the theorem at such an input.
use mathlib.Core.List.{lookup}
use hyperliquid_exporter.Base.Dict.{insert, delete}
use hyperliquid_exporter.Base.Int.{pos}
use hyperliquid_exporter.Addresses.{register_full_address}
use hyperliquid_exporter.Api.{ValidatorSummary, exhausted, new_resolver, get_validator_summaries}
use hyperliquid_exporter.Gauges.{
  float, int, set_labeled, set_current, set_total_stake, set_validator_stake,
  set_validator_jailed_status, set_validator_active_status, validator_labels,
}
use hyperliquid_exporter.Gauges.Series.{shown}
use hyperliquid_exporter.Lru.{new_lru_cache, deref, get, set, push_front, update, evict}
use hyperliquid_exporter.ValidatorApi.{
  Published, add_stake, set_validator, publish_summary, publish_summaries, set_totals, publish_all,
  update_validator_metrics,
}
use hyperliquid_exporter.ValidatorApi.Stakes.{
  stake_from, last_stake, current, stake_gauge, publish_all-stakes,
}
use hyperliquid_exporter.Base.{
  ℕ, ◌+◌, ◌≡◌, refl, inl, Bool, true, false, not, some, List, [], ◌∷◌, Bytes, codes, bytes_discrete,
  ℕ_discrete,
}

program : Unit {0}
unfolding lookup insert delete register_full_address new_resolver get_validator_summaries
    set_labeled set_current set_total_stake set_validator_stake set_validator_jailed_status
    set_validator_active_status shown new_lru_cache deref get set push_front update evict add_stake
    set_validator publish_summary publish_summaries set_totals publish_all update_validator_metrics
    stake_from last_stake current bytes_discrete ℕ_discrete
program = tt

abbrev summary : Bytes → ℕ → Bool → ValidatorSummary ℕ
summary validator stake jailed = record {
  validator = validator;
  signer = codes "s";
  name = codes "n";
  description = [];
  n_recent_blocks = pos 4;
  stake = stake;
  is_jailed = jailed;
  unjailable_after = pos 0;
  is_active = not jailed;
}

abbrev summaries : List (ValidatorSummary ℕ)
summaries = summary (codes "v") 70 false ∷ summary (codes "w") 30 true ∷ []

abbrev before : Published ℕ
before = record {
  signer_map = new_lru_cache 5000 10;
  validator_info = new_lru_cache 5000 10;
  addresses = [];
  gauges =
      set_validator_stake (codes "u") (codes "s") (codes "n") 5
        (record { current_values = []; labeled_values = [] });
}

abbrev lower : Bytes → Bytes
lower bs = bs

abbrev of_nat : ℕ → ℕ
of_nat n = n

abbrev plus : ℕ → ℕ → ℕ
plus a b = a + b

refused :
    (update_validator_metrics of_nat plus lower [] 4 5
      (inl exhausted)
      (new_resolver (codes "mainnet"))
      before).2
    ≡ some exhausted
unfolding program
refused = refl

-- The validator that the summaries leave out keeps its stake.
publish_all-stakes_example :
    let g = (publish_all of_nat plus lower [] 5 summaries before).gauges in
    (shown stake_gauge (codes "u") g
      ≡ some (record { value = 5; labels = validator_labels (codes "u") (codes "s") (codes "n") }))
    × ((current (codes "HLConsensusTotalStakeGauge") g ≡ some (float 100))
        × (current (codes "HLConsensusJailedStakeGauge") g ≡ some (float 30))
        × (current (codes "HLConsensusNotJailedStakeGauge") g ≡ some (float 70))
        × (current (codes "HLConsensusActiveStakeGauge") g ≡ some (float 70))
        × (current (codes "HLConsensusInactiveStakeGauge") g ≡ some (float 30))
        × (current (codes "HLConsensusValidatorCountGauge") g ≡ some (int (pos 2))))
unfolding program
publish_all-stakes_example = publish_all-stakes of_nat plus lower [] 5 (codes "u") summaries before
