-- ===== src/Api/Tests.antt =====
-- Calls of the validator client, and the theorems at such inputs.
use mathlib.Core.List.{lookup}
use hyperliquid_exporter.Base.Dict.{insert}
use hyperliquid_exporter.Base.Int.{pos}
use hyperliquid_exporter.Api.{
  ValidatorSummary, Resolver, second, response, ApiError, exhausted, Client, decode, after_reply,
  backoff, try_from, make_api_call, new_resolver, copy_from, get_signer_to_validator_mapping,
  rebuild, update_validator_cache, get_validator_by_signer, get_validator_by_address,
  get_validator_summaries,
}
use hyperliquid_exporter.Api.Cache.{
  last_with, signer_summary, is_filled, useful, answered, serve, Request,
  update_validator_cache-lookups, get_validator_summaries-error_iff, serve-answered,
}
use hyperliquid_exporter.Api.Retries.{
  first_answer, up_to_answer, replies_of, make_api_call-bounded, make_api_call-first, first_answer,
  up_to_answer, replies_of,
}
use hyperliquid_exporter.Base.{
  ℕ, zero, suc, ◌+◌, ◌*◌, ◌≤◌, ◌≡◌, refl, ◌↔◌, ◌⊎◌, inl, inr, Bool, true, false, none, some, List,
  [], ◌∷◌, ltb, if◌then◌else◌, Bytes, codes, bytes_discrete, length, All, ℕ_discrete,
}

program : Unit {0}
unfolding lookup insert decode after_reply backoff try_from make_api_call new_resolver copy_from
    get_signer_to_validator_mapping rebuild update_validator_cache get_validator_by_signer
    get_validator_by_address get_validator_summaries last_with signer_summary is_filled useful serve
    first_answer up_to_answer replies_of bytes_discrete ℕ_discrete
program = tt

-- Letters of the first half of a small alphabet are the capitals of the second.
abbrev lower : Bytes → Bytes
lower [] = []
lower (b ∷ bs) = (if ltb b 10 then b + 10 else b) ∷ lower bs

abbrev summary : Bytes → Bytes → ValidatorSummary ℕ
summary validator signer = record {
  validator = validator;
  signer = signer;
  name = [];
  description = [];
  n_recent_blocks = pos 4;
  stake = 100;
  is_jailed = false;
  unjailable_after = pos 0;
  is_active = true;
}

abbrev one : ValidatorSummary ℕ
one = summary (1 ∷ []) (2 ∷ [])

abbrev two : ValidatorSummary ℕ
two = summary (3 ∷ []) (14 ∷ [])

abbrev filled : Resolver ℕ
filled = update_validator_cache lower 5 (one ∷ two ∷ []) (new_resolver (codes "mainnet"))

by_signer : get_validator_by_signer lower (4 ∷ []) filled ≡ some two
unfolding program
by_signer = refl

update_validator_cache-lookups_example :
    (get_validator_by_address lower (13 ∷ []) filled ≡ some two)
    × (get_validator_by_signer lower (13 ∷ []) filled ≡ none)
    × (lookup bytes_discrete (13 ∷ []) (get_signer_to_validator_mapping filled) ≡ none)
unfolding program
update_validator_cache-lookups_example =
    update_validator_cache-lookups lower 5 (one ∷ two ∷ []) (new_resolver (codes "mainnet"))
      (13 ∷ [])

abbrev refused : ApiError ⊎ List (ValidatorSummary ℕ)
refused = inl exhausted

get_validator_summaries-error_iff_example :
    ((get_validator_summaries lower 90 91 true refused filled).1 ≡ inl exhausted)
    ↔ ((filled.validator_cache.summaries ≡ []) × (refused ≡ inl exhausted))
get_validator_summaries-error_iff_example =
    get_validator_summaries-error_iff lower 90 91 true refused exhausted filled

abbrev request : ℕ → ApiError ⊎ List (ValidatorSummary ℕ) → Request ℕ
request now fetched = record { now = now; later = now + 1; force_refresh = true; fetched = fetched }

serve-answered_example :
    All
      (λ a. answered lower a ≡ true)
      (serve lower (request 7 (inl exhausted) ∷ request 9 (inr (two ∷ [])) ∷ []) filled).1
unfolding program
serve-answered_example =
    serve-answered lower (request 7 (inl exhausted) ∷ request 9 (inr (two ∷ [])) ∷ []) filled
      (refl, (refl, tt)) refl

-- A server that is busy first and then replies.
abbrev client : Client
client zero payload = response 503 (some [])
client (suc k) payload = response 200 (some (7 ∷ []))

abbrev calm : ℕ → Bool
calm k = false

make_api_call-bounded_example :
    (length (make_api_call (λ b. some b) client calm (some (1 ∷ []))).sent ≤ 3)
    × ((make_api_call (λ b. some b) client calm (some (1 ∷ []))).waited ≤ 5 * second)
make_api_call-bounded_example = make_api_call-bounded (λ b. some b) client calm (some (1 ∷ []))

make_api_call-first_example :
    ((make_api_call (λ b. some b) client calm (some (1 ∷ []))).result ≡ inr (7 ∷ []))
    × (length (make_api_call (λ b. some b) client calm (some (1 ∷ []))).sent ≡ 2)
unfolding program
make_api_call-first_example = make_api_call-first (λ b. some b) client calm (1 ∷ []) (λ k. refl)
