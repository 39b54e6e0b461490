-- ===== src/Api/Cache.antt =====
-- The lookups and the cache policy of internal/hyperliquid-api/resolver.go.
use mathlib.Core.List.{lookup}
use hyperliquid_exporter.Base.Dict.{insert, lookup-insert, Distinct, insert-Distinct}
use hyperliquid_exporter.Api.{
  ValidatorSummary, ValidatorCache, Resolver, ApiError, copy_from, get_signer_to_validator_mapping,
  rebuild, update_validator_cache, get_validator_by_signer, get_validator_by_address,
  get_validator_summaries,
}
use hyperliquid_exporter.Base.{
  ℕ, ◌≡◌, refl, ◌∙◌, ◌↔◌, ◌⊎◌, inl, inr, Bool, true, false, Option, none, some, List, [], ◌∷◌,
  arith, ltb, Option-cases, Bytes, bytes_discrete, length, All, List-cases, ite,
}

copy_from-lookup :
    (k : Bytes) (m old : List (Bytes × Bytes))
    → Distinct bytes_discrete m
    → lookup bytes_discrete k (copy_from m old)
      ≡ elim (lookup bytes_discrete k m) [ none ↦ lookup bytes_discrete k old | some v ↦ some v ]
unfolding copy_from lookup
copy_from-lookup k [] old d = refl
copy_from-lookup k ((j, v) ∷ m) old d = elim (bytes_discrete k j) [
  | yes same ↦ ground (
    arith,
    same,
    d,
    copy_from-lookup k m (insert bytes_discrete j v old) d.1,
    lookup-insert bytes_discrete k j v old,
  )
  | no other ↦ ground (
    arith,
    other,
    copy_from-lookup k m (insert bytes_discrete j v old) d.1,
    lookup-insert bytes_discrete k j v old,
  )
]

abbrev pub or_else : {A : Type 0} → Option A → Option A → Option A
or_else none other = other
or_else (some a) other = some a

or_else-none : {A : Type 0} (o : Option A) → or_else o none ≡ o
or_else-none none = refl
or_else-none (some a) = refl

-- A call of `GetValidatorSummaries`, and what its fetch would give.
pub record Request (F : Type 0) : Type 0 where
  pub now : ℕ
  pub later : ℕ
  pub force_refresh : Bool
  pub fetched : ApiError ⊎ List (ValidatorSummary F)

module _ {F : Type 0} (lower : Bytes → Bytes) where
  -- The last summary whose key is the one looked up.
  unfoldable pub last_with :
      (ValidatorSummary F → Bytes) → Bytes → List (ValidatorSummary F) → Option (ValidatorSummary F)
  last_with key k [] = none
  last_with key k (s ∷ ss) =
      let rest = last_with key k ss in
      elim rest [ some t ↦ some t | none ↦ ite (bytes_discrete (key s) k) (some s) none ]

  abbrev pub validator_key : ValidatorSummary F → Bytes
  validator_key s = lower s.validator

  abbrev pub signer_key : ValidatorSummary F → Bytes
  signer_key s = lower s.signer

  rebuild-info :
      (k : Bytes) (ss : List (ValidatorSummary F)) (c : ValidatorCache F)
      → lookup bytes_discrete k (rebuild lower ss c).validator_info
        ≡ or_else (last_with validator_key k ss) (lookup bytes_discrete k c.validator_info)
  unfolding rebuild last_with
  rebuild-info k [] c = refl
  rebuild-info k (s ∷ ss) c =
      let after = record c {
        signer_to_validator =
            insert bytes_discrete (lower s.signer) (lower s.validator) c.signer_to_validator;
        validator_info = insert bytes_discrete (lower s.validator) s c.validator_info;
      } in
      let written = lookup-insert bytes_discrete k (lower s.validator) s c.validator_info in
      elim (Option-cases (last_with validator_key k ss)) [
        | inl missing ↦ ground (arith, missing, written, rebuild-info k ss after)
        | inr (t, found) ↦ ground (arith, found, written, rebuild-info k ss after)
      ]

  abbrev pub mapped : Option (ValidatorSummary F) → Option Bytes
  mapped none = none
  mapped (some s) = some (validator_key s)

  rebuild-signers :
      (k : Bytes) (ss : List (ValidatorSummary F)) (c : ValidatorCache F)
      → lookup bytes_discrete k (rebuild lower ss c).signer_to_validator
        ≡ or_else
            (mapped (last_with signer_key k ss))
            (lookup bytes_discrete k c.signer_to_validator)
  unfolding rebuild last_with
  rebuild-signers k [] c = refl
  rebuild-signers k (s ∷ ss) c =
      let after = record c {
        signer_to_validator =
            insert bytes_discrete (lower s.signer) (lower s.validator) c.signer_to_validator;
        validator_info = insert bytes_discrete (lower s.validator) s c.validator_info;
      } in
      let written =
        lookup-insert bytes_discrete k (lower s.signer) (lower s.validator) c.signer_to_validator in
      elim (Option-cases (last_with signer_key k ss)) [
        | inl missing ↦ ground (arith, missing, written, rebuild-signers k ss after)
        | inr (t, found) ↦ ground (arith, found, written, rebuild-signers k ss after)
      ]

  rebuild-Distinct :
      (ss : List (ValidatorSummary F)) (c : ValidatorCache F)
      → Distinct bytes_discrete c.signer_to_validator
      → Distinct bytes_discrete (rebuild lower ss c).signer_to_validator
  unfolding rebuild
  rebuild-Distinct [] c d = d
  rebuild-Distinct (s ∷ ss) c d =
      rebuild-Distinct ss _ (
        insert-Distinct bytes_discrete (lower s.signer) (lower s.validator) c.signer_to_validator d)

  -- The validator that a signer acts for, by the last summary that names the signer.
  unfoldable pub signer_summary : Bytes → List (ValidatorSummary F) → Option (ValidatorSummary F)
  signer_summary signer ss = elim (last_with signer_key (lower signer) ss) [
    | none ↦ none
    | some t ↦ last_with validator_key (validator_key t) ss
  ]

  -- After an update every lookup is answered from the list of summaries, whatever was cached: an
  -- address by the last summary with that validator, a signer by the last summary of the validator
  -- that the last summary with that signer names, in any case of the letters; and the copy of the
  -- mapping holds that validator's lowercase address.
  pub update_validator_cache-lookups :
      (now : ℕ) (ss : List (ValidatorSummary F)) (r : Resolver F) (k : Bytes)
      → (get_validator_by_address lower k (update_validator_cache lower now ss r)
          ≡ last_with validator_key (lower k) ss)
        × (get_validator_by_signer lower k (update_validator_cache lower now ss r)
            ≡ signer_summary k ss)
        × (lookup bytes_discrete k
              (get_signer_to_validator_mapping (update_validator_cache lower now ss r))
            ≡ mapped (last_with signer_key k ss))
  unfolding get_validator_by_address get_validator_by_signer update_validator_cache signer_summary
      get_signer_to_validator_mapping lookup
  update_validator_cache-lookups now ss r k =
      let info : (j : Bytes)
          → lookup bytes_discrete j (rebuild lower ss c).validator_info
            ≡ last_with validator_key j ss =
        λ j. rebuild-info j ss c ∙ or_else-none (last_with validator_key j ss) in
      let signers : (j : Bytes)
          → lookup bytes_discrete j (rebuild lower ss c).signer_to_validator
            ≡ mapped (last_with signer_key j ss) =
        λ j. rebuild-signers j ss c ∙ or_else-none (mapped (last_with signer_key j ss)) in
      (
        info (lower k),
        by_signer info signers,
        copy_from-lookup k (rebuild lower ss c).signer_to_validator [] (rebuild-Distinct ss c tt)
            ∙ keep_none (lookup bytes_discrete k (rebuild lower ss c).signer_to_validator)
            ∙ signers k,
      )
    where
      c : ValidatorCache F
      c = record r.validator_cache { signer_to_validator = []; validator_info = [] }

      keep_none :
          (o : Option Bytes) → elim o [ none ↦ lookup bytes_discrete k [] | some v ↦ some v ] ≡ o
      keep_none none = refl
      keep_none (some v) = refl

      by_signer :
          ((j : Bytes)
            → lookup bytes_discrete j (rebuild lower ss c).validator_info
              ≡ last_with validator_key j ss)
          → ((j : Bytes)
              → lookup bytes_discrete j (rebuild lower ss c).signer_to_validator
                ≡ mapped (last_with signer_key j ss))
          → get_validator_by_signer lower k (update_validator_cache lower now ss r)
            ≡ signer_summary k ss
      by_signer info signers = elim (Option-cases (last_with signer_key (lower k) ss)) [
        | inl missing ↦ ground (arith, missing, signers (lower k))
        | inr (t, found) ↦ ground (arith, found, signers (lower k), info (validator_key t))
      ]

  unfoldable pub is_filled : Resolver F → Bool
  is_filled r = ltb 0 (length r.validator_cache.summaries)

  -- A fetch that fails, or that returns a summary.
  unfoldable pub useful : ApiError ⊎ List (ValidatorSummary F) → Bool
  useful (inl err) = true
  useful (inr ss) = ltb 0 (length ss)

  abbrev pub answered : ApiError ⊎ List (ValidatorSummary F) → Bool
  answered (inl err) = false
  answered (inr ss) = ltb 0 (length ss)

  -- A call fails exactly when there is nothing in the cache and the fetch fails, with the error of
  -- the fetch; the age of the cache and `forceRefresh` play no part in it.
  pub get_validator_summaries-error_iff :
      (now later : ℕ) (force : Bool) (fetched : ApiError ⊎ List (ValidatorSummary F))
      (err : ApiError) (r : Resolver F)
      → ((get_validator_summaries lower now later force fetched r).1 ≡ inl err)
        ↔ ((r.validator_cache.summaries ≡ []) × (fetched ≡ inl err))
  unfolding get_validator_summaries
  get_validator_summaries-error_iff now later force fetched err r =
      (fails fetched, λ (empty, e). ground (arith, empty, e))
    where
      fails :
          (f : ApiError ⊎ List (ValidatorSummary F))
          → (get_validator_summaries lower now later force f r).1 ≡ inl err
          → (r.validator_cache.summaries ≡ []) × (f ≡ inl err)
      fails (inl e) h = elim (List-cases r.validator_cache.summaries) [
        | inl empty ↦ ground (arith, h, empty)
        | inr (s, ss, full) ↦ ground (arith, h, full)
      ]
      fails (inr ss) h = ground (arith, h)

  unfoldable pub serve :
      List (Request F) → Resolver F → Resolver F × List (ApiError ⊎ List (ValidatorSummary F))
  serve [] r = (r, [])
  serve (q ∷ qs) r =
      let (next, answer) =
        get_validator_summaries lower q.now q.later q.force_refresh q.fetched r in
      let (last, answers) = serve qs next in (last, answer ∷ answers)

  get-answered :
      (now later : ℕ) (force : Bool) (fetched : ApiError ⊎ List (ValidatorSummary F))
      (r : Resolver F)
      → useful fetched ≡ true
      → is_filled r ≡ true
      → (answered (get_validator_summaries lower now later force fetched r).1 ≡ true)
        × (is_filled (get_validator_summaries lower now later force fetched r).0 ≡ true)
  unfolding get_validator_summaries useful is_filled update_validator_cache
  get-answered now later force (inl e) r u f = ground (arith, u, f)
  get-answered now later force (inr ss) r u f = ground (arith, u, f)

  -- Once the cache holds a summary, calls that follow each other, with any ages, refreshes and
  -- failures of the fetch, all answer with summaries, as long as no fetch succeeds with none.
  pub serve-answered :
      (qs : List (Request F)) (r : Resolver F)
      → All (λ q. useful q.fetched ≡ true) qs
      → is_filled r ≡ true
      → All (λ a. answered a ≡ true) (serve qs r).1
  unfolding serve
  serve-answered [] r u f = tt
  serve-answered (q ∷ qs) r u f =
      let step = get-answered q.now q.later q.force_refresh q.fetched r u.0 f in
      (step.0, serve-answered qs _ u.1 step.1)
