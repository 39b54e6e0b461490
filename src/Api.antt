-- ===== src/Api.antt =====
-- internal/hyperliquid-api/resolver.go: the client for validator data, with its cache. `F` is the
-- type of stakes. The mutex makes each access of the cache one step; `lower` is
-- `strings.ToLower`, `unmarshal` is `json.Unmarshal`, and a client of net/http is a function.
pub mod Cache
pub mod Retries
mod Tests
use mathlib.Core.List.{lookup}
use hyperliquid_exporter.Base.Dict.{insert}
use hyperliquid_exporter.Base.Int.{ℤ}
use hyperliquid_exporter.Base.{
  ℕ, zero, suc, ◌+◌, ◌-◌, ◌*◌, ◌%◌, ◌^◌, ◌/◌, ◌≤◌, ◌<◌, ◌≡◌, refl, sym, ap, ◌∙◌, fun_ext, ◌≢◌, ◌↔◌,
  ◌⊎◌, inl, inr, Bool, true, false, not, ◌&&◌, ◌||◌, Option, none, some, List, [], ◌∷◌, ◌++◌, map,
  take, drop, arith, ltb, leb, ◌==◌, if◌then◌else◌, ==_iff, Bool-cases, Option-cases, Bytes, codes,
  bytes_discrete, length, All, has, List-cases, keep, ite, dec_lt, dec_le, ℕ_discrete, if_pos,
  if_neg,
}

pub record ValidatorSummary (F : Type 0) : Type 0 where
  pub validator : Bytes
  pub signer : Bytes
  pub name : Bytes
  pub description : Bytes
  pub n_recent_blocks : ℤ
  pub stake : F
  pub is_jailed : Bool
  pub unjailable_after : ℤ
  pub is_active : Bool

-- `last_update` counts nanoseconds from the zero time.
pub record ValidatorCache (F : Type 0) : Type 0 where
  pub summaries : List (ValidatorSummary F)
  pub signer_to_validator : List (Bytes × Bytes)
  pub validator_info : List (Bytes × ValidatorSummary F)
  pub last_update : ℕ

pub record Resolver (F : Type 0) : Type 0 where
  pub base_url : Bytes
  pub chain : Bytes
  pub validator_cache : ValidatorCache F

abbrev pub second : ℕ
second = 1000000000

abbrev pub minute : ℕ
minute = 60 * second

-- What the client gives for a request: an error, or a status with the body if it can be read.
pub data Reply : Type 0 where
  failed : Reply
  response : ℕ → Option Bytes → Reply

pub data ApiError : Type 0 where
  bad_request : ApiError
  cancelled : ApiError
  unreadable : ApiError
  undecodable : ApiError
  exhausted : ApiError

-- How a call ends, the request bodies it sent, and for how long it waited in between.
pub record Call (A : Type 0) : Type 0 where
  pub result : ApiError ⊎ A
  pub sent : List Bytes
  pub waited : ℕ

-- `client.Do` at the given attempt, on the request with the given payload, which is created once.
-- What net/http does about a body that an earlier attempt has read is a matter of the client.
abbrev pub Client : Type 0
Client = ℕ → Bytes → Reply

abbrev pub ended : {A : Type 0} → ApiError ⊎ A → Call A
ended result = record { result = result; sent = []; waited = 0 }

module _ {A : Type 0} (unmarshal : Bytes → Option A) where
  -- A reply that ends the loop.
  unfoldable pub decode : Option Bytes → ApiError ⊎ A
  decode none = inl unreadable
  decode (some body) = elim (unmarshal body) [ none ↦ inl undecodable | some a ↦ inr a ]

  -- `continue` on an error and on a status that is not OK.
  unfoldable pub after_reply : Reply → Call A → Call A
  after_reply failed next = next
  after_reply (response status body) next = if status == 200 then ended (decode body) else next

  unfoldable pub backoff : ℕ → ℕ
  backoff attempt = attempt * attempt * second

  -- The loop from an attempt on, with so many left; `cancels` says whether the context ends during
  -- the wait before an attempt.
  unfoldable pub try_from : Client → (ℕ → Bool) → ℕ → ℕ → Bytes → Call A
  try_from client cancels zero attempt body = ended (inl exhausted)
  try_from client cancels (suc left) attempt body =
      let next = try_from client cancels left (attempt + 1) body in
      let call = after_reply (client attempt body) next in
      if ltb 0 attempt && cancels attempt then ended (inl cancelled) else record {
        result = call.result;
        sent = body ∷ call.sent;
        waited = backoff attempt + call.waited;
      }

  -- `none` is a request that cannot be marshalled or created.
  unfoldable pub make_api_call : Client → (ℕ → Bool) → Option Bytes → Call A
  make_api_call client cancels none = ended (inl bad_request)
  make_api_call client cancels (some payload) = try_from client cancels 3 0 payload

-- The copy of the mapping, key by key.
unfoldable pub copy_from : List (Bytes × Bytes) → List (Bytes × Bytes) → List (Bytes × Bytes)
copy_from [] mapping = mapping
copy_from ((k, v) ∷ m) mapping = copy_from m (insert bytes_discrete k v mapping)

module _ {F : Type 0} where
  unfoldable pub new_resolver : Bytes → Resolver F
  new_resolver chain = record {
    base_url =
        ite (bytes_discrete chain (codes "mainnet")) (codes "https://api.hyperliquid.xyz")
          (codes "https://api.hyperliquid-testnet.xyz");
    chain = chain;
    validator_cache = record {
      summaries = [];
      signer_to_validator = [];
      validator_info = [];
      last_update = 0;
    };
  }

  unfoldable pub get_signer_to_validator_mapping : Resolver F → List (Bytes × Bytes)
  get_signer_to_validator_mapping r = copy_from r.validator_cache.signer_to_validator []

module _ {F : Type 0} (lower : Bytes → Bytes) where
  -- The loop of `updateValidatorCache`.
  unfoldable pub rebuild : List (ValidatorSummary F) → ValidatorCache F → ValidatorCache F
  rebuild [] c = c
  rebuild (s ∷ ss) c = rebuild ss (record c {
    signer_to_validator =
        insert bytes_discrete (lower s.signer) (lower s.validator) c.signer_to_validator;
    validator_info = insert bytes_discrete (lower s.validator) s c.validator_info;
  })

  unfoldable pub update_validator_cache : ℕ → List (ValidatorSummary F) → Resolver F → Resolver F
  update_validator_cache now summaries r =
      let cleared : ValidatorCache F = record r.validator_cache {
        signer_to_validator = [];
        validator_info = [];
      } in
      record r {
        validator_cache = record (rebuild summaries cleared) {
          summaries = summaries;
          last_update = now;
        };
      }

  unfoldable pub get_validator_by_signer : Bytes → Resolver F → Option (ValidatorSummary F)
  get_validator_by_signer signer r =
      elim (lookup bytes_discrete (lower signer) r.validator_cache.signer_to_validator) [
        | none ↦ none
        | some validator ↦ lookup bytes_discrete validator r.validator_cache.validator_info
      ]

  unfoldable pub get_validator_by_address : Bytes → Resolver F → Option (ValidatorSummary F)
  get_validator_by_address validator r =
      lookup bytes_discrete (lower validator) r.validator_cache.validator_info

  -- `now` is the time of the age, and `later` that of the update after the fetch.
  unfoldable pub get_validator_summaries :
      ℕ
      → ℕ
      → Bool
      → ApiError ⊎ List (ValidatorSummary F)
      → Resolver F
      → Resolver F × (ApiError ⊎ List (ValidatorSummary F))
  get_validator_summaries now later force_refresh fetched r =
      let cached = r.validator_cache.summaries in
      let cache_age = now - r.validator_cache.last_update in
      if not force_refresh && ltb cache_age minute && ltb 0 (length cached)
      then (r, inr cached)
      else elim fetched [
        | inl err ↦ (r, if ltb 0 (length cached) then inr cached else inl err)
        | inr summaries ↦ (update_validator_cache later summaries r, inr summaries)
      ]
