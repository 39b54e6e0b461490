-- ===== src/Contracts.antt =====
-- internal/contracts/resolver.go: names of contracts, fetched by workers over a bounded queue and
-- kept in a cache of Lru.antt. `lower` is `strings.ToLower`. What a request to the service comes
-- to, once its status is OK and its body decodes, is an argument, and `none` otherwise. The
-- clients of the cache and of the channel are one step each.
pub mod Answers
pub mod Bounds
pub mod Dedup
mod Tests
use mathlib.Core.List.{lookup}
use hyperliquid_exporter.Base.Dict.{insert}
use hyperliquid_exporter.Lru.{LruCache, new_lru_cache, get, set, len}
use hyperliquid_exporter.Base.{
  ℕ, zero, suc, ◌+◌, ◌-◌, ◌*◌, ◌%◌, ◌^◌, ◌/◌, ◌≤◌, ◌<◌, ◌≡◌, refl, sym, ap, ◌∙◌, fun_ext, ◌≢◌, ◌↔◌,
  ◌⊎◌, inl, inr, Bool, true, false, not, ◌&&◌, ◌||◌, Option, none, some, List, [], ◌∷◌, ◌++◌, map,
  take, drop, arith, ltb, leb, ◌==◌, if◌then◌else◌, ==_iff, Bool-cases, Option-cases, Bytes, codes,
  bytes_discrete, length, All, has, List-cases, keep, ite, dec_lt, dec_le, ℕ_discrete, if_pos,
  if_neg,
}

pub record ContractInfo : Type 0 where
  pub address : Bytes
  pub name : Bytes
  pub is_token : Bool
  pub kind : Bytes
  pub symbol : Bytes

pub record TokenResponse : Type 0 where
  pub address : Bytes
  pub name : Bytes
  pub symbol : Bytes
  pub kind : Bytes

pub record SmartContractResponse : Type 0 where
  pub hash : Bytes
  pub name : Bytes

-- The cache, the channel with its elements, and whether the channel is closed.
pub record Resolver : Type 0 where
  pub cache : LruCache ContractInfo
  pub fetch_queue : List Bytes
  pub closed : Bool

abbrev pub minute : ℕ
minute = 60000000000

abbrev pub day : ℕ
day = 24 * 60 * minute

abbrev pub queue_size : ℕ
queue_size = 1000

unfoldable pub new_resolver : Resolver
new_resolver = record { cache = new_lru_cache 5000 day; fetch_queue = []; closed = false }

abbrev pub unknown : Bytes → ContractInfo
unknown addr = record {
  address = addr;
  name = codes "unknown";
  is_token = false;
  kind = codes "unknown";
  symbol = [];
}

-- A call returns, or it panics.
pub data Outcome (A : Type 0) : Type 0 where
  returned : A → Outcome A
  panicked : Outcome A

-- The `select` that sends without waiting: a closed channel panics, a full one is left alone.
unfoldable pub queue_fetch : Bytes → Resolver → Outcome Resolver
queue_fetch addr r =
    if r.closed
    then panicked
    else if ltb (length r.fetch_queue) queue_size
    then returned (record r { fetch_queue = r.fetch_queue ++ addr ∷ [] })
    else returned r

unfoldable pub answer_unknown : Bytes → Outcome Resolver → Outcome (Resolver × ContractInfo)
answer_unknown addr (returned r) = returned (r, unknown addr)
answer_unknown addr panicked = panicked

-- The answer from the cache, or a request for later.
unfoldable pub answer_from :
    Bytes
    → Resolver
    → LruCache ContractInfo × Option ContractInfo
    → Outcome (Resolver × ContractInfo)
answer_from addr r (cache, some info) = returned (record r { cache = cache }, info)
answer_from addr r (cache, none) =
    answer_unknown addr (queue_fetch addr (record r { cache = cache }))

-- The check at the start of a job: a job that was tried less than five minutes ago is skipped.
unfoldable pub tried_recently : ℕ → Option ℕ → Bool
tried_recently now none = false
tried_recently now (some last) = ltb (now - last) (5 * minute)

-- The clean-up of `seen`.
unfoldable pub clean_from : ℕ → List (Bytes × ℕ) → List (Bytes × ℕ)
clean_from now [] = []
clean_from now ((k, v) ∷ seen) =
    let rest = clean_from now seen in if ltb (10 * minute) (now - v) then rest else (k, v) ∷ rest

unfoldable pub clean_seen : ℕ → List (Bytes × ℕ) → List (Bytes × ℕ)
clean_seen now seen = if ltb 1000 (length seen) then clean_from now seen else seen

-- What comes out of the channel: a closed one that is empty gives the zero value, an open one
-- nothing yet.
unfoldable pub next_job : Resolver → Option Bytes × Resolver
next_job r = elim r.fetch_queue [
  | addr ∷ queue ↦ (some addr, record r { fetch_queue = queue })
  | [] ↦ (if r.closed then some [] else none, r)
]

unfoldable pub is_named : Bytes → Bool
is_named [] = false
is_named (b ∷ bs) = true

unfoldable pub shutdown : Resolver → Resolver
shutdown r = record r { closed = true }

unfoldable pub get_cache_size : Resolver → ℕ
get_cache_size r = len r.cache

module _ (lower : Bytes → Bytes) where
  unfoldable pub get_contract_info : ℕ → Bytes → Resolver → Outcome (Resolver × ContractInfo)
  get_contract_info now address r = answer_from (lower address) r (get now (lower address) r.cache)

  unfoldable pub cache_token : ℕ → TokenResponse → Resolver → Resolver
  cache_token now token r =
      let info : ContractInfo = record {
        address = lower token.address;
        name = token.name;
        is_token = true;
        kind = token.kind;
        symbol = token.symbol;
      } in
      record r { cache = set now (lower token.address) info r.cache }

  unfoldable pub cache_smart_contract : ℕ → Bytes → Bytes → Resolver → Resolver
  cache_smart_contract now address name r =
      let info : ContractInfo = record {
        address = lower address;
        name = name;
        is_token = false;
        kind = codes "smart-contract";
        symbol = [];
      } in
      record r { cache = set now (lower address) info r.cache }

  unfoldable pub fetch_token_info : ℕ → Option TokenResponse → Resolver → Resolver × Bool
  fetch_token_info now none r = (r, false)
  fetch_token_info now (some token) r = (cache_token now token r, true)

  unfoldable pub fetch_smart_contract_info :
      ℕ → Bytes → Option SmartContractResponse → Resolver → Resolver × Bool
  fetch_smart_contract_info now address none r = (r, false)
  fetch_smart_contract_info now address (some contract) r =
      if is_named contract.name
      then (cache_smart_contract now address contract.name r, true)
      else (r, false)

  unfoldable pub fetch_and_cache_contract :
      ℕ → Bytes → Option TokenResponse → Option SmartContractResponse → Resolver → Resolver
  fetch_and_cache_contract now address token contract r =
      let (tried, is_token) = fetch_token_info now token r in
      let (tried_both, is_contract) = fetch_smart_contract_info now address contract tried in
      if is_token
      then tried
      else if is_contract
      then tried_both
      else record tried_both { cache = set now address (unknown address) tried_both.cache }

  -- A job of a worker, up to the next `select`; the flag says whether it fetches.
  unfoldable pub work :
      ℕ
      → ℕ
      → Bytes
      → Option TokenResponse
      → Option SmartContractResponse
      → List (Bytes × ℕ)
      → Resolver
      → List (Bytes × ℕ) × Resolver × Bool
  work now later addr token contract seen r =
      let (cache, info) = get now addr r.cache in
      let looked = record r { cache = cache } in
      if tried_recently now (lookup bytes_discrete addr seen)
      then (seen, r, false)
      else if has info
      then (seen, looked, false)
      else (
        clean_seen later (insert bytes_discrete addr now seen),
        fetch_and_cache_contract now addr token contract looked,
        true,
      )

  -- The loop over the items of a page of tokens.
  unfoldable pub cache_tokens : ℕ → List TokenResponse → Resolver × ℕ → Resolver × ℕ
  cache_tokens now [] rc = rc
  cache_tokens now (token ∷ items) (r, count) =
      cache_tokens now items (cache_token now token r, count + 1)

  -- The loop over the items of a page of contracts: those that are not cached and have a name.
  unfoldable pub cache_contracts : ℕ → List SmartContractResponse → Resolver × ℕ → Resolver × ℕ
  cache_contracts now [] rc = rc
  cache_contracts now (contract ∷ items) (r, count) =
      let (cache, info) = get now (lower contract.hash) r.cache in
      let looked = record r { cache = cache } in
      if not (has info) && is_named contract.name
      then cache_contracts now items
          (cache_smart_contract now contract.hash contract.name looked, count + 1)
      else cache_contracts now items (looked, count)

-- A reply to a request for a page: the end of the context, an error, or the items with the hash of
-- the next page, which is empty if there is none.
pub data PageReply (I : Type 0) : Type 0 where
  done : PageReply I
  failed : PageReply I
  page : ℕ → List I → Bytes → PageReply I

-- How a preload ends; with the replies used up it waits for the next.
pub data Preload : Type 0 where
  loaded : Resolver → ℕ → Preload
  stopped : Resolver → ℕ → Preload
  waiting_for : Bytes → Resolver → ℕ → Preload

module _ {I : Type 0} (cache_items : ℕ → List I → Resolver × ℕ → Resolver × ℕ) where
  -- The loop over the pages, which both preloads of everything have.
  unfoldable pub preload_from : List (PageReply I) → Bytes → Resolver × ℕ → Preload
  preload_from [] hash (r, count) = waiting_for hash r count
  preload_from (done ∷ replies) hash (r, count) = stopped r count
  preload_from (failed ∷ replies) hash (r, count) = stopped r count
  preload_from (page now items [] ∷ replies) hash rc =
      let after = cache_items now items rc in loaded after.0 after.1
  preload_from (page now items (b ∷ bs) ∷ replies) hash rc =
      preload_from replies (b ∷ bs) (cache_items now items rc)

module _ (lower : Bytes → Bytes) where
  unfoldable pub preload_all_tokens : List (PageReply TokenResponse) → Resolver → Preload
  preload_all_tokens replies r = preload_from (cache_tokens lower) replies [] (r, 0)

  unfoldable pub preload_all_smart_contracts :
      List (PageReply SmartContractResponse) → Resolver → Preload
  preload_all_smart_contracts replies r = preload_from (cache_contracts lower) replies [] (r, 0)

  -- The first page only; a failure leaves the resolver as it was, and `Initialize` goes on.
  unfoldable pub preload_initial_tokens : ℕ → Option (List TokenResponse) → Resolver → Resolver × ℕ
  preload_initial_tokens now none r = (r, 0)
  preload_initial_tokens now (some items) r = cache_tokens lower now items (r, 0)

  unfoldable pub initialize : ℕ → Option (List TokenResponse) → Resolver → Resolver
  initialize now items r = (preload_initial_tokens now items r).0
