-- ===== src/Contracts/Bounds.antt =====
-- Bounds of internal/contracts/resolver.go over any calls, workers and replies.
use mathlib.Core.List.{lookup}
use hyperliquid_exporter.Base.Lists.{length-append}
use hyperliquid_exporter.Lru.{new_lru_cache, LruCache, get, set}
use hyperliquid_exporter.Lru.Invariant.{IsValid, new_lru_cache-IsValid}
use hyperliquid_exporter.Lru.Methods.{get-IsValid, set-IsValid}
use hyperliquid_exporter.Lru.Values.{Holds, get-Holds, set-Holds, get-settings, set-settings}
use hyperliquid_exporter.Contracts.{
  ContractInfo, TokenResponse, SmartContractResponse, Resolver, unknown, queue_size, day,
  new_resolver, Outcome, returned, panicked, answer_from, answer_unknown, queue_fetch, is_named,
  get_contract_info, cache_token, cache_smart_contract, fetch_token_info, fetch_smart_contract_info,
  fetch_and_cache_contract, work, cache_tokens, next_job, shutdown, initialize,
  preload_initial_tokens, tried_recently,
}
use hyperliquid_exporter.Base.{
  ℕ, ◌+◌, ◌≤◌, ◌≡◌, refl, ◌∙◌, inl, inr, Bool, true, false, ◌||◌, Option, none, some, List, [], ◌∷◌,
  arith, ltb, Bool-cases, Bytes, bytes_discrete, length, has, List-cases,
}

unfoldable pub no_symbol : Bytes → Bool
no_symbol [] = true
no_symbol (b ∷ bs) = false

-- Only tokens have a symbol.
abbrev pub IsTidy : ContractInfo → Type 0
IsTidy info = (info.is_token || no_symbol info.symbol) ≡ true

pub record IsGood (c : LruCache ContractInfo) : Type 0 where
  pub valid : IsValid c
  pub five_thousand : c.capacity ≡ 5000
  pub tidy : Holds IsTidy c

get-IsGood : (now : ℕ) (k : Bytes) (c : LruCache ContractInfo) → IsGood c → IsGood (get now k c).0
get-IsGood now k c g = record {
  valid = get-IsValid now k c g.valid;
  five_thousand = (get-settings now k c).0 ∙ g.five_thousand;
  tidy = get-Holds IsTidy now k c g.tidy;
}

set-IsGood :
    (now : ℕ) (k : Bytes) (info : ContractInfo) (c : LruCache ContractInfo)
    → IsTidy info
    → IsGood c
    → IsGood (set now k info c)
set-IsGood now k info c t g = record {
  valid = set-IsValid now k info c g.valid;
  five_thousand = (set-settings now k info c).0 ∙ g.five_thousand;
  tidy = set-Holds IsTidy now k info c t g.tidy;
}

-- A call on the resolver, by a client or by a worker with the jobs that it has tried.
pub data Action : Type 0 where
  request : ℕ → Bytes → Action
  job : ℕ → ℕ → List (Bytes × ℕ) → Option TokenResponse → Option SmartContractResponse → Action
  preload : ℕ → Option (List TokenResponse) → Action
  close : Action

module _ (lower : Bytes → Bytes) where
  unfoldable pub take_job :
      ℕ
      → ℕ
      → List (Bytes × ℕ)
      → Option TokenResponse
      → Option SmartContractResponse
      → Option Bytes × Resolver
      → Resolver
  take_job now later seen token contract (none, r) = r
  take_job now later seen token contract (some addr, r) =
      (work lower now later addr token contract seen r).1

  abbrev pub forget_answer : Outcome (Resolver × ContractInfo) → Outcome Resolver
  forget_answer (returned (r, info)) = returned r
  forget_answer panicked = panicked

  unfoldable pub act : Action → Resolver → Outcome Resolver
  act (request now address) r = forget_answer (get_contract_info lower now address r)
  act (job now later seen token contract) r =
      returned (take_job now later seen token contract (next_job r))
  act (preload now items) r = returned (initialize lower now items r)
  act close r = returned (shutdown r)

  unfoldable pub then_run : Outcome Resolver → (Resolver → Outcome Resolver) → Outcome Resolver
  then_run (returned r) rest = rest r
  then_run panicked rest = panicked

  unfoldable pub run : List Action → Resolver → Outcome Resolver
  run [] r = returned r
  run (a ∷ actions) r = then_run (act a r) (run actions)

  pub record IsBounded (r : Resolver) : Type 0 where
    pub good : IsGood r.cache
    pub queued : length r.fetch_queue ≤ queue_size

  abbrev pub Keeps : Outcome Resolver → Type 0
  Keeps (returned r) = IsBounded r
  Keeps panicked = Unit

  cache_token-IsBounded :
      (now : ℕ) (token : TokenResponse) (r : Resolver)
      → IsBounded r
      → IsBounded (cache_token lower now token r)
  unfolding cache_token
  cache_token-IsBounded now token r b = record {
    good = set-IsGood now _ _ r.cache refl b.good;
    queued = b.queued;
  }

  cache_smart_contract-IsBounded :
      (now : ℕ) (address name : Bytes) (r : Resolver)
      → IsBounded r
      → IsBounded (cache_smart_contract lower now address name r)
  unfolding cache_smart_contract no_symbol
  cache_smart_contract-IsBounded now address name r b = record {
    good = set-IsGood now _ _ r.cache refl b.good;
    queued = b.queued;
  }

  cache_tokens-IsBounded :
      (now : ℕ) (items : List TokenResponse) (r : Resolver) (count : ℕ)
      → IsBounded r
      → IsBounded (cache_tokens lower now items (r, count)).0
  unfolding cache_tokens
  cache_tokens-IsBounded now [] r count b = b
  cache_tokens-IsBounded now (token ∷ items) r count b =
      cache_tokens-IsBounded now items (cache_token lower now token r) (count + 1)
        (cache_token-IsBounded now token r b)

  fetch_smart_contract_info-IsBounded :
      (now : ℕ) (address : Bytes) (contract : Option SmartContractResponse) (r : Resolver)
      → IsBounded r
      → IsBounded (fetch_smart_contract_info lower now address contract r).0
  unfolding fetch_smart_contract_info
  fetch_smart_contract_info-IsBounded now address none r b = b
  fetch_smart_contract_info-IsBounded now address (some contract) r b =
      elim (Bool-cases (is_named contract.name)) [
        | inl named ↦ rw named (cache_smart_contract-IsBounded now address contract.name r b)
        | inr unnamed ↦ rw unnamed b
      ]

  fetch_and_cache_contract-IsBounded :
      (now : ℕ) (address : Bytes) (token : Option TokenResponse)
      (contract : Option SmartContractResponse) (r : Resolver)
      → IsBounded r
      → IsBounded (fetch_and_cache_contract lower now address token contract r)
  unfolding fetch_and_cache_contract fetch_token_info no_symbol
  fetch_and_cache_contract-IsBounded now address (some token) contract r b =
      cache_token-IsBounded now token r b
  fetch_and_cache_contract-IsBounded now address none contract r b =
      let tried = fetch_smart_contract_info-IsBounded now address contract r b in
      elim (Bool-cases (fetch_smart_contract_info lower now address contract r).1) [
        | inl found ↦ rw found tried
        | inr missing ↦ rw missing (record {
          good = set-IsGood now address (unknown address) _ refl tried.good;
          queued = tried.queued;
        })
      ]

  work-IsBounded :
      (now later : ℕ) (addr : Bytes) (token : Option TokenResponse)
      (contract : Option SmartContractResponse) (seen : List (Bytes × ℕ)) (r : Resolver)
      → IsBounded r
      → IsBounded (work lower now later addr token contract seen r).1
  unfolding work
  work-IsBounded now later addr token contract seen r b =
      let looked : IsBounded (record r { cache = (get now addr r.cache).0 }) = record {
        good = get-IsGood now addr r.cache b.good;
        queued = b.queued;
      } in
      elim (Bool-cases (tried_recently now (lookup bytes_discrete addr seen))) [
        | inl recent ↦ rw recent b
        | inr due ↦ elim (Bool-cases (has (get now addr r.cache).1)) [
          | inl cached ↦ rw (due, cached) looked
          | inr missing ↦
              rw (due, missing)
                (fetch_and_cache_contract-IsBounded now addr token contract
                  (record r { cache = (get now addr r.cache).0 }) looked)
        ]
      ]

  queue_fetch-Keeps : (addr : Bytes) (r : Resolver) → IsBounded r → Keeps (queue_fetch addr r)
  unfolding queue_fetch
  queue_fetch-Keeps addr r b = elim (Bool-cases r.closed) [
    | inl shut ↦ rw shut tt
    | inr open_ ↦ elim (Bool-cases (ltb (length r.fetch_queue) queue_size)) [
      | inr full ↦ rw (open_, full) (record { good = b.good; queued = b.queued })
      | inl room ↦
          rw (open_, room)
            (record {
              good = b.good;
              queued = ground (arith, room, length-append r.fetch_queue (addr ∷ []));
            })
    ]
  ]

  answer_unknown-Keeps :
      (addr : Bytes) (o : Outcome Resolver)
      → Keeps o
      → Keeps (forget_answer (answer_unknown addr o))
  unfolding answer_unknown
  answer_unknown-Keeps addr (returned r) b = b
  answer_unknown-Keeps addr panicked b = tt

  answer_from-Keeps :
      (addr : Bytes) (r : Resolver) (found : LruCache ContractInfo × Option ContractInfo)
      → IsBounded (record r { cache = found.0 })
      → Keeps (forget_answer (answer_from addr r found))
  unfolding answer_from
  answer_from-Keeps addr r (cache, some info) b = b
  answer_from-Keeps addr r (cache, none) b =
      let looked : Resolver = record r { cache = cache } in
      answer_unknown-Keeps addr (queue_fetch addr looked) (queue_fetch-Keeps addr looked b)

  take_job-IsBounded :
      (now later : ℕ) (seen : List (Bytes × ℕ)) (token : Option TokenResponse)
      (contract : Option SmartContractResponse) (next : Option Bytes × Resolver)
      → IsBounded next.1
      → IsBounded (take_job now later seen token contract next)
  unfolding take_job
  take_job-IsBounded now later seen token contract (none, r) b = b
  take_job-IsBounded now later seen token contract (some addr, r) b =
      work-IsBounded now later addr token contract seen r b

  next_job-IsBounded : (r : Resolver) → IsBounded r → IsBounded (next_job r).1
  unfolding next_job
  next_job-IsBounded r b = elim (List-cases r.fetch_queue) [
    | inl empty ↦ rw (empty, next_job) b
    | inr (addr, queue, more) ↦
        rw (more, next_job) (record { good = b.good; queued = ground (arith, more, b.queued) })
  ]

  initialize-IsBounded :
      (now : ℕ) (items : Option (List TokenResponse)) (r : Resolver)
      → IsBounded r
      → IsBounded (initialize lower now items r)
  unfolding initialize preload_initial_tokens
  initialize-IsBounded now none r b = b
  initialize-IsBounded now (some items) r b = cache_tokens-IsBounded now items r 0 b

  act-Keeps : (a : Action) (r : Resolver) → IsBounded r → Keeps (act a r)
  unfolding act get_contract_info shutdown
  act-Keeps (request now address) r b =
      answer_from-Keeps (lower address) r (get now (lower address) r.cache)
        (record { good = get-IsGood now (lower address) r.cache b.good; queued = b.queued })
  act-Keeps (job now later seen token contract) r b =
      take_job-IsBounded now later seen token contract (next_job r) (next_job-IsBounded r b)
  act-Keeps (preload now items) r b = initialize-IsBounded now items r b
  act-Keeps close r b = record { good = b.good; queued = b.queued }

  then_run-Keeps :
      (o : Outcome Resolver) (rest : Resolver → Outcome Resolver)
      → Keeps o
      → ((r : Resolver) → IsBounded r → Keeps (rest r))
      → Keeps (then_run o rest)
  unfolding then_run
  then_run-Keeps (returned r) rest b h = h r b
  then_run-Keeps panicked rest b h = tt

  run-Keeps : (actions : List Action) (r : Resolver) → IsBounded r → Keeps (run actions r)
  unfolding run
  run-Keeps [] r b = b
  run-Keeps (a ∷ actions) r b =
      then_run-Keeps (act a r) (run actions) (act-Keeps a r b) (run-Keeps actions)

  new_resolver-IsBounded : IsBounded new_resolver
  unfolding new_resolver new_lru_cache
  new_resolver-IsBounded = record {
    good = record { valid = new_lru_cache-IsValid 5000 day; five_thousand = refl; tidy = tt };
    queued = omega arith;
  }

  -- Whatever clients, workers, replies, preloads and a shutdown do to a new resolver, in any order
  -- and until a call panics, the cache stays well formed with at most 5000 entries, only tokens in
  -- it have a symbol, and the queue holds at most 1000 addresses.
  pub run-IsBounded : (actions : List Action) → Keeps (run actions new_resolver)
  run-IsBounded actions = run-Keeps actions new_resolver new_resolver-IsBounded
