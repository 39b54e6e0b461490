-- ===== src/Contracts/Tests.antt =====
-- Calls of the contract resolver, and the theorems at such inputs.
use mathlib.Core.List.{lookup}
use hyperliquid_exporter.Base.Dict.{insert, delete}
use hyperliquid_exporter.Lru.{
  new_lru_cache, deref, unlink, is_expired, get_element, get, set, update, push_front, evict,
  remove_oldest, remove_element, back,
}
use hyperliquid_exporter.Lru.Invariant.{new_lru_cache-IsValid}
use hyperliquid_exporter.Contracts.{
  TokenResponse, SmartContractResponse, minute, new_resolver, panicked, answer_from, answer_unknown,
  queue_fetch, tried_recently, clean_seen, clean_from, next_job, shutdown, is_named,
  get_contract_info, cache_token, cache_smart_contract, fetch_token_info, fetch_smart_contract_info,
  fetch_and_cache_contract, work, cache_tokens, cache_contracts, page, failed, preload_from,
  stopped, preload_all_smart_contracts, preload_initial_tokens, initialize,
}
use hyperliquid_exporter.Contracts.Answers.{answer_of, key_of, info_of, get_contract_info-fetched}
use hyperliquid_exporter.Contracts.Bounds.{
  Action, request, job, preload, close, take_job, act, then_run, run, Keeps, run-IsBounded,
}
use hyperliquid_exporter.Contracts.Dedup.{Job, fetches, Spaced, fetches-Spaced}
use hyperliquid_exporter.Base.{
  ℕ, ◌+◌, ◌*◌, ◌≡◌, refl, none, some, List, [], ◌∷◌, arith, ltb, if◌then◌else◌, Bytes, codes,
  bytes_discrete, has, ℕ_discrete,
}

program : Unit {0}
unfolding lookup insert delete new_lru_cache deref unlink is_expired get_element get set update
    push_front evict remove_oldest remove_element back new_resolver answer_from answer_unknown
    queue_fetch tried_recently clean_seen clean_from next_job shutdown is_named get_contract_info
    cache_token cache_smart_contract fetch_token_info fetch_smart_contract_info
    fetch_and_cache_contract work cache_tokens cache_contracts preload_from
    preload_all_smart_contracts preload_initial_tokens initialize answer_of key_of info_of take_job
    act then_run run fetches has bytes_discrete ℕ_discrete
program = tt

abbrev lower : Bytes → Bytes
lower [] = []
lower (b ∷ bs) = (if ltb b 10 then b + 10 else b) ∷ lower bs

abbrev contract : SmartContractResponse
contract = record { hash = 1 ∷ []; name = codes "Vault" }

abbrev token : TokenResponse
token = record { address = 2 ∷ []; name = codes "Coin"; symbol = codes "C"; kind = codes "ERC-20" }

-- The token of the address is asked for first; a second page is never reached after a failure.
stops :
    preload_all_smart_contracts lower
      (page 5 (contract ∷ contract ∷ []) (9 ∷ []) ∷ failed ∷ [])
      new_resolver
    ≡ stopped (cache_smart_contract lower 5 (1 ∷ []) (codes "Vault") new_resolver) 1
unfolding program
stops = refl

get_contract_info-fetched_example :
    answer_of (
      get_contract_info lower 9
        (1 ∷ [])
        (fetch_and_cache_contract lower 5 (11 ∷ []) none (some contract) new_resolver))
    ≡ some (info_of lower (11 ∷ []) none (some contract))
unfolding program
get_contract_info-fetched_example =
    get_contract_info-fetched lower 5 9 (11 ∷ []) (1 ∷ []) none (some contract) new_resolver
      (new_lru_cache-IsValid 5000 (24 * 60 * minute)) (omega arith) refl refl (omega arith)

abbrev actions : List Action
actions =
    preload 3 (some (token ∷ []))
    ∷ request 4 (1 ∷ [])
    ∷ job 5 6 [] none (some contract)
    ∷ request 7 (1 ∷ [])
    ∷ close
    ∷ []

run-IsBounded_example : Keeps lower (run lower actions new_resolver)
run-IsBounded_example = run-IsBounded lower actions

-- A request that must be queued panics once the channel is closed.
closed_queue : run lower (close ∷ request 4 (1 ∷ []) ∷ []) new_resolver ≡ panicked
unfolding program
closed_queue = refl

abbrev work_at : ℕ → Job
work_at now = record {
  now = now;
  later = now + 1;
  addr = 11 ∷ [];
  token = none;
  contract = none;
  resolver = new_resolver;
}

abbrev jobs : List Job
jobs = work_at 0 ∷ work_at (4 * minute) ∷ work_at (6 * minute) ∷ []

two_fetches : fetches lower jobs [] ≡ (0, 11 ∷ []) ∷ (6 * minute, 11 ∷ []) ∷ []
unfolding program
two_fetches = refl

fetches-Spaced_example : Spaced (fetches lower jobs [])
fetches-Spaced_example =
    fetches-Spaced lower 0 jobs []
      (omega arith, omega arith, (omega arith, omega arith, (omega arith, omega arith, tt)))
