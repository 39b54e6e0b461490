-- ===== src/Contracts/Answers.antt =====
-- What `GetContractInfo` of internal/contracts/resolver.go answers after a fetch.
use hyperliquid_exporter.Lru.{LruCache, get, set}
use hyperliquid_exporter.Lru.Behaviour.{get-set_self}
use hyperliquid_exporter.Lru.Invariant.{IsValid}
use hyperliquid_exporter.Contracts.{
  ContractInfo, TokenResponse, SmartContractResponse, Resolver, unknown, Outcome, returned,
  panicked, answer_from, is_named, get_contract_info, cache_token, cache_smart_contract,
  fetch_token_info, fetch_smart_contract_info, fetch_and_cache_contract,
}
use hyperliquid_exporter.Base.{
  ℕ, ◌+◌, ◌≤◌, ◌<◌, ◌≡◌, refl, ap, ◌∙◌, inl, inr, true, false, ◌&&◌, Option, none, some, [], arith,
  ltb, if◌then◌else◌, Bool-cases, Bytes, codes,
}

unfoldable pub answer_of : Outcome (Resolver × ContractInfo) → Option ContractInfo
answer_of (returned (r, info)) = some info
answer_of panicked = none

-- A contract that has a name.
abbrev pub named_contract : Bytes → Option SmartContractResponse → ContractInfo
named_contract addr none = unknown addr
named_contract addr (some contract) =
    if is_named contract.name
    then record {
      address = addr;
      name = contract.name;
      is_token = false;
      kind = codes "smart-contract";
      symbol = [];
    }
    else unknown addr

module _ (lower : Bytes → Bytes) where
  -- The key under which the replies of the service for an address are cached.
  unfoldable pub key_of : Bytes → Option TokenResponse → Bytes
  key_of addr none = addr
  key_of addr (some token) = lower token.address

  -- What the replies say: a token first, then a contract that has a name, else unknown.
  unfoldable pub info_of :
      Bytes → Option TokenResponse → Option SmartContractResponse → ContractInfo
  info_of addr none contract = named_contract addr contract
  info_of addr (some token) contract = record {
    address = lower token.address;
    name = token.name;
    is_token = true;
    kind = token.kind;
    symbol = token.symbol;
  }

  pub fetch_and_cache_contract-set :
      (now : ℕ) (addr : Bytes) (token : Option TokenResponse)
      (contract : Option SmartContractResponse) (r : Resolver)
      → lower addr ≡ addr
      → fetch_and_cache_contract lower now addr token contract r
        ≡ record r { cache = set now (key_of addr token) (info_of addr token contract) r.cache }
  unfolding fetch_and_cache_contract fetch_token_info fetch_smart_contract_info cache_token
      cache_smart_contract key_of info_of
  fetch_and_cache_contract-set now addr (some token) contract r low = refl
  fetch_and_cache_contract-set now addr none none r low = refl
  fetch_and_cache_contract-set now addr none (some contract) r low =
      elim (Bool-cases (is_named contract.name)) [
        | inl named ↦ rw (named, low) refl
        | inr unnamed ↦ rw unnamed refl
      ]

  answer_from-hit :
      (addr : Bytes) (r : Resolver) (found : LruCache ContractInfo × Option ContractInfo)
      (info : ContractInfo)
      → found.1 ≡ some info
      → answer_of (answer_from addr r found) ≡ some info
  unfolding answer_of answer_from
  answer_from-hit addr r (cache, none) info h = ground (arith, h)
  answer_from-hit addr r (cache, some i) info h = h

  -- If no other call comes in between, a request for the address under which a fetch was cached is
  -- answered, within the TTL of the cache after the fetch, with what the service said: the token,
  -- else the contract if it has a name, else unknown, from any well-formed cache that has room for
  -- an entry.
  pub get_contract_info-fetched :
      (now later : ℕ) (addr asked : Bytes) (token : Option TokenResponse)
      (contract : Option SmartContractResponse) (r : Resolver)
      → IsValid r.cache
      → 0 < r.cache.capacity
      → lower addr ≡ addr
      → lower asked ≡ key_of addr token
      → later ≤ now + r.cache.ttl
      → answer_of (
          get_contract_info lower later asked
            (fetch_and_cache_contract lower now addr token contract r))
        ≡ some (info_of addr token contract)
  unfolding get_contract_info
  get_contract_info-fetched now later addr asked token contract r w room low same fresh =
      let info = info_of addr token contract in
      let stored = set now (key_of addr token) info r.cache in
      let alive : (ltb 0 r.cache.ttl && ltb (now + r.cache.ttl) later) ≡ false =
        ground (arith, fresh) in
      let found : (get later (key_of addr token) stored).1 ≡ some info =
        get-set_self now later (key_of addr token) info r.cache w room
        ∙ ap (λ b. if b then none else some info) alive in
      rw (fetch_and_cache_contract-set now addr token contract r low, same)
        (answer_from-hit (key_of addr token) (record r { cache = stored })
          (get later (key_of addr token) stored) info found)
