-- ===== src/Lru.antt =====
-- internal/cache/lru.go: the thread-safe LRU cache with an optional TTL. Every method holds the
-- mutex for its whole body, so a method is one step from a state to a state.
--
-- A `*list.Element` is its identity, a number that `PushFront` allocates: `items` maps a key to
-- an element's identity, as the Go map holds its pointer, and `lru` is the linked list, most
-- recent first. Times and durations count nanoseconds; `time.Now()` is the argument `now`.
pub mod Elements
pub mod Invariant
pub mod Methods
pub mod View
pub mod Refinement
pub mod Entries
pub mod Behaviour
pub mod Cleanup
pub mod Trace
pub mod Values
pub mod Stable
mod Tests
use mathlib.Core.List.{lookup, reverse}
use hyperliquid_exporter.Base.Dict.{insert, delete}
use hyperliquid_exporter.Base.{
  ℕ, zero, suc, ◌+◌, ◌-◌, ◌≤◌, ◌<◌, ◌≡◌, refl, sym, ap, ◌∙◌, ◌≢◌, ◌↔◌, ◌⊎◌, inl, inr, Bool, true,
  false, not, ◌&&◌, ◌||◌, Option, none, some, List, [], ◌∷◌, ◌++◌, map, arith, ltb, leb, ◌==◌,
  if◌then◌else◌, Bool-cases, Option-cases, Bytes, codes, bytes_discrete, length, All, keep, ite,
  dec_lt, dec_le, ℕ_discrete, if_pos, if_neg,
}

-- A `*list.Element` with the `cacheEntry` that it holds.
pub record Element (V : Type 0) : Type 0 where
  pub id : ℕ
  pub key : Bytes
  pub value : V
  pub expires_at : ℕ

pub record LruCache (V : Type 0) : Type 0 where
  pub capacity : ℕ
  pub ttl : ℕ
  pub items : List (Bytes × ℕ)
  pub lru : List (Element V)
  pub next_id : ℕ

module _ {V : Type 0} where
  unfoldable pub new_lru_cache : ℕ → ℕ → LruCache V
  new_lru_cache capacity ttl = record {
    capacity = capacity;
    ttl = ttl;
    items = [];
    lru = [];
    next_id = 0;
  }

  -- The element that a pointer stands for.
  unfoldable pub deref : ℕ → List (Element V) → Option (Element V)
  deref i [] = none
  deref i (e ∷ l) = ite (ℕ_discrete i e.id) (some e) (deref i l)

  -- `list.Remove`
  unfoldable pub unlink : ℕ → List (Element V) → List (Element V)
  unlink i [] = []
  unlink i (e ∷ l) = ite (ℕ_discrete i e.id) l (e ∷ unlink i l)

  -- `list.Back`
  unfoldable pub back : List (Element V) → Option (Element V)
  back [] = none
  back (e ∷ []) = some e
  back (e ∷ f ∷ l) = back (f ∷ l)

  unfoldable pub remove_element : Element V → LruCache V → LruCache V
  remove_element e c = record c {
    items = delete bytes_discrete e.key c.items;
    lru = unlink e.id c.lru;
  }

  unfoldable pub remove_oldest : LruCache V → LruCache V
  remove_oldest c = elim (back c.lru) [ none ↦ c | some e ↦ remove_element e c ]

  -- `c.ttl > 0 && time.Now().After(entry.expiresAt)`
  unfoldable pub is_expired : ℕ → LruCache V → Element V → Bool
  is_expired now c e = ltb 0 c.ttl && ltb e.expires_at now

  -- The rest of `Get` once the map has given a pointer. A pointer out of the list does not occur
  -- in a well-formed cache.
  unfoldable pub get_element : ℕ → Option (Element V) → LruCache V → LruCache V × Option V
  get_element now none c = (c, none)
  get_element now (some e) c =
      if is_expired now c e
      then (remove_element e c, none)
      else (record c { lru = e ∷ unlink e.id c.lru }, some e.value)

  unfoldable pub get : ℕ → Bytes → LruCache V → LruCache V × Option V
  get now key c = elim (lookup bytes_discrete key c.items) [
    | none ↦ (c, none)
    | some i ↦ get_element now (deref i c.lru) c
  ]

  -- The branch of `Set` for a key that exists.
  unfoldable pub update : ℕ → V → Option (Element V) → LruCache V → LruCache V
  update now value none c = c
  update now value (some e) c =
      let expires_at = if ltb 0 c.ttl then now + c.ttl else e.expires_at in
      record c { lru = record e { value = value; expires_at = expires_at } ∷ unlink e.id c.lru }

  -- The branch of `Set` for a new key, before the eviction.
  unfoldable pub push_front : ℕ → Bytes → V → LruCache V → LruCache V
  push_front now key value c =
      let e : Element V = record {
        id = c.next_id;
        key = key;
        value = value;
        expires_at = if ltb 0 c.ttl then now + c.ttl else 0;
      } in
      record c {
        items = insert bytes_discrete key c.next_id c.items;
        lru = e ∷ c.lru;
        next_id = c.next_id + 1;
      }

  -- `if c.lru.Len() > c.capacity { c.removeOldest() }`
  unfoldable pub evict : LruCache V → LruCache V
  evict c = if ltb c.capacity (length c.lru) then remove_oldest c else c

  unfoldable pub set : ℕ → Bytes → V → LruCache V → LruCache V
  set now key value c = elim (lookup bytes_discrete key c.items) [
    | some i ↦ update now value (deref i c.lru) c
    | none ↦ evict (push_front now key value c)
  ]

  unfoldable pub remove_found : Option (Element V) → LruCache V → LruCache V
  remove_found none c = c
  remove_found (some e) c = remove_element e c

  -- `Delete`
  unfoldable pub delete_key : Bytes → LruCache V → LruCache V
  delete_key key c = elim (lookup bytes_discrete key c.items) [
    | none ↦ c
    | some i ↦ remove_found (deref i c.lru) c
  ]

  unfoldable pub len : LruCache V → ℕ
  len c = length c.lru

  unfoldable pub clear : LruCache V → LruCache V
  clear c = record c { items = []; lru = [] }

  -- The loop of `GetAll` over the map.
  unfoldable pub get_all_from :
      ℕ → LruCache V → List (Bytes × ℕ) → List (Bytes × V) → List (Bytes × V)
  get_all_from now c [] result = result
  get_all_from now c ((key, i) ∷ m) result = get_all_from now c m (elim (deref i c.lru) [
    | none ↦ result
    | some e ↦ if is_expired now c e then result else insert bytes_discrete key e.value result
  ])

  unfoldable pub get_all : ℕ → LruCache V → List (Bytes × V)
  get_all now c = get_all_from now c c.items []

  -- The loop of `CleanupExpired`, over the elements from the back; `Prev` is read before the
  -- element is removed, so the walk visits each element of the list as it stood.
  unfoldable pub cleanup_from : ℕ → List (Element V) → LruCache V → LruCache V
  cleanup_from now [] c = c
  cleanup_from now (e ∷ l) c =
      cleanup_from now l (if ltb e.expires_at now then remove_element e c else c)

  -- The elements as the walk by `Prev` from `Back` meets them.
  unfoldable pub backwards : List (Element V) → List (Element V)
  backwards [] = []
  backwards (e ∷ l) = backwards l ++ e ∷ []

  unfoldable pub cleanup_expired : ℕ → LruCache V → LruCache V
  cleanup_expired now c = if c.ttl == 0 then c else cleanup_from now (backwards c.lru) c
