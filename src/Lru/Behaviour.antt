-- ===== src/Lru/Behaviour.antt =====
-- What a caller of internal/cache/lru.go sees: reads after writes, deletions and evictions, and
-- `GetAll`.
use mathlib.Core.List.{lookup}
use hyperliquid_exporter.Base.Dict.{insert, lookup-insert, Distinct}
use hyperliquid_exporter.Base.Lists.{take, length-map}
use hyperliquid_exporter.Lru.{
  LruCache, deref, is_expired, get_element, get, set, update, push_front, evict, remove_oldest,
  remove_element, remove_found, delete_key, get_all_from, get_all,
}
use hyperliquid_exporter.Lru.Entries.{
  hidden, last_key, find_entry-erase, find_entry-erase_self, find_entry-key, find_entry-new,
  view-DistinctKeys,
}
use hyperliquid_exporter.Lru.Invariant.{IsLinked, IsValid}
use hyperliquid_exporter.Lru.Methods.{set-IsValid, delete_key-IsValid}
use hyperliquid_exporter.Lru.Refinement.{get-view, set-view, delete_key-view}
use hyperliquid_exporter.Lru.View.{Entry, find_entry, read_entry, write_entry, entry, view}
use hyperliquid_exporter.Base.{
  ℕ, suc, ◌+◌, ◌-◌, ◌<◌, ◌≡◌, refl, sym, ap, ◌∙◌, ◌≢◌, inl, inr, ◌&&◌, Option, none, some, List, [],
  ◌∷◌, arith, ltb, ◌==◌, if◌then◌else◌, Option-cases, Bytes, bytes_discrete, length, ite,
}

module _ {V : Type 0} where
  -- The value that a read at `now` finds in the entries.
  abbrev visible : ℕ → ℕ → Option (Entry V) → Option V
  visible ttl now none = none
  visible ttl now (some e) = if ltb 0 ttl && ltb e.expires_at now then none else some e.value

  unfoldable pub peek : ℕ → ℕ → Bytes → List (Entry V) → Option V
  peek ttl now k l = visible ttl now (find_entry k l)

  read_entry-peek :
      (ttl now : ℕ) (k : Bytes) (l : List (Entry V)) → (read_entry ttl now k l).1 ≡ peek ttl now k l
  unfolding read_entry peek
  read_entry-peek ttl now k l = ground arith

  pub get-peek :
      (now : ℕ) (k : Bytes) (c : LruCache V)
      → IsLinked c
      → (get now k c).1 ≡ peek c.ttl now k (view c)
  get-peek now k c w = (get-view now k c w).1 ∙ read_entry-peek c.ttl now k (view c)

  -- The key that a write of `k` pushes out: the least recent, if `k` is new and the cache is full.
  unfoldable pub victim : LruCache V → Bytes → Option Bytes
  victim c k = elim (find_entry k (view c)) [
    | some e ↦ none
    | none ↦ if length c.lru == c.capacity then last_key (view c) else none
  ]

  ttl-set : (now : ℕ) (k : Bytes) (v : V) (c : LruCache V) → (set now k v c).ttl ≡ c.ttl
  unfolding set update push_front evict remove_oldest remove_element
  ttl-set now k v c = ground arith

  peek-write_self :
      (n ttl now later : ℕ) (k : Bytes) (v : V) (l : List (Entry V))
      → peek ttl later k (write_entry (suc n) ttl now k v l)
        ≡ (if ltb 0 ttl && ltb (now + ttl) later then none else some v)
  unfolding peek write_entry find_entry take
  peek-write_self n ttl now later k v l = elim (Option-cases (find_entry k l)) [
    | inl miss ↦ ground arith
    | inr (e, hit) ↦ ground (arith, find_entry-key k l e hit)
  ]

  -- A read of the key just written gives the value up to its deadline and not after it; without a
  -- TTL it always does.
  pub get-set_self :
      (now later : ℕ) (k : Bytes) (v : V) (c : LruCache V)
      → IsValid c
      → 0 < c.capacity
      → (get later k (set now k v c)).1
        ≡ (if ltb 0 c.ttl && ltb (now + c.ttl) later then none else some v)
  get-set_self now later k v c w pos =
      get-peek later k (set now k v c) (set-IsValid now k v c w).linked
      ∙ rw (ttl-set now k v c, set-view now k v c w, cap)
          (peek-write_self (c.capacity - 1) c.ttl now later k v (view c))
    where
      cap : c.capacity ≡ suc (c.capacity - 1)
      cap = omega arith

  find_entry-write_ne :
      (c : LruCache V) (now : ℕ) (j k : Bytes) (v : V)
      → IsValid c
      → j ≢ k
      → find_entry j (write_entry c.capacity c.ttl now k v (view c))
        ≡ hidden j (victim c k) (find_entry j (view c))
  unfolding write_entry victim find_entry
  find_entry-write_ne c now j k v w other = elim (Option-cases (find_entry k (view c))) [
    | inl miss ↦ ground (
      arith,
      length-map entry c.lru,
      find_entry-new c.capacity j
          (record { key = k; value = v; expires_at = if ltb 0 c.ttl then now + c.ttl else 0 })
          (view c) (omega (arith, length-map entry c.lru, w.bounded))
          (view-DistinctKeys c.lru w.linked.separate) other,
    )
    | inr (e, hit) ↦
        ground (arith, find_entry-key k (view c) e hit, find_entry-erase j k (view c) other)
  ]

  -- A write of `k` leaves every other key as it was for a later read, and hides exactly the
  -- victim: the least recent key, and only if `k` is new and the cache is full.
  pub get-set_ne :
      (now later : ℕ) (j k : Bytes) (v : V) (c : LruCache V)
      → IsValid c
      → j ≢ k
      → (get later j (set now k v c)).1 ≡ hidden j (victim c k) (get later j c).1
  unfolding peek
  get-set_ne now later j k v c w other =
      get-peek later j (set now k v c) (set-IsValid now k v c w).linked
      ∙ rw (ttl-set now k v c, set-view now k v c w, find_entry-write_ne c now j k v w other)
          (visible-hidden (victim c k) (find_entry j (view c)))
      ∙ ap (hidden j (victim c k)) (sym (get-peek later j c w.linked))
    where
      visible-hidden :
          (q : Option Bytes) (r : Option (Entry V))
          → visible c.ttl later (hidden j q r) ≡ hidden j q (visible c.ttl later r)
      visible-hidden none r = refl
      visible-hidden (some q) r = ground arith

  ttl-delete_key : (k : Bytes) (c : LruCache V) → (delete_key k c).ttl ≡ c.ttl
  unfolding delete_key remove_found remove_element
  ttl-delete_key k c = ground arith

  -- A deleted key is gone, and every other key reads as it did.
  pub get-delete_key :
      (later : ℕ) (j k : Bytes) (c : LruCache V)
      → IsValid c
      → (get later j (delete_key k c)).1 ≡ ite (bytes_discrete j k) none (get later j c).1
  unfolding peek
  get-delete_key later j k c w =
      get-peek later j (delete_key k c) (delete_key-IsValid k c w).linked
      ∙ rw (ttl-delete_key k c, delete_key-view k c w.linked)
          (ground (
            arith,
            get-peek later j c w.linked,
            find_entry-erase_self k (view c) (view-DistinctKeys c.lru w.linked.separate),
            find_entry-erase j k (view c),
          ))

  get_all_from-lookup :
      (now : ℕ) (k : Bytes) (c : LruCache V) (m : List (Bytes × ℕ)) (result : List (Bytes × V))
      → Distinct bytes_discrete m
      → lookup bytes_discrete k (get_all_from now c m result) ≡ (
          let old = lookup bytes_discrete k result in
          elim (lookup bytes_discrete k m) [
            | none ↦ old
            | some i ↦ elim (deref i c.lru) [
              | none ↦ old
              | some e ↦ if is_expired now c e then old else some e.value
            ]
          ])
  unfolding lookup get_all_from
  get_all_from-lookup now k c [] result d = refl
  get_all_from-lookup now k c ((q, i) ∷ m) result d = elim (Option-cases (deref i c.lru)) [
    | inl gone ↦ ground (arith, get_all_from-lookup now k c m result d.1)
    | inr (e, here) ↦ ground (
      arith,
      get_all_from-lookup now k c m result d.1,
      get_all_from-lookup now k c m (insert bytes_discrete q e.value result) d.1,
      lookup-insert bytes_discrete k q e.value result,
    )
  ]

  -- `GetAll` holds, for each key, what `Get` would return at the same instant.
  pub lookup-get_all :
      (now : ℕ) (k : Bytes) (c : LruCache V)
      → IsValid c
      → lookup bytes_discrete k (get_all now c) ≡ (get now k c).1
  unfolding get_all get get_element lookup
  lookup-get_all now k c w =
      ground (arith, get_all_from-lookup now k c c.items [] w.linked.distinct)
