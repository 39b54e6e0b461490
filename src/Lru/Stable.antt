-- ===== src/Lru/Stable.antt =====
-- The caches of internal/cache/lru.go that have no TTL: reads change no reads, and writes replace
-- the value of their key while the cache has room.
use hyperliquid_exporter.Lru.{LruCache, get, set}
use hyperliquid_exporter.Lru.Behaviour.{victim, peek, get-peek, get-set_self, get-set_ne}
use hyperliquid_exporter.Lru.Entries.{find_entry-erase, find_entry-key}
use hyperliquid_exporter.Lru.Invariant.{IsValid}
use hyperliquid_exporter.Lru.Methods.{get-IsValid, set-IsValid}
use hyperliquid_exporter.Lru.Refinement.{get-view, set-view}
use hyperliquid_exporter.Lru.Values.{get-settings, set-settings}
use hyperliquid_exporter.Lru.View.{
  Entry, find_entry, erase_entry, read_entry, write_entry, entry, view,
}
use hyperliquid_exporter.Base.Lists.{length-map}
use hyperliquid_exporter.Base.{
  ℕ, zero, suc, ◌+◌, ◌≤◌, ◌<◌, ◌≡◌, refl, sym, ap, ◌∙◌, inl, inr, Option, none, some, List, [], ◌∷◌,
  take, arith, ltb, if◌then◌else◌, Option-cases, Bytes, bytes_discrete, length, has, ite,
}

module _ {V : Type 0} where
  length-erase_found :
      (k : Bytes) (l : List (Entry V)) (e : Entry V)
      → find_entry k l ≡ some e
      → suc (length (erase_entry k l)) ≡ length l
  unfolding find_entry erase_entry
  length-erase_found k [] e h = cc
  length-erase_found k (f ∷ l) e h = elim (bytes_discrete k f.key) [
    | yes same ↦ ground arith
    | no other ↦ ground (arith, length-erase_found k l e)
  ]

  length-read_entry :
      (now : ℕ) (k : Bytes) (l : List (Entry V)) → length (read_entry 0 now k l).0 ≡ length l
  unfolding read_entry
  length-read_entry now k l = elim (Option-cases (find_entry k l)) [
    | inl missing ↦ ground (arith, missing)
    | inr (e, found) ↦ ground (arith, found, length-erase_found k l e found)
  ]

  find_entry-read_entry :
      (now : ℕ) (j k : Bytes) (l : List (Entry V))
      → find_entry j (read_entry 0 now k l).0 ≡ find_entry j l
  unfolding read_entry find_entry
  find_entry-read_entry now j k l = elim (Option-cases (find_entry k l)) [
    | inl missing ↦ ground (arith, missing)
    | inr (e, found) ↦ elim (bytes_discrete j k) [
      | yes same ↦ ground (arith, found, same, find_entry-key k l e found)
      | no other ↦
          ground (arith, found, other, find_entry-key k l e found, find_entry-erase j k l other)
    ]
  ]

  -- The values that the keys have, for a reader at any time.
  pub record IsTable (c : LruCache V) (f : Bytes → Option V) : Type 0 where
    pub valid : IsValid c
    pub no_ttl : c.ttl ≡ 0
    pub has_room : 0 < c.capacity
    pub reads : (later : ℕ) (k : Bytes) → (get later k c).1 ≡ f k

  pub length-get :
      (now : ℕ) (k : Bytes) (c : LruCache V)
      → IsValid c
      → c.ttl ≡ 0
      → length (get now k c).0.lru ≡ length c.lru
  length-get now k c w z =
      sym (length-map entry (get now k c).0.lru)
      ∙ ap length ((get-view now k c w.linked).0)
      ∙ rw z (length-read_entry now k (view c))
      ∙ length-map entry c.lru

  peek-read_entry :
      (now later : ℕ) (j k : Bytes) (l : List (Entry V))
      → peek 0 later j (read_entry 0 now k l).0 ≡ peek 0 later j l
  unfolding peek
  peek-read_entry now later j k l = rw (find_entry-read_entry now j k l) refl

  get-get :
      (now later : ℕ) (j k : Bytes) (c : LruCache V)
      → IsValid c
      → c.ttl ≡ 0
      → (get later j (get now k c).0).1 ≡ (get later j c).1
  get-get now later j k c w z =
      get-peek later j (get now k c).0 (get-IsValid now k c w).linked
      ∙ rw ((get-settings now k c).1, (get-view now k c w.linked).0, z)
          (peek-read_entry now later j k (view c))
      ∙ sym (get-peek later j c w.linked ∙ ap (λ t. peek t later j (view c)) z)

  -- A read leaves what every key reads.
  pub get-IsTable :
      (now : ℕ) (k : Bytes) (c : LruCache V) (f : Bytes → Option V)
      → IsTable c f
      → IsTable (get now k c).0 f
  get-IsTable now k c f t = record {
    valid = get-IsValid now k c t.valid;
    no_ttl = (get-settings now k c).1 ∙ t.no_ttl;
    has_room = rw ((get-settings now k c).0) t.has_room;
    reads = λ later j. get-get now later j k c t.valid t.no_ttl ∙ t.reads later j;
  }

  -- The keys with one more write.
  unfoldable pub updated : Bytes → V → (Bytes → Option V) → Bytes → Option V
  updated k v f j = ite (bytes_discrete j k) (some v) (f j)

  victim_room : (k : Bytes) (c : LruCache V) → length c.lru < c.capacity → victim c k ≡ none
  unfolding victim
  victim_room k c room = elim (Option-cases (find_entry k (view c))) [
    | inl missing ↦ ground arith
    | inr (e, found) ↦ ground (arith, found)
  ]

  get-set_room :
      (now later : ℕ) (j k : Bytes) (v : V) (c : LruCache V)
      → IsValid c
      → c.ttl ≡ 0
      → length c.lru < c.capacity
      → (get later j (set now k v c)).1 ≡ ite (bytes_discrete j k) (some v) (get later j c).1
  get-set_room now later j k v c w z room = elim (bytes_discrete j k) [
    | yes same ↦ ground (arith, same, get-set_self now later k v c w (omega (arith, room)), z)
    | no other ↦ ground (arith, other, get-set_ne now later j k v c w other, victim_room k c room)
  ]

  -- A write with room changes what its own key reads.
  pub set-IsTable :
      (now : ℕ) (k : Bytes) (v : V) (c : LruCache V) (f : Bytes → Option V)
      → IsTable c f
      → length c.lru < c.capacity
      → IsTable (set now k v c) (updated k v f)
  unfolding updated
  set-IsTable now k v c f t room = record {
    valid = set-IsValid now k v c t.valid;
    no_ttl = (set-settings now k v c).1 ∙ t.no_ttl;
    has_room = rw ((set-settings now k v c).0) t.has_room;
    reads = λ later j.
        get-set_room now later j k v c t.valid t.no_ttl room
        ∙ ap (ite (bytes_discrete j k) (some v)) (t.reads later j);
  }

  length-take_le : (n : ℕ) (l : List (Entry V)) → length (take n l) ≤ length l
  unfolding take
  length-take_le zero l = ground arith
  length-take_le (suc n) [] = ground arith
  length-take_le (suc n) (x ∷ l) = ground (arith, length-take_le n l)

  length-write_entry :
      (n ttl now : ℕ) (k : Bytes) (v : V) (l : List (Entry V))
      → length (write_entry n ttl now k v l)
        ≤ (if has (find_entry k l) then length l else suc (length l))
  unfolding write_entry has
  length-write_entry n ttl now k v l = elim (Option-cases (find_entry k l)) [
    | inl missing ↦
        rw (missing, write_entry)
          (length-take_le n
            (record { key = k; value = v; expires_at = if ltb 0 ttl then now + ttl else 0 } ∷ l))
    | inr (e, found) ↦ ground (arith, found, length-erase_found k l e found)
  ]

  has-peek :
      (later : ℕ) (k : Bytes) (l : List (Entry V)) → has (find_entry k l) ≡ has (peek 0 later k l)
  unfolding has peek
  has-peek later k l = elim (Option-cases (find_entry k l)) [
    | inl missing ↦ ground (arith, missing)
    | inr (e, found) ↦ ground (arith, found)
  ]

  has-get :
      (later : ℕ) (k : Bytes) (c : LruCache V)
      → IsValid c
      → c.ttl ≡ 0
      → has (find_entry k (view c)) ≡ has (get later k c).1
  has-get later k c w z =
      has-peek later k (view c)
      ∙ ap has (sym (get-peek later k c w.linked ∙ ap (λ t. peek t later k (view c)) z))

  -- A write adds at most its own key.
  pub length-set :
      (now : ℕ) (k : Bytes) (v : V) (c : LruCache V) (f : Bytes → Option V)
      → IsTable c f
      → length (set now k v c).lru ≤ (if has (f k) then length c.lru else suc (length c.lru))
  length-set now k v c f t =
      rw
        (
          sym (length-map entry (set now k v c).lru),
          set-view now k v c t.valid,
          sym (length-map entry c.lru),
          sym (ap has (t.reads now k)),
          sym (has-get now k c t.valid t.no_ttl),
        )
        (length-write_entry c.capacity c.ttl now k v (view c))
