-- ===== src/Lru/Values.antt =====
-- The values that a cache of internal/cache/lru.go holds: what holds of every value written holds
-- of every value read. The settings of the cache stay.
use mathlib.Core.List.{lookup}
use hyperliquid_exporter.Lru.{
  Element, LruCache, deref, unlink, back, remove_element, remove_oldest, is_expired, get_element,
  get, update, push_front, evict, set,
}
use hyperliquid_exporter.Base.{
  ℕ, ◌≡◌, refl, inl, inr, Option, none, some, List, [], ◌∷◌, arith, ltb, Bool-cases, Option-cases,
  Bytes, bytes_discrete, length, All, ℕ_discrete, if_pos, if_neg,
}

module _ {V : Type 0} where
  pub get-settings :
      (now : ℕ) (k : Bytes) (c : LruCache V)
      → ((get now k c).0.capacity ≡ c.capacity) × ((get now k c).0.ttl ≡ c.ttl)
  unfolding get get_element remove_element
  get-settings now k c = ground arith

  pub set-settings :
      (now : ℕ) (k : Bytes) (v : V) (c : LruCache V)
      → ((set now k v c).capacity ≡ c.capacity) × ((set now k v c).ttl ≡ c.ttl)
  unfolding set update push_front evict remove_oldest remove_element
  set-settings now k v c = ground arith

module _ {V : Type 0} (P : V → Type 0) where
  -- Every value in the cache has the property.
  abbrev pub Holds : LruCache V → Type 0
  Holds c = All (λ e. P e.value) c.lru

  unlink-Holds :
      (i : ℕ) (l : List (Element V)) → All (λ e. P e.value) l → All (λ e. P e.value) (unlink i l)
  unfolding unlink
  unlink-Holds i [] h = tt
  unlink-Holds i (e ∷ l) h = elim (ℕ_discrete i e.id) [
    | yes same ↦ rw (if_pos _ same) h.1
    | no other ↦ rw (if_neg _ other) (h.0, unlink-Holds i l h.1)
  ]

  deref-Holds :
      (i : ℕ) (e : Element V) (l : List (Element V))
      → All (λ e. P e.value) l
      → deref i l ≡ some e
      → P e.value
  unfolding deref
  deref-Holds i e [] h found = cc
  deref-Holds i e (f ∷ l) h found = elim (ℕ_discrete i f.id) [
    | yes same ↦ let here : f ≡ e = ground arith in rw here at h.0
    | no other ↦ deref-Holds i e l h.1 (ground arith)
  ]

  get_element-Holds :
      (now : ℕ) (o : Option (Element V)) (c : LruCache V)
      → ((e : Element V) → o ≡ some e → P e.value)
      → Holds c
      → Holds (get_element now o c).0
  unfolding get_element remove_element
  get_element-Holds now none c at h = h
  get_element-Holds now (some e) c at h = elim (Bool-cases (is_expired now c e)) [
    | inl old ↦ rw old (unlink-Holds e.id c.lru h)
    | inr fresh ↦ rw fresh (at e refl, unlink-Holds e.id c.lru h)
  ]

  pub get-Holds : (now : ℕ) (k : Bytes) (c : LruCache V) → Holds c → Holds (get now k c).0
  unfolding get
  get-Holds now k c h = elim (Option-cases (lookup bytes_discrete k c.items)) [
    | inl missing ↦ rw (missing, get) h
    | inr (i, found) ↦
        rw (found, get)
          (get_element-Holds now (deref i c.lru) c (λ e at. deref-Holds i e c.lru h at) h)
  ]

  get_element-found :
      (now : ℕ) (v : V) (o : Option (Element V)) (c : LruCache V)
      → ((e : Element V) → o ≡ some e → P e.value)
      → (get_element now o c).1 ≡ some v
      → P v
  unfolding get_element
  get_element-found now v none c at h = cc
  get_element-found now v (some e) c at h = elim (Bool-cases (is_expired now c e)) [
    | inl old ↦ ground (arith, h, old)
    | inr fresh ↦ let same : e.value ≡ v = ground (arith, h, fresh) in rw same at (at e refl)
  ]

  pub get-found :
      (now : ℕ) (k : Bytes) (v : V) (c : LruCache V) → Holds c → (get now k c).1 ≡ some v → P v
  unfolding get
  get-found now k v c h found = elim (Option-cases (lookup bytes_discrete k c.items)) [
    | inl missing ↦ ground (arith, missing, found)
    | inr (i, at) ↦
        get_element-found now v (deref i c.lru) c (λ e here. deref-Holds i e c.lru h here)
          (rw (at, get) at found)
  ]

  remove_oldest-Holds : (c : LruCache V) → Holds c → Holds (remove_oldest c)
  unfolding remove_oldest remove_element
  remove_oldest-Holds c h = elim (Option-cases (back c.lru)) [
    | inl empty ↦ rw (empty, remove_oldest) h
    | inr (e, last) ↦ rw (last, remove_oldest) (unlink-Holds e.id c.lru h)
  ]

  evict-Holds : (c : LruCache V) → Holds c → Holds (evict c)
  unfolding evict
  evict-Holds c h = elim (Bool-cases (ltb c.capacity (length c.lru))) [
    | inr fits ↦ rw fits h
    | inl over ↦ rw over (remove_oldest-Holds c h)
  ]

  update-Holds :
      (now : ℕ) (v : V) (o : Option (Element V)) (c : LruCache V)
      → P v
      → Holds c
      → Holds (update now v o c)
  unfolding update
  update-Holds now v none c p h = h
  update-Holds now v (some e) c p h = (p, unlink-Holds e.id c.lru h)

  pub set-Holds :
      (now : ℕ) (k : Bytes) (v : V) (c : LruCache V) → P v → Holds c → Holds (set now k v c)
  unfolding set push_front
  set-Holds now k v c p h = elim (Option-cases (lookup bytes_discrete k c.items)) [
    | inl missing ↦ rw (missing, set) (evict-Holds (push_front now k v c) (p, h))
    | inr (i, found) ↦ rw (found, set) (update-Holds now v (deref i c.lru) c p h)
  ]
