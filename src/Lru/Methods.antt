-- ===== src/Lru/Methods.antt =====
-- What the methods of the LRU cache do, with the pointers gone, and that each keeps the invariant.
use mathlib.Core.List.{lookup}
use hyperliquid_exporter.Lru.{
  Element, LruCache, deref, unlink, back, remove_element, remove_oldest, is_expired, get_element,
  get, update, push_front, evict, set, remove_found, delete_key, clear,
}
use hyperliquid_exporter.Lru.Elements.{find, Separate, deref-find, length-unlink, back-deref}
use hyperliquid_exporter.Lru.Invariant.{
  IsLinked, IsValid, deref-lookup, lookup-none, remove_element-IsLinked, move-IsLinked,
  push_front-IsLinked,
}
use hyperliquid_exporter.Base.Lists.{take}
use hyperliquid_exporter.Base.{
  ℕ, zero, suc, ◌≤◌, ◌≡◌, refl, ap, inl, inr, none, some, List, [], ◌∷◌, arith, Bool-cases,
  Option-cases, Bytes, length, dec_le,
}

module _ {V : Type 0} where
  module _ (now : ℕ) (k : Bytes) (c : LruCache V) (w : IsLinked c) where
    pub get_missing : find k c.lru ≡ none → get now k c ≡ (c, none)
    unfolding get
    get_missing h = ground (arith, lookup-none k c w h)

    pub get_found :
        (e : Element V) → find k c.lru ≡ some e → get now k c ≡ get_element now (some e) c
    unfolding get
    get_found e h = ground (arith, deref-lookup k c e w h)

    pub set_missing : (v : V) → find k c.lru ≡ none → set now k v c ≡ evict (push_front now k v c)
    unfolding set
    set_missing v h = ground (arith, lookup-none k c w h)

    pub set_found :
        (v : V) (e : Element V) → find k c.lru ≡ some e → set now k v c ≡ update now v (some e) c
    unfolding set
    set_found v e h = ground (arith, deref-lookup k c e w h)

  module _ (k : Bytes) (c : LruCache V) (w : IsLinked c) where
    pub delete_missing : find k c.lru ≡ none → delete_key k c ≡ c
    unfolding delete_key
    delete_missing h = ground (arith, lookup-none k c w h)

    pub delete_found : (e : Element V) → find k c.lru ≡ some e → delete_key k c ≡ remove_element e c
    unfolding delete_key remove_found
    delete_found e h = ground (arith, deref-lookup k c e w h)

  -- The back of a list that is not empty is an element, and removing it keeps the others in order.
  pub back_cons : (f : Element V) (l : List (Element V)) → (e : Element V) × (back (f ∷ l) ≡ some e)
  unfolding back
  back_cons f [] = (f, refl)
  back_cons f (g ∷ l) = back_cons g l

  pub unlink-back :
      (n : ℕ) (l : List (Element V)) (e : Element V)
      → Separate l
      → length l ≡ suc n
      → back l ≡ some e
      → unlink e.id l ≡ take n l
  unfolding unlink back take deref
  unlink-back n [] e s len h = cc
  unlink-back zero (f ∷ []) e s len h = ground arith
  unlink-back zero (f ∷ g ∷ l) e s len h = absurd (omega arith)
  unlink-back (suc n) (f ∷ []) e s len h = absurd (omega arith)
  unlink-back (suc n) (f ∷ g ∷ l) e s len h =
      ground (arith, unlink-back n (g ∷ l) e s.2, back-deref (g ∷ l) e s.2)

  pub evict_over :
      (c : LruCache V)
      → length c.lru ≡ suc c.capacity
      → (e : Element V) × (back c.lru ≡ some e) × (evict c ≡ remove_element e c)
  unfolding evict remove_oldest
  evict_over c over = over_list c.lru refl
    where
      over_list :
          (l : List (Element V))
          → l ≡ c.lru
          → (e : Element V) × (back c.lru ≡ some e) × (evict c ≡ remove_element e c)
      over_list [] h = absurd (omega (arith, ap (length {A = Element V}) h))
      over_list (f ∷ l) h = let (e, b) = back_cons f l in (e, rw h at b, ground (arith, b))

  pub evict_fits : (c : LruCache V) → length c.lru ≤ c.capacity → evict c ≡ c
  unfolding evict
  evict_fits c h = ground arith

  pub remove_element-IsValid :
      (e : Element V) (c : LruCache V)
      → IsLinked c
      → length c.lru ≤ suc c.capacity
      → deref e.id c.lru ≡ some e
      → IsValid (remove_element e c)
  unfolding remove_element
  remove_element-IsValid e c w h d = record {
    linked = unfold remove_element in remove_element-IsLinked e c w d;
    bounded = omega (arith, length-unlink e.id c.lru e d);
  }

  pub move-IsValid :
      (e f : Element V) (c : LruCache V)
      → IsValid c
      → deref e.id c.lru ≡ some e
      → f.id ≡ e.id
      → f.key ≡ e.key
      → IsValid (record c { lru = f ∷ unlink e.id c.lru })
  move-IsValid e f c v d i k = record {
    linked = move-IsLinked e f c v.linked d i k;
    bounded = omega (arith, length-unlink e.id c.lru e d, v.bounded);
  }

  pub get_element-IsValid :
      (now : ℕ) (e : Element V) (c : LruCache V)
      → IsValid c
      → deref e.id c.lru ≡ some e
      → IsValid (get_element now (some e) c).0
  unfolding get_element
  get_element-IsValid now e c v d = elim (Bool-cases (is_expired now c e)) [
    | inl old ↦ rw old (remove_element-IsValid e c v.linked (omega (arith, v.bounded)) d)
    | inr fresh ↦ rw fresh (move-IsValid e e c v d refl refl)
  ]

  -- Every method keeps the invariant.
  pub evict-IsValid :
      (c : LruCache V) → IsLinked c → length c.lru ≤ suc c.capacity → IsValid (evict c)
  evict-IsValid c w h = elim (dec_le (length c.lru) c.capacity) [
    | yes fits ↦ rw (evict_fits c fits) (record { linked = w; bounded = fits })
    | no over ↦
        let (e, last, removed) = evict_over c (omega arith) in
        rw removed (remove_element-IsValid e c w h (back-deref c.lru e w.separate last))
  ]

  pub get-IsValid : (now : ℕ) (k : Bytes) (c : LruCache V) → IsValid c → IsValid (get now k c).0
  unfolding get_element
  get-IsValid now k c v = elim (Option-cases (find k c.lru)) [
    | inl miss ↦ rw (get_missing now k c v.linked miss) v
    | inr (e, hit) ↦
        rw (get_found now k c v.linked e hit)
          (get_element-IsValid now e c v (deref-find k c.lru e v.linked.separate hit))
  ]

  pub set-IsValid :
      (now : ℕ) (k : Bytes) (x : V) (c : LruCache V) → IsValid c → IsValid (set now k x c)
  set-IsValid now k x c v = elim (Option-cases (find k c.lru)) [
    | inl miss ↦ rw (set_missing now k c v.linked x miss) (
        evict-IsValid (push_front now k x c) (push_front-IsLinked now k x c v.linked miss)
          (unfold push_front in omega (arith, v.bounded)))
    | inr (e, hit) ↦ rw (set_found now k c v.linked x e hit) (
        unfold update in
        move-IsValid e _ c v (deref-find k c.lru e v.linked.separate hit) refl refl)
  ]

  pub delete_key-IsValid : (k : Bytes) (c : LruCache V) → IsValid c → IsValid (delete_key k c)
  delete_key-IsValid k c v = elim (Option-cases (find k c.lru)) [
    | inl miss ↦ rw (delete_missing k c v.linked miss) v
    | inr (e, hit) ↦ rw (delete_found k c v.linked e hit) (
        remove_element-IsValid e c v.linked (omega (arith, v.bounded))
          (deref-find k c.lru e v.linked.separate hit))
  ]

  pub clear-IsValid : (c : LruCache V) → IsValid (clear c)
  unfolding clear lookup find
  clear-IsValid c = record {
    linked = record { separate = tt; below = tt; agree = λ k. refl; distinct = tt };
    bounded = omega arith;
  }
