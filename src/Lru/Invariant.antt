-- ===== src/Lru/Invariant.antt =====
-- The invariant of the LRU cache: the map and the list hold the same elements, no key twice, and
-- at most `capacity` of them. Every method of internal/cache/lru.go keeps it.
use mathlib.Core.List.{lookup}
use hyperliquid_exporter.Base.Dict.{
  Distinct, lookup-insert, lookup-delete, insert-Distinct, delete-Distinct,
}
use hyperliquid_exporter.Lru.{
  Element, LruCache, new_lru_cache, deref, unlink, remove_element, push_front,
}
use hyperliquid_exporter.Lru.Elements.{
  find, Separate, Below, deref-find, find-deref, deref-unlink, find-unlink, unlink-Separate,
  unlink-Below, Below-weaken, deref-Below, deref-lt,
}
use hyperliquid_exporter.Base.{
  ℕ, ◌≤◌, ◌≡◌, refl, Option, none, some, ◌∷◌, arith, Bytes, bytes_discrete, length,
}

module _ {V : Type 0} where
  abbrev pub id_of : Option (Element V) → Option ℕ
  id_of none = none
  id_of (some e) = some e.id

  -- The map points at the elements of the list, key by key.
  pub record IsLinked (c : LruCache V) : Type 0 where
    pub separate : Separate c.lru
    pub below : Below c.next_id c.lru
    pub agree : (k : Bytes) → lookup bytes_discrete k c.items ≡ id_of (find k c.lru)
    pub distinct : Distinct bytes_discrete c.items

  pub record IsValid (c : LruCache V) : Type 0 where
    pub linked : IsLinked c
    pub bounded : length c.lru ≤ c.capacity

  pub new_lru_cache-IsValid : (capacity ttl : ℕ) → IsValid (new_lru_cache capacity ttl)
  unfolding new_lru_cache lookup find
  new_lru_cache-IsValid capacity ttl = record {
    linked = record { separate = tt; below = tt; agree = λ k. refl; distinct = tt };
    bounded = omega arith;
  }

  -- The pointer that the map holds for a key leads to the element with that key.
  pub deref-lookup :
      (k : Bytes) (c : LruCache V) (e : Element V)
      → IsLinked c
      → find k c.lru ≡ some e
      → (lookup bytes_discrete k c.items ≡ some e.id) × (deref e.id c.lru ≡ some e)
  deref-lookup k c e w h = (ground (arith, w.agree k), deref-find k c.lru e w.separate h)

  pub lookup-none :
      (k : Bytes) (c : LruCache V)
      → IsLinked c
      → find k c.lru ≡ none
      → lookup bytes_discrete k c.items ≡ none
  lookup-none k c w h = ground (arith, w.agree k)

  pub remove_element-IsLinked :
      (e : Element V) (c : LruCache V)
      → IsLinked c
      → deref e.id c.lru ≡ some e
      → IsLinked (remove_element e c)
  unfolding remove_element
  remove_element-IsLinked e c w h = record {
    separate = unlink-Separate e.id c.lru w.separate;
    below = unlink-Below c.next_id e.id c.lru w.below;
    agree = λ k. ground (
      arith,
      w.agree k,
      lookup-delete bytes_discrete k e.key c.items,
      find-unlink k e.id c.lru e w.separate h,
    );
    distinct = delete-Distinct bytes_discrete e.key c.items w.distinct;
  }

  -- An element is moved to the front, with its key and its identity.
  pub move-IsLinked :
      (e f : Element V) (c : LruCache V)
      → IsLinked c
      → deref e.id c.lru ≡ some e
      → f.id ≡ e.id
      → f.key ≡ e.key
      → IsLinked (record c { lru = f ∷ unlink e.id c.lru })
  unfolding find
  move-IsLinked e f c w h i k = record {
    separate = (
      ground (arith, deref-unlink f.id e.id c.lru w.separate),
      ground (arith, find-unlink f.key e.id c.lru e w.separate h),
      unlink-Separate e.id c.lru w.separate,
    );
    below = (
      ground (arith, deref-lt c.next_id e.id c.lru e w.below h),
      unlink-Below c.next_id e.id c.lru w.below,
    );
    agree = λ q. ground (
      arith,
      w.agree q,
      find-unlink q e.id c.lru e w.separate h,
      find-deref e.id c.lru e w.separate h,
    );
    distinct = w.distinct;
  }

  pub push_front-IsLinked :
      (now : ℕ) (key : Bytes) (value : V) (c : LruCache V)
      → IsLinked c
      → find key c.lru ≡ none
      → IsLinked (push_front now key value c)
  unfolding push_front find
  push_front-IsLinked now key value c w h = record {
    separate = (deref-Below c.next_id c.lru w.below, h, w.separate);
    below = (omega arith, Below-weaken c.next_id c.lru w.below);
    agree = λ k. ground (arith, w.agree k, lookup-insert bytes_discrete k key c.next_id c.items);
    distinct = insert-Distinct bytes_discrete key c.next_id c.items w.distinct;
  }
