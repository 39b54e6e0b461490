-- ===== src/Lru/Refinement.antt =====
-- The methods of the LRU cache implement the abstract one: what they return, and the entries that
-- they leave, are those of internal/cache/lru.go read as a list ordered by use.
use hyperliquid_exporter.Lru.{
  Element, LruCache, unlink, remove_element, is_expired, get_element, get, update, push_front,
  evict, set, delete_key,
}
use hyperliquid_exporter.Lru.Elements.{find, find-key, deref-find}
use hyperliquid_exporter.Lru.Invariant.{IsLinked, IsValid, push_front-IsLinked}
use hyperliquid_exporter.Lru.Methods.{
  get_missing, get_found, set_missing, set_found, delete_missing, delete_found, unlink-back,
  evict_over, evict_fits,
}
use hyperliquid_exporter.Lru.View.{
  find_entry, erase_entry, read_entry, write_entry, entry, view, find_entry-view, erase_entry-view,
  erase_absent,
}
use hyperliquid_exporter.Base.Lists.{take, map-take, take_of_length-le, length-map}
use hyperliquid_exporter.Base.{
  ℕ, suc, ◌≤◌, ◌≡◌, sym, ap, ◌∙◌, inl, inr, some, map, arith, Option-cases, Bytes, length, dec_le,
}

module _ {V : Type 0} where
  found-view :
      (k : Bytes) (c : LruCache V) (e : Element V)
      → IsLinked c
      → find k c.lru ≡ some e
      → (find_entry k (view c) ≡ some (entry e))
        × (map entry (unlink e.id c.lru) ≡ erase_entry k (view c))
  found-view k c e w h = (
    ground (arith, find_entry-view k c.lru),
    ground (
      arith,
      find-key k c.lru e h,
      erase_entry-view c.lru e w.separate (deref-find k c.lru e w.separate h),
    ),
  )

  -- `Get` returns what the abstract cache returns, and leaves its entries.
  pub get-view :
      (now : ℕ) (k : Bytes) (c : LruCache V)
      → IsLinked c
      → (view (get now k c).0 ≡ (read_entry c.ttl now k (view c)).0)
        × ((get now k c).1 ≡ (read_entry c.ttl now k (view c)).1)
  unfolding read_entry get_element is_expired remove_element
  get-view now k c w = elim (Option-cases (find k c.lru)) [
    | inl miss ↦ ground (arith, get_missing now k c w miss, find_entry-view k c.lru)
    | inr (e, hit) ↦ ground (arith, get_found now k c w e hit, found-view k c e w hit)
  ]

  evict-view :
      (c : LruCache V)
      → IsLinked c
      → length c.lru ≤ suc c.capacity
      → view (evict c) ≡ take c.capacity (view c)
  unfolding remove_element
  evict-view c w h = elim (dec_le (length c.lru) c.capacity) [
    | yes fits ↦
        rw (evict_fits c fits)
          (sym (take_of_length-le c.capacity (view c) (omega (arith, length-map entry c.lru))))
    | no over ↦
        let (e, last, removed) = evict_over c (omega arith) in
        ap view removed
        ∙ ap (map entry) (unlink-back c.capacity c.lru e w.separate (omega arith) last)
        ∙ map-take entry c.capacity c.lru
  ]

  -- `Set` leaves the entries of the abstract write.
  pub set-view :
      (now : ℕ) (k : Bytes) (v : V) (c : LruCache V)
      → IsValid c
      → view (set now k v c) ≡ write_entry c.capacity c.ttl now k v (view c)
  unfolding write_entry push_front update
  set-view now k v c w = elim (Option-cases (find k c.lru)) [
    | inl miss ↦ ground (
      arith,
      set_missing now k c w.linked v miss,
      find_entry-view k c.lru,
      evict-view (push_front now k v c) (push_front-IsLinked now k v c w.linked miss)
          (omega (arith, w.bounded)),
    )
    | inr (e, hit) ↦ ground (
      arith,
      set_found now k c w.linked v e hit,
      find-key k c.lru e hit,
      found-view k c e w.linked hit,
    )
  ]

  -- `Delete` drops the entry.
  pub delete_key-view :
      (k : Bytes) (c : LruCache V) → IsLinked c → view (delete_key k c) ≡ erase_entry k (view c)
  unfolding remove_element
  delete_key-view k c w = elim (Option-cases (find k c.lru)) [
    | inl miss ↦
        ground (arith, delete_missing k c w miss, find_entry-view k c.lru, erase_absent k (view c))
    | inr (e, hit) ↦ ground (arith, delete_found k c w e hit, found-view k c e w hit)
  ]
