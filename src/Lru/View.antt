-- ===== src/Lru/View.antt =====
-- The abstract cache of internal/cache/lru.go: a list of entries, the most recent first, with no
-- pointers and no index.
use hyperliquid_exporter.Lru.{Element, LruCache, deref, unlink}
use hyperliquid_exporter.Lru.Elements.{find, Separate, find-deref}
use hyperliquid_exporter.Base.Lists.{take}
use hyperliquid_exporter.Base.{
  ℕ, ◌+◌, ◌≡◌, refl, ◌&&◌, Option, none, some, List, [], ◌∷◌, map, arith, ltb, if◌then◌else◌, Bytes,
  bytes_discrete, ite,
}

pub record Entry (V : Type 0) : Type 0 where
  pub key : Bytes
  pub value : V
  pub expires_at : ℕ

module _ {V : Type 0} where
  unfoldable pub find_entry : Bytes → List (Entry V) → Option (Entry V)
  find_entry k [] = none
  find_entry k (e ∷ l) = ite (bytes_discrete k e.key) (some e) (find_entry k l)

  unfoldable pub erase_entry : Bytes → List (Entry V) → List (Entry V)
  erase_entry k [] = []
  erase_entry k (e ∷ l) = ite (bytes_discrete k e.key) l (e ∷ erase_entry k l)

  unfoldable pub read_entry : ℕ → ℕ → Bytes → List (Entry V) → List (Entry V) × Option V
  read_entry ttl now k l = elim (find_entry k l) [
    | none ↦ (l, none)
    | some e ↦
        if ltb 0 ttl && ltb e.expires_at now
        then (erase_entry k l, none)
        else (e ∷ erase_entry k l, some e.value)
  ]

  -- A write moves the key to the front, with a deadline if there is a TTL, and a new key leaves
  -- the `capacity` most recent entries.
  unfoldable pub write_entry : ℕ → ℕ → ℕ → Bytes → V → List (Entry V) → List (Entry V)
  write_entry capacity ttl now k v l = elim (find_entry k l) [
    | some e ↦
        record e { value = v; expires_at = if ltb 0 ttl then now + ttl else e.expires_at }
        ∷ erase_entry k l
    | none ↦
        take capacity
          (record { key = k; value = v; expires_at = if ltb 0 ttl then now + ttl else 0 } ∷ l)
  ]

  abbrev pub entry : Element V → Entry V
  entry e = record { key = e.key; value = e.value; expires_at = e.expires_at }

  abbrev pub view : LruCache V → List (Entry V)
  view c = map entry c.lru

  abbrev pub entry? : Option (Element V) → Option (Entry V)
  entry? none = none
  entry? (some e) = some (entry e)

  pub find_entry-view :
      (k : Bytes) (l : List (Element V)) → find_entry k (map entry l) ≡ entry? (find k l)
  unfolding find_entry find
  find_entry-view k [] = refl
  find_entry-view k (e ∷ l) = ground (arith, find_entry-view k l)

  pub erase_entry-view :
      (l : List (Element V)) (e : Element V)
      → Separate l
      → deref e.id l ≡ some e
      → map entry (unlink e.id l) ≡ erase_entry e.key (map entry l)
  unfolding erase_entry unlink deref
  erase_entry-view [] e s h = cc
  erase_entry-view (f ∷ l) e s h = ground (arith, erase_entry-view l e s.2, find-deref e.id l e s.2)

  pub erase_absent : (k : Bytes) (l : List (Entry V)) → find_entry k l ≡ none → erase_entry k l ≡ l
  unfolding find_entry erase_entry
  erase_absent k [] h = refl
  erase_absent k (e ∷ l) h = ground (arith, erase_absent k l)
