-- ===== src/Lru/Entries.antt =====
-- The abstract cache as a list of entries: what a search by key finds after a removal, and after
-- the list is cut to a capacity.
use hyperliquid_exporter.Base.Lists.{take, take_of_length-le}
use hyperliquid_exporter.Lru.{Element}
use hyperliquid_exporter.Lru.Elements.{Separate}
use hyperliquid_exporter.Lru.View.{Entry, find_entry, erase_entry, entry, find_entry-view}
use hyperliquid_exporter.Base.{
  ℕ, zero, suc, ◌≤◌, ◌≡◌, refl, sym, ap, ◌∙◌, ◌≢◌, inl, inr, Option, none, some, List, [], ◌∷◌, map,
  arith, ◌==◌, if◌then◌else◌, Option-cases, Bytes, bytes_discrete, length, ite, dec_le,
}

-- What is left of a find when the victim is gone.
abbrev pub hidden : {W : Type 0} → Bytes → Option Bytes → Option W → Option W
hidden j none r = r
hidden j (some q) r = ite (bytes_discrete j q) none r

module _ {V : Type 0} where
  -- The key of the last entry.
  unfoldable pub last_key : List (Entry V) → Option Bytes
  last_key [] = none
  last_key (e ∷ []) = some e.key
  last_key (e ∷ f ∷ l) = last_key (f ∷ l)

  pub find_entry-erase :
      (j k : Bytes) (l : List (Entry V)) → j ≢ k → find_entry j (erase_entry k l) ≡ find_entry j l
  unfolding find_entry erase_entry
  find_entry-erase j k [] h = refl
  find_entry-erase j k (e ∷ l) h = ground (arith, find_entry-erase j k l h)

  pub find_entry-take :
      (j : Bytes) (n : ℕ) (l : List (Entry V))
      → length l ≤ suc n
      → (length l ≡ suc n → last_key l ≢ some j)
      → find_entry j (take n l) ≡ find_entry j l
  unfolding find_entry take last_key
  find_entry-take j zero [] len h = refl
  find_entry-take j (suc n) [] len h = refl
  find_entry-take j zero (e ∷ []) len h = ground (arith, h refl)
  find_entry-take j zero (e ∷ f ∷ l) len h = absurd (omega arith)
  find_entry-take j (suc n) (e ∷ []) len h = rw (take_of_length-le {A = Entry V} n [] (omega arith))
  find_entry-take j (suc n) (e ∷ f ∷ l) len h =
      ground (arith, find_entry-take j n (f ∷ l) (omega arith) (λ p. h (ap suc p)))

  pub last_key-found :
      (j : Bytes) (l : List (Entry V)) → last_key l ≡ some j → find_entry j l ≢ none
  unfolding find_entry last_key
  last_key-found j [] h = cc
  last_key-found j (e ∷ []) h = ground arith
  last_key-found j (e ∷ f ∷ l) h = ground (arith, last_key-found j (f ∷ l) h)

  unfoldable pub DistinctKeys : List (Entry V) → Type 0
  DistinctKeys [] = Unit
  DistinctKeys (e ∷ l) = (find_entry e.key l ≡ none) × DistinctKeys l

  pub find_entry-take_last :
      (j : Bytes) (n : ℕ) (l : List (Entry V))
      → length l ≡ suc n
      → DistinctKeys l
      → last_key l ≡ some j
      → find_entry j (take n l) ≡ none
  unfolding find_entry take last_key DistinctKeys
  find_entry-take_last j n [] len d h = cc
  find_entry-take_last j zero (e ∷ l) len d h = refl
  find_entry-take_last j (suc n) (e ∷ []) len d h = absurd (omega arith)
  find_entry-take_last j (suc n) (e ∷ f ∷ l) len d h =
      ground
        (arith, find_entry-take_last j n (f ∷ l) (omega arith) d.1 h, last_key-found j (f ∷ l) h)

  pub view-DistinctKeys : (l : List (Element V)) → Separate l → DistinctKeys (map entry l)
  unfolding DistinctKeys
  view-DistinctKeys [] s = tt
  view-DistinctKeys (e ∷ l) s = (ground (arith, find_entry-view e.key l), view-DistinctKeys l s.2)

  pub find_entry-key :
      (k : Bytes) (l : List (Entry V)) (e : Entry V) → find_entry k l ≡ some e → e.key ≡ k
  unfolding find_entry
  find_entry-key k [] e h = cc
  find_entry-key k (f ∷ l) e h = ground (arith, find_entry-key k l e)

  pub find_entry-erase_self :
      (k : Bytes) (l : List (Entry V)) → DistinctKeys l → find_entry k (erase_entry k l) ≡ none
  unfolding find_entry erase_entry DistinctKeys
  find_entry-erase_self k [] d = refl
  find_entry-erase_self k (e ∷ l) d = ground (arith, find_entry-erase_self k l d.1)

  pub find_entry-new :
      (capacity : ℕ) (j : Bytes) (e : Entry V) (l : List (Entry V))
      → length l ≤ capacity
      → DistinctKeys l
      → j ≢ e.key
      → find_entry j (take capacity (e ∷ l))
        ≡ hidden j (if length l == capacity then last_key l else none) (find_entry j l)
  unfolding find_entry take last_key DistinctKeys
  find_entry-new zero j e [] len d other = refl
  find_entry-new zero j e (f ∷ l) len d other = absurd (omega arith)
  find_entry-new (suc n) j e l len d other = elim (dec_le (length l) n) [
    | yes fits ↦ ground (arith, take_of_length-le n l fits)
    | no full ↦ elim (Option-cases (last_key l)) [
      | inl empty ↦ ground (arith, find_entry-take j n l len (λ _ h. cc))
      | inr (q, last) ↦ elim (bytes_discrete j q) [
        | yes p ↦
            ground (arith, find_entry-take_last j n l (omega arith) d (last ∙ ap some (sym p)))
        | no p ↦ ground (arith, find_entry-take j n l len (λ _ h. p (ground arith)))
      ]
    ]
  ]
