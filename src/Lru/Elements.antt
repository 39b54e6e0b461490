-- ===== src/Lru/Elements.antt =====
-- The linked list of the cache: what `Remove` and a pointer's target do to a search by key, when
-- the identities and the keys are distinct.
use hyperliquid_exporter.Lru.{Element, deref, unlink, back}
use hyperliquid_exporter.Base.{
  ℕ, suc, ◌+◌, ◌<◌, ◌≡◌, refl, Option, none, some, List, [], ◌∷◌, arith, Bytes, bytes_discrete,
  length, ite, ℕ_discrete,
}

module _ {V : Type 0} where
  -- The first element with a key.
  unfoldable pub find : Bytes → List (Element V) → Option (Element V)
  find k [] = none
  find k (e ∷ l) = ite (bytes_discrete k e.key) (some e) (find k l)

  -- No identity, and no key, occurs twice.
  abbrev pub Separate : List (Element V) → Type 0
  Separate [] = Unit
  Separate (e ∷ l) = (deref e.id l ≡ none) × (find e.key l ≡ none) × Separate l

  abbrev pub Below : ℕ → List (Element V) → Type 0
  Below n [] = Unit
  Below n (e ∷ l) = (e.id < n) × Below n l

  pub find-key : (k : Bytes) (l : List (Element V)) (e : Element V) → find k l ≡ some e → e.key ≡ k
  unfolding find
  find-key k [] e h = cc
  find-key k (f ∷ l) e h = ground (arith, find-key k l e)

  pub deref-id : (i : ℕ) (l : List (Element V)) (e : Element V) → deref i l ≡ some e → e.id ≡ i
  unfolding deref
  deref-id i [] e h = cc
  deref-id i (f ∷ l) e h = ground (arith, deref-id i l e)

  -- An element found by its key is the target of its pointer.
  pub deref-find :
      (k : Bytes) (l : List (Element V)) (e : Element V)
      → Separate l
      → find k l ≡ some e
      → deref e.id l ≡ some e
  unfolding deref find
  deref-find k [] e s h = cc
  deref-find k (f ∷ l) e s h = ground (arith, deref-find k l e s.2)

  pub find-deref :
      (i : ℕ) (l : List (Element V)) (e : Element V)
      → Separate l
      → deref i l ≡ some e
      → find e.key l ≡ some e
  unfolding deref find
  find-deref i [] e s h = cc
  find-deref i (f ∷ l) e s h = ground (arith, find-deref i l e s.2)

  pub deref-unlink :
      (j i : ℕ) (l : List (Element V))
      → Separate l
      → deref j (unlink i l) ≡ ite (ℕ_discrete j i) none (deref j l)
  unfolding deref unlink
  deref-unlink j i [] s = ground arith
  deref-unlink j i (f ∷ l) s = ground (arith, deref-unlink j i l s.2)

  pub find-unlink :
      (k : Bytes) (i : ℕ) (l : List (Element V)) (e : Element V)
      → Separate l
      → deref i l ≡ some e
      → find k (unlink i l) ≡ ite (bytes_discrete k e.key) none (find k l)
  unfolding find deref unlink
  find-unlink k i [] e s h = cc
  find-unlink k i (f ∷ l) e s h = ground (arith, find-unlink k i l e s.2, find-deref i l e s.2)

  pub find-unlink-none :
      (k : Bytes) (i : ℕ) (l : List (Element V)) → find k l ≡ none → find k (unlink i l) ≡ none
  unfolding find unlink
  find-unlink-none k i [] h = refl
  find-unlink-none k i (f ∷ l) h = ground (arith, find-unlink-none k i l)

  pub unlink-Separate : (i : ℕ) (l : List (Element V)) → Separate l → Separate (unlink i l)
  unfolding unlink
  unlink-Separate i [] s = tt
  unlink-Separate i (f ∷ l) s =
      ground
        (arith, deref-unlink f.id i l s.2, find-unlink-none f.key i l s.1, unlink-Separate i l s.2)

  pub unlink-Below : (n i : ℕ) (l : List (Element V)) → Below n l → Below n (unlink i l)
  unfolding unlink
  unlink-Below n i [] b = tt
  unlink-Below n i (f ∷ l) b = ground (arith, unlink-Below n i l b.1)

  pub Below-weaken : (n : ℕ) (l : List (Element V)) → Below n l → Below (n + 1) l
  Below-weaken n [] b = tt
  Below-weaken n (f ∷ l) b = (omega arith, Below-weaken n l b.1)

  pub deref-Below : (n : ℕ) (l : List (Element V)) → Below n l → deref n l ≡ none
  unfolding deref
  deref-Below n [] b = refl
  deref-Below n (f ∷ l) b = ground (arith, deref-Below n l b.1)

  pub length-unlink :
      (i : ℕ) (l : List (Element V)) (e : Element V)
      → deref i l ≡ some e
      → suc (length (unlink i l)) ≡ length l
  unfolding deref unlink
  length-unlink i [] e h = cc
  length-unlink i (f ∷ l) e h = ground (arith, length-unlink i l e)

  pub back-deref :
      (l : List (Element V)) (e : Element V) → Separate l → back l ≡ some e → deref e.id l ≡ some e
  unfolding back deref
  back-deref [] e s h = cc
  back-deref (f ∷ []) e s h = ground arith
  back-deref (f ∷ g ∷ l) e s h = ground (arith, back-deref (g ∷ l) e s.2)

  pub deref-lt :
      (n i : ℕ) (l : List (Element V)) (e : Element V) → Below n l → deref i l ≡ some e → e.id < n
  unfolding deref
  deref-lt n i [] e b h = cc
  deref-lt n i (f ∷ l) e b h = ground (arith, deref-lt n i l e b.1)
