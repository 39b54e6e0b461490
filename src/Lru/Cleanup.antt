-- ===== src/Lru/Cleanup.antt =====
-- `CleanupExpired` of internal/cache/lru.go: the walk from the back removes exactly the expired
-- elements.
use hyperliquid_exporter.Lru.{
  Element, LruCache, deref, unlink, remove_element, backwards, cleanup_from, cleanup_expired,
}
use hyperliquid_exporter.Lru.Elements.{Separate, deref-unlink, unlink-Separate}
use hyperliquid_exporter.Lru.Invariant.{IsLinked, IsValid}
use hyperliquid_exporter.Lru.Methods.{remove_element-IsValid}
use hyperliquid_exporter.Base.Lists.{All-map, All-append, keep-ext, keep-keep, keep-All}
use hyperliquid_exporter.Base.{
  ℕ, ◌≡◌, refl, fun_ext, sym, ap, ◌∙◌, ◌≢◌, inl, inr, Bool, true, false, not, ◌&&◌, ◌||◌, none,
  some, List, [], ◌∷◌, ◌++◌, arith, ltb, ◌==◌, if◌then◌else◌, Bool-cases, All, keep,
}

module _ {V : Type 0} where
  -- Some element of the walk has the identity of `x` and has expired.
  bad : ℕ → List (Element V) → Element V → Bool
  bad now [] x = false
  bad now (e ∷ l) x = e.id == x.id && ltb e.expires_at now || bad now l x

  keep_absent :
      (i : ℕ) (l : List (Element V)) → deref i l ≡ none → keep (λ x. not (i == x.id)) l ≡ l
  unfolding deref keep
  keep_absent i [] h = refl
  keep_absent i (f ∷ l) h = ground (arith, keep_absent i l)

  unlink-keep :
      (i : ℕ) (l : List (Element V)) → Separate l → unlink i l ≡ keep (λ x. not (i == x.id)) l
  unfolding unlink keep
  unlink-keep i [] s = refl
  unlink-keep i (f ∷ l) s = ground (arith, unlink-keep i l s.2, keep_absent f.id l s.0)

  -- The walk keeps the elements that no expired element of the walk stands for.
  cleanup_from-lru :
      (now : ℕ) (walk : List (Element V)) (c : LruCache V)
      → Separate c.lru
      → (cleanup_from now walk c).lru ≡ keep (λ x. not (bad now walk x)) c.lru
  unfolding cleanup_from bad remove_element
  cleanup_from-lru now [] c s = sym (keep-All _ c.lru (all_true c.lru))
    where
      all_true : (l : List (Element V)) → All (λ x. not false ≡ true) l
      all_true [] = tt
      all_true (x ∷ l) = (refl, all_true l)
  cleanup_from-lru now (e ∷ walk) c s = elim (Bool-cases (ltb e.expires_at now)) [
    | inl old ↦
        rw (old, cleanup_from)
          (cleanup_from-lru now walk (remove_element e c) (unlink-Separate e.id c.lru s)
            ∙ ap (keep (λ x. not (bad now walk x))) (unlink-keep e.id c.lru s)
            ∙ keep-keep (λ x. not (bad now walk x)) (λ x. not (e.id == x.id)) c.lru
            ∙ ap (λ f. keep f c.lru) (fun_ext λ x. ground arith))
    | inr fresh ↦
        rw (fresh, cleanup_from)
          (cleanup_from-lru now walk c s ∙ ap (λ f. keep f c.lru) (fun_ext λ x. ground arith))
  ]

  bad-append :
      (now : ℕ) (xs ys : List (Element V)) (x : Element V)
      → bad now (xs ++ ys) x ≡ (bad now xs x || bad now ys x)
  unfolding bad
  bad-append now [] ys x = refl
  bad-append now (e ∷ xs) ys x = ground (arith, bad-append now xs ys x)

  bad-backwards :
      (now : ℕ) (l : List (Element V)) (x : Element V) → bad now (backwards l) x ≡ bad now l x
  unfolding bad backwards
  bad-backwards now [] x = refl
  bad-backwards now (e ∷ l) x =
      ground (arith, bad-backwards now l x, bad-append now (backwards l) (e ∷ []) x)

  bad_absent :
      (now : ℕ) (l : List (Element V)) (x : Element V) → deref x.id l ≡ none → bad now l x ≡ false
  unfolding bad deref
  bad_absent now [] x h = refl
  bad_absent now (e ∷ l) x h = ground (arith, bad_absent now l x)

  -- An element of the list is bad exactly if it has expired itself.
  bad_here :
      (now : ℕ) (l : List (Element V)) (x : Element V)
      → Separate l
      → deref x.id l ≡ some x
      → bad now l x ≡ ltb x.expires_at now
  unfolding bad deref
  bad_here now [] x s h = cc
  bad_here now (e ∷ l) x s h = ground (arith, bad_here now l x s.2, bad_absent now l x)

  members : (l : List (Element V)) → Separate l → All (λ x. deref x.id l ≡ some x) l
  unfolding deref
  members [] s = tt
  members (f ∷ l) s = (
    ground arith,
    All-map (λ x. deref x.id l ≡ some x) (λ x. deref x.id (f ∷ l) ≡ some x) l (λ x h. ground arith)
        (members l s.2),
  )

  -- `CleanupExpired` keeps, in order, the elements whose deadline has not passed, and nothing if
  -- there is no TTL to check.
  pub cleanup_expired-lru :
      (now : ℕ) (c : LruCache V)
      → IsLinked c
      → (cleanup_expired now c).lru
        ≡ (if c.ttl == 0 then c.lru else keep (λ x. not (ltb x.expires_at now)) c.lru)
  unfolding cleanup_expired
  cleanup_expired-lru now c w = ground (
    arith,
    cleanup_from-lru now (backwards c.lru) c w.separate,
    keep-ext (λ x. not (bad now (backwards c.lru) x)) (λ x. not (ltb x.expires_at now)) c.lru
        (All-map (λ x. deref x.id c.lru ≡ some x) _ c.lru
          (λ x h. ground (arith, bad-backwards now c.lru x, bad_here now c.lru x w.separate h))
          (members c.lru w.separate)),
  )

  -- No two elements of a walk have one identity.
  Apart : List (Element V) → Type 0
  Apart [] = Unit
  Apart (e ∷ l) = All (λ f. f.id ≢ e.id) l × Apart l

  still_linked :
      (e : Element V) (l walk : List (Element V))
      → Separate l
      → All (λ f. deref f.id l ≡ some f) walk
      → All (λ f. f.id ≢ e.id) walk
      → All (λ f. deref f.id (unlink e.id l) ≡ some f) walk
  still_linked e l [] s h k = tt
  still_linked e l (f ∷ walk) s h k =
      (ground (arith, deref-unlink f.id e.id l s), still_linked e l walk s h.1 k.1)

  cleanup_from-IsValid :
      (now : ℕ) (walk : List (Element V)) (c : LruCache V)
      → IsValid c
      → All (λ f. deref f.id c.lru ≡ some f) walk
      → Apart walk
      → IsValid (cleanup_from now walk c)
  unfolding cleanup_from Apart remove_element
  cleanup_from-IsValid now [] c v h a = v
  cleanup_from-IsValid now (e ∷ walk) c v h a = elim (Bool-cases (ltb e.expires_at now)) [
    | inl old ↦
        rw (old, cleanup_from)
          (cleanup_from-IsValid now walk (remove_element e c)
            (remove_element-IsValid e c v.linked (omega (arith, v.bounded)) h.0)
            (still_linked e c.lru walk v.linked.separate h.1 a.0) a.1)
    | inr fresh ↦ rw (fresh, cleanup_from) (cleanup_from-IsValid now walk c v h.1 a.1)
  ]

  Apart-append :
      (xs : List (Element V)) (e : Element V)
      → Apart xs
      → All (λ f. f.id ≢ e.id) xs
      → Apart (xs ++ e ∷ [])
  unfolding Apart
  Apart-append [] e a h = (tt, tt)
  Apart-append (x ∷ xs) e a h = (
    All-append (λ f. f.id ≢ x.id) xs (e ∷ []) a.0 ((λ p. h.0 (sym p)), tt),
    Apart-append xs e a.1 h.1,
  )

  All-backwards : (P : Element V → Type 0) (l : List (Element V)) → All P l → All P (backwards l)
  unfolding backwards
  All-backwards P [] h = tt
  All-backwards P (e ∷ l) h = All-append P (backwards l) (e ∷ []) (All-backwards P l h.1) (h.0, tt)

  others : (i : ℕ) (l : List (Element V)) → deref i l ≡ none → All (λ f. f.id ≢ i) l
  unfolding deref
  others i [] h = tt
  others i (f ∷ l) h = ((λ p. ground arith), others i l (ground arith))

  backwards-Apart : (l : List (Element V)) → Separate l → Apart (backwards l)
  unfolding backwards Apart
  backwards-Apart [] s = tt
  backwards-Apart (e ∷ l) s =
      Apart-append (backwards l) e (backwards-Apart l s.2)
        (All-backwards (λ f. f.id ≢ e.id) l (others e.id l s.0))

  pub cleanup_expired-IsValid :
      (now : ℕ) (c : LruCache V) → IsValid c → IsValid (cleanup_expired now c)
  unfolding cleanup_expired
  cleanup_expired-IsValid now c v = elim (Bool-cases (c.ttl == 0)) [
    | inl h ↦ rw h v
    | inr h ↦ rw h (
        cleanup_from-IsValid now (backwards c.lru) c v
          (All-backwards (λ f. deref f.id c.lru ≡ some f) c.lru (members c.lru v.linked.separate))
          (backwards-Apart c.lru v.linked.separate))
  ]
