-- ===== src/Base/Dict.antt =====
-- Go maps as association lists over the library's `lookup`. A list order stands for the order
-- in which one `range` visits the map; the laws hold for every order.
use Prim.Native.Nat.{suc}
use mathlib.Core.List.{List, [], ◌∷◌, ◌++◌, lookup}
use mathlib.Core.Logic.{ite, if_pos, if_neg, ◌≢◌}
use mathlib.Core.Option.{none, some}
use mathlib.Core.Path.{◌≡◌, refl}
use native.Mathlib.Omega.{arith}
use hyperliquid_exporter.Base.Lists.{length, All}

module _ {ℓ} {K V : Type ℓ} (dec : Discrete K) where
  -- `m[k] = v`
  unfoldable pub insert : K → V → List (K × V) → List (K × V)
  insert k v [] = (k, v) ∷ []
  insert k v ((j, w) ∷ m) = ite (dec k j) ((k, v) ∷ m) ((j, w) ∷ insert k v m)

  -- `delete(m, k)`
  unfoldable pub delete : K → List (K × V) → List (K × V)
  delete k [] = []
  delete k ((j, w) ∷ m) = ite (dec k j) (delete k m) ((j, w) ∷ delete k m)

  -- No key occurs twice.
  abbrev pub Distinct : List (K × V) → Type ℓ
  Distinct [] = Unit
  Distinct ((k, v) ∷ m) = (lookup dec k m ≡ none) × Distinct m

  pub lookup-insert :
      (j k : K) (v : V) (m : List (K × V))
      → lookup dec j (insert k v m) ≡ ite (dec k j) (some v) (lookup dec j m)
  unfolding lookup insert
  lookup-insert j k v [] = ground arith
  lookup-insert j k v ((i, w) ∷ m) = ground (arith, lookup-insert j k v m)

  pub lookup-delete :
      (j k : K) (m : List (K × V)) → lookup dec j (delete k m) ≡ ite (dec k j) none (lookup dec j m)
  unfolding lookup delete
  lookup-delete j k [] = ground arith
  lookup-delete j k ((i, w) ∷ m) = ground (arith, lookup-delete j k m)

  pub insert-Distinct : (k : K) (v : V) (m : List (K × V)) → Distinct m → Distinct (insert k v m)
  unfolding lookup insert
  insert-Distinct k v [] d = ground arith
  insert-Distinct k v ((i, w) ∷ m) d =
      ground (arith, insert-Distinct k v m d.1, lookup-insert i k v m)

  pub delete-Distinct : (k : K) (m : List (K × V)) → Distinct m → Distinct (delete k m)
  unfolding delete
  delete-Distinct k [] d = tt
  delete-Distinct k ((i, w) ∷ m) d = ground (arith, delete-Distinct k m d.1, lookup-delete i k m)

  pub delete_absent : (k : K) (m : List (K × V)) → lookup dec k m ≡ none → delete k m ≡ m
  unfolding lookup delete
  delete_absent k [] h = refl
  delete_absent k ((i, w) ∷ m) h = ground (arith, delete_absent k m)

  pub length-insert_new :
      (k : K) (v : V) (m : List (K × V))
      → lookup dec k m ≡ none
      → length (insert k v m) ≡ suc (length m)
  unfolding lookup insert
  length-insert_new k v [] h = refl
  length-insert_new k v ((i, w) ∷ m) h = ground (arith, length-insert_new k v m)

  pub length-insert_old :
      (k : K) (v w : V) (m : List (K × V))
      → lookup dec k m ≡ some w
      → length (insert k v m) ≡ length m
  unfolding lookup insert
  length-insert_old k v w [] h = cc
  length-insert_old k v w ((i, u) ∷ m) h = ground (arith, length-insert_old k v w m)

  pub length-delete :
      (k : K) (v : V) (m : List (K × V))
      → Distinct m
      → lookup dec k m ≡ some v
      → suc (length (delete k m)) ≡ length m
  unfolding lookup delete
  length-delete k v [] d h = cc
  length-delete k v ((i, u) ∷ m) d h = ground (arith, length-delete k v m d.1, delete_absent k m)

  pub lookup-middle :
      (k : K) (v : V) (l m : List (K × V)) (j : K) → lookup dec j (l ++ (k, v) ∷ m) ≡ none → j ≢ k
  unfolding lookup
  lookup-middle k v [] m j h = ground arith
  lookup-middle k v ((i, w) ∷ l) m j h = ground (arith, lookup-middle k v l m j)

  -- Deleting a key of a map is taking its entry out.
  pub delete-middle :
      (k : K) (v : V) (l m : List (K × V))
      → Distinct (l ++ (k, v) ∷ m)
      → delete k (l ++ (k, v) ∷ m) ≡ l ++ m
  unfolding delete
  delete-middle k v [] m d = ground (arith, delete_absent k m d.0)
  delete-middle k v ((i, w) ∷ l) m d =
      ground (arith, lookup-middle k v l m i d.0, delete-middle k v l m d.1)

  pub insert-All {κ} :
      (P : K × V → Type κ) (k : K) (v : V) (m : List (K × V))
      → P (k, v)
      → All P m
      → All P (insert k v m)
  unfolding insert
  insert-All P k v [] h a = (h, tt)
  insert-All P k v ((j, w) ∷ m) h a = elim (dec k j) [
    | yes e ↦ rw (if_pos _ e) (h, a.1)
    | no e ↦ rw (if_neg _ e) (a.0, insert-All P k v m h a.1)
  ]

  pub delete-All {κ} :
      (P : K × V → Type κ) (k : K) (m : List (K × V)) → All P m → All P (delete k m)
  unfolding delete
  delete-All P k [] a = tt
  delete-All P k ((j, w) ∷ m) a = elim (dec k j) [
    | yes e ↦ rw (if_pos _ e) (delete-All P k m a.1)
    | no e ↦ rw (if_neg _ e) (a.0, delete-All P k m a.1)
  ]

  -- An entry that a lookup finds has what every entry has.
  pub lookup-All {κ} :
      (P : K × V → Type κ) (k : K) (v : V) (m : List (K × V))
      → All P m
      → lookup dec k m ≡ some v
      → P (k, v)
  unfolding lookup
  lookup-All P k v [] a h = cc
  lookup-All P k v ((j, w) ∷ m) a h = elim (dec k j) [
    | yes e ↦ let same : ◌≡◌ {A = K × V} (j, w) (k, v) = ground arith in rw same at a.0
    | no e ↦ lookup-All P k v m a.1 (ground arith)
  ]
