-- ===== src/Base/Lists.antt =====
-- Lists measured by native numbers, Go strings as lists of bytes, and the filters and folds that
-- the components share.
use Prim.Native.Char.{code}
use Prim.Native.Nat.{ℕ, zero, suc, ◌+◌, ◌≤◌}
use Prim.Native.String.{String}
use mathlib.Core.Bool.{Bool, true, false, ◌&&◌}
use mathlib.Core.List.{List, [], ◌∷◌, ◌++◌, map}
use mathlib.Core.Option.{Option, none, some}
use mathlib.Core.Path.{◌≡◌, refl, ap}
use native.Mathlib.Decide.{ℕ_discrete}
use native.Mathlib.Omega.{arith}
use mathlib.Core.Logic.{◌⊎◌, inl, inr}
use hyperliquid_exporter.Base.Tests.{if◌then◌else◌, Bool-cases}

-- A Go string, or a byte slice.
abbrev pub Bytes : Type 0
Bytes = List ℕ

-- The code points of a text: its bytes, if it is ASCII.
abbrev pub codes : String → Bytes
codes String.[] = []
codes (String.◌∷◌ c s) = code c ∷ codes s

unfoldable pub bytes_discrete : Discrete Bytes
unfolding ℕ_discrete
bytes_discrete = hlevel ℕ_discrete

module _ {ℓ} {A : Type ℓ} where
  abbrev pub length : List A → ℕ
  length [] = 0
  length (x ∷ xs) = suc (length xs)

  -- The elements that pass a Boolean test, in order.
  unfoldable pub keep : (A → Bool) → List A → List A
  keep p [] = []
  keep p (x ∷ xs) = if p x then x ∷ keep p xs else keep p xs

  pub length-append : (xs ys : List A) → length (xs ++ ys) ≡ length xs + length ys
  length-append [] ys = omega arith
  length-append (x ∷ xs) ys = omega (arith, length-append xs ys)

  pub length-keep-le : (p : A → Bool) (xs : List A) → length (keep p xs) ≤ length xs
  unfolding keep
  length-keep-le p [] = omega arith
  length-keep-le p (x ∷ xs) = ground (arith, length-keep-le p xs)

  -- A property of every element.
  abbrev pub All {κ} : (A → Type κ) → List A → Type κ
  All P [] = Unit
  All P (x ∷ xs) = P x × All P xs

module _ {ℓ} {A : Type ℓ} where
  -- `s[:n]`, and the whole of a shorter list.
  unfoldable pub take : ℕ → List A → List A
  take zero l = []
  take (suc k) [] = []
  take (suc k) (a ∷ l) = a ∷ take k l

  pub take_of_length-le : (k : ℕ) (l : List A) → length l ≤ k → take k l ≡ l
  unfolding take
  take_of_length-le k [] short = elim k as (λ m. take m [] ≡ []) [ zero ↦ refl | suc m ↦ refl ]
  take_of_length-le zero (a ∷ l) short = absurd (omega arith)
  take_of_length-le (suc k) (a ∷ l) short = ground (arith, take_of_length-le k l)

  -- `s[n:]`, and nothing of a shorter list.
  unfoldable pub drop : ℕ → List A → List A
  drop zero l = l
  drop (suc k) [] = []
  drop (suc k) (a ∷ l) = drop k l

  pub length-map {κ} : {B : Type κ} (f : A → B) (xs : List A) → length (map f xs) ≡ length xs
  length-map f [] = refl
  length-map f (x ∷ xs) = ap suc (length-map f xs)

pub map-take {ℓ κ} :
    {A : Type ℓ} {B : Type κ} (f : A → B) (n : ℕ) (xs : List A)
    → map f (take n xs) ≡ take n (map f xs)
unfolding take
map-take f (suc n) (x ∷ xs) = ap (◌∷◌ (f x)) (map-take f n xs)
map-take f zero xs = refl
map-take f (suc n) [] = refl

module _ {ℓ κ} {A : Type ℓ} where
  pub All-map : (P Q : A → Type κ) (xs : List A) → ((x : A) → P x → Q x) → All P xs → All Q xs
  All-map P Q [] f h = tt
  All-map P Q (x ∷ xs) f h = (f x h.0, All-map P Q xs f h.1)

  pub All-append : (P : A → Type κ) (xs ys : List A) → All P xs → All P ys → All P (xs ++ ys)
  All-append P [] ys hx hy = hy
  All-append P (x ∷ xs) ys hx hy = (hx.0, All-append P xs ys hx.1 hy)

module _ {ℓ} {A : Type ℓ} where
  -- Two tests that agree on the elements keep the same ones.
  pub keep-ext : (p q : A → Bool) (xs : List A) → All (λ x. p x ≡ q x) xs → keep p xs ≡ keep q xs
  unfolding keep
  keep-ext p q [] h = refl
  keep-ext p q (x ∷ xs) h = ground (arith, keep-ext p q xs h.1)

  pub keep-keep : (p q : A → Bool) (xs : List A) → keep p (keep q xs) ≡ keep (λ x. q x && p x) xs
  unfolding keep
  keep-keep p q [] = refl
  keep-keep p q (x ∷ xs) = ground (arith, keep-keep p q xs)

  pub keep-All : (p : A → Bool) (xs : List A) → All (λ x. p x ≡ true) xs → keep p xs ≡ xs
  unfolding keep
  keep-All p [] h = refl
  keep-All p (x ∷ xs) h = ground (arith, keep-All p xs h.1)

pub keep-map {ℓ κ} :
    {A : Type ℓ} {B : Type κ} (p : B → Bool) (f : A → B) (xs : List A)
    → keep p (map f xs) ≡ map f (keep (λ x. p (f x)) xs)
unfolding keep
keep-map p f [] = refl
keep-map p f (x ∷ xs) = elim (Bool-cases (p (f x))) [
  | inl h ↦ rw (h, keep-map p f xs)
  | inr h ↦ rw (h, keep-map p f xs)
]

-- Whether a lookup finds something.
unfoldable pub has {ℓ} : {A : Type ℓ} → Option A → Bool
has none = false
has (some x) = true

pub List-cases {ℓ} : {A : Type ℓ} (l : List A) → (l ≡ []) ⊎ ((x : A) × (xs : List A) × (l ≡ x ∷ xs))
List-cases [] = inl refl
List-cases (x ∷ xs) = inr (x, xs, refl)
