-- ===== src/Consensus/Connectivity.antt =====
-- The connectivity series of internal/monitors/consensus_monitor.go: the calls that
-- `processDisconnectedValidatorsRaw` makes, against the set of disconnected pairs that it keeps.
use mathlib.Core.List.{lookup}
use hyperliquid_exporter.Base.Dict.{insert, lookup-insert}
use hyperliquid_exporter.Consensus.{ConsensusMonitor, Emission, connectivity, connectivity_removed}
use hyperliquid_exporter.Consensus.Status.{
  split_underscore, pair_key, new_disconnected, two_parts, removals, additions,
  process_disconnected_validators,
}
use hyperliquid_exporter.Base.{
  ℕ, ◌≡◌, refl, sym, ap, ◌∙◌, ◌≢◌, inl, inr, Bool, true, false, not, ◌&&◌, ◌||◌, Option, none, some,
  List, [], ◌∷◌, ◌++◌, arith, ◌==◌, if◌then◌else◌, ==_iff, Bool-cases, Option-cases, Bytes,
  bytes_discrete, has, ite,
}

-- No byte is an underscore, as in every address.
unfoldable pub no_underscore : Bytes → Bool
no_underscore [] = true
no_underscore (b ∷ bs) = not (b == b'_') && no_underscore bs

split-cons :
    (bs : Bytes) → (part : Bytes) × (parts : List Bytes) × (split_underscore bs ≡ part ∷ parts)
unfolding split_underscore
split-cons [] = ([], [], refl)
split-cons (b ∷ bs) = elim (Bool-cases (b == b'_')) [
  | inl h ↦ ([], split_underscore bs, rw h refl)
  | inr h ↦ let (part, parts, same) = split-cons bs in (b ∷ part, parts, rw (h, same) refl)
]

split_plain : (bs : Bytes) → no_underscore bs ≡ true → split_underscore bs ≡ bs ∷ []
unfolding split_underscore no_underscore
split_plain [] h = refl
split_plain (b ∷ bs) h = ground (arith, split_plain bs)

split-pair_key :
    (v p : Bytes)
    → no_underscore v ≡ true
    → no_underscore p ≡ true
    → split_underscore (pair_key v p) ≡ v ∷ p ∷ []
unfolding split_underscore no_underscore pair_key
split-pair_key [] p h k = ground (arith, split_plain p k)
split-pair_key (b ∷ v) p h k = ground (arith, split-pair_key v p, k)

unfoldable join_underscore : List Bytes → Bytes
join_underscore [] = []
join_underscore (a ∷ []) = a
join_underscore (a ∷ b ∷ l) = a ++ b'_' ∷ join_underscore (b ∷ l)

join-cons :
    (b : ℕ) (part : Bytes) (parts : List Bytes)
    → join_underscore ((b ∷ part) ∷ parts) ≡ b ∷ join_underscore (part ∷ parts)
unfolding join_underscore
join-cons b part [] = refl
join-cons b part (q ∷ parts) = refl

join-split : (bs : Bytes) → join_underscore (split_underscore bs) ≡ bs
unfolding join_underscore split_underscore
join-split [] = refl
join-split (b ∷ bs) =
    let (part, parts, same) = split-cons bs in
    let ih : join_underscore (part ∷ parts) ≡ bs = ap join_underscore (sym same) ∙ join-split bs in
    elim (Bool-cases (b == b'_')) [
      | inl h ↦ rw (h, same) (ap (◌∷◌ b'_') ih ∙ ap (λ c. c ∷ bs) (sym ((==_iff b b'_').0 h)))
      | inr h ↦ rw (h, same) (join-cons b part parts ∙ ap (◌∷◌ b) ih)
    ]

two_parts-some : (l : List Bytes) (v p : Bytes) → two_parts l ≡ some (v, p) → l ≡ v ∷ p ∷ []
two_parts-some [] v p h = cc
two_parts-some (a ∷ []) v p h = cc
two_parts-some (a ∷ b ∷ []) v p h = ground arith
two_parts-some (a ∷ b ∷ c ∷ l) v p h = cc

split-key : (key v p : Bytes) → two_parts (split_underscore key) ≡ some (v, p) → key ≡ pair_key v p
unfolding join_underscore pair_key
split-key key v p h =
    sym (join-split key) ∙ ap join_underscore (two_parts-some (split_underscore key) v p h)

unfoldable pub same_pair : Bytes → Bytes → Bytes → Bytes → Bool
same_pair v p w q = ite (bytes_discrete v w) (ite (bytes_discrete p q) true false) false

-- Whether the series of a pair exists after a call, if it did or did not before.
unfoldable pub shown : Bytes → Bytes → Bool → Emission → Bool
shown v p b (connectivity w q n) = if same_pair v p w q then true else b
shown v p b (connectivity_removed w q) = if same_pair v p w q then false else b
shown v p b _ = b

unfoldable pub shown_after : Bytes → Bytes → Bool → List Emission → Bool
shown_after v p b [] = b
shown_after v p b (e ∷ l) = shown_after v p (shown v p b e) l

shown_after-append :
    (v p : Bytes) (b : Bool) (l k : List Emission)
    → shown_after v p b (l ++ k) ≡ shown_after v p (shown_after v p b l) k
unfolding shown_after
shown_after-append v p b [] k = refl
shown_after-append v p b (e ∷ l) k = shown_after-append v p (shown v p b e) l k

-- The pair of a key is the pair asked for exactly if the key is that pair's.
same_pair-key :
    (v p key w q : Bytes)
    → no_underscore v ≡ true
    → no_underscore p ≡ true
    → two_parts (split_underscore key) ≡ some (w, q)
    → same_pair v p w q ≡ ite (bytes_discrete (pair_key v p) key) true false
unfolding same_pair
same_pair-key v p key w q hv hp h = elim (bytes_discrete (pair_key v p) key) [
  | yes e ↦
      let both : some (w, q) ≡ some (v, p) =
        sym h
        ∙ ap (λ k. two_parts (split_underscore k)) (sym e)
        ∙ ap two_parts (split-pair_key v p hv hp) in
      ground (arith, both)
  | no e ↦ ground (arith, split-key key w q h)
]

-- A key of another shape is not the pair's.
other_shape :
    (v p key : Bytes)
    → no_underscore v ≡ true
    → no_underscore p ≡ true
    → two_parts (split_underscore key) ≡ none
    → pair_key v p ≢ key
other_shape v p key hv hp h e =
    let both : ◌≡◌ {A = Option (Bytes × Bytes)} none (some (v, p)) =
      sym h
      ∙ ap (λ k. two_parts (split_underscore k)) (sym e)
      ∙ ap two_parts (split-pair_key v p hv hp) in
    ground (arith, both)

module _ (v p : Bytes) (hv : no_underscore v ≡ true) (hp : no_underscore p ≡ true) where
  shown-removals :
      (new old : List (Bytes × Bool)) (b : Bool)
      → shown_after v p b (removals new old) ≡ (
          if has (lookup bytes_discrete (pair_key v p) old)
            && not (has (lookup bytes_discrete (pair_key v p) new))
          then false
          else b)
  unfolding removals shown_after shown has lookup
  shown-removals new [] b = refl
  shown-removals new ((key, x) ∷ old) b = elim (Option-cases (lookup bytes_discrete key new)) [
    | inr (y, found) ↦ ground (arith, shown-removals new old b)
    | inl gone ↦ elim (Option-cases (two_parts (split_underscore key))) [
      | inl other ↦ ground (arith, shown-removals new old b, other_shape v p key hv hp other)
      | inr ((w, q), parts) ↦ ground (
        arith,
        shown-removals new old b,
        shown-removals new old false,
        same_pair-key v p key w q hv hp parts,
      )
    ]
  ]

  shown-additions :
      (old new : List (Bytes × Bool)) (b : Bool)
      → shown_after v p b (additions old new) ≡ (
          if has (lookup bytes_discrete (pair_key v p) new)
            && not (has (lookup bytes_discrete (pair_key v p) old))
          then true
          else b)
  unfolding additions shown_after shown has lookup
  shown-additions old [] b = refl
  shown-additions old ((key, x) ∷ new) b = elim (Option-cases (lookup bytes_discrete key old)) [
    | inr (y, found) ↦ ground (arith, shown-additions old new b)
    | inl gone ↦ elim (Option-cases (two_parts (split_underscore key))) [
      | inl other ↦ ground (arith, shown-additions old new b, other_shape v p key hv hp other)
      | inr ((w, q), parts) ↦ ground (
        arith,
        shown-additions old new b,
        shown-additions old new true,
        same_pair-key v p key w q hv hp parts,
      )
    ]
  ]

-- Whether a pair is in a list of pairs.
unfoldable pub listed : Bytes → Bytes → List (Bytes × Bytes) → Bool
listed v p [] = false
listed v p ((w, q) ∷ pairs) = same_pair v p w q || listed v p pairs

underscore_inside : (w q : Bytes) → no_underscore (w ++ b'_' ∷ q) ≡ false
unfolding no_underscore
underscore_inside [] q = refl
underscore_inside (c ∷ w) q = ground (arith, underscore_inside w q)

pair_key_inj :
    (v p w q : Bytes)
    → no_underscore v ≡ true
    → no_underscore p ≡ true
    → pair_key v p ≡ pair_key w q
    → (v ≡ w) × (p ≡ q)
unfolding pair_key no_underscore
pair_key_inj [] p [] q hv hp h = ground arith
pair_key_inj [] p (c ∷ w) q hv hp h = ground (arith, underscore_inside w q)
pair_key_inj (b ∷ v) p [] q hv hp h = ground arith
pair_key_inj (b ∷ v) p (c ∷ w) q hv hp h = ground (arith, pair_key_inj v p w q)

has-new_disconnected :
    (v p : Bytes) (pairs : List (Bytes × Bytes)) (set : List (Bytes × Bool))
    → no_underscore v ≡ true
    → no_underscore p ≡ true
    → has (lookup bytes_discrete (pair_key v p) (new_disconnected pairs set))
      ≡ listed v p pairs || has (lookup bytes_discrete (pair_key v p) set)
unfolding new_disconnected listed has same_pair
has-new_disconnected v p [] set hv hp = refl
has-new_disconnected v p ((w, q) ∷ pairs) set hv hp =
    elim (bytes_discrete (pair_key w q) (pair_key v p)) [
      | yes e ↦ ground (
        arith,
        has-new_disconnected v p pairs (insert bytes_discrete (pair_key w q) true set) hv hp,
        lookup-insert bytes_discrete (pair_key v p) (pair_key w q) true set,
        pair_key_inj v p w q hv hp (sym e),
      )
      | no e ↦ ground (
        arith,
        has-new_disconnected v p pairs (insert bytes_discrete (pair_key w q) true set) hv hp,
        lookup-insert bytes_discrete (pair_key v p) (pair_key w q) true set,
        λ (h : v ≡ w) (k : p ≡ q). e (ground (arith, h, k)),
      )
    ]

-- The last call for a pair, if the pair is in the set exactly when `b` says so before, and the set
-- after.
pub process_disconnected_validators-Shown :
    (v p : Bytes) (pairs : List (Bytes × Bytes)) (m : ConsensusMonitor)
    → no_underscore v ≡ true
    → no_underscore p ≡ true
    → (shown_after v p
          (has (lookup bytes_discrete (pair_key v p) m.disconnected_set))
          (process_disconnected_validators (some pairs) m).1
        ≡ listed v p pairs)
      × (has (
            lookup bytes_discrete
              (pair_key v p)
              (process_disconnected_validators (some pairs) m).0.disconnected_set)
          ≡ listed v p pairs)
unfolding process_disconnected_validators has lookup
process_disconnected_validators-Shown v p pairs m hv hp =
    let new = new_disconnected pairs [] in
    let old = m.disconnected_set in
    let b = has (lookup bytes_discrete (pair_key v p) old) in
    let kept = has-new_disconnected v p pairs [] hv hp in
    ground (
      arith,
      kept,
      shown_after-append v p b (removals new old) (additions old new),
      shown-removals v p hv hp new old b,
      shown-additions v p hv hp old new (shown_after v p b (removals new old)),
    )
