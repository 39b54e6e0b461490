-- ===== src/Traffic/Series.antt =====
-- The series that `publishTCPDirection` of internal/monitors/tcp_traffic_monitor.go leaves.
use mathlib.Core.List.{lookup}
use hyperliquid_exporter.Base.Dict.{insert, delete, lookup-insert, lookup-delete}
use hyperliquid_exporter.Traffic.{
  PeerSample, Direction, top_n, other, set_top, other_sum, set_other, drop_series, add_labels,
  publish_tcp_direction,
}
use hyperliquid_exporter.Base.{
  ℕ, ◌+◌, ◌≡◌, refl, inl, inr, Bool, true, false, not, ◌&&◌, ◌||◌, Option, none, some, List, [],
  ◌∷◌, arith, ltb, if◌then◌else◌, Bool-cases, Option-cases, Bytes, bytes_discrete, has, ite,
}

-- `current[ip]`
unfoldable pub is_current : Option Bool → Bool
is_current none = false
is_current (some b) = b

-- Whether one of the samples up to the cutoff has the label.
unfoldable pub in_top : Bytes → ℕ → List PeerSample → Bool
in_top k i [] = false
in_top k i (s ∷ samples) =
    ite (bytes_discrete s.ip k) (ltb i top_n) false || in_top k (i + 1) samples

-- The labels that a direction should have.
unfoldable pub is_published : Bytes → List PeerSample → Bool
is_published k samples =
    in_top k 0 samples || ite (bytes_discrete other k) (ltb 0 (other_sum 0 samples)) false

lookup-set_top :
    (k : Bytes) (i : ℕ) (samples : List PeerSample) (series : List (Bytes × ℕ))
    (current : List (Bytes × Bool))
    → (has (lookup bytes_discrete k (set_top i samples (series, current)).0)
        ≡ in_top k i samples || has (lookup bytes_discrete k series))
      × (has (lookup bytes_discrete k (set_top i samples (series, current)).1)
          ≡ in_top k i samples || has (lookup bytes_discrete k current))
      × (is_current (lookup bytes_discrete k (set_top i samples (series, current)).1)
          ≡ in_top k i samples || is_current (lookup bytes_discrete k current))
unfolding set_top in_top has is_current
lookup-set_top k i [] series current = (refl, refl, refl)
lookup-set_top k i (s ∷ samples) series current = elim (Bool-cases (ltb i top_n)) [
  | inl h ↦ ground (
    arith,
    lookup-set_top k (i + 1) samples (insert bytes_discrete s.ip s.value series)
        (insert bytes_discrete s.ip true current),
    lookup-insert bytes_discrete k s.ip s.value series,
    lookup-insert bytes_discrete k s.ip true current,
  )
  | inr h ↦ ground (arith, lookup-set_top k (i + 1) samples series current)
]

lookup-set_other :
    (k : Bytes) (sum : ℕ) (series : List (Bytes × ℕ)) (current : List (Bytes × Bool))
    → (has (lookup bytes_discrete k (set_other sum (series, current)).0)
        ≡ ite (bytes_discrete other k) (ltb 0 sum) false || has (lookup bytes_discrete k series))
      × (has (lookup bytes_discrete k (set_other sum (series, current)).1)
          ≡ ite (bytes_discrete other k) (ltb 0 sum) false || has (lookup bytes_discrete k current))
      × (is_current (lookup bytes_discrete k (set_other sum (series, current)).1)
          ≡ ite (bytes_discrete other k) (ltb 0 sum) false
            || is_current (lookup bytes_discrete k current))
unfolding set_other has is_current
lookup-set_other k sum series current = elim (Bool-cases (ltb 0 sum)) [
  | inl h ↦ ground (
    arith,
    lookup-insert bytes_discrete k other sum series,
    lookup-insert bytes_discrete k other true current,
  )
  | inr h ↦ ground arith
]

lookup-drop_series :
    (k : Bytes) (current walk : List (Bytes × Bool)) (series : List (Bytes × ℕ))
    (prev : List (Bytes × Bool))
    → (has (lookup bytes_discrete k (drop_series current walk (series, prev)).0) ≡ (
        if has (lookup bytes_discrete k walk) && not (is_current (lookup bytes_discrete k current))
        then false
        else has (lookup bytes_discrete k series)))
      × (has (lookup bytes_discrete k (drop_series current walk (series, prev)).1) ≡ (
          if has (lookup bytes_discrete k walk)
            && not (is_current (lookup bytes_discrete k current))
          then false
          else has (lookup bytes_discrete k prev)))
unfolding drop_series has is_current lookup
lookup-drop_series k current [] series prev = (refl, refl)
lookup-drop_series k current ((ip, x) ∷ walk) series prev =
    let dropped =
      lookup-drop_series k current walk (delete bytes_discrete ip series)
        (delete bytes_discrete ip prev) in
    let from_series = lookup-delete bytes_discrete k ip series in
    let from_prev = lookup-delete bytes_discrete k ip prev in
    elim (Option-cases (lookup bytes_discrete ip current)) [
      | inl h ↦ ground (arith, dropped, from_series, from_prev)
      | inr (b, h) ↦ elim (Bool-cases b) [
        | inl t ↦ ground (arith, lookup-drop_series k current walk series prev)
        | inr f ↦ ground (arith, dropped, from_series, from_prev)
      ]
    ]

lookup-add_labels :
    (k : Bytes) (current prev : List (Bytes × Bool))
    → has (lookup bytes_discrete k (add_labels current prev))
      ≡ has (lookup bytes_discrete k current) || has (lookup bytes_discrete k prev)
unfolding add_labels has lookup
lookup-add_labels k [] prev = refl
lookup-add_labels k ((ip, x) ∷ current) prev = ground (
  arith,
  lookup-add_labels k current (insert bytes_discrete ip true prev),
  lookup-insert bytes_discrete k ip true prev,
)

-- If the series of a direction are those of the labels published before, then after
-- `publishTCPDirection` they are those of the first sixteen samples, and of "other" if the rest
-- has traffic, and the labels that it remembers are the same.
pub publish_tcp_direction-Published :
    (samples : List PeerSample) (d : Direction)
    → ((k : Bytes) → has (lookup bytes_discrete k d.series) ≡ has (lookup bytes_discrete k d.prev))
    → (k : Bytes)
    → (has (lookup bytes_discrete k (publish_tcp_direction samples d).series)
        ≡ is_published k samples)
      × (has (lookup bytes_discrete k (publish_tcp_direction samples d).prev)
          ≡ is_published k samples)
unfolding publish_tcp_direction is_published has is_current lookup
publish_tcp_direction-Published samples d same k =
    let top = set_top 0 samples (d.series, []) in
    let all = set_other (other_sum 0 samples) top in
    let left = drop_series all.1 d.prev (all.0, d.prev) in
    ground (
      arith,
      same k,
      lookup-set_top k 0 samples d.series [],
      lookup-set_other k (other_sum 0 samples) top.0 top.1,
      lookup-drop_series k all.1 d.prev all.0 d.prev,
      lookup-add_labels k all.1 left.1,
    )
