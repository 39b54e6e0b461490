-- ===== src/Traffic/Totals.antt =====
-- The sums of internal/monitors/tcp_traffic_monitor.go: from the flows of a line to the samples,
-- and from the samples to the totals.
use mathlib.Core.List.{lookup, foldl}
use hyperliquid_exporter.Base.Dict.{lookup-insert, Distinct, insert-Distinct}
use hyperliquid_exporter.Traffic.{
  PeerSample, Direction, top_sum, other_sum, publish_tcp_direction, FlowDirection, flow_in,
  flow_out, flow_unknown, Flow, add_value, add_flow, add_flows, samples_of, parse_flows,
}
use hyperliquid_exporter.Base.{
  ℕ, ◌+◌, ◌≡◌, refl, ap, ◌⊎◌, inl, inr, Bool, true, false, if◌then◌else◌, sym, ◌∙◌, Option, none,
  some, List, [], ◌∷◌, arith, Bytes, bytes_discrete, ite,
}

unfoldable pub sum_samples : List PeerSample → ℕ
sum_samples [] = 0
sum_samples (s ∷ samples) = s.value + sum_samples samples

top_sum-other_sum :
    (i : ℕ) (samples : List PeerSample)
    → top_sum i samples + other_sum i samples ≡ sum_samples samples
unfolding top_sum other_sum sum_samples
top_sum-other_sum i [] = omega arith
top_sum-other_sum i (s ∷ samples) = ground (arith, top_sum-other_sum (i + 1) samples)

-- The total of a direction is the sum over all its samples, those in "other" included.
pub publish_tcp_direction-total :
    (samples : List PeerSample) (d : Direction)
    → (publish_tcp_direction samples d).total_traffic ≡ sum_samples samples
unfolding publish_tcp_direction
publish_tcp_direction-total samples d = top_sum-other_sum 0 samples

-- The values of all samples of an address.
unfoldable pub values_at : Bytes → List PeerSample → List ℕ
values_at ip [] = []
values_at ip (s ∷ samples) =
    let rest = values_at ip samples in ite (bytes_discrete ip s.ip) (s.value ∷ rest) rest

abbrev pub same_direction : FlowDirection → FlowDirection → Bool
same_direction flow_in flow_in = true
same_direction flow_out flow_out = true
same_direction flow_unknown flow_unknown = true
same_direction _ _ = false

-- The values of the flows of a direction and an address, in the order of the line.
unfoldable pub flow_values : FlowDirection → Bytes → List (Option Flow) → List ℕ
flow_values d ip [] = []
flow_values d ip (none ∷ flows) = flow_values d ip flows
flow_values d ip (some f ∷ flows) =
    let rest = flow_values d ip flows in
    if same_direction d f.direction
    then ite (bytes_discrete ip f.ip) (f.value ∷ rest) rest
    else rest

-- One sum for some values, added from left to right from zero, and none for no values.
unfoldable pub added_up : (ℕ → ℕ → ℕ) → List ℕ → List ℕ
added_up plus [] = []
added_up plus (v ∷ values) = foldl plus (plus 0 v) values ∷ []

unfoldable add_more : (ℕ → ℕ → ℕ) → Option ℕ → List ℕ → Option ℕ
add_more plus old [] = old
add_more plus old (v ∷ values) =
    add_more plus (some (plus (elim old [ none ↦ 0 | some n ↦ n ]) v)) values

abbrev listed : Option ℕ → List ℕ
listed none = []
listed (some n) = n ∷ []

add_more-some :
    (plus : ℕ → ℕ → ℕ) (n : ℕ) (values : List ℕ)
    → add_more plus (some n) values ≡ some (foldl plus n values)
unfolding add_more
add_more-some plus n [] = refl
add_more-some plus n (v ∷ values) = add_more-some plus (plus n v) values

add_more-none :
    (plus : ℕ → ℕ → ℕ) (values : List ℕ) → listed (add_more plus none values) ≡ added_up plus values
unfolding add_more added_up
add_more-none plus [] = refl
add_more-none plus (v ∷ values) = ap listed (add_more-some plus (plus 0 v) values)

values_at-absent :
    (ip : Bytes) (m : List (Bytes × ℕ))
    → lookup bytes_discrete ip m ≡ none
    → values_at ip (samples_of m) ≡ []
unfolding values_at samples_of lookup
values_at-absent ip [] h = refl
values_at-absent ip ((k, n) ∷ m) h = ground (arith, h, values_at-absent ip m)

values_at-samples_of :
    (ip : Bytes) (m : List (Bytes × ℕ))
    → Distinct bytes_discrete m
    → values_at ip (samples_of m) ≡ listed (lookup bytes_discrete ip m)
unfolding values_at samples_of lookup
values_at-samples_of ip [] d = refl
values_at-samples_of ip ((k, n) ∷ m) d = elim (bytes_discrete ip k) [
  | yes e ↦
      let gone : lookup bytes_discrete ip m ≡ none = ap (λ i. lookup bytes_discrete i m) e ∙ d.0 in
      ground (arith, e, values_at-absent ip m gone)
  | no e ↦ ground (arith, e, values_at-samples_of ip m d.1)
]

direction_cases : (d : FlowDirection) → (d ≡ flow_in) ⊎ ((d ≡ flow_out) ⊎ (d ≡ flow_unknown))
direction_cases flow_in = inl refl
direction_cases flow_out = inr (inl refl)
direction_cases flow_unknown = inr (inr refl)

lookup-add_value :
    (plus : ℕ → ℕ → ℕ) (ip other : Bytes) (n : ℕ) (m : List (Bytes × ℕ)) (values : List ℕ)
    → add_more plus (lookup bytes_discrete ip (add_value plus other n m)) values
      ≡ add_more plus
          (lookup bytes_discrete ip m)
          (ite (bytes_discrete ip other) (n ∷ values) values)
unfolding add_value add_more
lookup-add_value plus ip other n m values =
    let old : ℕ = elim (lookup bytes_discrete other m) [ none ↦ 0 | some k ↦ k ] in
    elim (bytes_discrete ip other) [
      | yes e ↦ ground (
        arith,
        e,
        lookup-insert bytes_discrete ip other (plus old n) m,
        ap (λ i. lookup bytes_discrete i m) e,
      )
      | no e ↦ ground (
        arith,
        λ (h : other ≡ ip). e (sym h),
        lookup-insert bytes_discrete ip other (plus old n) m,
      )
    ]

module _ (plus : ℕ → ℕ → ℕ) where
  lookup-add_flows :
      (ip : Bytes) (flows : List (Option Flow)) (inbound outbound : List (Bytes × ℕ))
      → (lookup bytes_discrete ip (add_flows plus flows (inbound, outbound)).0
          ≡ add_more plus (lookup bytes_discrete ip inbound) (flow_values flow_in ip flows))
        × (lookup bytes_discrete ip (add_flows plus flows (inbound, outbound)).1
            ≡ add_more plus (lookup bytes_discrete ip outbound) (flow_values flow_out ip flows))
  unfolding add_flows add_flow flow_values add_more
  lookup-add_flows ip [] inbound outbound = (refl, refl)
  lookup-add_flows ip (none ∷ flows) inbound outbound = lookup-add_flows ip flows inbound outbound
  lookup-add_flows ip (some f ∷ flows) inbound outbound =
      let in_values = flow_values flow_in ip flows in
      let out_values = flow_values flow_out ip flows in
      elim (direction_cases f.direction) [
        | inl h ↦
            let rest = lookup-add_flows ip flows (add_value plus f.ip f.value inbound) outbound in
            rw h (rest.0 ∙ lookup-add_value plus ip f.ip f.value inbound in_values, rest.1)
        | inr (inl h) ↦
            let rest = lookup-add_flows ip flows inbound (add_value plus f.ip f.value outbound) in
            rw h (rest.0, rest.1 ∙ lookup-add_value plus ip f.ip f.value outbound out_values)
        | inr (inr h) ↦ rw h (lookup-add_flows ip flows inbound outbound)
      ]

  add_flows-Distinct :
      (flows : List (Option Flow)) (inbound outbound : List (Bytes × ℕ))
      → Distinct bytes_discrete inbound
      → Distinct bytes_discrete outbound
      → Distinct bytes_discrete (add_flows plus flows (inbound, outbound)).0
        × Distinct bytes_discrete (add_flows plus flows (inbound, outbound)).1
  unfolding add_flows add_flow add_value
  add_flows-Distinct [] inbound outbound din dout = (din, dout)
  add_flows-Distinct (none ∷ flows) inbound outbound din dout =
      add_flows-Distinct flows inbound outbound din dout
  add_flows-Distinct (some f ∷ flows) inbound outbound din dout =
      elim (direction_cases f.direction) [
        | inl h ↦ rw h (
            add_flows-Distinct flows _ outbound (insert-Distinct bytes_discrete f.ip _ inbound din)
              dout)
        | inr (inl h) ↦ rw h (
            add_flows-Distinct flows inbound _ din
              (insert-Distinct bytes_discrete f.ip _ outbound dout))
        | inr (inr h) ↦ rw h (add_flows-Distinct flows inbound outbound din dout)
      ]

  -- For every address and each of the two directions, the samples have one value, the values of the
  -- flows of that address and direction that decode, added from left to right from zero with
  -- whatever addition, and none if there is no such flow.
  pub values_at-parse_flows :
      (ip : Bytes) (flows : List (Option Flow))
      → (values_at ip (parse_flows plus flows).0 ≡ added_up plus (flow_values flow_in ip flows))
        × (values_at ip (parse_flows plus flows).1 ≡ added_up plus (flow_values flow_out ip flows))
  unfolding parse_flows lookup
  values_at-parse_flows ip flows =
      let (inbound, outbound) = add_flows plus flows ([], []) in
      let distinct = add_flows-Distinct flows [] [] tt tt in
      let found = lookup-add_flows ip flows [] [] in
      (
        values_at-samples_of ip inbound distinct.0
            ∙ ap listed found.0
            ∙ add_more-none plus (flow_values flow_in ip flows),
        values_at-samples_of ip outbound distinct.1
            ∙ ap listed found.1
            ∙ add_more-none plus (flow_values flow_out ip flows),
      )
