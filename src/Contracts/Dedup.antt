-- ===== src/Contracts/Dedup.antt =====
-- How often a worker of internal/contracts/resolver.go fetches an address.
use mathlib.Core.List.{lookup}
use hyperliquid_exporter.Base.Dict.{insert, lookup-insert}
use hyperliquid_exporter.Contracts.{
  TokenResponse, SmartContractResponse, Resolver, minute, tried_recently, clean_from, clean_seen,
  work,
}
use hyperliquid_exporter.Base.{
  ℕ, ◌+◌, ◌-◌, ◌*◌, ◌≤◌, ◌<◌, ◌≡◌, ◌⊎◌, inl, inr, true, false, Option, some, List, [], ◌∷◌, arith,
  ltb, if◌then◌else◌, Bool-cases, Bytes, bytes_discrete, length, All,
}

-- A job of a worker, with the resolver as the other workers and the clients have left it.
pub record Job : Type 0 where
  pub now : ℕ
  pub later : ℕ
  pub addr : Bytes
  pub token : Option TokenResponse
  pub contract : Option SmartContractResponse
  pub resolver : Resolver

-- The clock of the worker goes on.
abbrev pub InOrder : ℕ → List Job → Type 0
InOrder clock [] = Unit
InOrder clock (j ∷ jobs) = (clock ≤ j.now) × (j.now ≤ j.later) × InOrder j.later jobs

-- Two fetches of one address are at least five minutes apart.
abbrev pub Apart : ℕ → Bytes → ℕ × Bytes → Type 0
Apart time addr f = f.1 ≡ addr → time + 5 * minute ≤ f.0

abbrev pub Spaced : List (ℕ × Bytes) → Type 0
Spaced [] = Unit
Spaced ((time, addr) ∷ fetched) = All (Apart time addr) fetched × Spaced fetched

module _ (lower : Bytes → Bytes) where
  -- The fetches that a worker makes, with their times.
  unfoldable pub fetches : List Job → List (Bytes × ℕ) → List (ℕ × Bytes)
  fetches [] seen = []
  fetches (j ∷ jobs) seen =
      let (next, r, fetched) = work lower j.now j.later j.addr j.token j.contract seen j.resolver in
      let rest = fetches jobs next in if fetched then (j.now, j.addr) ∷ rest else rest

-- A fetch at a time is still remembered, or is more than ten minutes ago.
abbrev Remembers : ℕ → Bytes → ℕ → List (Bytes × ℕ) → Type 0
Remembers time addr clock seen =
    ((t : ℕ) × (lookup bytes_discrete addr seen ≡ some t) × (time ≤ t))
    ⊎ (time + 10 * minute < clock)

clean_from-lookup :
    (now t : ℕ) (addr : Bytes) (seen : List (Bytes × ℕ))
    → lookup bytes_discrete addr seen ≡ some t
    → (lookup bytes_discrete addr (clean_from now seen) ≡ some t) ⊎ (t + 10 * minute < now)
unfolding clean_from lookup
clean_from-lookup now t addr [] h = cc
clean_from-lookup now t addr ((k, v) ∷ seen) h = elim (Bool-cases (ltb (10 * minute) (now - v))) [
  | inl old ↦ elim (bytes_discrete addr k) [
    | yes same ↦ inr (ground (arith, h, old, same))
    | no other ↦ elim (clean_from-lookup now t addr seen (ground (arith, h, other))) [
      | inl stays ↦ inl (ground (arith, old, stays))
      | inr gone ↦ inr gone
    ]
  ]
  | inr fresh ↦ elim (bytes_discrete addr k) [
    | yes same ↦ inl (ground (arith, h, fresh, same))
    | no other ↦ elim (clean_from-lookup now t addr seen (ground (arith, h, other))) [
      | inl stays ↦ inl (ground (arith, fresh, stays, other))
      | inr gone ↦ inr gone
    ]
  ]
]

clean_seen-Remembers :
    (time now : ℕ) (addr : Bytes) (t : ℕ) (seen : List (Bytes × ℕ))
    → lookup bytes_discrete addr seen ≡ some t
    → time ≤ t
    → Remembers time addr now (clean_seen now seen)
unfolding clean_seen
clean_seen-Remembers time now addr t seen h le = elim (Bool-cases (ltb 1000 (length seen))) [
  | inr few ↦ rw few (inl (t, h, le))
  | inl many ↦ elim (clean_from-lookup now t addr seen h) [
    | inl stays ↦ rw many (inl (t, stays, le))
    | inr gone ↦ inr (omega (arith, gone, le))
  ]
]

module _ (lower : Bytes → Bytes) where
  work-skips :
      (j : Job) (seen : List (Bytes × ℕ))
      → (work lower j.now j.later j.addr j.token j.contract seen j.resolver).2 ≡ false
      → (work lower j.now j.later j.addr j.token j.contract seen j.resolver).0 ≡ seen
  unfolding work
  work-skips j seen h = ground (arith, h)

  work-fetches :
      (j : Job) (seen : List (Bytes × ℕ))
      → (work lower j.now j.later j.addr j.token j.contract seen j.resolver).2 ≡ true
      → (tried_recently j.now (lookup bytes_discrete j.addr seen) ≡ false)
        × ((work lower j.now j.later j.addr j.token j.contract seen j.resolver).0
            ≡ clean_seen j.later (insert bytes_discrete j.addr j.now seen))
  unfolding work
  work-fetches j seen h = (ground (arith, h), ground (arith, h))

  due-apart :
      (time now : ℕ) (addr : Bytes) (clock : ℕ) (seen : List (Bytes × ℕ))
      → Remembers time addr clock seen
      → clock ≤ now
      → tried_recently now (lookup bytes_discrete addr seen) ≡ false
      → time + 5 * minute ≤ now
  unfolding tried_recently
  due-apart time now addr clock seen (inr long) le due = omega (arith, long, le)
  due-apart time now addr clock seen (inl (t, known, after)) le due =
      ground (arith, known, after, le, due)

  insert-Remembers :
      (time : ℕ) (addr : Bytes) (clock : ℕ) (j : Job) (seen : List (Bytes × ℕ))
      → time ≤ clock
      → clock ≤ j.now
      → j.now ≤ j.later
      → Remembers time addr clock seen
      → Remembers time addr j.later (clean_seen j.later (insert bytes_discrete j.addr j.now seen))
  insert-Remembers time addr clock j seen before le ends (inr long) =
      inr (omega (arith, long, le, ends))
  insert-Remembers time addr clock j seen before le ends (inl (t, known, after)) =
      elim (bytes_discrete j.addr addr) [
        | yes same ↦
            clean_seen-Remembers time j.later addr j.now (insert bytes_discrete j.addr j.now seen)
              (ground (arith, same, lookup-insert bytes_discrete addr j.addr j.now seen))
              (omega (arith, before, le))
        | no other ↦
            clean_seen-Remembers time j.later addr t (insert bytes_discrete j.addr j.now seen)
              (ground (arith, other, known, lookup-insert bytes_discrete addr j.addr j.now seen))
              after
      ]

  later-Remembers :
      (time : ℕ) (addr : Bytes) (clock later : ℕ) (seen : List (Bytes × ℕ))
      → clock ≤ later
      → Remembers time addr clock seen
      → Remembers time addr later seen
  later-Remembers time addr clock later seen le (inl known) = inl known
  later-Remembers time addr clock later seen le (inr long) = inr (omega (arith, long, le))

  fetches-Apart :
      (time : ℕ) (addr : Bytes) (clock : ℕ) (jobs : List Job) (seen : List (Bytes × ℕ))
      → time ≤ clock
      → InOrder clock jobs
      → Remembers time addr clock seen
      → All (Apart time addr) (fetches lower jobs seen)
  unfolding fetches
  fetches-Apart time addr clock [] seen before order rem = tt
  fetches-Apart time addr clock (j ∷ jobs) seen before order rem =
      let step = work lower j.now j.later j.addr j.token j.contract seen j.resolver in
      elim (Bool-cases step.2) [
        | inr skipped ↦
            let same = work-skips j seen skipped in
            rw (skipped, same)
              (fetches-Apart time addr j.later jobs seen (omega (arith, before, order.0, order.1))
                order.2
                (later-Remembers time addr clock j.later seen (omega (arith, order.0, order.1))
                  rem))
        | inl fetched ↦
            let (due, next) = work-fetches j seen fetched in
            rw (fetched, next)
              (
                λ same.
                    due-apart time j.now addr clock seen rem order.0 (ground (arith, same, due)),
                fetches-Apart time addr j.later jobs _ (omega (arith, before, order.0, order.1))
                    order.2 (insert-Remembers time addr clock j seen before order.0 order.1 rem),
              )
      ]

  -- A worker whose clock goes on never fetches an address twice within five minutes, whatever the
  -- jobs, the replies and what the others do to the cache, and also after a clean-up of what it
  -- remembers.
  pub fetches-Spaced :
      (clock : ℕ) (jobs : List Job) (seen : List (Bytes × ℕ))
      → InOrder clock jobs
      → Spaced (fetches lower jobs seen)
  unfolding fetches
  fetches-Spaced clock [] seen order = tt
  fetches-Spaced clock (j ∷ jobs) seen order =
      let step = work lower j.now j.later j.addr j.token j.contract seen j.resolver in
      let rest = fetches-Spaced j.later jobs step.0 order.2 in
      elim (Bool-cases step.2) [
        | inr skipped ↦ rw skipped rest
        | inl fetched ↦
            let (due, next) = work-fetches j seen fetched in
            rw fetched (
              fetches-Apart j.now j.addr j.later jobs step.0 order.1 order.2 (
                  rw next (
                    clean_seen-Remembers j.now j.later j.addr j.now
                      (insert bytes_discrete j.addr j.now seen)
                      (ground (arith, lookup-insert bytes_discrete j.addr j.addr j.now seen))
                      (omega arith))),
              rest,
            )
      ]
