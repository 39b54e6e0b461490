-- ===== src/ParentPeer/Changes.antt =====
-- The parents that internal/monitors/parent_peer_monitor.go shows over the ticks.
use hyperliquid_exporter.Base.Dict.{insert, delete}
use hyperliquid_exporter.ParentPeer.{
  Tick, ParentPeer, new_parent_peer, leave_parent, change_parent, publish_parent, tick_peers,
  tick_parent_peer, run,
}
use hyperliquid_exporter.Base.{
  ℕ, ◌+◌, ◌≡◌, refl, inl, inr, Bool, true, false, Option, none, some, List, [], ◌∷◌, arith, ◌==◌,
  if◌then◌else◌, Bool-cases, Bytes, bytes_discrete, All, ite,
}

unfoldable pub has_name : Bytes → Bool
has_name [] = false
has_name (b ∷ bs) = true

-- The series of a parent, and none before the first.
unfoldable pub only : Bytes → List (Bytes × ℕ)
only [] = []
only (b ∷ bs) = (b ∷ bs, 1) ∷ []

abbrev pub then_top : Option Bytes → List Bytes → List Bytes
then_top none rest = rest
then_top (some ip) rest = ip ∷ rest

module _ {F : Type 0} where
  -- The address that a tick has at the top.
  unfoldable pub first_ip : List (Bytes × F) → Option Bytes
  first_ip [] = none
  first_ip ((ip, value) ∷ peers) = some ip

  unfoldable pub top_of : Tick F → Option Bytes
  top_of t = if t.snapshot_time == 0 then none else first_ip t.incoming

  -- The tops of the ticks that have one.
  unfoldable pub tops : List (Tick F) → List Bytes
  tops [] = []
  tops (t ∷ ticks) = then_top (top_of t) (tops ticks)

-- The last of the addresses, after a first.
unfoldable pub last_of : Bytes → List Bytes → Bytes
last_of parent [] = parent
last_of parent (ip ∷ ips) = last_of ip ips

-- How often an address differs from the one before it.
unfoldable pub changes : Bytes → List Bytes → ℕ
changes parent [] = 0
changes parent (ip ∷ ips) =
    let rest = changes ip ips in
    if has_name parent then ite (bytes_discrete ip parent) rest (rest + 1) else rest

abbrev IsNamed : Option Bytes → Type 0
IsNamed none = Unit
IsNamed (some ip) = has_name ip ≡ true

then_top-IsNamed :
    (top : Option Bytes) (rest : List Bytes)
    → All (λ ip. has_name ip ≡ true) (then_top top rest)
    → IsNamed top
then_top-IsNamed none rest h = tt
then_top-IsNamed (some ip) rest h = h.0

changes-cons :
    (parent ip : Bytes) (ips : List Bytes)
    → changes parent (ip ∷ ips) ≡ changes parent (ip ∷ []) + changes ip ips
unfolding changes
changes-cons parent ip ips = elim (Bool-cases (has_name parent)) [
  | inl named ↦ elim (bytes_discrete ip parent) [
    | yes same ↦ ground (arith, named, same)
    | no other ↦ ground (arith, named, other)
  ]
  | inr unnamed ↦ ground (arith, unnamed)
]

module _ {F : Type 0} where
  pub record IsShown (p : ParentPeer F) (parent : Bytes) (count : ℕ) : Type 0 where
    pub current : p.current_parent ≡ parent
    pub series : p.info_series ≡ only parent
    pub counted : p.switches ≡ count

  tick_peers-IsShown :
      (now : ℕ) (ip : Bytes) (value : F) (peers : List (Bytes × F)) (p : ParentPeer F)
      (parent : Bytes) (count : ℕ)
      → has_name ip ≡ true
      → IsShown p parent count
      → IsShown (tick_peers now ((ip, value) ∷ peers) p) ip (count + changes parent (ip ∷ []))
  unfolding tick_peers publish_parent change_parent leave_parent only changes insert delete has_name
  tick_peers-IsShown now [] value peers p parent count named w = cc
  tick_peers-IsShown now (x ∷ xs) value peers p [] count named w = record {
    current = ground (arith, w.current, w.series, w.counted);
    series = ground (arith, w.current, w.series, w.counted);
    counted = ground (arith, w.current, w.series, w.counted);
  }
  tick_peers-IsShown now (x ∷ xs) value peers p (y ∷ ys) count named w = record {
    current = ground (arith, w.current, w.series, w.counted);
    series = ground (arith, w.current, w.series, w.counted);
    counted = ground (arith, w.current, w.series, w.counted);
  }

  abbrev AfterTop : Option Bytes → ParentPeer F → Bytes → ℕ → Type 0
  AfterTop none p parent count = IsShown p parent count
  AfterTop (some ip) p parent count = IsShown p ip (count + changes parent (ip ∷ []))

  first-AfterTop :
      (now : ℕ) (incoming : List (Bytes × F)) (p : ParentPeer F) (parent : Bytes) (count : ℕ)
      → IsNamed (first_ip incoming)
      → IsShown p parent count
      → AfterTop (first_ip incoming) (tick_peers now incoming p) parent count
  unfolding first_ip tick_peers
  first-AfterTop now [] p parent count named w = w
  first-AfterTop now ((ip, value) ∷ peers) p parent count named w =
      tick_peers-IsShown now ip value peers p parent count named w

  tick-AfterTop :
      (t : Tick F) (p : ParentPeer F) (parent : Bytes) (count : ℕ)
      → IsNamed (top_of t)
      → IsShown p parent count
      → AfterTop (top_of t) (tick_parent_peer t p) parent count
  unfolding top_of tick_parent_peer
  tick-AfterTop t p parent count named w = elim (Bool-cases (t.snapshot_time == 0)) [
    | inl early ↦ rw early w
    | inr sampled ↦
        rw sampled (first-AfterTop t.now t.incoming p parent count (rw sampled at named) w)
  ]

  run-step :
      (top : Option Bytes) (rest : List Bytes) (ticks : List (Tick F)) (p : ParentPeer F)
      (parent : Bytes) (count : ℕ)
      → All (λ ip. has_name ip ≡ true) (then_top top rest)
      → AfterTop top p parent count
      → ((q : ParentPeer F) (from : Bytes) (n : ℕ)
          → All (λ ip. has_name ip ≡ true) rest
          → IsShown q from n
          → IsShown (run ticks q) (last_of from rest) (n + changes from rest))
      → IsShown
          (run ticks p)
          (last_of parent (then_top top rest))
          (count + changes parent (then_top top rest))
  unfolding last_of
  run-step none rest ticks p parent count named w ih = ih p parent count named w
  run-step (some ip) rest ticks p parent count named w ih =
      let total : count + changes parent (ip ∷ rest)
          ≡ count + changes parent (ip ∷ []) + changes ip rest =
        omega (arith, changes-cons parent ip rest) in
      rw total (ih p ip (count + changes parent (ip ∷ [])) named.1 w)

  run-IsShown :
      (ticks : List (Tick F)) (p : ParentPeer F) (parent : Bytes) (count : ℕ)
      → All (λ ip. has_name ip ≡ true) (tops ticks)
      → IsShown p parent count
      → IsShown (run ticks p) (last_of parent (tops ticks)) (count + changes parent (tops ticks))
  unfolding run tops last_of changes
  run-IsShown [] p parent count named w = record {
    current = w.current;
    series = w.series;
    counted = ground (arith, w.counted);
  }
  run-IsShown (t ∷ ticks) p parent count named w =
      run-step (top_of t) (tops ticks) ticks (tick_parent_peer t p) parent count named
        (tick-AfterTop t p parent count (then_top-IsNamed (top_of t) (tops ticks) named) w)
        (λ q from n h v. run-IsShown ticks q from n h v)

  -- After any ticks of which those with a sample have an address at the top, the monitor holds the
  -- last of these addresses, the info series are that of this address alone, and none before the
  -- first, and the switches are as many as the changes from one of these addresses to the next.
  pub run-parent :
      (ticks : List (Tick F))
      → All (λ ip. has_name ip ≡ true) (tops ticks)
      → IsShown (run ticks new_parent_peer) (last_of [] (tops ticks)) (changes [] (tops ticks))
  unfolding new_parent_peer only
  run-parent ticks named =
      let w : IsShown new_parent_peer [] 0 = record {
        current = refl;
        series = refl;
        counted = refl;
      } in
      let shown = run-IsShown ticks new_parent_peer [] 0 named w in
      record {
        current = shown.current;
        series = shown.series;
        counted = ground (arith, shown.counted);
      }
