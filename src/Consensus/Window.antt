-- ===== src/Consensus/Window.antt =====
-- The sliding window of QCs of internal/monitors/consensus_monitor.go: `addQCWindowEntry`.
use hyperliquid_exporter.Base.Lists.{length-append, All-append}
use hyperliquid_exporter.Consensus.{ConsensusMonitor, QcWindowEntry}
use hyperliquid_exporter.Consensus.Blocks.{drop_stale, trim_size, add_qc_window_entry}
use hyperliquid_exporter.Base.{
  ℕ, zero, suc, ◌+◌, ◌-◌, ◌≤◌, ◌≡◌, refl, ap, ◌∙◌, inl, inr, Bool, List, [], ◌∷◌, ◌++◌, drop, arith,
  ltb, leb, Bool-cases, Bytes, length, All, keep, dec_lt, dec_le,
}

-- The times of the entries do not decrease, and the last is at most `now`.
abbrev pub Ordered : List QcWindowEntry → ℕ → Type 0
Ordered [] now = Unit
Ordered (e ∷ window) now =
    All (λ f. e.timestamp ≤ f.timestamp) window × (e.timestamp ≤ now) × Ordered window now

length-drop : (n : ℕ) (l : List QcWindowEntry) → length (drop n l) ≡ length l - n
unfolding drop
length-drop zero l = omega arith
length-drop (suc n) [] = omega arith
length-drop (suc n) (e ∷ l) = ground (arith, length-drop n l)

length-trim_size : (size : ℕ) (l : List QcWindowEntry) → length (trim_size size l) ≤ size
unfolding trim_size
length-trim_size size l = ground (arith, length-drop (length l - size) l)

length-drop_stale :
    (duration now : ℕ) (l : List QcWindowEntry) → length (drop_stale duration now l) ≤ length l
unfolding drop_stale
length-drop_stale duration now [] = omega arith
length-drop_stale duration now (e ∷ l) = ground (arith, length-drop_stale duration now l)

-- The window never holds more entries than its size.
pub length-add_qc_window_entry :
    (now : ℕ) (signers : List Bytes) (m : ConsensusMonitor)
    → length (add_qc_window_entry now signers m).qc_window ≤ m.window_size
unfolding add_qc_window_entry
length-add_qc_window_entry now signers m =
    let l = m.qc_window ++ record { timestamp = now; signers = signers } ∷ [] in
    omega (
      arith,
      length-trim_size m.window_size l,
      length-drop_stale m.window_duration now (trim_size m.window_size l),
    )

abbrev pub is_recent : ℕ → ℕ → QcWindowEntry → Bool
is_recent duration now e = leb now (e.timestamp + duration)

abbrev pub IsRecent : ℕ → ℕ → QcWindowEntry → Type 0
IsRecent duration now e = now ≤ e.timestamp + duration

All-IsRecent :
    (duration now t : ℕ) (l : List QcWindowEntry)
    → now ≤ t + duration
    → All (λ f. t ≤ f.timestamp) l
    → All (IsRecent duration now) l
All-IsRecent duration now t [] h a = tt
All-IsRecent duration now t (e ∷ l) h a =
    (omega (arith, h, a.0), All-IsRecent duration now t l h a.1)

keep_recent :
    (duration now : ℕ) (l : List QcWindowEntry)
    → All (IsRecent duration now) l
    → keep (is_recent duration now) l ≡ l
unfolding keep
keep_recent duration now [] a = refl
keep_recent duration now (e ∷ l) a = ground (arith, keep_recent duration now l a.1)

-- In an ordered window the prefix that the loop drops is all that is stale.
drop_stale-keep :
    (duration now latest : ℕ) (l : List QcWindowEntry)
    → Ordered l latest
    → drop_stale duration now l ≡ keep (is_recent duration now) l
unfolding drop_stale keep
drop_stale-keep duration now latest [] o = refl
drop_stale-keep duration now latest (e ∷ l) o = elim (dec_le now (e.timestamp + duration)) [
  | yes h ↦
      ground (arith, keep_recent duration now l (All-IsRecent duration now e.timestamp l h o.0))
  | no h ↦ ground (arith, drop_stale-keep duration now latest l o.2)
]

Ordered-drop : (n now : ℕ) (l : List QcWindowEntry) → Ordered l now → Ordered (drop n l) now
unfolding drop
Ordered-drop zero now l o = o
Ordered-drop (suc n) now [] o = tt
Ordered-drop (suc n) now (e ∷ l) o = Ordered-drop n now l o.2

Ordered-trim_size :
    (size now : ℕ) (l : List QcWindowEntry) → Ordered l now → Ordered (trim_size size l) now
unfolding trim_size
Ordered-trim_size size now l o = elim (Bool-cases (ltb size (length l))) [
  | inl h ↦ rw h (Ordered-drop (length l - size) now l o)
  | inr h ↦ rw h o
]

Ordered-append :
    (now : ℕ) (e : QcWindowEntry) (l : List QcWindowEntry)
    → e.timestamp ≡ now
    → Ordered l now
    → Ordered (l ++ e ∷ []) now
Ordered-append now e [] h o = (tt, omega (arith, h), tt)
Ordered-append now e (f ∷ l) h o = (
  All-append (λ g. f.timestamp ≤ g.timestamp) l (e ∷ []) o.0 (omega (arith, h, o.1), tt),
  o.1,
  Ordered-append now e l h o.2,
)

Ordered-drop_stale :
    (duration t now : ℕ) (l : List QcWindowEntry)
    → Ordered l now
    → Ordered (drop_stale duration t l) now
unfolding drop_stale
Ordered-drop_stale duration t now [] o = tt
Ordered-drop_stale duration t now (e ∷ l) o = elim (Bool-cases (ltb (e.timestamp + duration) t)) [
  | inl h ↦ rw h (Ordered-drop_stale duration t now l o.2)
  | inr h ↦ rw h o
]

trim_size-drop :
    (size : ℕ) (l : List QcWindowEntry) (e : QcWindowEntry)
    → trim_size size (l ++ e ∷ []) ≡ drop (length l + 1 - size) (l ++ e ∷ [])
unfolding trim_size drop
trim_size-drop size l e = elim (dec_lt size (length l + 1)) [
  | yes h ↦ ground (arith, length-append l (e ∷ []))
  | no h ↦ ground (arith, length-append l (e ∷ []))
]

-- If the entries are in the order of their times and none is after `now`, the new window is the
-- last `window_size` entries, the new one included, without those older than `window_duration`;
-- and it is in order again.
pub add_qc_window_entry-keep :
    (now : ℕ) (signers : List Bytes) (m : ConsensusMonitor)
    → Ordered m.qc_window now
    → ((add_qc_window_entry now signers m).qc_window
        ≡ keep (is_recent m.window_duration now) (
            drop
              (length m.qc_window + 1 - m.window_size)
              (m.qc_window ++ record { timestamp = now; signers = signers } ∷ [])))
      × Ordered (add_qc_window_entry now signers m).qc_window now
unfolding add_qc_window_entry
add_qc_window_entry-keep now signers m o =
    let e : QcWindowEntry = record { timestamp = now; signers = signers } in
    let l = m.qc_window ++ e ∷ [] in
    let ordered = Ordered-trim_size m.window_size now l (Ordered-append now e m.qc_window refl o) in
    (
      drop_stale-keep m.window_duration now now (trim_size m.window_size l) ordered
          ∙ ap (keep (is_recent m.window_duration now))
              (trim_size-drop m.window_size m.qc_window e),
      Ordered-drop_stale m.window_duration now now (trim_size m.window_size l) ordered,
    )
