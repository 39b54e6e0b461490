-- ===== src/Blocks/Streams.antt =====
-- The block monitor over the lines of several streams in any order: the goroutines of the fast and
-- the slow state share the two caches of internal/monitors/block_monitor.go.
use mathlib.Core.List.{lookup}
use hyperliquid_exporter.Lru.{LruCache, new_lru_cache, get, set}
use hyperliquid_exporter.Lru.Invariant.{new_lru_cache-IsValid}
use hyperliquid_exporter.Lru.Stable.{
  IsTable, updated, get-IsTable, set-IsTable, length-get, length-set,
}
use hyperliquid_exporter.Lru.Values.{get-settings, set-settings}
use hyperliquid_exporter.Blocks.{fast, slow, legacy}
use hyperliquid_exporter.Base.{
  ℕ, suc, ◌+◌, ◌≤◌, ◌≡◌, refl, ◌∙◌, inl, inr, Bool, true, false, Option, none, some, arith,
  if◌then◌else◌, Bool-cases, Bytes, bytes_discrete, length, has, ℕ_discrete,
}

-- The streams that a process reads, by their keys in the caches.
pub data Stream : Type 0 where
  fast_state : Stream
  slow_state : Stream
  legacy_state : Stream

abbrev pub name_of : Stream → Bytes
name_of fast_state = fast
name_of slow_state = slow
name_of legacy_state = legacy

unfoldable pub same_stream : Stream → Stream → Bool
same_stream fast_state fast_state = true
same_stream slow_state slow_state = true
same_stream legacy_state legacy_state = true
same_stream _ _ = false

module _ {V : Type 0} where
  unfoldable pub count : (Bytes → Option V) → ℕ
  count f =
      (if has (f fast) then 1 else 0)
      + (if has (f slow) then 1 else 0)
      + (if has (f legacy) then 1 else 0)

  count_le : (f : Bytes → Option V) → count f ≤ 3
  unfolding count
  count_le f = ground arith

  -- What the three keys read in one of the caches, which has room for all of them.
  pub record IsTracking (c : LruCache V) (f : Bytes → Option V) : Type 0 where
    pub table : IsTable c f
    pub few : length c.lru ≤ count f
    pub ten : c.capacity ≡ 10

  pub updated-name :
      (s t : Stream) (v : V) (f : Bytes → Option V)
      → updated (name_of s) v f (name_of t) ≡ (if same_stream s t then some v else f (name_of t))
  unfolding updated same_stream bytes_discrete ℕ_discrete
  updated-name fast_state fast_state v f = refl
  updated-name fast_state slow_state v f = refl
  updated-name fast_state legacy_state v f = refl
  updated-name slow_state fast_state v f = refl
  updated-name slow_state slow_state v f = refl
  updated-name slow_state legacy_state v f = refl
  updated-name legacy_state fast_state v f = refl
  updated-name legacy_state slow_state v f = refl
  updated-name legacy_state legacy_state v f = refl

  count-updated :
      (s : Stream) (v : V) (f : Bytes → Option V)
      → (if has (f (name_of s)) then count f else suc (count f)) ≤ count (updated (name_of s) v f)
  unfolding count same_stream has
  count-updated fast_state v f = ground (
    arith,
    updated-name fast_state fast_state v f,
    updated-name fast_state slow_state v f,
    updated-name fast_state legacy_state v f,
  )
  count-updated slow_state v f = ground (
    arith,
    updated-name slow_state fast_state v f,
    updated-name slow_state slow_state v f,
    updated-name slow_state legacy_state v f,
  )
  count-updated legacy_state v f = ground (
    arith,
    updated-name legacy_state fast_state v f,
    updated-name legacy_state slow_state v f,
    updated-name legacy_state legacy_state v f,
  )

  few_after :
      (now : ℕ) (s : Stream) (v : V) (c : LruCache V) (f : Bytes → Option V)
      → IsTable c f
      → length c.lru ≤ count f
      → length (set now (name_of s) v c).lru ≤ count (updated (name_of s) v f)
  few_after now s v c f t few = elim (Bool-cases (has (f (name_of s)))) [
    | inl old ↦ omega (
      arith,
      few,
      rw old at (count-updated s v f),
      rw old at (length-set now (name_of s) v c f t),
    )
    | inr fresh ↦ omega (
      arith,
      few,
      rw fresh at (count-updated s v f),
      rw fresh at (length-set now (name_of s) v c f t),
    )
  ]

  -- One line: a read of the key and a write of the key.
  pub track-IsTracking :
      (now : ℕ) (s : Stream) (v : V) (c : LruCache V) (f : Bytes → Option V)
      → IsTracking c f
      → IsTracking (set now (name_of s) v (get now (name_of s) c).0) (updated (name_of s) v f)
  track-IsTracking now s v c f t =
      let k = name_of s in
      let read = get-IsTable now k c f t.table in
      let same = length-get now k c t.table.valid t.table.no_ttl in
      let cap = (get-settings now k c).0 ∙ t.ten in
      record {
        table =
            set-IsTable now k v (get now k c).0 f read
              (omega (arith, same, cap, t.few, count_le f));
        few = few_after now s v (get now k c).0 f read (omega (arith, same, t.few));
        ten = (set-settings now k v (get now k c).0).0 ∙ cap;
      }

  pub new-IsTracking : IsTracking (new_lru_cache 10 0) (λ k. none)
  unfolding new_lru_cache get count has lookup
  new-IsTracking = record {
    table = record {
      valid = new_lru_cache-IsValid 10 0;
      no_ttl = refl;
      has_room = omega arith;
      reads = λ later k. refl;
    };
    few = omega arith;
    ten = refl;
  }
