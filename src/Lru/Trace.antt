-- ===== src/Lru/Trace.antt =====
-- Runs of the LRU cache of internal/cache/lru.go: any sequence of method calls, each at its own
-- time, from a new cache.
use hyperliquid_exporter.Base.Lists.{keep-map}
use hyperliquid_exporter.Lru.Cleanup.{cleanup_expired-lru, cleanup_expired-IsValid}
use hyperliquid_exporter.Lru.Invariant.{IsValid}
use hyperliquid_exporter.Lru.Methods.{get-IsValid, set-IsValid, delete_key-IsValid, clear-IsValid}
use hyperliquid_exporter.Lru.Refinement.{get-view, set-view, delete_key-view}
use hyperliquid_exporter.Lru.View.{Entry, erase_entry, read_entry, write_entry, entry, view}
use hyperliquid_exporter.Lru.{
  Element, LruCache, get, get_element, set, update, push_front, evict, remove_oldest,
  remove_element, remove_found, delete_key, clear, cleanup_from, cleanup_expired, backwards,
}
use hyperliquid_exporter.Base.{
  ℕ, ◌≡◌, refl, not, List, [], ◌∷◌, arith, ltb, ◌==◌, if◌then◌else◌, Bytes, keep,
}

-- A call of a method that changes the cache, with the time at which it runs.
pub data Call (V : Type 0) : Type 0 where
  get_call : ℕ → Bytes → Call V
  set_call : ℕ → Bytes → V → Call V
  delete_call : Bytes → Call V
  clear_call : Call V
  cleanup_call : ℕ → Call V

module _ {V : Type 0} where
  unfoldable pub step : Call V → LruCache V → LruCache V
  step (get_call now k) c = (get now k c).0
  step (set_call now k v) c = set now k v c
  step (delete_call k) c = delete_key k c
  step clear_call c = clear c
  step (cleanup_call now) c = cleanup_expired now c

  unfoldable pub run : List (Call V) → LruCache V → LruCache V
  run [] c = c
  run (x ∷ calls) c = run calls (step x c)

  -- The same calls on the abstract cache.
  unfoldable pub step_entries : ℕ → ℕ → Call V → List (Entry V) → List (Entry V)
  step_entries capacity ttl (get_call now k) l = (read_entry ttl now k l).0
  step_entries capacity ttl (set_call now k v) l = write_entry capacity ttl now k v l
  step_entries capacity ttl (delete_call k) l = erase_entry k l
  step_entries capacity ttl clear_call l = []
  step_entries capacity ttl (cleanup_call now) l =
      if ttl == 0 then l else keep (λ e. not (ltb e.expires_at now)) l

  unfoldable pub run_entries : ℕ → ℕ → List (Call V) → List (Entry V) → List (Entry V)
  run_entries capacity ttl [] l = l
  run_entries capacity ttl (x ∷ calls) l =
      run_entries capacity ttl calls (step_entries capacity ttl x l)

  step-IsValid : (x : Call V) (c : LruCache V) → IsValid c → IsValid (step x c)
  unfolding step
  step-IsValid (get_call now k) c v = get-IsValid now k c v
  step-IsValid (set_call now k x) c v = set-IsValid now k x c v
  step-IsValid (delete_call k) c v = delete_key-IsValid k c v
  step-IsValid clear_call c v = clear-IsValid c
  step-IsValid (cleanup_call now) c v = cleanup_expired-IsValid now c v

  -- Every cache that any sequence of calls reaches is well formed and within its capacity.
  pub run-IsValid : (calls : List (Call V)) (c : LruCache V) → IsValid c → IsValid (run calls c)
  unfolding run
  run-IsValid [] c v = v
  run-IsValid (x ∷ calls) c v = run-IsValid calls (step x c) (step-IsValid x c v)

  cleanup_from-settings :
      (now : ℕ) (walk : List (Element V)) (c : LruCache V)
      → ((cleanup_from now walk c).capacity ≡ c.capacity) × ((cleanup_from now walk c).ttl ≡ c.ttl)
  unfolding cleanup_from remove_element
  cleanup_from-settings now [] c = (refl, refl)
  cleanup_from-settings now (e ∷ walk) c =
      ground (
        arith,
        cleanup_from-settings now walk c,
        cleanup_from-settings now walk (remove_element e c),
      )

  step-settings :
      (x : Call V) (c : LruCache V) → ((step x c).capacity ≡ c.capacity) × ((step x c).ttl ≡ c.ttl)
  unfolding step get get_element set update push_front evict remove_oldest remove_element delete_key
      remove_found clear cleanup_expired
  step-settings (get_call now k) c = ground arith
  step-settings (set_call now k v) c = ground arith
  step-settings (delete_call k) c = ground arith
  step-settings clear_call c = (refl, refl)
  step-settings (cleanup_call now) c = ground (arith, cleanup_from-settings now (backwards c.lru) c)

  step-view :
      (x : Call V) (c : LruCache V)
      → IsValid c
      → view (step x c) ≡ step_entries c.capacity c.ttl x (view c)
  unfolding step step_entries clear
  step-view (get_call now k) c v = (get-view now k c v.linked).0
  step-view (set_call now k x) c v = set-view now k x c v
  step-view (delete_call k) c v = delete_key-view k c v.linked
  step-view clear_call c v = refl
  step-view (cleanup_call now) c v = ground (
    arith,
    cleanup_expired-lru now c v.linked,
    keep-map (λ (e : Entry V). not (ltb e.expires_at now)) entry c.lru,
  )

  -- After any sequence of calls the entries are those of the abstract cache after the same calls.
  pub run-view :
      (calls : List (Call V)) (c : LruCache V)
      → IsValid c
      → view (run calls c) ≡ run_entries c.capacity c.ttl calls (view c)
  unfolding run run_entries
  run-view [] c v = refl
  run-view (x ∷ calls) c v =
      ground
        (arith, step-view x c v, step-settings x c, run-view calls (step x c) (step-IsValid x c v))
