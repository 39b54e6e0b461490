-- ===== src/Lru/Tests.antt =====
-- Runs of the cache of internal/cache/lru.go on small inputs, and the theorems at such inputs.
use mathlib.Core.List.{lookup}
use hyperliquid_exporter.Base.Dict.{insert, delete}
use hyperliquid_exporter.Base.Lists.{take}
use hyperliquid_exporter.Lru.Behaviour.{victim}
use hyperliquid_exporter.Lru.Entries.{last_key}
use hyperliquid_exporter.Lru.Invariant.{IsValid, new_lru_cache-IsValid}
use hyperliquid_exporter.Lru.Trace.{
  Call, get_call, set_call, cleanup_call, step, run, step_entries, run_entries, run-IsValid,
  run-view,
}
use hyperliquid_exporter.Lru.View.{find_entry, erase_entry, read_entry, write_entry, view}
use hyperliquid_exporter.Lru.{
  LruCache, new_lru_cache, deref, unlink, back, remove_element, remove_oldest, is_expired,
  get_element, get, update, push_front, evict, set, remove_found, delete_key, len, clear,
  get_all_from, get_all, cleanup_from, backwards, cleanup_expired,
}
use hyperliquid_exporter.Base.{
  ℕ, ◌<◌, ◌≡◌, refl, none, some, List, [], ◌∷◌, ◌++◌, arith, Bytes, codes, bytes_discrete, keep,
  ℕ_discrete,
}

program : Unit {0}
unfolding new_lru_cache deref unlink back remove_element remove_oldest is_expired get_element get
    update push_front evict set remove_found delete_key len clear get_all_from get_all cleanup_from
    backwards cleanup_expired insert delete take find_entry erase_entry read_entry write_entry step
    run step_entries run_entries victim last_key keep bytes_discrete ℕ_discrete lookup
program = tt

abbrev a : Bytes
a = codes "a"

abbrev b : Bytes
b = codes "b"

abbrev d : Bytes
d = codes "d"

-- Two entries with a TTL of 10, a read of the older one, a third entry.
abbrev calls : List (Call ℕ)
calls = set_call 1 a 100 ∷ set_call 2 b 200 ∷ get_call 3 a ∷ set_call 4 d 300 ∷ []

abbrev start : LruCache ℕ
start = record { capacity = 2; ttl = 10; items = []; lru = []; next_id = 0 }

start-IsValid : IsValid start
unfolding new_lru_cache
start-IsValid = new_lru_cache-IsValid {V = ℕ} 2 10

abbrev after_calls : LruCache ℕ
after_calls = run calls start

after_calls-IsValid : IsValid after_calls
after_calls-IsValid = run-IsValid calls start start-IsValid

-- The entry that was not read is the one evicted, and what is left expires on time.
reads :
    ((get 5 b (run calls start)).1 ≡ none)
    × ((get 5 a (run calls start)).1 ≡ some 100)
    × ((get 11 a (run calls start)).1 ≡ some 100)
    × ((get 12 a (run calls start)).1 ≡ none)
    × (get_all 12 (run calls start) ≡ (d, 300) ∷ [])
    × (len (run (calls ++ cleanup_call 12 ∷ []) start) ≡ 1)
unfolding program
reads = (refl, refl, refl, refl, refl, refl)

run-IsValid_example : IsValid (run calls start)
run-IsValid_example = run-IsValid calls start start-IsValid

run-view_example : view (run calls start) ≡ run_entries 2 10 calls []
run-view_example = run-view calls start start-IsValid

roomy : 0 < after_calls.capacity
unfolding program
roomy = omega arith
