-- ===== src/Streaming/Tests.antt =====
-- The theorems about the streamer at small caches.
use cautreo.Base.{ℕ, ◌≡◌, ◌⊎◌, refl, true, false, none, some, [], ◌∷◌, get_elem?, arith}
use cautreo.Base.Bytes.{bytes_eq}
use cautreo.Streaming.{
  Streamer, CacheEntry, stream_lazy, zero_stats, zero_entry, find_lru, lru_loop, find_cache,
  matches, streamer_create, streamer_evict_lru, evict_loop, must_evict,
}
use cautreo.Streaming.Operations.{World}
use cautreo.Streaming.Invariant.{Call, run, run-create-Inv}
use cautreo.Streaming.Accounting.{Inv}
use cautreo.Streaming.Eviction.{evict_loop_ends, evict_hides_last}

abbrev region : ℕ → ℕ → CacheEntry
region name time = record {
  name = name ∷ [];
  offset = 0;
  size = 100;
  last_access_ms = time;
  access_count = 1;
  valid = true;
}

abbrev three : Streamer
three = record {
  cfg = record {
    mode = stream_lazy;
    cache_bytes = 350;
    max_cached_regions = 4;
    overlap_io = false;
    prefetch_ahead = 1;
    ssd_path = none;
  };
  cache = region b'a' 1 ∷ region b'b' 5 ∷ region b'c' 9 ∷ zero_entry ∷ [];
  cache_count = 3;
  cache_used_bytes = 300;
  stats = zero_stats;
}

abbrev world : World
world = record {
  t_hit = 20;
  t0 = 20;
  t1 = 21;
  disk = λ path offset size. record { opened = true; count = some size; bytes = [] };
}

run-create-Inv_example : Inv (
    run
      (streamer_create none)
      (Call.read world (some (b'a' ∷ [])) 0 64 (some []) true ∷ Call.evict ∷ []))
run-create-Inv_example =
    run-create-Inv none (Call.read world (some (b'a' ∷ [])) 0 64 (some []) true ∷ Call.evict ∷ [])

evict_loop_ends_example :
    (must_evict (evict_loop 3 three true 200) true 200 ≡ false)
    ⊎ ((streamer_evict_lru (evict_loop 3 three true 200)).1 ≡ false)
evict_loop_ends_example = evict_loop_ends 3 three true 200 (omega arith)

evict_hides_last_example :
    (find_cache three (b'c' ∷ []) 0 ≡ some 2)
    × (get_elem? (streamer_evict_lru three).0.cache 2 ≡ some (region b'c' 9))
    × (find_cache (streamer_evict_lru three).0 (b'c' ∷ []) 0 ≡ none)
unfolding find_lru lru_loop matches bytes_eq
evict_hides_last_example =
    evict_hides_last three 0 2 (region b'c' 9) refl refl (omega arith) refl refl (refl, (refl, tt))
