-- ===== src/Streaming/Eviction.antt =====
-- Which region an eviction takes, when the eviction loop ends, and what becomes of the others.
use cautreo.Base.{
  ℕ, zero, suc, ◌-◌, ◌≤◌, ◌<◌, ◌≡◌, refl, ap, subst, ◌∙◌, ◌≢◌, ◌⊎◌, inl, inr, Bool, true, false,
  none, some, List, take, get_elem?, get_elem?-set_ne, set, arith, All, sym,
}
use cautreo.Base.Bytes.{bytes_eq_iff}
use cautreo.Streaming.{
  Streamer, CacheEntry, zero_entry, find_cache, find_lru, first_index, matches, streamer_evict_lru,
  evict_loop, must_evict, drop_entry,
}
use cautreo.Streaming.Lookup.{
  get_elem?-take, get_elem?-take_below, take-take, lru_loop-least, first_index-skip,
  first_index_absent, All-take-set,
}
use cautreo.Streaming.Accounting.{evict_cases, evict_victim}

-- The victim that is found is a valid entry among the first `cache_count`, and has the least access
-- time of the valid ones among these.
pub find_lru-least :
    (s : Streamer) (i : ℕ)
    → find_lru s ≡ some i
    → (e : CacheEntry) × (get_elem? s.cache i ≡ some e)
      × (e.valid ≡ true)
      × (i < s.cache_count)
      × All (λ f. f.valid ≡ true → e.last_access_ms ≤ f.last_access_ms) (take s.cache_count s.cache)
unfolding find_lru
find_lru-least s i h =
    let (m, source, low, rest) = lru_loop-least 0 (take s.cache_count s.cache) none _ i h in
    elim source [
      | inl (a, b) ↦ absurd (ground arith)
      | inr (e, (k, p, q), ok, t) ↦
          let (inside, below) = get_elem?-take s.cache_count s.cache k q in
          let same : k ≡ i = omega arith in
          (
            e,
            subst (λ j. get_elem? s.cache j ≡ some e) same inside,
            ok,
            omega arith,
            subst
                (λ n. All (λ f. f.valid ≡ true → n ≤ f.last_access_ms) (take s.cache_count s.cache))
                (sym t) rest,
          )
    ]

evict-count :
    (s : Streamer)
    → (streamer_evict_lru s).1 ≡ true
    → (streamer_evict_lru s).0.cache_count < s.cache_count
evict-count s =
    evict_cases (λ r. r.1 ≡ true → r.0.cache_count < s.cache_count) s (λ h. cc)
      (λ i e _ _ _ low _. unfold drop_entry in omega arith)

-- With at least `cache_count` rounds of fuel the eviction loop ends as the source's does: by its
-- test, since the new region fits or nothing is cached, or because an eviction fails.
pub evict_loop_ends :
    (fuel : ℕ) (s : Streamer) (cache : Bool) (size : ℕ)
    → s.cache_count ≤ fuel
    → let t = evict_loop fuel s cache size in
      (must_evict t cache size ≡ false) ⊎ ((streamer_evict_lru t).1 ≡ false)
unfolding evict_loop
evict_loop_ends zero s cache size h = inl (unfold must_evict in ground arith)
evict_loop_ends (suc fuel) s cache size h =
    ground (arith, evict-count s, evict_loop_ends fuel (streamer_evict_lru s).0 cache size)

matches_self : (e : CacheEntry) → e.valid ≡ true → matches e.name e.offset e ≡ true
unfolding matches
matches_self e ok = ground (arith, bytes_eq_iff e.name e.name)

matches_zero : (name : List ℕ) (offset : ℕ) → matches name offset zero_entry ≡ false
unfolding matches
matches_zero name offset = refl

-- The lookup stops at `cache_count`, and an eviction lowers it and leaves a hole. Let entry `k` be
-- valid, the last below `cache_count`, and the first with its name and offset. It is found; but after
-- an eviction whose victim is another entry it stands in the cache as before and is not found.
pub evict_hides_last :
    (s : Streamer) (i k : ℕ) (e : CacheEntry)
    → s.cache_count ≡ suc k
    → find_lru s ≡ some i
    → i ≢ k
    → get_elem? s.cache k ≡ some e
    → e.valid ≡ true
    → All (λ f. matches e.name e.offset f ≡ false) (take k s.cache)
    → let t = (streamer_evict_lru s).0 in
      (find_cache s e.name e.offset ≡ some k)
      × (get_elem? t.cache k ≡ some e)
      × (find_cache t e.name e.offset ≡ none)
unfolding find_cache drop_entry
evict_hides_last s i k e count lru other at ok alone =
    let (f, here, evicted) = evict_victim s i lru in (found, rw evicted kept, rw evicted lost)
  where
    test : CacheEntry → Bool
    test = matches e.name e.offset

    found : first_index test 0 (take s.cache_count s.cache) ≡ some k
    found = rw count (
        first_index-skip test 0 k (take (suc k) s.cache) e
          (rw (take-take k (suc k) s.cache (omega arith)) alone)
          (get_elem?-take_below (suc k) s.cache k (omega arith) ∙ at) (matches_self e ok)
        ∙ ap some (omega arith))

    kept : get_elem? (set s.cache i zero_entry) k ≡ some e
    kept = get_elem?-set_ne s.cache i k zero_entry other ∙ at

    lost : first_index test 0 (take (s.cache_count - 1) (set s.cache i zero_entry)) ≡ none
    lost =
        let less : s.cache_count - 1 ≡ k = omega arith in
        rw less (
          first_index_absent test 0 _
            (All-take-set test k i s.cache zero_entry (matches_zero e.name e.offset) alone))
