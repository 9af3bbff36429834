-- ===== src/Streaming/Invariant.antt =====
-- Every operation keeps the counters of the cache in agreement with its entries.
use cautreo.Base.{
  ℕ, zero, suc, ◌≡◌, refl, subst, inl, inr, Bool, true, false, not, ◌&&◌, Option, none, some, List,
  [], ◌∷◌, length-set, length-replicate, replicate, take, get_elem?, set, ltb, arith, Bool-cases,
  Option-cases, inc32, ◌==◌,
}
use cautreo.Streaming.{
  Streamer, CacheEntry, zero_entry, find_cache, first_index, streamer_create, StreamConfig,
  platform_read, weight_path, streamer_path_max, streamer_evict_lru,
}
use cautreo.Streaming.Lookup.{get_elem?-take, first_index-At}
use cautreo.Streaming.Accounting.{
  Inv, n_valid, valid_bytes, n_valid-set, valid_bytes-set, n_valid-le, evict_loop-Inv,
  streamer_evict_lru-Inv,
}
use cautreo.Streaming.Operations.{
  World, touch, put_entry, cache_region, new_entry, read_miss, streamer_read, streamer_write,
  streamer_prefetch, read_at, prefetch_at, prefetch_result, count_read, count_miss, add_io_time,
}

n_valid-replicate : (n : ℕ) → n_valid (replicate n zero_entry) ≡ 0
unfolding n_valid
n_valid-replicate zero = refl
n_valid-replicate (suc n) = omega (arith, n_valid-replicate n)

valid_bytes-replicate : (n : ℕ) → valid_bytes (replicate n zero_entry) ≡ 0
unfolding valid_bytes
valid_bytes-replicate zero = refl
valid_bytes-replicate (suc n) = omega (arith, valid_bytes-replicate n)

touch-Inv : (s : Streamer) (now ci : ℕ) → Inv s → Inv (touch s now ci)
unfolding touch
touch-Inv s now ci v = elim (Option-cases (get_elem? s.cache ci)) [
  | inl e ↦ rw (e, touch) v
  | inr (e, at) ↦
      let f : CacheEntry = record e { last_access_ms = now; access_count = inc32 e.access_count } in
      rw (at, touch)
        (record {
          counted = omega (arith, v.counted, n_valid-set s.cache ci e f at);
          summed = ground (arith, valid_bytes-set s.cache ci e f at);
          room = omega (arith, length-set s.cache ci f);
        })
]

put_entry-Inv :
    (s : Streamer) (idx : ℕ) (old e : CacheEntry)
    → get_elem? s.cache idx ≡ some old
    → old.valid ≡ false
    → e.valid ≡ true
    → Inv s
    → Inv (put_entry s (some idx) e)
unfolding put_entry
put_entry-Inv s idx old e at free ok v = record {
  counted = ground (
    arith,
    n_valid-set s.cache idx old e at,
    n_valid-le (set s.cache idx e),
    length-set s.cache idx e,
  );
  summed = ground (arith, valid_bytes-set s.cache idx old e at);
  room = omega (arith, length-set s.cache idx e);
}

cache_region-Inv :
    (s : Streamer) (cache : Bool) (e : CacheEntry)
    → e.valid ≡ true
    → Inv s
    → Inv (cache_region s cache e)
unfolding cache_region put_entry
cache_region-Inv s cache e ok v =
    elim (Bool-cases (cache && ltb s.cache_count s.cfg.max_cached_regions)) [
      | inr full ↦ rw full v
      | inl room ↦ rw room (elim (Option-cases (first_index free 0 slots)) [
        | inl e' ↦ rw (e', put_entry) v
        | inr (idx, e') ↦
            let (old, (k, p, q), f) = first_index-At free 0 slots idx e' in
            let (inside, below) = get_elem?-take s.cfg.max_cached_regions s.cache k q in
            let same : k ≡ idx = omega arith in
            rw e' (
              put_entry-Inv s idx old e (subst (λ j. get_elem? s.cache j ≡ some old) same inside)
                (ground arith) ok v)
      ])
    ]
  where
    free : CacheEntry → Bool
    free f = not f.valid

    slots : List CacheEntry
    slots = take s.cfg.max_cached_regions s.cache

-- The counters of reads, misses and I/O time are apart from the cache.
stats-Inv :
    (s : Streamer) (n a b : ℕ)
    → Inv s
    → Inv (count_miss s) × Inv (count_read s n) × Inv (add_io_time s a b)
unfolding count_miss count_read add_io_time
stats-Inv s n a b v = (
  record { counted = v.counted; summed = v.summed; room = v.room },
  record { counted = v.counted; summed = v.summed; room = v.room },
  record { counted = v.counted; summed = v.summed; room = v.room },
)

read_miss-Inv :
    (w : World) (s : Streamer) (name : List ℕ) (offset size : ℕ) (dst : List ℕ) (cache : Bool)
    → Inv s
    → Inv (read_miss w s name offset size dst cache).0
unfolding read_miss new_entry
read_miss-Inv w s name offset size dst cache v =
    let evicted =
      evict_loop-Inv (count_miss s).cache_count (count_miss s) cache size (stats-Inv s 0 0 0 v).0 in
    let timed = (stats-Inv _ 0 w.t0 w.t1 evicted).2 in
    elim (Bool-cases (n == 0)) [
      | inl failed ↦ rw failed timed
      | inr got ↦ rw got (cache_region-Inv _ cache _ refl (stats-Inv _ n 0 0 timed).1)
    ]
  where
    n : ℕ
    n = platform_read (w.disk (weight_path streamer_path_max s.cfg.ssd_path name) offset size)

pub streamer_read-Inv :
    (w : World) (s : Streamer) (name : Option (List ℕ)) (offset size : ℕ) (dst : Option (List ℕ))
    (cache : Bool)
    → Inv s
    → Inv (streamer_read w s name offset size dst cache).0
unfolding streamer_read read_at
streamer_read-Inv w s none offset size dst cache v = v
streamer_read-Inv w s (some name) offset size none cache v = v
streamer_read-Inv w s (some name) offset size (some dst) cache v = elim (Bool-cases (size == 0)) [
  | inl empty ↦ rw empty v
  | inr some_bytes ↦ rw some_bytes (elim (Option-cases (find_cache s name offset)) [
    | inl e ↦ rw (e, read_at) (read_miss-Inv w s name offset size dst cache v)
    | inr (ci, e) ↦ rw (e, read_at) (touch-Inv s w.t_hit ci v)
  ])
]

pub streamer_write-Inv :
    (t0 t1 : ℕ) (opened : Bool) (written : Option ℕ) (s : Streamer) (name : Option (List ℕ))
    (size : ℕ) (src : Option (List ℕ))
    → Inv s
    → Inv (streamer_write t0 t1 opened written s name size src).0
unfolding streamer_write add_io_time
streamer_write-Inv t0 t1 opened written s none size src v = v
streamer_write-Inv t0 t1 opened written s (some name) size none v = v
streamer_write-Inv t0 t1 opened written s (some name) size (some src) v = ground arith

pub streamer_prefetch-Inv :
    (w : World) (allocated : Bool) (s : Streamer) (name : Option (List ℕ)) (offset size : ℕ)
    → Inv s
    → Inv (streamer_prefetch w allocated s name offset size).0
unfolding streamer_prefetch prefetch_at prefetch_result
streamer_prefetch-Inv w allocated s none offset size v = v
streamer_prefetch-Inv w allocated s (some name) offset size v =
    ground (arith, streamer_read-Inv w s (some name) offset size (some []) true v)

pub streamer_create-Inv : (cfg : Option StreamConfig) → Inv (streamer_create cfg)
unfolding streamer_create
streamer_create-Inv cfg = record {
  counted = omega (arith, n_valid-replicate 4096);
  summed = omega (arith, valid_bytes-replicate 4096);
  room = omega (arith, length-replicate 4096 zero_entry);
}

-- What a client does with a streamer.
pub data Call : Type 0 where
  read : World → Option (List ℕ) → ℕ → ℕ → Option (List ℕ) → Bool → Call
  write : ℕ → ℕ → Bool → Option ℕ → Option (List ℕ) → ℕ → Option (List ℕ) → Call
  prefetch : World → Bool → Option (List ℕ) → ℕ → ℕ → Call
  evict : Call

unfoldable pub step : Streamer → Call → Streamer
step s (read w name offset size dst cache) = (streamer_read w s name offset size dst cache).0
step s (write t0 t1 opened written name size src) =
    (streamer_write t0 t1 opened written s name size src).0
step s (prefetch w allocated name offset size) =
    (streamer_prefetch w allocated s name offset size).0
step s evict = (streamer_evict_lru s).0

unfoldable pub run : Streamer → List Call → Streamer
run s [] = s
run s (c ∷ cs) = run (step s c) cs

step-Inv : (s : Streamer) (c : Call) → Inv s → Inv (step s c)
unfolding step
step-Inv s (read w name offset size dst cache) v =
    streamer_read-Inv w s name offset size dst cache v
step-Inv s (write t0 t1 opened written name size src) v =
    streamer_write-Inv t0 t1 opened written s name size src v
step-Inv s (prefetch w allocated name offset size) v =
    streamer_prefetch-Inv w allocated s name offset size v
step-Inv s evict v = streamer_evict_lru-Inv s v

run-Inv : (s : Streamer) (cs : List Call) → Inv s → Inv (run s cs)
unfolding run
run-Inv s [] v = v
run-Inv s (c ∷ cs) v = run-Inv (step s c) cs (step-Inv s c v)

-- After any calls on a new streamer, `cache_count` is the number of valid entries of the cache and
-- `cache_used_bytes` the sum of their sizes modulo 2^64.
pub run-create-Inv :
    (cfg : Option StreamConfig) (cs : List Call) → Inv (run (streamer_create cfg) cs)
run-create-Inv cfg cs = run-Inv _ cs (streamer_create-Inv cfg)
