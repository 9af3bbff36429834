-- ===== src/Streaming.antt =====
-- streaming/streaming.c: the cache of weight regions in front of the SSD.
-- A C string is the list of its bytes. What the operating system answers is an argument: the clock
-- readings of a call, whether `open` succeeds, and the result of `pread` or `pwrite`, where `none`
-- is -1 (the POSIX branch of the file). Handles are not null, and `malloc` succeeds as it is told.
pub mod Operations
pub mod Eviction
pub mod Accounting
pub mod Invariant
pub mod Lookup
mod Tests
use cautreo.Base.{
  ℕ, zero, suc, ◌+◌, ◌-◌, ◌*◌, ◌%◌, ◌^◌, ◌≤◌, ◌<◌, Bool, true, false, not, ◌&&◌, ◌||◌, Option, none,
  some, List, [], ◌∷◌, ◌++◌, length, take, replicate, set, get_elem?, ltb, ◌==◌, if◌then◌else◌,
  inc64, inc32,
}
use cautreo.Base.Bytes.{bytes_eq}

abbrev pub streamer_max_regions : ℕ
streamer_max_regions = 4096

abbrev pub streamer_path_max : ℕ
streamer_path_max = 512

abbrev pub uint64_max : ℕ
uint64_max = 2 ^ 64 - 1

pub data StreamMode : Type 0 where
  stream_none stream_lazy stream_prefetch : StreamMode

pub record StreamConfig : Type 0 where
  pub mode : StreamMode
  pub cache_bytes : ℕ
  pub max_cached_regions : ℕ
  pub overlap_io : Bool
  pub prefetch_ahead : ℕ
  pub ssd_path : Option (List ℕ)

pub record StreamStats : Type 0 where
  pub reads : ℕ
  pub writes : ℕ
  pub read_bytes : ℕ
  pub write_bytes : ℕ
  pub prefetches : ℕ
  pub cache_hits : ℕ
  pub cache_misses : ℕ
  pub evictions : ℕ
  pub total_io_us : ℕ

pub record CacheEntry : Type 0 where
  pub name : List ℕ
  pub offset : ℕ
  pub size : ℕ
  pub last_access_ms : ℕ
  pub access_count : ℕ
  pub valid : Bool

pub record Streamer : Type 0 where
  pub cfg : StreamConfig
  pub cache : List CacheEntry
  pub cache_count : ℕ
  pub cache_used_bytes : ℕ
  pub stats : StreamStats

-- `calloc`, and `memset` of one entry.
abbrev pub zero_entry : CacheEntry
zero_entry = record {
  name = [];
  offset = 0;
  size = 0;
  last_access_ms = 0;
  access_count = 0;
  valid = false;
}

abbrev pub zero_stats : StreamStats
zero_stats = record {
  reads = 0;
  writes = 0;
  read_bytes = 0;
  write_bytes = 0;
  prefetches = 0;
  cache_hits = 0;
  cache_misses = 0;
  evictions = 0;
  total_io_us = 0;
}

-- The configuration that `ct_streamer_create` installs.
unfoldable pub initial_config : Option StreamConfig → StreamConfig
initial_config (some cfg) =
    if cfg.max_cached_regions == 0 || ltb streamer_max_regions cfg.max_cached_regions
    then record cfg { max_cached_regions = streamer_max_regions }
    else cfg
initial_config none = record {
  mode = stream_lazy;
  cache_bytes = 256 * 1024 * 1024;
  max_cached_regions = 1024;
  overlap_io = false;
  prefetch_ahead = 1;
  ssd_path = none;
}

unfoldable pub streamer_create : Option StreamConfig → Streamer
streamer_create cfg = record {
  cfg = initial_config cfg;
  cache = replicate streamer_max_regions zero_entry;
  cache_count = 0;
  cache_used_bytes = 0;
  stats = zero_stats;
}

-- `snprintf` into a buffer of `size` bytes.
abbrev pub snprintf : ℕ → List ℕ → List ℕ
snprintf size text = take (size - 1) text

abbrev dot_bin : List ℕ
dot_bin = b'.' ∷ b'b' ∷ b'i' ∷ b'n' ∷ []

unfoldable pub weight_path : ℕ → Option (List ℕ) → List ℕ → List ℕ
weight_path bufsz none name = snprintf bufsz (name ++ dot_bin)
weight_path bufsz (some []) name = snprintf bufsz (name ++ dot_bin)
weight_path bufsz (some (c ∷ base)) name = snprintf bufsz ((c ∷ base) ++ (b'/' ∷ (name ++ dot_bin)))

-- The test of `find_cache` on one entry.
unfoldable pub matches : List ℕ → ℕ → CacheEntry → Bool
matches name offset e = e.valid && (bytes_eq e.name name && (e.offset == offset))

-- The index of the first entry that passes a test, counted from `i`; `none` is the -1 of the loops.
unfoldable pub first_index : (CacheEntry → Bool) → ℕ → List CacheEntry → Option ℕ
first_index test i [] = none
first_index test i (e ∷ es) =
    let rest = first_index test (i + 1) es in if test e then some i else rest

unfoldable pub find_cache : Streamer → List ℕ → ℕ → Option ℕ
find_cache s name offset = first_index (matches name offset) 0 (take s.cache_count s.cache)

-- `victim` and `oldest` are the variables of the loop.
unfoldable pub lru_loop : ℕ → List CacheEntry → Option ℕ → ℕ → Option ℕ
lru_loop i [] victim oldest = victim
lru_loop i (e ∷ es) victim oldest =
    let taken = e.valid && ltb e.last_access_ms oldest in
    lru_loop (i + 1) es (if taken then some i else victim)
      (if taken then e.last_access_ms else oldest)

unfoldable pub find_lru : Streamer → Option ℕ
find_lru s = lru_loop 0 (take s.cache_count s.cache) none uint64_max

-- `memset` of entry `i`, with the counters; `i` is in range.
unfoldable pub drop_entry : Streamer → ℕ → CacheEntry → Streamer
drop_entry s i e = record s {
  cache = set s.cache i zero_entry;
  cache_used_bytes = (s.cache_used_bytes + (2 ^ 64 - e.size % 2 ^ 64)) % 2 ^ 64;
  cache_count = s.cache_count - 1;
  stats = record (s.stats) { evictions = inc64 s.stats.evictions };
}

evict_at : Streamer → Option ℕ → Streamer × Bool
evict_at s none = (s, false)
evict_at s (some victim) = elim (get_elem? s.cache victim) [
  | none ↦ (s, false)
  | some e ↦ (drop_entry s victim e, true)
]

unfoldable pub streamer_evict_lru : Streamer → Streamer × Bool
unfolding evict_at
streamer_evict_lru s = if s.cache_count == 0 then (s, false) else evict_at s (find_lru s)

-- `while (cache && used + size > cache_bytes && count > 0) if (!evict) break;` Each round takes one
-- off `cache_count`, which is the fuel that the caller gives.
unfoldable pub must_evict : Streamer → Bool → ℕ → Bool
must_evict s cache size =
    cache && (ltb s.cfg.cache_bytes ((s.cache_used_bytes + size) % 2 ^ 64) && ltb 0 s.cache_count)

unfoldable pub evict_loop : ℕ → Streamer → Bool → ℕ → Streamer
evict_loop zero s cache size = s
evict_loop (suc fuel) s cache size =
    let next = evict_loop fuel (streamer_evict_lru s).0 cache size in
    if must_evict s cache size && (streamer_evict_lru s).1 then next else s

-- Whether `open` succeeds, and the count and the bytes that `pread` gives.
pub record ReadReply : Type 0 where
  pub opened : Bool
  pub count : Option ℕ
  pub bytes : List ℕ

-- The `ssize_t` result of the call, as the `uint64_t` that it is assigned to.
unfoldable pub as_uint64 : Option ℕ → ℕ
as_uint64 none = 2 ^ 64 - 1
as_uint64 (some n) = n

unfoldable pub platform_read : ReadReply → ℕ
unfolding as_uint64
platform_read r = if r.opened then as_uint64 r.count else 0
