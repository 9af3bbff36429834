-- ===== src/Streaming/Operations.antt =====
-- streaming/streaming.c: reading, writing, prefetching, and the queries on the cache.
use cautreo.Base.{
  ℕ, ◌+◌, ◌-◌, ◌*◌, ◌%◌, ◌^◌, Bool, true, false, not, ◌&&◌, Option, none, some, List, [], ◌++◌,
  length, take, drop, set, get_elem?, ltb, ◌==◌, if◌then◌else◌, inc64, inc32,
}
use cautreo.Base.Bytes.{bytes_eq}
use cautreo.Streaming.{
  Streamer, CacheEntry, ReadReply, platform_read, weight_path, streamer_path_max, find_cache,
  first_index, evict_loop, as_uint64,
}

-- What a call sees of the world: the clock when it hits, and before and after its I/O; the disk.
pub record World : Type 0 where
  pub t_hit : ℕ
  pub t0 : ℕ
  pub t1 : ℕ
  pub disk : List ℕ → ℕ → ℕ → ReadReply

-- The branch for a cached region.
unfoldable pub touch : Streamer → ℕ → ℕ → Streamer
touch s now ci = elim (get_elem? s.cache ci) [
  | none ↦ s
  | some e ↦ record s {
    cache = set s.cache ci (record e { last_access_ms = now; access_count = inc32 e.access_count });
    stats = record (s.stats) { cache_hits = inc64 s.stats.cache_hits };
  }
]

-- `total_io_us += (t1 - t0) * 1000` on 64 bits.
unfoldable pub add_io_time : Streamer → ℕ → ℕ → Streamer
add_io_time s t0 t1 = record s {
  stats = record (s.stats) {
    total_io_us = (s.stats.total_io_us + (t1 + 2 ^ 64 - t0) * 1000) % 2 ^ 64;
  };
}

unfoldable pub count_read : Streamer → ℕ → Streamer
count_read s n = record s {
  stats = record (s.stats) {
    reads = inc64 s.stats.reads;
    read_bytes = (s.stats.read_bytes + n) % 2 ^ 64;
  };
}

unfoldable pub count_miss : Streamer → Streamer
count_miss s = record s { stats = record (s.stats) { cache_misses = inc64 s.stats.cache_misses } }

-- The entry that `read` fills in: `strncpy` keeps 63 bytes of the name.
unfoldable pub new_entry : List ℕ → ℕ → ℕ → ℕ → CacheEntry
new_entry name offset n now = record {
  name = take 63 name;
  offset = offset;
  size = n;
  last_access_ms = now;
  access_count = 1;
  valid = true;
}

unfoldable pub put_entry : Streamer → Option ℕ → CacheEntry → Streamer
put_entry s none e = s
put_entry s (some idx) e = record s {
  cache = set s.cache idx e;
  cache_count = inc32 s.cache_count;
  cache_used_bytes = (s.cache_used_bytes + e.size) % 2 ^ 64;
}

-- The first free slot, and the entry in it.
unfoldable pub cache_region : Streamer → Bool → CacheEntry → Streamer
cache_region s cache e =
    if cache && ltb s.cache_count s.cfg.max_cached_regions
    then put_entry s (first_index (λ f. not f.valid) 0 (take s.cfg.max_cached_regions s.cache)) e
    else s

-- What `pread` leaves in the buffer.
unfoldable pub overwrite : List ℕ → List ℕ → List ℕ
overwrite bytes dst = bytes ++ drop (length bytes) dst

-- The part behind the cache lookup. The results are the streamer, the returned count, the buffer.
unfoldable pub read_miss : World → Streamer → List ℕ → ℕ → ℕ → List ℕ → Bool → Streamer × ℕ × List ℕ
read_miss w s name offset size dst cache =
    let s1 = count_miss s in
    let s2 = evict_loop s1.cache_count s1 cache size in
    let reply = w.disk (weight_path streamer_path_max s.cfg.ssd_path name) offset size in
    let n = platform_read reply in
    let s3 = add_io_time s2 w.t0 w.t1 in
    if n == 0 then (s3, 0, dst) else (
      cache_region (count_read s3 n) cache (new_entry name offset n w.t1),
      n,
      overwrite reply.bytes dst,
    )

unfoldable pub read_at :
    World → Streamer → List ℕ → ℕ → ℕ → List ℕ → Bool → Option ℕ → Streamer × ℕ × List ℕ
read_at w s name offset size dst cache (some ci) = (touch s w.t_hit ci, size, dst)
read_at w s name offset size dst cache none = read_miss w s name offset size dst cache

-- `weight_name` and `dst` may be null; the buffer of a null `dst` is shown as empty.
unfoldable pub streamer_read :
    World → Streamer → Option (List ℕ) → ℕ → ℕ → Option (List ℕ) → Bool → Streamer × ℕ × List ℕ
streamer_read w s none offset size dst cache = (s, 0, [])
streamer_read w s (some name) offset size none cache = (s, 0, [])
streamer_read w s (some name) offset size (some dst) cache =
    if size == 0
    then (s, 0, dst)
    else read_at w s name offset size dst cache (find_cache s name offset)

-- `pwrite`'s result is an argument; the source buffer goes to the disk unchanged.
unfoldable pub streamer_write :
    ℕ → ℕ → Bool → Option ℕ → Streamer → Option (List ℕ) → ℕ → Option (List ℕ) → Streamer × ℕ
streamer_write t0 t1 opened written s none size src = (s, 0)
streamer_write t0 t1 opened written s (some name) size none = (s, 0)
streamer_write t0 t1 opened written s (some name) size (some src) =
    let n = if opened then as_uint64 written else 0 in
    let s1 = add_io_time s t0 t1 in
    if size == 0 then (s, 0) else if n == 0 then (s1, 0) else (
      record s1 {
        stats = record (s1.stats) {
          writes = inc64 s1.stats.writes;
          write_bytes = (s1.stats.write_bytes + n) % 2 ^ 64;
        };
      },
      n,
    )

unfoldable pub prefetch_result : Streamer × ℕ × List ℕ → Streamer × Bool
prefetch_result (s, n, _) =
    if ltb 0 n
    then (record s { stats = record (s.stats) { prefetches = inc64 s.stats.prefetches } }, true)
    else (s, false)

unfoldable pub prefetch_at : World → Bool → Streamer → List ℕ → ℕ → ℕ → Option ℕ → Streamer × Bool
prefetch_at w allocated s name offset size (some ci) = (s, true)
prefetch_at w allocated s name offset size none =
    if allocated
    then prefetch_result (streamer_read w s (some name) offset size (some []) true)
    else (s, false)

-- The result 0 is `true`, -1 is `false`. `allocated` tells whether the scratch buffer was given.
unfoldable pub streamer_prefetch :
    World → Bool → Streamer → Option (List ℕ) → ℕ → ℕ → Streamer × Bool
streamer_prefetch w allocated s none offset size = (s, false)
streamer_prefetch w allocated s (some name) offset size =
    if size == 0
    then (s, false)
    else prefetch_at w allocated s name offset size (find_cache s name offset)

unfoldable pub is_some : Option ℕ → Bool
is_some none = false
is_some (some _) = true

-- `ct_streamer_cache_mark` has the same body.
unfoldable pub streamer_is_cached : Streamer → Option (List ℕ) → Bool
streamer_is_cached s none = false
streamer_is_cached s (some name) =
    is_some (first_index (λ e. e.valid && bytes_eq e.name name) 0 (take s.cache_count s.cache))

unfoldable pub streamer_cache_avail : Streamer → ℕ
streamer_cache_avail s =
    if ltb s.cache_used_bytes s.cfg.cache_bytes then s.cfg.cache_bytes - s.cache_used_bytes else 0
