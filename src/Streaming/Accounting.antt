-- ===== src/Streaming/Accounting.antt =====
-- The counters of the cache agree with its entries.
use cautreo.Base.{
  ℕ, zero, suc, ◌+◌, ◌%◌, ◌^◌, ◌≤◌, ◌<◌, ◌≡◌, ap, subst, inl, inr, Bool, true, false, none, some,
  List, [], ◌∷◌, length, length-set, take, get_elem?, set, arith, Bool-cases, Option-cases, ◌==◌,
}
use cautreo.Streaming.{
  Streamer, CacheEntry, zero_entry, drop_entry, find_lru, streamer_evict_lru, evict_loop, evict_at,
}
use cautreo.Streaming.Lookup.{get_elem?-take, lru_loop-least}

abbrev one_if : Bool → ℕ
one_if true = 1
one_if false = 0

abbrev size_if : Bool → ℕ → ℕ
size_if true n = n
size_if false n = 0

unfoldable pub n_valid : List CacheEntry → ℕ
n_valid [] = 0
n_valid (e ∷ es) = one_if e.valid + n_valid es

unfoldable pub valid_bytes : List CacheEntry → ℕ
valid_bytes [] = 0
valid_bytes (e ∷ es) = size_if e.valid e.size + valid_bytes es

pub n_valid-set :
    (l : List CacheEntry) (i : ℕ) (e f : CacheEntry)
    → get_elem? l i ≡ some e
    → n_valid (set l i f) + one_if e.valid ≡ n_valid l + one_if f.valid
unfolding n_valid
n_valid-set [] i e f h = cc
n_valid-set (x ∷ l) zero e f h = ground arith
n_valid-set (x ∷ l) (suc i) e f h = omega (arith, n_valid-set l i e f h)

pub valid_bytes-set :
    (l : List CacheEntry) (i : ℕ) (e f : CacheEntry)
    → get_elem? l i ≡ some e
    → valid_bytes (set l i f) + size_if e.valid e.size ≡ valid_bytes l + size_if f.valid f.size
unfolding valid_bytes
valid_bytes-set [] i e f h = cc
valid_bytes-set (x ∷ l) zero e f h = ground arith
valid_bytes-set (x ∷ l) (suc i) e f h = omega (arith, valid_bytes-set l i e f h)

pub n_valid-le : (l : List CacheEntry) → n_valid l ≤ length l
unfolding n_valid
n_valid-le [] = omega arith
n_valid-le (e ∷ l) = ground (arith, n_valid-le l)

-- `cache_count` counts the valid entries, and `cache_used_bytes` sums their sizes on 64 bits.
pub record Inv (s : Streamer) : Type 0 where
  pub counted : s.cache_count ≡ n_valid s.cache
  pub summed : s.cache_used_bytes ≡ valid_bytes s.cache % 2 ^ 64
  pub room : length s.cache < 2 ^ 32

drop_entry-Inv :
    (s : Streamer) (i : ℕ) (e : CacheEntry)
    → get_elem? s.cache i ≡ some e
    → e.valid ≡ true
    → Inv s
    → Inv (drop_entry s i e)
unfolding drop_entry
drop_entry-Inv s i e h ok v = record {
  counted = ground (arith, n_valid-set s.cache i e zero_entry h);
  summed = ground (arith, valid_bytes-set s.cache i e zero_entry h);
  room = omega (arith, ap suc (length-set s.cache i zero_entry));
}

-- The victim is a valid entry of the cache.
pub find_lru-valid :
    (s : Streamer) (i : ℕ)
    → find_lru s ≡ some i
    → (e : CacheEntry) × (get_elem? s.cache i ≡ some e) × (e.valid ≡ true) × (i < s.cache_count)
unfolding find_lru
find_lru-valid s i h =
    let (m, source, low, rest) = lru_loop-least 0 (take s.cache_count s.cache) none _ i h in
    elim source [
      | inl (a, b) ↦ absurd (ground arith)
      | inr (e, (k, p, q), ok, t) ↦
          let (inside, below) = get_elem?-take s.cache_count s.cache k q in
          let same : k ≡ i = omega arith in
          (e, subst (λ j. get_elem? s.cache j ≡ some e) same inside, ok, omega arith)
    ]

-- With a victim the eviction succeeds.
pub evict_victim :
    (s : Streamer) (i : ℕ)
    → find_lru s ≡ some i
    → (e : CacheEntry) × (get_elem? s.cache i ≡ some e)
      × (streamer_evict_lru s ≡ (drop_entry s i e, true))
unfolding streamer_evict_lru
evict_victim s i h =
    let (e, at, ok, low) = find_lru-valid s i h in
    let some_count : (s.cache_count == 0) ≡ false = ground arith in
    (e, at, rw (some_count, h, streamer_evict_lru) (rw (at, evict_at)))

-- The ways that an eviction goes.
pub evict_cases {ℓ} :
    (P : Streamer × Bool → Type ℓ) (s : Streamer)
    → P (s, false)
    → ((i : ℕ) (e : CacheEntry)
        → find_lru s ≡ some i
        → get_elem? s.cache i ≡ some e
        → e.valid ≡ true
        → i < s.cache_count
        → P (drop_entry s i e, true))
    → P (streamer_evict_lru s)
unfolding streamer_evict_lru
evict_cases P s kept dropped = elim (Bool-cases (s.cache_count == 0)) [
  | inl empty ↦ rw (empty, streamer_evict_lru) kept
  | inr more ↦ elim (Option-cases (find_lru s)) [
    | inl e ↦ rw (more, e, streamer_evict_lru) kept
    | inr (i, e) ↦
        let (f, at, ok, low) = find_lru-valid s i e in
        rw (more, e, streamer_evict_lru) (rw (at, evict_at) (dropped i f e at ok low))
  ]
]

pub streamer_evict_lru-Inv : (s : Streamer) → Inv s → Inv (streamer_evict_lru s).0
streamer_evict_lru-Inv s v =
    evict_cases (λ r. Inv r.0) s v (λ i e _ at ok _. drop_entry-Inv s i e at ok v)

pub evict_loop-Inv :
    (fuel : ℕ) (s : Streamer) (cache : Bool) (size : ℕ) → Inv s → Inv (evict_loop fuel s cache size)
unfolding evict_loop
evict_loop-Inv zero s cache size v = v
evict_loop-Inv (suc fuel) s cache size v =
    ground
      (arith, evict_loop-Inv fuel (streamer_evict_lru s).0 cache size (streamer_evict_lru-Inv s v))
