-- ===== src/Awm/Limits.antt =====
-- The bytes that the regions really hold, against the budget.
use cautreo.Awm.Budget.{evict_cold-Kept, evict_cold-Good}
use cautreo.Awm.Evictions.{
  round_missing, evicted-Good, awm_evict_missing, awm_evict_ssd, round_cold, awm_evict_ram,
  round_warm,
}
use cautreo.Awm.{
  Awm, Region, cold_loop, evict_cold, get_elem?, awm_evict, exceeds, evict_round, modify, is_ssd,
  add_used, evicted, sub_used, region_bytes, is_cold, length,
}
use cautreo.Awm.Accounts.{IsRounding, Good, loaded_bytes, loaded_bytes-modify}
use cautreo.Base.{
  ℕ, zero, suc, false, some, arith, inl, inr, ◌^◌, ◌+◌, ◌%◌, ◌≤◌, ◌<◌, Option-cases, Bool-cases,
  List, ◌≡◌,
}

module _ (to_double : ℕ → ℕ) where
  -- A budget below half of what a `uint64_t` holds, so that no sum wraps around.
  pub record Held (w : Awm) : Type 0 where
    pub good : Good to_double w
    pub held : loaded_bytes to_double w.regions ≤ w.ram_budget_bytes
    pub limit : w.ram_budget_bytes < 2 ^ 63

module _ (to_double : ℕ → ℕ) (rounding : IsRounding to_double) where
  loaded_bytes-evicted :
      (i : ℕ) (rs : List Region) (r : Region)
      → get_elem? rs i ≡ some r
      → loaded_bytes to_double (modify evicted i rs) ≤ loaded_bytes to_double rs
  loaded_bytes-evicted i rs r h = omega (arith, loaded_bytes-modify to_double evicted i rs r h)

  round-held :
      (i n : ℕ) (w : Awm)
      → loaded_bytes to_double (evict_round to_double i (w, n)).0.regions
        ≤ loaded_bytes to_double w.regions
  round-held i n w = elim (Option-cases (get_elem? w.regions i)) [
    | inl p ↦ rw (round_missing to_double w i n p) (omega arith)
    | inr (r, p) ↦ elim (Bool-cases (is_cold r.placement)) [
      | inl s ↦ rw (round_cold to_double w i n r p s) (loaded_bytes-evicted i w.regions r p)
      | inr s ↦ rw (round_warm to_double w i n r p s) (omega arith)
    ]
  ]

  loop-held :
      (k i n : ℕ) (w : Awm)
      → loaded_bytes to_double (cold_loop to_double k i (w, n)).0.regions
        ≤ loaded_bytes to_double w.regions
  unfolding cold_loop
  loop-held zero i n w = omega arith
  loop-held (suc k) i n w =
      let s = evict_round to_double i (w, n) in
      omega (arith, loop-held k (i + 1) s.1 s.0, round-held i n w)

  pub evict_cold-Held : (w : Awm) → Held to_double w → Held to_double (evict_cold to_double w).0
  unfolding evict_cold
  evict_cold-Held w v =
      let (same, _, _) = evict_cold-Kept to_double w in
      record {
        good = evict_cold-Good to_double rounding w v.good;
        held = omega (arith, loop-held (length w.regions) 0 0 w, v.held, same);
        limit = omega (arith, same, v.limit);
      }

  pub evicted-Held :
      (w : Awm) (i : ℕ) (r : Region)
      → Held to_double w
      → get_elem? w.regions i ≡ some r
      → is_ssd r.placement ≡ false
      → Held to_double (
          sub_used to_double
            (region_bytes to_double r)
            (record w { regions = modify evicted i w.regions }))
  evicted-Held w i r v h s = record {
    good = evicted-Good to_double rounding w i r v.good h s;
    held = omega (arith, loaded_bytes-evicted i w.regions r h, v.held);
    limit = v.limit;
  }

  pub awm_evict-Held :
      (w : Awm) (i : ℕ) → Held to_double w → Held to_double (awm_evict to_double w i).0
  awm_evict-Held w i v = elim (Option-cases (get_elem? w.regions i)) [
    | inl p ↦ rw (awm_evict_missing to_double w i p) v
    | inr (r, p) ↦ elim (Bool-cases (is_ssd r.placement)) [
      | inl s ↦ rw (awm_evict_ssd to_double w i r p s) v
      | inr s ↦ rw (awm_evict_ram to_double w i r p s) (evicted-Held w i r v p s)
    ]
  ]

  -- More bytes, which were found to fit.
  pub grown-Held :
      (w : Awm) (rs : List Region) (bytes : ℕ)
      → Held to_double w
      → bytes ≤ 2 ^ 63
      → exceeds to_double w bytes ≡ false
      → loaded_bytes to_double rs ≡ loaded_bytes to_double w.regions + bytes
      → Good to_double (add_used to_double bytes (record w { regions = rs }))
      → Held to_double (add_used to_double bytes (record w { regions = rs }))
  grown-Held w rs bytes v small fits more g =
      let used : w.ram_used_bytes ≡ loaded_bytes to_double w.regions =
        omega (arith, Good.accounted v.good, v.held, v.limit) in
      let below : (w.ram_used_bytes + bytes) % 2 ^ 64 ≤ w.ram_budget_bytes = ground (arith, fits) in
      record {
        good = g;
        held = omega (arith, used, more, below, small, v.held, v.limit);
        limit = v.limit;
      }

  pub idle-Held :
      (w : Awm) (rs : List Region)
      → Held to_double w
      → loaded_bytes to_double rs ≡ loaded_bytes to_double w.regions
      → Good to_double (record w { regions = rs })
      → Held to_double (record w { regions = rs })
  idle-Held w rs v same g = record { good = g; held = omega (arith, same, v.held); limit = v.limit }
