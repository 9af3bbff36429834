-- ===== src/Awm/Evictions.antt =====
-- The evictions: one region, and the loop over the cold ones.
use cautreo.Awm.Accounts.{
  IsRounding, Good, get_elem?-modify, get_elem?-modify_ne, length-modify, Settled, weight,
  change-Good, weight-bound,
}
use cautreo.Awm.{
  ram_fp16, ram_q8, ram_q4, ram_q2, ssd_q1, Awm, awm_evict, Placement, evict_round, Region,
  cold_loop, get_elem?, is_cold, Option, length, is_ssd, sub_used, region_bytes, evicted, modify,
  inc32,
}
use cautreo.Base.{
  ℕ, zero, suc, true, false, none, some, refl, ap, ◌∙◌, arith, inl, inr, ◌+◌, ◌≤◌, ◌<◌,
  Option-cases, Bool-cases, ◌≡◌, ◌≢◌, if◌then◌else◌, ◌==◌, subst,
}

abbrev pub Kept : Awm → Awm → Type 0
Kept w w' =
    (w'.ram_budget_bytes ≡ w.ram_budget_bytes)
    × (length w'.regions ≡ length w.regions)
    × (w'.capacity ≡ w.capacity)

pub cold-ram : (p : Placement) → is_cold p ≡ true → is_ssd p ≡ false
cold-ram ram_fp16 h = refl
cold-ram ram_q8 h = refl
cold-ram ram_q4 h = refl
cold-ram ram_q2 h = refl
cold-ram ssd_q1 h = ground (arith, h)

-- What the loop makes of the region.
abbrev pub cooled : Region → Region
cooled r = if is_cold r.placement then evicted r else r

abbrev pub map_region : (Region → Region) → Option Region → Option Region
map_region f none = none
map_region f (some r) = some (f r)

module _ (to_double : ℕ → ℕ) where
  pub awm_evict_missing :
      (w : Awm) (i : ℕ) → get_elem? w.regions i ≡ none → awm_evict to_double w i ≡ (w, false)
  unfolding awm_evict
  awm_evict_missing w i h = ground arith

  pub awm_evict_ssd :
      (w : Awm) (i : ℕ) (r : Region)
      → get_elem? w.regions i ≡ some r
      → is_ssd r.placement ≡ true
      → awm_evict to_double w i ≡ (w, true)
  unfolding awm_evict
  awm_evict_ssd w i r h s = ground arith

  pub awm_evict_ram :
      (w : Awm) (i : ℕ) (r : Region)
      → get_elem? w.regions i ≡ some r
      → is_ssd r.placement ≡ false
      → awm_evict to_double w i ≡ (
        sub_used to_double
            (region_bytes to_double r)
            (record w { regions = modify evicted i w.regions }),
        true,
      )
  unfolding awm_evict
  awm_evict_ram w i r h s = ground arith

  module _ (rounding : IsRounding to_double) where
    pub evicted-Good :
        (w : Awm) (i : ℕ) (r : Region)
        → Good to_double w
        → get_elem? w.regions i ≡ some r
        → is_ssd r.placement ≡ false
        → Good to_double (
            sub_used to_double
              (region_bytes to_double r)
              (record w { regions = modify evicted i w.regions }))
    evicted-Good w i r g h s =
        let set : Settled to_double r = g.settled i r h in
        let here : weight to_double r ≡ region_bytes to_double r = ground (arith, set.in_ram s) in
        change-Good to_double rounding w i r evicted _ g h
          (record { in_ram = λ t. absurd (ground arith); sized = set.sized })
          (omega (arith, here, weight-bound to_double rounding r set))

    pub awm_evict-Good :
        (w : Awm) (i : ℕ) → Good to_double w → Good to_double (awm_evict to_double w i).0
    awm_evict-Good w i g = elim (Option-cases (get_elem? w.regions i)) [
      | inl p ↦ rw (awm_evict_missing w i p) g
      | inr (r, p) ↦ elim (Bool-cases (is_ssd r.placement)) [
        | inl s ↦ rw (awm_evict_ssd w i r p s) g
        | inr s ↦ rw (awm_evict_ram w i r p s) (evicted-Good w i r g p s)
      ]
    ]

  pub round_missing :
      (w : Awm) (i n : ℕ) → get_elem? w.regions i ≡ none → evict_round to_double i (w, n) ≡ (w, n)
  unfolding evict_round
  round_missing w i n h = ground arith

  pub round_warm :
      (w : Awm) (i n : ℕ) (r : Region)
      → get_elem? w.regions i ≡ some r
      → is_cold r.placement ≡ false
      → evict_round to_double i (w, n) ≡ (w, n)
  unfolding evict_round
  round_warm w i n r h s = ground arith

  pub round_cold :
      (w : Awm) (i n : ℕ) (r : Region)
      → get_elem? w.regions i ≡ some r
      → is_cold r.placement ≡ true
      → evict_round to_double i (w, n) ≡ (
        sub_used to_double
            (region_bytes to_double r)
            (record w { regions = modify evicted i w.regions }),
        inc32 n,
      )
  unfolding evict_round
  round_cold w i n r h s = ground (arith, awm_evict_ram w i r h (cold-ram r.placement s))

  round-at :
      (i n : ℕ) (w : Awm)
      → get_elem? (evict_round to_double i (w, n)).0.regions i
        ≡ map_region cooled (get_elem? w.regions i)
  round-at i n w = elim (Option-cases (get_elem? w.regions i)) [
    | inl p ↦ rw (round_missing w i n p) (ground arith)
    | inr (r, p) ↦ elim (Bool-cases (is_cold r.placement)) [
      | inl s ↦
          rw (round_cold w i n r p s) (ground (arith, get_elem?-modify evicted i w.regions r p))
      | inr s ↦ rw (round_warm w i n r p s) (ground arith)
    ]
  ]

  round-elsewhere :
      (i n j : ℕ) (w : Awm)
      → j ≢ i
      → get_elem? (evict_round to_double i (w, n)).0.regions j ≡ get_elem? w.regions j
  round-elsewhere i n j w ne = elim (Option-cases (get_elem? w.regions i)) [
    | inl p ↦ rw (round_missing w i n p) refl
    | inr (r, p) ↦ elim (Bool-cases (is_cold r.placement)) [
      | inl s ↦ rw (round_cold w i n r p s) (get_elem?-modify_ne evicted i j w.regions ne)
      | inr s ↦ rw (round_warm w i n r p s) refl
    ]
  ]

  round-Kept : (i n : ℕ) (w : Awm) → Kept w (evict_round to_double i (w, n)).0
  round-Kept i n w = elim (Option-cases (get_elem? w.regions i)) [
    | inl p ↦ rw (round_missing w i n p) (refl, refl, refl)
    | inr (r, p) ↦ elim (Bool-cases (is_cold r.placement)) [
      | inl s ↦ rw (round_cold w i n r p s) (refl, length-modify evicted i w.regions, refl)
      | inr s ↦ rw (round_warm w i n r p s) (refl, refl, refl)
    ]
  ]

  round-Good :
      IsRounding to_double
      → (i n : ℕ) (w : Awm) → Good to_double w
      → Good to_double (evict_round to_double i (w, n)).0
  round-Good rounding i n w g = elim (Option-cases (get_elem? w.regions i)) [
    | inl p ↦ rw (round_missing w i n p) g
    | inr (r, p) ↦ elim (Bool-cases (is_cold r.placement)) [
      | inl s ↦
          rw (round_cold w i n r p s) (evicted-Good rounding w i r g p (cold-ram r.placement s))
      | inr s ↦ rw (round_warm w i n r p s) g
    ]
  ]

  pub cold_loop-Good :
      IsRounding to_double
      → (k i n : ℕ) (w : Awm) → Good to_double w
      → Good to_double (cold_loop to_double k i (w, n)).0
  unfolding cold_loop
  cold_loop-Good rounding zero i n w g = g
  cold_loop-Good rounding (suc k) i n w g =
      let s = evict_round to_double i (w, n) in
      cold_loop-Good rounding k (i + 1) s.1 s.0 (round-Good rounding i n w g)

  pub cold_loop-Kept : (k i n : ℕ) (w : Awm) → Kept w (cold_loop to_double k i (w, n)).0
  unfolding cold_loop
  cold_loop-Kept zero i n w = (refl, refl, refl)
  cold_loop-Kept (suc k) i n w =
      let s = evict_round to_double i (w, n) in
      let (a, b, c) = round-Kept i n w in
      let (d, e, f) = cold_loop-Kept k (i + 1) s.1 s.0 in (d ∙ a, e ∙ b, f ∙ c)

  cold_loop-before :
      (k i n j : ℕ) (w : Awm)
      → j < i
      → get_elem? (cold_loop to_double k i (w, n)).0.regions j ≡ get_elem? w.regions j
  unfolding cold_loop
  cold_loop-before zero i n j w h = refl
  cold_loop-before (suc k) i n j w h =
      let s = evict_round to_double i (w, n) in
      cold_loop-before k (i + 1) s.1 j s.0 (omega (arith, h))
      ∙ round-elsewhere i n j w (omega (arith, h))

  pub cold_loop-at :
      (k i n j : ℕ) (w : Awm)
      → i ≤ j
      → j < i + k
      → get_elem? (cold_loop to_double k i (w, n)).0.regions j
        ≡ map_region cooled (get_elem? w.regions j)
  unfolding cold_loop
  cold_loop-at zero i n j w a b = absurd (omega (arith, a, b))
  cold_loop-at (suc k) i n j w a b =
      let s = evict_round to_double i (w, n) in
      elim (Bool-cases (j == i)) [
        | inl same ↦
            let p : i ≡ j = ground arith in
            cold_loop-before k (i + 1) s.1 j s.0 (omega (arith, p))
            ∙ subst
                (λ x.
                  get_elem? (evict_round to_double i (w, n)).0.regions x
                  ≡ map_region cooled (get_elem? w.regions x))
                p (round-at i n w)
        | inr other ↦
            let ne : j ≢ i = ground arith in
            cold_loop-at k (i + 1) s.1 j s.0 (omega (arith, a, ne)) (omega (arith, b))
            ∙ ap (map_region cooled) (round-elsewhere i n j w ne)
      ]

  pub round_all_warm :
      (i n : ℕ) (w : Awm)
      → ((j : ℕ) (r : Region) → get_elem? w.regions j ≡ some r → is_cold r.placement ≡ false)
      → evict_round to_double i (w, n) ≡ (w, n)
  round_all_warm i n w warm = elim (Option-cases (get_elem? w.regions i)) [
    | inl p ↦ round_missing w i n p
    | inr (r, p) ↦ round_warm w i n r p (warm i r p)
  ]

  pub cold_loop_warm :
      (k i n : ℕ) (w : Awm)
      → ((j : ℕ) (r : Region) → get_elem? w.regions j ≡ some r → is_cold r.placement ≡ false)
      → cold_loop to_double k i (w, n) ≡ (w, n)
  unfolding cold_loop
  cold_loop_warm zero i n w warm = refl
  cold_loop_warm (suc k) i n w warm =
      ap (cold_loop to_double k (i + 1)) (round_all_warm i n w warm)
      ∙ cold_loop_warm k (i + 1) n w warm
