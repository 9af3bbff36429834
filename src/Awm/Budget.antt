-- ===== src/Awm/Budget.antt =====
-- `ct_awm_evict_cold` as a whole, and `ct_awm_set_budget`.
use cautreo.Awm.Accounts.{IsRounding, Good}
use cautreo.Awm.Evictions.{
  cooled, map_region, Kept, cold_loop_warm, cold_loop-Good, cold_loop-at, cold_loop-Kept,
}
use cautreo.Awm.{Region, evict_cold, Awm, fit_loop, set_budget, is_cold, ltb, cold_loop}
use cautreo.Base.{
  ℕ, zero, suc, false, none, some, [], ◌∷◌, refl, sym, ap, ◌∙◌, arith, inl, inr, ◌≤◌, Option-cases,
  Bool-cases, List, length, get_elem?, ◌≡◌, if◌then◌else◌, subst, ◌⊎◌, ◌==◌,
}

get_elem?_beyond : {A : Type 0} (xs : List A) (j : ℕ) → length xs ≤ j → get_elem? xs j ≡ none
get_elem?_beyond [] j h = refl
get_elem?_beyond (x ∷ xs) zero h = absurd (omega (arith, h))
get_elem?_beyond (x ∷ xs) (suc j) h = get_elem?_beyond xs j (omega (arith, h))

cooled-warm : (r : Region) → is_cold (cooled r).placement ≡ false
cooled-warm r = ground arith

module _ (to_double : ℕ → ℕ) where
  -- The cold regions go to the disk, and no other region changes.
  pub evict_cold-regions :
      (w : Awm) (j : ℕ)
      → get_elem? (evict_cold to_double w).0.regions j ≡ map_region cooled (get_elem? w.regions j)
  unfolding evict_cold
  evict_cold-regions w j = elim (Bool-cases (ltb j (length w.regions))) [
    | inl inside ↦ cold_loop-at to_double (length w.regions) 0 0 j w (omega arith) (ground arith)
    | inr beyond ↦
        let (_, same, _) = cold_loop-Kept to_double (length w.regions) 0 0 w in
        get_elem?_beyond (cold_loop to_double (length w.regions) 0 (w, 0)).0.regions j
          (ground (arith, same))
        ∙ sym (ap (map_region cooled) (get_elem?_beyond w.regions j (ground arith)))
  ]

  pub evict_cold-Kept : (w : Awm) → Kept w (evict_cold to_double w).0
  unfolding evict_cold
  evict_cold-Kept w = cold_loop-Kept to_double (length w.regions) 0 0 w

  pub evict_cold-Good :
      IsRounding to_double
      → (w : Awm) → Good to_double w
      → Good to_double (evict_cold to_double w).0
  unfolding evict_cold
  evict_cold-Good rounding w g = cold_loop-Good to_double rounding (length w.regions) 0 0 w g

  -- No region is left at `Q4` or `Q2`.
  abbrev pub IsWarm : Awm → Type 0
  IsWarm w = (j : ℕ) (r : Region) → get_elem? w.regions j ≡ some r → is_cold r.placement ≡ false

  pub evict_cold-IsWarm : (w : Awm) → IsWarm (evict_cold to_double w).0
  evict_cold-IsWarm w j r h = elim (Option-cases (get_elem? w.regions j)) [
    | inl p ↦ absurd (ground (arith, evict_cold-regions w j))
    | inr (x, p) ↦
        let one : cooled x ≡ r = ground (arith, evict_cold-regions w j) in
        subst (λ y. is_cold y.placement ≡ false) one (cooled-warm x)
  ]

  evict_cold_warm : (w : Awm) → IsWarm w → evict_cold to_double w ≡ (w, 0)
  unfolding evict_cold
  evict_cold_warm w warm = cold_loop_warm to_double (length w.regions) 0 0 w warm

  fit_fits :
      (fuel : ℕ) (w : Awm)
      → ltb w.ram_budget_bytes w.ram_used_bytes ≡ false
      → fit_loop to_double (suc fuel) w ≡ some w
  unfolding fit_loop
  fit_fits fuel w h = ground arith

  -- The loop at a manager without cold regions.
  fit_warm : (fuel : ℕ) (w : Awm) → IsWarm w → fit_loop to_double (suc fuel) w ≡ some w
  unfolding fit_loop
  fit_warm fuel w warm = elim (Bool-cases (ltb w.ram_budget_bytes w.ram_used_bytes)) [
    | inl over ↦
        let e = evict_cold_warm w warm in
        ground (arith, ap (λ (s : Awm × ℕ). s.0) e, ap (λ (s : Awm × ℕ). s.1) e)
    | inr fits ↦ ground arith
  ]

  fit_loop-Good :
      IsRounding to_double
      → (fuel : ℕ) (w w' : Awm) → Good to_double w
      → fit_loop to_double fuel w ≡ some w'
      → Good to_double w'
  unfolding fit_loop
  fit_loop-Good rounding zero w w' g h = absurd (ground arith)
  fit_loop-Good rounding (suc fuel) w w' g h =
      elim (Bool-cases (ltb w.ram_budget_bytes w.ram_used_bytes)) [
        | inl over ↦ elim (Bool-cases ((evict_cold to_double w).1 == 0)) [
          | inl last ↦
              let one : (evict_cold to_double w).0 ≡ w' = ground arith in
              subst (Good to_double) one (evict_cold-Good rounding w g)
          | inr more ↦
              fit_loop-Good rounding fuel (evict_cold to_double w).0 w'
                (evict_cold-Good rounding w g) (ground arith)
        ]
        | inr fits ↦ let one : w ≡ w' = ground arith in subst (Good to_double) one g
      ]

  abbrev pub shrunk : Awm → Awm
  shrunk w = if ltb w.ram_budget_bytes w.ram_used_bytes then (evict_cold to_double w).0 else w

  fit_loop_lem : (fuel : ℕ) (w : Awm) → fit_loop to_double (suc (suc fuel)) w ≡ some (shrunk w)
  unfolding fit_loop
  fit_loop_lem fuel w =
      ground (arith, fit_warm fuel (evict_cold to_double w).0 (evict_cold-IsWarm w))

  -- With any fuel from two rounds on the loop of a new budget ends. The result has that budget; if the
  -- bytes in use exceeded it, every region at `Q4` or `Q2` is now on the disk without a block, and otherwise no region changes; no other region changes in
  -- either case. Afterwards the bytes in use are within the budget, or no region is left at `Q4` or `Q2`.
  pub set_budget-ends :
      (fuel : ℕ) (w : Awm) (budget : ℕ)
      → (w' : Awm) × (set_budget to_double (suc (suc fuel)) w budget ≡ some w')
        × (w'.ram_budget_bytes ≡ budget)
        × ((w'.ram_used_bytes ≤ budget) ⊎ IsWarm w')
        × ((j : ℕ)
            → get_elem? w'.regions j ≡ (
                if ltb budget w.ram_used_bytes
                then map_region cooled (get_elem? w.regions j)
                else get_elem? w.regions j))
  unfolding set_budget
  set_budget-ends fuel w budget =
      let start : Awm = record w { ram_budget_bytes = budget } in
      let e = fit_loop_lem fuel start in
      elim (Bool-cases (ltb budget w.ram_used_bytes)) [
        | inl over ↦ (
          (evict_cold to_double start).0,
          e ∙ ground arith,
          (evict_cold-Kept start).0,
          inr (evict_cold-IsWarm start),
          (λ j. rw over (evict_cold-regions start j)),
        )
        | inr fits ↦
            (start, e ∙ ground arith, refl, inl (ground (arith, fits)), (λ j. rw fits refl))
      ]

  pub set_budget-Good :
      IsRounding to_double
      → (fuel : ℕ) (w w' : Awm) (budget : ℕ) → Good to_double w
      → set_budget to_double fuel w budget ≡ some w'
      → Good to_double w'
  unfolding set_budget
  set_budget-Good rounding fuel w w' budget g h =
      fit_loop-Good rounding fuel (record w { ram_budget_bytes = budget }) w'
        (record { settled = g.settled; accounted = g.accounted; room = g.room }) h
