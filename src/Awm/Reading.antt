-- ===== src/Awm/Reading.antt =====
-- Reads of a region keep the accounts, and a region that is read from the disk stays loaded.

use cautreo.Awm.Evictions.{awm_evict_missing, awm_evict_ssd, awm_evict_ram}
use cautreo.Awm.Placing.{evict_cold-ssd}
use cautreo.Awm.Accounts.{
  IsRounding, Good, Settled, weight, same-Good, change-Good, get_elem?-modify, get_elem?-modify_ne,
}
use cautreo.Base.{
  ℕ, zero, suc, true, false, none, some, refl, ap, ◌∙◌, arith, inl, inr, ◌%◌, ◌^◌, ◌+◌,
  Option-cases, Bool-cases, ◌≡◌, ◌≢◌, ◌==◌, subst, Option, ltb, get_elem?,
}
use cautreo.Awm.{
  Awm, Region, is_ssd, modify, add_used, region_bytes, loaded, get_weight, awm_evict, evict_cold,
  fit_loop, set_budget, evicted,
}

module _ (to_double : ℕ → ℕ) where
  -- What frees RAM: evictions, of any region and of the cold ones, and a new budget.
  pub data Frees (w : Awm) : Awm → Type 0 where
    begins : Frees w w
    evicting :
        {w' w'' : Awm} (i : ℕ) → Frees w w' → (awm_evict to_double w' i).0 ≡ w'' → Frees w w''
    clearing : {w' w'' : Awm} → Frees w w' → (evict_cold to_double w').0 ≡ w'' → Frees w w''
    limiting :
        {w' w'' : Awm} (fuel budget : ℕ)
        → Frees w w'
        → set_budget to_double fuel w' budget ≡ some w''
        → Frees w w''

  -- A region that is placed on the disk.
  abbrev OnDisk : ℕ → Region → Awm → Type 0
  OnDisk i x w = get_elem? w.regions i ≡ some x

  module _ (i : ℕ) (x : Region) (s : is_ssd x.placement ≡ true) where
    awm_evict-OnDisk : (j : ℕ) (w : Awm) → OnDisk i x w → OnDisk i x (awm_evict to_double w j).0
    awm_evict-OnDisk j w h = elim (Option-cases (get_elem? w.regions j)) [
      | inl p ↦ rw (awm_evict_missing to_double w j p) h
      | inr (r, p) ↦ elim (Bool-cases (is_ssd r.placement)) [
        | inl t ↦ rw (awm_evict_ssd to_double w j r p t) h
        | inr t ↦
            let other : i ≢ j = λ e.
              (let q : get_elem? w.regions j ≡ some x =
                  subst (λ k. get_elem? w.regions k ≡ some x) e h in
                let one : r ≡ x = ground arith in
                absurd (ground (arith, ap (λ (y : Region). is_ssd y.placement) one, s, t))) in
            rw (awm_evict_ram to_double w j r p t)
              (get_elem?-modify_ne (λ (y : Region). evicted y) j i w.regions other ∙ h)
      ]
    ]

    fit_loop-OnDisk :
        (fuel : ℕ) (w w' : Awm) → OnDisk i x w → fit_loop to_double fuel w ≡ some w' → OnDisk i x w'
    unfolding fit_loop
    fit_loop-OnDisk zero w w' h e = absurd (ground arith)
    fit_loop-OnDisk (suc fuel) w w' h e =
        let after = evict_cold-ssd to_double w i x h s in
        elim (Bool-cases (ltb w.ram_budget_bytes w.ram_used_bytes)) [
          | inl over ↦ elim (Bool-cases ((evict_cold to_double w).1 == 0)) [
            | inl last ↦
                let one : (evict_cold to_double w).0 ≡ w' = ground arith in
                subst (OnDisk i x) one after
            | inr more ↦ fit_loop-OnDisk fuel (evict_cold to_double w).0 w' after (ground arith)
          ]
          | inr fits ↦ let one : w ≡ w' = ground arith in subst (OnDisk i x) one h
        ]

    Frees-OnDisk : {w w' : Awm} → OnDisk i x w → Frees w w' → OnDisk i x w'
    unfolding set_budget
    Frees-OnDisk h begins = h
    Frees-OnDisk h (evicting {w'} j f e) =
        subst (OnDisk i x) e (awm_evict-OnDisk j w' (Frees-OnDisk h f))
    Frees-OnDisk h (clearing {w'} f e) =
        subst (OnDisk i x) e (evict_cold-ssd to_double w' i x (Frees-OnDisk h f) s)
    Frees-OnDisk h (limiting {w'} fuel budget f e) =
        fit_loop-OnDisk fuel (record w' { ram_budget_bytes = budget }) _ (Frees-OnDisk h f) e

  pub get_weight_loaded :
      (now : ℕ) (block : Option ℕ) (w : Awm) (i : ℕ) (r : Region)
      → get_elem? w.regions i ≡ some r
      → r.is_loaded ≡ true
      → get_weight to_double now block w i ≡ (w, r.ram_ptr)
  unfolding get_weight
  get_weight_loaded now block w i r h on = ground arith

  pub get_weight_missing :
      (now : ℕ) (block : Option ℕ) (w : Awm) (i : ℕ)
      → get_elem? w.regions i ≡ none
      → get_weight to_double now block w i ≡ (w, none)
  unfolding get_weight
  get_weight_missing now block w i h = ground arith

  pub get_weight_fails :
      (now : ℕ) (w : Awm) (i : ℕ) (r : Region)
      → get_elem? w.regions i ≡ some r
      → r.is_loaded ≡ false
      → get_weight to_double now none w i ≡ (
        record w { regions = modify (λ (x : Region). record x { ram_ptr = none }) i w.regions },
        none,
      )
  unfolding get_weight
  get_weight_fails now w i r h off = ground arith

  pub get_weight_loads :
      (now b : ℕ) (w : Awm) (i : ℕ) (r : Region)
      → get_elem? w.regions i ≡ some r
      → r.is_loaded ≡ false
      → get_weight to_double now (some b) w i ≡ (
        add_used to_double
            (region_bytes to_double r)
            (record w { regions = modify (loaded now b) i w.regions }),
        some b,
      )
  unfolding get_weight
  get_weight_loads now b w i r h off = ground arith

  -- A read of a region that is placed on the disk and not loaded, for which `calloc` gives a block, adds its
  -- bytes to those in use, and however many evictions of any regions, evictions of the cold ones and
  -- new budgets come after it, the region is still loaded with that block.
  pub Frees-get_weight :
      (now b : ℕ) (w w' : Awm) (i : ℕ) (r : Region)
      → get_elem? w.regions i ≡ some r
      → is_ssd r.placement ≡ true
      → r.is_loaded ≡ false
      → Frees (get_weight to_double now (some b) w i).0 w'
      → (get_elem? w'.regions i ≡ some (loaded now b r))
        × ((get_weight to_double now (some b) w i).0.ram_used_bytes
            ≡ (w.ram_used_bytes + region_bytes to_double r) % 2 ^ 64)
  Frees-get_weight now b w w' i r h s off f =
      let e = get_weight_loads now b w i r h off in
      let at : OnDisk i (loaded now b r) (get_weight to_double now (some b) w i).0 =
        rw e (get_elem?-modify (loaded now b) i w.regions r h) in
      (Frees-OnDisk i (loaded now b r) s at f, ap (λ (x : Awm × Option ℕ). x.0.ram_used_bytes) e)

module _ (to_double : ℕ → ℕ) (rounding : IsRounding to_double) where
  pub read-Good :
      (now b : ℕ) (w : Awm) (i : ℕ) (r : Region)
      → Good to_double w
      → get_elem? w.regions i ≡ some r
      → r.is_loaded ≡ false
      → Good to_double (
          add_used to_double
            (region_bytes to_double r)
            (record w { regions = modify (loaded now b) i w.regions }))
  read-Good now b w i r g h off =
      let idle : weight to_double r ≡ 0 = ground (arith, off) in
      change-Good to_double rounding w i r (loaded now b) _ g h
        (record { in_ram = λ t. refl; sized = Settled.sized (g.settled i r h) })
        (omega (arith, idle))

  pub get_weight-Good :
      (now : ℕ) (block : Option ℕ) (w : Awm) (i : ℕ)
      → Good to_double w
      → Good to_double (get_weight to_double now block w i).0
  get_weight-Good now block w i g = elim (Option-cases (get_elem? w.regions i)) [
    | inl h ↦ rw (get_weight_missing to_double now block w i h) g
    | inr (r, h) ↦ elim (Bool-cases r.is_loaded) [
      | inl on ↦ rw (get_weight_loaded to_double now block w i r h on) g
      | inr off ↦ elim (Option-cases block) [
        | inl fails ↦ rw fails (
            rw (get_weight_fails to_double now w i r h off) (
              same-Good to_double rounding w i r (λ (x : Region). record x { ram_ptr = none }) g h
                (record {
                  in_ram = Settled.in_ram (g.settled i r h);
                  sized = Settled.sized (g.settled i r h);
                })
                refl))
        | inr (b, gives) ↦
            rw gives
              (rw (get_weight_loads to_double now b w i r h off) (read-Good now b w i r g h off))
      ]
    ]
  ]
