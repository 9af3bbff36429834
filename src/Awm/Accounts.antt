-- ===== src/Awm/Accounts.antt =====
-- The accounts of the manager: which regions are in RAM, and that `ram_used_bytes` is the sum of their
-- sizes. A region that is changed, added or evicted keeps them.
use cautreo.Base.{
  ℕ, zero, suc, some, [], ◌∷◌, refl, sym, ap, ◌∙◌, arith, inl, inr, ◌^◌, ◌+◌, ◌-◌, ◌%◌, ◌≤◌, ◌<◌,
  Bool-cases, ◌≢◌, ◌≡◌, ◌++◌, if◌then◌else◌, ◌==◌, ◌⊎◌, subst,
}
use cautreo.Awm.{
  ram_fp16, ram_q8, ram_q4, ram_q2, ssd_q1, is_ssd, modify, region_bytes, List, Region, Awm,
  placement_bytes, get_elem?, length, Placement, false, true,
}

pub get_elem?-modify :
    {A : Type 0} (f : A → A) (i : ℕ) (xs : List A) (x : A)
    → get_elem? xs i ≡ some x
    → get_elem? (modify f i xs) i ≡ some (f x)
get_elem?-modify f i [] x h = absurd (ground arith)
get_elem?-modify f zero (a ∷ xs) x h = ground arith
get_elem?-modify f (suc i) (a ∷ xs) x h = get_elem?-modify f i xs x h

pub get_elem?-modify_ne :
    {A : Type 0} (f : A → A) (i j : ℕ) (xs : List A)
    → j ≢ i
    → get_elem? (modify f i xs) j ≡ get_elem? xs j
get_elem?-modify_ne f i j [] ne = refl
get_elem?-modify_ne f zero zero (a ∷ xs) ne = absurd (ne refl)
get_elem?-modify_ne f zero (suc j) (a ∷ xs) ne = refl
get_elem?-modify_ne f (suc i) zero (a ∷ xs) ne = refl
get_elem?-modify_ne f (suc i) (suc j) (a ∷ xs) ne =
    get_elem?-modify_ne f i j xs (λ e. ne (ap suc e))

pub length-modify :
    {A : Type 0} (f : A → A) (i : ℕ) (xs : List A) → length (modify f i xs) ≡ length xs
length-modify f i [] = refl
length-modify f zero (a ∷ xs) = refl
length-modify f (suc i) (a ∷ xs) = ap suc (length-modify f i xs)

get_elem?-end :
    {A : Type 0} (xs : List A) (a x : A) (j : ℕ)
    → get_elem? (xs ++ (a ∷ [])) j ≡ some x
    → (get_elem? xs j ≡ some x) ⊎ (a ≡ x)
get_elem?-end [] a x zero h = inr (ground arith)
get_elem?-end [] a x (suc j) h = absurd (ground arith)
get_elem?-end (y ∷ xs) a x zero h = inl h
get_elem?-end (y ∷ xs) a x (suc j) h = get_elem?-end xs a x j h

module _ (to_double : ℕ → ℕ) where
  -- What the region holds of the RAM.
  abbrev pub weight : Region → ℕ
  weight r = if r.is_loaded then region_bytes to_double r else 0

  abbrev pub loaded_bytes : List Region → ℕ
  loaded_bytes [] = 0
  loaded_bytes (r ∷ rs) = weight r + loaded_bytes rs

  -- Loaded if it is placed in RAM, and of a size that fits a `uint64_t`.
  pub record Settled (r : Region) : Type 0 where
    pub in_ram : is_ssd r.placement ≡ false → r.is_loaded ≡ true
    pub sized : r.size_bytes < 2 ^ 64

  pub record Good (w : Awm) : Type 0 where
    pub settled : (i : ℕ) (r : Region) → get_elem? w.regions i ≡ some r → Settled r
    pub accounted : w.ram_used_bytes ≡ loaded_bytes w.regions % 2 ^ 64
    pub room : length w.regions ≤ w.capacity

  pub loaded_bytes-modify :
      (f : Region → Region) (i : ℕ) (rs : List Region) (r : Region)
      → get_elem? rs i ≡ some r
      → loaded_bytes (modify f i rs) + weight r ≡ loaded_bytes rs + weight (f r)
  loaded_bytes-modify f i [] r h = absurd (ground arith)
  loaded_bytes-modify f zero (x ∷ rs) r h = let same : x ≡ r = ground arith in rw same (omega arith)
  loaded_bytes-modify f (suc i) (x ∷ rs) r h = omega (arith, loaded_bytes-modify f i rs r h)

  pub loaded_bytes-end :
      (rs : List Region) (r : Region) → loaded_bytes (rs ++ (r ∷ [])) ≡ loaded_bytes rs + weight r
  loaded_bytes-end [] r = omega arith
  loaded_bytes-end (x ∷ rs) r = omega (arith, loaded_bytes-end rs r)

  pub length-end : (rs : List Region) (r : Region) → length (rs ++ (r ∷ [])) ≡ suc (length rs)
  length-end [] r = refl
  length-end (x ∷ rs) r = ap suc (length-end rs r)

  -- What the platform's doubles promise.
  abbrev pub IsRounding : Type 0
  IsRounding = (n : ℕ) → n < 2 ^ 64 → to_double n ≤ 2 ^ 64

  module _ (rounding : IsRounding) where
    pub placement_bytes-bound :
        (n : ℕ) (p : Placement) → n < 2 ^ 64 → placement_bytes to_double n p ≤ 2 ^ 63
    unfolding placement_bytes
    placement_bytes-bound n ram_fp16 h = omega (arith, rounding n h)
    placement_bytes-bound n ram_q8 h = omega (arith, rounding n h)
    placement_bytes-bound n ram_q4 h = omega (arith, rounding n h)
    placement_bytes-bound n ram_q2 h = omega (arith, rounding n h)
    placement_bytes-bound n ssd_q1 h = omega (arith, rounding n h)

    pub weight-bound : (r : Region) → Settled r → weight r ≤ 2 ^ 63
    weight-bound r s = ground (arith, placement_bytes-bound r.size_bytes r.placement s.sized)

    pub change-Good :
        (w : Awm) (i : ℕ) (r : Region) (f : Region → Region) (used : ℕ)
        → Good w
        → get_elem? w.regions i ≡ some r
        → Settled (f r)
        → used ≡ (w.ram_used_bytes + 2 ^ 64 - weight r + weight (f r)) % 2 ^ 64
        → Good (record w { regions = modify f i w.regions; ram_used_bytes = used })
    change-Good w i r f used g h s e = record {
      settled = λ j x at. elim (Bool-cases (j == i)) [
        | inl same ↦
            let p : j ≡ i = ground arith in
            let q : get_elem? (modify f i w.regions) i ≡ some x =
              sym (ap (get_elem? (modify f i w.regions)) p) ∙ at in
            let one : f r ≡ x = ground (arith, get_elem?-modify f i w.regions r h, q) in
            subst Settled one s
        | inr other ↦ g.settled j x (sym (get_elem?-modify_ne f i j w.regions (ground arith)) ∙ at)
      ];
      accounted = omega (
        arith,
        e,
        g.accounted,
        loaded_bytes-modify f i w.regions r h,
        weight-bound r (g.settled i r h),
      );
      room = omega (arith, length-modify f i w.regions, g.room);
    }

    pub append-Good :
        (w : Awm) (r : Region) (used : ℕ)
        → Good w
        → Settled r
        → length w.regions < w.capacity
        → used ≡ (w.ram_used_bytes + weight r) % 2 ^ 64
        → Good (record w { regions = w.regions ++ (r ∷ []); ram_used_bytes = used })
    append-Good w r used g s free e = record {
      settled = λ j x at. elim (get_elem?-end w.regions r x j at) [
        | inl before ↦ g.settled j x before
        | inr one ↦ subst Settled one s
      ];
      accounted = omega (arith, e, g.accounted, loaded_bytes-end w.regions r);
      room = omega (arith, length-end w.regions r, free);
    }

    -- A region of the same weight that is changed elsewhere.
    pub same-Good :
        (w : Awm) (i : ℕ) (r : Region) (f : Region → Region)
        → Good w
        → get_elem? w.regions i ≡ some r
        → Settled (f r)
        → weight (f r) ≡ weight r
        → Good (record w { regions = modify f i w.regions })
    same-Good w i r f g h s e =
        change-Good w i r f w.ram_used_bytes g h s
          (omega (arith, e, g.accounted, weight-bound r (g.settled i r h)))
