-- ===== src/Awm/Loads.antt =====
-- The operations that load a region, against the budget: a registration, a move from the disk and a read.
use cautreo.Awm.Placing.{bring-Good, evict_cold-ssd, append_idle, other_is_ram, Uncounted}
use cautreo.Awm.Reading.{
  read-Good, get_weight-Good, get_weight_missing, get_weight_loaded, get_weight_loads,
  get_weight_fails,
}
use cautreo.Awm.Limits.{Held, evict_cold-Held, idle-Held, grown-Held, evicted-Held}
use cautreo.Awm.{
  Awm, admit, register, bring, load_from_disk, update_placement, Region, new_region, Option,
  Placement, List, get_elem?, is_ssd, length, leb, get_weight, exceeds, code, append_region,
  region_bytes, placement_bytes, ssd_q1, evict_cold, modify, loaded,
}
use cautreo.Awm.Accounts.{
  IsRounding, Settled, Good, weight, loaded_bytes-modify, loaded_bytes-end, placement_bytes-bound,
  append-Good,
}
use cautreo.Base.{
  ◌==◌, ℕ, true, false, none, some, [], ◌∷◌, refl, arith, inl, inr, ◌^◌, ◌<◌, Option-cases,
  Bool-cases, ◌≡◌, ◌⊎◌, subst, ◌++◌,
}

-- The region comes from the disk or goes there.
abbrev pub CrossesDisk : Awm → ℕ → Placement → Type 0
CrossesDisk w i p =
    (r : Region) → get_elem? w.regions i ≡ some r → (is_ssd r.placement ≡ true) ⊎ (is_ssd p ≡ true)

-- The region is loaded, or its bytes fit.
abbrev pub FitsRead : (ℕ → ℕ) → Awm → ℕ → Type 0
FitsRead to_double w i =
    (r : Region)
    → get_elem? w.regions i ≡ some r
    → (r.is_loaded ≡ true) ⊎ (exceeds to_double w (region_bytes to_double r) ≡ false)

module _ (to_double : ℕ → ℕ) (rounding : IsRounding to_double) where
  append_idle-Held :
      (w : Awm) (r : Region)
      → Held to_double w
      → Settled to_double r
      → r.is_loaded ≡ false
      → length w.regions < w.capacity
      → Held to_double (append_region w r)
  append_idle-Held w r v s idle free =
      let none_held : weight to_double r ≡ 0 = ground (arith, idle) in
      idle-Held to_double rounding w (w.regions ++ (r ∷ [])) v
        (omega (arith, loaded_bytes-end to_double w.regions r, none_held))
        (append_idle to_double rounding w r v.good s idle free)

  admit-Held :
      (now b : ℕ) (w : Awm) (r : Region)
      → Held to_double w
      → r.is_loaded ≡ false
      → r.size_bytes < 2 ^ 64
      → length w.regions < w.capacity
      → Held to_double (admit to_double now (some b) w r)
  unfolding admit
  admit-Held now b w r v idle sized free = elim (Bool-cases (is_ssd r.placement)) [
    | inl s ↦
        rw (s, admit)
          (append_idle-Held w r v
            (record { in_ram = λ t. absurd (ground (arith, s)); sized = sized }) idle free)
    | inr s ↦ elim (Bool-cases (exceeds to_double w (region_bytes to_double r))) [
      | inl over ↦
          rw (s, admit)
            (rw (over, admit)
              (append_idle-Held w (record r { placement = ssd_q1 }) v
                (record { in_ram = λ t. absurd (ground arith); sized = sized }) idle free))
      | inr fits ↦
          rw (s, admit)
            (rw (fits, admit)
              (grown-Held to_double rounding w (w.regions ++ (loaded now b r ∷ []))
                (region_bytes to_double r) v
                (placement_bytes-bound to_double rounding r.size_bytes r.placement sized) fits
                (loaded_bytes-end to_double w.regions (loaded now b r))
                (append-Good to_double rounding w (loaded now b r) _ v.good
                  (record { in_ram = λ t. refl; sized = sized }) free refl)))
    ]
  ]

  pub register-Held :
      (now b : ℕ) (w : Awm) (name : Option (List ℕ)) (size offset : ℕ) (p : Placement)
      → Held to_double w
      → size < 2 ^ 64
      → Held to_double (register to_double now (some b) w name size offset p).0
  unfolding register new_region
  register-Held now b w none size offset p v sized = v
  register-Held now b w (some name) size offset p v sized =
      elim (Bool-cases (leb w.capacity (length w.regions))) [
        | inl full ↦ rw (full, register) v
        | inr free ↦
            rw (free, register)
              (admit-Held now b w (new_region name size offset p) v refl sized
                (ground (arith, free)))
      ]

  bring-Held :
      (now : ℕ) (block : Option ℕ) (w : Awm) (i : ℕ) (r : Region) (p : Placement)
      → Held to_double w
      → get_elem? w.regions i ≡ some r
      → is_ssd r.placement ≡ true
      → r.is_loaded ≡ false
      → is_ssd p ≡ false
      → exceeds to_double w (placement_bytes to_double r.size_bytes p) ≡ false
      → Held to_double
          (bring to_double now block w i (placement_bytes to_double r.size_bytes p) p).0
  unfolding bring
  bring-Held now none w i r p v h s off t fits =
      let f : Region → Region = λ (x : Region). record x { ram_ptr = none } in
      idle-Held to_double rounding w (modify f i w.regions) v
        (omega (arith, loaded_bytes-modify to_double f i w.regions r h))
        (bring-Good to_double rounding w i r v.good h now none p s off t)
  bring-Held now (some b) w i r p v h s off t fits =
      let f : Region → Region = λ (x : Region). record (loaded now b x) { placement = p } in
      let set = Good.settled v.good i r h in
      let idle : weight to_double r ≡ 0 = ground (arith, off) in
      grown-Held to_double rounding w (modify f i w.regions)
        (placement_bytes to_double r.size_bytes p) v
        (placement_bytes-bound to_double rounding r.size_bytes p (Settled.sized set)) fits
        (omega (arith, loaded_bytes-modify to_double f i w.regions r h, idle))
        (bring-Good to_double rounding w i r v.good h now (some b) p s off t)

  load_from_disk-Held :
      (now : ℕ) (block : Option ℕ) (w : Awm) (i : ℕ) (r : Region) (p : Placement)
      → Held to_double w
      → get_elem? w.regions i ≡ some r
      → is_ssd r.placement ≡ true
      → r.is_loaded ≡ false
      → is_ssd p ≡ false
      → Held to_double (load_from_disk to_double now block w i r p).0
  unfolding load_from_disk
  load_from_disk-Held now block w i r p v h s off t =
      let after = evict_cold-Held to_double rounding w v in
      elim (Bool-cases (exceeds to_double w (placement_bytes to_double r.size_bytes p))) [
        | inr fits ↦ rw (fits, load_from_disk) (bring-Held now block w i r p v h s off t fits)
        | inl over ↦
            elim (Bool-cases (
              exceeds to_double (evict_cold to_double w).0
                (placement_bytes to_double r.size_bytes p))) [
                  | inl still ↦ rw (over, load_from_disk) (rw (still, load_from_disk) after)
                  | inr fits ↦
                      rw (over, load_from_disk)
                        (rw (fits, load_from_disk)
                          (bring-Held now block (evict_cold to_double w).0 i r p after
                            (evict_cold-ssd to_double w i r h s) s off t fits))
                ]
      ]

  pub update_placement-Held :
      (now : ℕ) (block : Option ℕ) (w : Awm) (i : ℕ) (p : Placement)
      → Held to_double w
      → CrossesDisk w i p
      → Uncounted w i p
      → Held to_double (update_placement to_double now block w i p).0
  unfolding update_placement
  update_placement-Held now block w i p v crosses once =
      elim (Option-cases (get_elem? w.regions i)) [
        | inl q ↦ rw (q, update_placement) v
        | inr (r, q) ↦ elim (Bool-cases (code r.placement == code p)) [
          | inl same ↦ rw (q, update_placement) (rw (same, update_placement) v)
          | inr other ↦ elim (Bool-cases (is_ssd r.placement)) [
            | inl s ↦
                rw (q, update_placement)
                  (rw (other, update_placement)
                    (rw (s, update_placement)
                      (let t = other_is_ram r.placement p s other in
                        load_from_disk-Held now block w i r p v q s (once r q s t) t)))
            | inr s ↦
                let t : is_ssd p ≡ true = ground (arith, crosses r q, s) in
                rw (q, update_placement)
                  (rw (other, update_placement)
                    (rw (s, update_placement)
                      (rw (t, update_placement) (evicted-Held to_double rounding w i r v q s))))
          ]
        ]
      ]

  pub get_weight-Held :
      (now : ℕ) (block : Option ℕ) (w : Awm) (i : ℕ)
      → Held to_double w
      → FitsRead to_double w i
      → Held to_double (get_weight to_double now block w i).0
  get_weight-Held now block w i v fits = elim (Option-cases (get_elem? w.regions i)) [
    | inl h ↦ rw (get_weight_missing to_double now block w i h) v
    | inr (r, h) ↦ elim (Bool-cases r.is_loaded) [
      | inl on ↦ rw (get_weight_loaded to_double now block w i r h on) v
      | inr off ↦ elim (Option-cases block) [
        | inl fails ↦
            let f : Region → Region = λ (x : Region). record x { ram_ptr = none } in
            let good = get_weight-Good to_double rounding now none w i v.good in
            let e = get_weight_fails to_double now w i r h off in
            rw fails (
              rw e (
                idle-Held to_double rounding w (modify f i w.regions) v
                  (omega (arith, loaded_bytes-modify to_double f i w.regions r h))
                  (subst (λ (x : Awm × Option ℕ). Good to_double x.0) e good)))
        | inr (b, gives) ↦
            let set = Good.settled v.good i r h in
            let idle : weight to_double r ≡ 0 = ground (arith, off) in
            let room : exceeds to_double w (region_bytes to_double r) ≡ false = elim (fits r h) [
              | inl on ↦ absurd (ground arith)
              | inr free ↦ free
            ] in
            rw gives (
              rw (get_weight_loads to_double now b w i r h off) (
                grown-Held to_double rounding w (modify (loaded now b) i w.regions)
                  (region_bytes to_double r) v
                  (placement_bytes-bound to_double rounding r.size_bytes r.placement
                    (Settled.sized set))
                  room
                  (omega
                    (arith, loaded_bytes-modify to_double (loaded now b) i w.regions r h, idle))
                  (read-Good to_double rounding now b w i r v.good h off)))
      ]
    ]
  ]
