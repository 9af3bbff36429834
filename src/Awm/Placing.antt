-- ===== src/Awm/Placing.antt =====
-- Registration, changes of placement and reads keep the accounts.
use cautreo.Awm.Budget.{evict_cold-regions, evict_cold-Good}
use cautreo.Awm.Evictions.{evicted-Good}
use cautreo.Awm.Accounts.{IsRounding, Good, Settled, weight, append-Good, same-Good, change-Good}
use cautreo.Base.{
  ℕ, true, false, none, some, refl, ◌∙◌, arith, inl, inr, ◌^◌, ◌<◌, Option-cases, Bool-cases, ◌≡◌,
  ◌==◌,
}
use cautreo.Awm.{
  ram_fp16, ram_q8, ram_q4, ram_q2, ssd_q1, Placement, code, is_ssd, is_cold, Awm, admit, register,
  Region, new_region, length, Option, get_elem?, append_region, exceeds, List, bring, resize,
  region_bytes, leb, placement_bytes, loaded, load_from_disk, update_placement, evict_cold,
}

ssd_not_cold : (p : Placement) → is_ssd p ≡ true → is_cold p ≡ false
ssd_not_cold ram_fp16 h = refl
ssd_not_cold ram_q8 h = refl
ssd_not_cold ram_q4 h = absurd (ground (arith, h))
ssd_not_cold ram_q2 h = absurd (ground (arith, h))
ssd_not_cold ssd_q1 h = refl

pub other_is_ram :
    (p q : Placement) → is_ssd p ≡ true → (code p == code q) ≡ false → is_ssd q ≡ false
other_is_ram p ram_fp16 h ne = refl
other_is_ram p ram_q8 h ne = refl
other_is_ram p ram_q4 h ne = refl
other_is_ram p ram_q2 h ne = refl
other_is_ram ssd_q1 ssd_q1 h ne = absurd (ground (arith, ne))
other_is_ram ram_fp16 ssd_q1 h ne = absurd (ground (arith, h))
other_is_ram ram_q8 ssd_q1 h ne = absurd (ground (arith, h))
other_is_ram ram_q4 ssd_q1 h ne = absurd (ground (arith, h))
other_is_ram ram_q2 ssd_q1 h ne = absurd (ground (arith, h))

-- A region that is brought from the disk to RAM is not loaded, as by a read, and so not counted yet.
abbrev pub Uncounted : Awm → ℕ → Placement → Type 0
Uncounted w i p =
    (r : Region)
    → get_elem? w.regions i ≡ some r
    → is_ssd r.placement ≡ true
    → is_ssd p ≡ false
    → r.is_loaded ≡ false

module _ (to_double : ℕ → ℕ) where
  -- A region of the disk stays as it is while the cold ones leave.
  pub evict_cold-ssd :
      (w : Awm) (i : ℕ) (r : Region)
      → get_elem? w.regions i ≡ some r
      → is_ssd r.placement ≡ true
      → get_elem? (evict_cold to_double w).0.regions i ≡ some r
  evict_cold-ssd w i r h s =
      evict_cold-regions to_double w i ∙ ground (arith, h, ssd_not_cold r.placement s)

module _ (to_double : ℕ → ℕ) (rounding : IsRounding to_double) where
  used_small : (w : Awm) → Good to_double w → w.ram_used_bytes < 2 ^ 64
  used_small w g = omega (arith, g.accounted)

  -- A region that holds nothing of the RAM.
  pub append_idle :
      (w : Awm) (r : Region)
      → Good to_double w
      → Settled to_double r
      → r.is_loaded ≡ false
      → length w.regions < w.capacity
      → Good to_double (append_region w r)
  append_idle w r g s idle free =
      let none_held : weight to_double r ≡ 0 = ground (arith, idle) in
      append-Good to_double rounding w r w.ram_used_bytes g s free
        (omega (arith, used_small w g, none_held))

  pub admit-Good :
      (now b : ℕ) (w : Awm) (r : Region)
      → Good to_double w
      → r.is_loaded ≡ false
      → r.size_bytes < 2 ^ 64
      → length w.regions < w.capacity
      → Good to_double (admit to_double now (some b) w r)
  unfolding admit
  admit-Good now b w r g idle sized free = elim (Bool-cases (is_ssd r.placement)) [
    | inl s ↦
        rw (s, admit)
          (append_idle w r g (record { in_ram = λ t. absurd (ground (arith, s)); sized = sized })
            idle free)
    | inr s ↦ elim (Bool-cases (exceeds to_double w (region_bytes to_double r))) [
      | inl over ↦
          rw (s, admit)
            (rw (over, admit)
              (append_idle w (record r { placement = ssd_q1 }) g
                (record { in_ram = λ t. absurd (ground arith); sized = sized }) idle free))
      | inr fits ↦
          rw (s, admit)
            (rw (fits, admit)
              (append-Good to_double rounding w (loaded now b r) _ g
                (record { in_ram = λ t. refl; sized = sized }) free refl))
    ]
  ]

  pub register-Good :
      (now b : ℕ) (w : Awm) (name : Option (List ℕ)) (size offset : ℕ) (p : Placement)
      → Good to_double w
      → size < 2 ^ 64
      → Good to_double (register to_double now (some b) w name size offset p).0
  unfolding register new_region
  register-Good now b w none size offset p g sized = g
  register-Good now b w (some name) size offset p g sized =
      elim (Bool-cases (leb w.capacity (length w.regions))) [
        | inl full ↦ rw (full, register) g
        | inr free ↦
            rw (free, register)
              (admit-Good now b w (new_region name size offset p) g refl sized
                (ground (arith, free)))
      ]

  module _ (w : Awm) (i : ℕ) (r : Region) (g : Good to_double w)
      (h : get_elem? w.regions i ≡ some r) where
    pub kept : Settled to_double r
    kept = g.settled i r h

    pub bring-Good :
        (now : ℕ) (block : Option ℕ) (p : Placement)
        → is_ssd r.placement ≡ true
        → r.is_loaded ≡ false
        → is_ssd p ≡ false
        → Good to_double
            (bring to_double now block w i (placement_bytes to_double r.size_bytes p) p).0
    unfolding bring
    bring-Good now none p s off t =
        same-Good to_double rounding w i r (λ (x : Region). record x { ram_ptr = none }) g h
          (record { in_ram = kept.in_ram; sized = kept.sized }) refl
    bring-Good now (some b) p s off t =
        let idle : weight to_double r ≡ 0 = ground (arith, off) in
        change-Good to_double rounding w i r
          (λ (x : Region). record (loaded now b x) { placement = p }) _ g h
          (record { in_ram = λ u. refl; sized = kept.sized }) (omega (arith, idle))

    resize-Good :
        (block : Option ℕ) (p : Placement)
        → is_ssd r.placement ≡ false
        → is_ssd p ≡ false
        → Good to_double (resize to_double block w i r p).0
    unfolding resize
    resize-Good block p s t =
        let on : r.is_loaded ≡ true = kept.in_ram s in
        let held : weight to_double r ≡ region_bytes to_double r = ground (arith, on) in
        let settled : Settled to_double (record r { placement = p }) = record {
          in_ram = λ u. on;
          sized = kept.sized;
        } in
        elim (Bool-cases (placement_bytes to_double r.size_bytes p == region_bytes to_double r)) [
          | inl same ↦
              rw (same, resize)
                (same-Good to_double rounding w i r (λ (x : Region). record x { placement = p }) g h
                  settled (ground (arith, same, on)))
          | inr other ↦ elim (Option-cases block) [
            | inl fails ↦ rw (other, resize) (rw (fails, resize) g)
            | inr (b, gives) ↦
                rw (other, resize)
                  (rw (gives, resize)
                    (change-Good to_double rounding w i r
                      (λ (x : Region). record x { ram_ptr = some b; placement = p }) _ g h
                      (record { in_ram = settled.in_ram; sized = kept.sized })
                      (ground (arith, on, held))))
          ]
        ]

  load_from_disk-Good :
      (now : ℕ) (block : Option ℕ) (w : Awm) (i : ℕ) (r : Region) (p : Placement)
      → Good to_double w
      → get_elem? w.regions i ≡ some r
      → is_ssd r.placement ≡ true
      → r.is_loaded ≡ false
      → is_ssd p ≡ false
      → Good to_double (load_from_disk to_double now block w i r p).0
  unfolding load_from_disk
  load_from_disk-Good now block w i r p g h s off t =
      let after = evict_cold-Good to_double rounding w g in
      elim (Bool-cases (exceeds to_double w (placement_bytes to_double r.size_bytes p))) [
        | inr fits ↦ rw (fits, load_from_disk) (bring-Good w i r g h now block p s off t)
        | inl over ↦
            elim (Bool-cases (
              exceeds to_double (evict_cold to_double w).0
                (placement_bytes to_double r.size_bytes p))) [
                  | inl still ↦ rw (over, load_from_disk) (rw (still, load_from_disk) after)
                  | inr fits ↦
                      rw (over, load_from_disk)
                        (rw (fits, load_from_disk)
                          (bring-Good (evict_cold to_double w).0 i r after
                            (evict_cold-ssd to_double w i r h s) now block p s off t))
                ]
      ]

  pub update_placement-Good :
      (now : ℕ) (block : Option ℕ) (w : Awm) (i : ℕ) (p : Placement)
      → Good to_double w
      → Uncounted w i p
      → Good to_double (update_placement to_double now block w i p).0
  unfolding update_placement
  update_placement-Good now block w i p g once = elim (Option-cases (get_elem? w.regions i)) [
    | inl q ↦ rw (q, update_placement) g
    | inr (r, q) ↦ elim (Bool-cases (code r.placement == code p)) [
      | inl same ↦ rw (q, update_placement) (rw (same, update_placement) g)
      | inr other ↦ elim (Bool-cases (is_ssd r.placement)) [
        | inl s ↦
            rw (q, update_placement)
              (rw (other, update_placement)
                (rw (s, update_placement)
                  (let t = other_is_ram r.placement p s other in
                    load_from_disk-Good now block w i r p g q s (once r q s t) t)))
        | inr s ↦ elim (Bool-cases (is_ssd p)) [
          | inl t ↦
              rw (q, update_placement)
                (rw (other, update_placement)
                  (rw (s, update_placement)
                    (rw (t, update_placement) (evicted-Good to_double rounding w i r g q s))))
          | inr t ↦
              rw (q, update_placement)
                (rw (other, update_placement)
                  (rw (s, update_placement)
                    (rw (t, update_placement) (resize-Good w i r g q block p s t))))
        ]
      ]
    ]
  ]
