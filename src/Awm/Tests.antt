-- ===== src/Awm/Tests.antt =====
-- The theorems about the manager at small ones, and runs of its operations. Doubles hold the small
-- sizes exactly.
use cautreo.Awm.Evictions.{map_region, cooled}
use cautreo.Awm.Budget.{IsWarm, set_budget-ends}
use cautreo.Awm.Loads.{FitsRead}
use cautreo.Awm.Safety.{CarefulRun, Reachable-within}
use cautreo.Awm.Placing.{Uncounted}
use cautreo.Awm.Reading.{begins, evicting, clearing, Frees-get_weight}
use cautreo.Awm.Commands.{Reachable, moves, Reachable-Good, starts, registers, updates, reads}
use cautreo.Awm.{
  Awm, awm_create, Region, awm_evict, register, update_placement, set_budget, ssd_q1, get_weight,
  ram_fp16, ram_q4, new_region, admit, placement_bytes, load_from_disk, get_elem?, resize, bring,
  evict_cold, cold_loop, evict_round, ltb, region_bytes, loaded, exceeds, List,
}
use cautreo.Awm.Accounts.{IsRounding, Good, loaded_bytes}
use cautreo.Base.{
  ◌%◌, ◌^◌, subst, inr, ℕ, false, none, some, [], ◌∷◌, refl, arith, ◌≡◌, inl, ◌+◌, ◌≤◌, ◌⊎◌,
  if◌then◌else◌,
}

abbrev exact : ℕ → ℕ
exact n = n

exact-IsRounding : IsRounding exact
exact-IsRounding n h = omega (arith, h)

abbrev awm0 : Awm
awm0 = awm_create 3 60

-- 32 bytes at `FP16`.
abbrev awm1 : Awm
awm1 = (register exact 5 (some 4096) awm0 (some (97 ∷ [])) 64 0 ram_fp16).0

-- 25 bytes at `Q4`.
abbrev awm2 : Awm
awm2 = (register exact 6 (some 8192) awm1 (some (98 ∷ [])) 200 64 ram_q4).0

-- No room for 12 bytes more.
abbrev awm3 : Awm
awm3 = (register exact 7 (some 1024) awm2 (some (99 ∷ [])) 24 264 ram_fp16).0

-- The cold region makes room for the move from the disk.
abbrev awm4 : Awm
awm4 = (update_placement exact 8 (some 2048) awm3 2 ram_fp16).0

-- The region that left is read back, and keeps its placement on the disk.
abbrev awm5 : Awm
awm5 = (get_weight exact 9 (some 512) awm4 1).0

abbrev used4 : Awm → ℕ
used4 w = w.ram_used_bytes

awm4_used : used4 awm4 ≡ 44
unfolding awm_create register new_region admit placement_bytes update_placement load_from_disk bring
    evict_cold cold_loop evict_round awm_evict
awm4_used = refl

abbrev idle_region : List ℕ → ℕ → ℕ → Region
idle_region name size offset = record {
  name = name;
  size_bytes = size;
  offset_file = offset;
  placement = ssd_q1;
  load_count = 0;
  last_load_ms = 0;
  ram_ptr = none;
  is_loaded = false;
}

abbrev third : Region
third = idle_region (99 ∷ []) 24 264

awm3_third : get_elem? awm3.regions 2 ≡ some third
unfolding awm_create register new_region admit placement_bytes
awm3_third = refl

abbrev second : Region
second = record (idle_region (98 ∷ []) 200 64) { load_count = 1; last_load_ms = 6 }

awm4_second : get_elem? awm4.regions 1 ≡ some second
unfolding awm_create register new_region admit placement_bytes update_placement load_from_disk bring
    evict_cold cold_loop evict_round awm_evict
awm4_second = refl

third_idle : Uncounted awm3 2 ram_fp16
third_idle r h s t = ground (arith, awm3_third, h)

abbrev reached : Reachable exact awm5
reached =
    moves
      (moves
        (moves
          (moves
            (moves (starts 3 60 refl)
              (registers 5 4096 (some (97 ∷ [])) 64 0 ram_fp16 (omega arith) refl))
            (registers 6 8192 (some (98 ∷ [])) 200 64 ram_q4 (omega arith) refl))
          (registers 7 1024 (some (99 ∷ [])) 24 264 ram_fp16 (omega arith) refl))
        (updates 8 (some 2048) 2 ram_fp16 third_idle refl))
      (reads 9 (some 512) 1 refl)

Reachable-Good_example : Good exact awm5
Reachable-Good_example = Reachable-Good exact exact-IsRounding reached

second-fits : exceeds exact awm4 (region_bytes exact second) ≡ false
unfolding awm_create register new_region admit placement_bytes update_placement load_from_disk bring
    evict_cold cold_loop evict_round awm_evict
second-fits = refl

second-FitsRead : FitsRead exact awm4 1
second-FitsRead r h =
    let one : second ≡ r = ground (arith, awm4_second, h) in
    inr (subst (λ x. exceeds exact awm4 (region_bytes exact x) ≡ false) one second-fits)

careful : CarefulRun exact reached
careful = (
  (
    (((omega arith, record {}), record {}), record {}),
    (λ r h. inl (ground (arith, awm3_third, h))),
  ),
  second-FitsRead,
)

Reachable-within_example :
    (loaded_bytes exact awm5.regions ≤ awm5.ram_budget_bytes)
    × (awm5.ram_used_bytes ≡ loaded_bytes exact awm5.regions)
Reachable-within_example = Reachable-within exact exact-IsRounding awm5 reached careful

set_budget-ends_example :
    (w' : Awm) × (set_budget exact 7 awm2 40 ≡ some w')
    × (w'.ram_budget_bytes ≡ 40)
    × ((w'.ram_used_bytes ≤ 40) ⊎ IsWarm exact w')
    × ((j : ℕ)
        → get_elem? w'.regions j ≡ (
            if ltb 40 awm2.ram_used_bytes
            then map_region cooled (get_elem? awm2.regions j)
            else get_elem? awm2.regions j))
set_budget-ends_example = set_budget-ends exact 5 awm2 40

abbrev read3 : Awm
read3 = (get_weight exact 9 (some 512) awm3 2).0

-- After the read: its eviction, that of the cold regions, and a new budget.
abbrev emptied : Awm
emptied = (evict_cold exact (awm_evict exact read3 2).0).0

Frees-get_weight_example :
    (get_elem? emptied.regions 2 ≡ some (loaded 9 512 third))
    × (read3.ram_used_bytes ≡ (awm3.ram_used_bytes + region_bytes exact third) % 2 ^ 64)
Frees-get_weight_example =
    Frees-get_weight exact 9 512 awm3 emptied 2 third awm3_third refl refl
      (clearing (evicting 2 begins refl) refl)

-- A move within RAM is not held to the budget.
grown_over : used4 (update_placement exact 9 (some 512) awm2 1 ram_fp16).0 ≡ 132
unfolding awm_create register new_region admit placement_bytes update_placement resize
grown_over = refl
