-- ===== src/Awm.antt =====
-- awm/awm.c: where the weights are held, in RAM at one of four precisions or on the disk, within a
-- budget of RAM.
-- The manager is not null. `regions` are those registered, the first `count`. `to_double` is the
-- conversion of a `uint64_t` to a double, a whole number, whose product with a power of two is exact. What
-- `calloc` or `realloc` returns is an argument of the call, `none` for a null pointer, and `now` is
-- the clock. A sum or difference of `uint64_t` keeps its wrap-around.
pub mod Accounts
pub mod Evictions
pub mod Budget
pub mod Placing
pub mod Reading
pub mod Commands
pub mod Limits
pub mod Loads
pub mod Safety
mod Tests
use cautreo.Base.{
  ℕ, zero, suc, ◌+◌, ◌-◌, ◌%◌, ◌/◌, ◌^◌, Bool, true, false, ◌||◌, Option, none, some, List, [], ◌∷◌,
  ◌++◌, length, get_elem?, take, ltb, leb, ◌==◌, if◌then◌else◌, inc32, inc64, not, ◌&&◌,
}

pub data Placement : Type 0 where
  ram_fp16 ram_q8 ram_q4 ram_q2 ssd_q1 : Placement

-- `ram_ptr` is the address of the block, and `none` is null.
pub record Region : Type 0 where
  pub name : List ℕ
  pub size_bytes : ℕ
  pub offset_file : ℕ
  pub placement : Placement
  pub load_count : ℕ
  pub last_load_ms : ℕ
  pub ram_ptr : Option ℕ
  pub is_loaded : Bool

pub record Awm : Type 0 where
  pub capacity : ℕ
  pub ram_budget_bytes : ℕ
  pub ram_used_bytes : ℕ
  pub regions : List Region

abbrev pub is_ssd : Placement → Bool
is_ssd ram_fp16 = false
is_ssd ram_q8 = false
is_ssd ram_q4 = false
is_ssd ram_q2 = false
is_ssd ssd_q1 = true

-- The value of the enumeration.
abbrev pub code : Placement → ℕ
code ram_fp16 = 0
code ram_q8 = 1
code ram_q4 = 2
code ram_q2 = 3
code ssd_q1 = 4

-- `Q4` and `Q2`.
abbrev pub is_cold : Placement → Bool
is_cold ram_fp16 = false
is_cold ram_q8 = false
is_cold ram_q4 = true
is_cold ram_q2 = true
is_cold ssd_q1 = false

-- The inverse of `ratio`.
abbrev pub divisor : Placement → ℕ
divisor ram_fp16 = 2
divisor ram_q8 = 4
divisor ram_q4 = 8
divisor ram_q2 = 16
divisor ssd_q1 = 32

-- An assignment through the pointer to an element.
abbrev pub modify : {A : Type 0} → (A → A) → ℕ → List A → List A
modify f i [] = []
modify f zero (a ∷ xs) = f a ∷ xs
modify f (suc i) (a ∷ xs) = a ∷ modify f i xs

unfoldable pub awm_create : ℕ → ℕ → Awm
awm_create max_regions ram_budget = record {
  capacity = if max_regions == 0 then 8192 else max_regions;
  ram_budget_bytes = ram_budget;
  ram_used_bytes = 0;
  regions = [];
}

abbrev pub append_region : Awm → Region → Awm
append_region w r = record w { regions = w.regions ++ (r ∷ []) }

unfoldable pub new_region : List ℕ → ℕ → ℕ → Placement → Region
new_region name size offset placement = record {
  name = take 63 name;
  size_bytes = size;
  offset_file = offset;
  placement = placement;
  load_count = 0;
  last_load_ms = 0;
  ram_ptr = none;
  is_loaded = false;
}

-- The block that a region of the disk is loaded into.
abbrev pub loaded : ℕ → ℕ → Region → Region
loaded now b r = record r {
  ram_ptr = some b;
  is_loaded = true;
  load_count = inc64 r.load_count;
  last_load_ms = now;
}

abbrev pub evicted : Region → Region
evicted r = record r { ram_ptr = none; is_loaded = false; placement = ssd_q1 }

unfoldable pub ram_avail : Awm → ℕ
ram_avail w =
    if ltb w.ram_used_bytes w.ram_budget_bytes then w.ram_budget_bytes - w.ram_used_bytes else 0

module _ (to_double : ℕ → ℕ) where
  unfoldable pub placement_bytes : ℕ → Placement → ℕ
  placement_bytes raw_size p = to_double raw_size / divisor p

  abbrev pub region_bytes : Region → ℕ
  region_bytes r = placement_bytes r.size_bytes r.placement

  abbrev pub exceeds : Awm → ℕ → Bool
  exceeds w bytes = ltb w.ram_budget_bytes ((w.ram_used_bytes + bytes) % 2 ^ 64)

  abbrev pub add_used : ℕ → Awm → Awm
  add_used bytes w = record w { ram_used_bytes = (w.ram_used_bytes + bytes) % 2 ^ 64 }

  abbrev pub sub_used : ℕ → Awm → Awm
  sub_used bytes w = record w { ram_used_bytes = (w.ram_used_bytes + 2 ^ 64 - bytes) % 2 ^ 64 }

  -- The rest of the registration, once there is a slot.
  unfoldable pub admit : ℕ → Option ℕ → Awm → Region → Awm
  admit now block w r =
      if is_ssd r.placement
      then append_region w r
      else if exceeds w (region_bytes r)
      then append_region w (record r { placement = ssd_q1 })
      else elim block [
        | none ↦ append_region w r
        | some b ↦ add_used (region_bytes r) (append_region w (loaded now b r))
      ]

  -- `none` is the result -1.
  unfoldable pub register :
      ℕ → Option ℕ → Awm → Option (List ℕ) → ℕ → ℕ → Placement → Awm × Option ℕ
  unfolding new_region
  register now block w none size offset p = (w, none)
  register now block w (some name) size offset p =
      if leb w.capacity (length w.regions)
      then (w, none)
      else (admit now block w (new_region name size offset p), some (length w.regions))

  -- `false` is the result -1.
  unfoldable pub awm_evict : Awm → ℕ → Awm × Bool
  awm_evict w i = elim (get_elem? w.regions i) [
    | none ↦ (w, false)
    | some r ↦
        if is_ssd r.placement
        then (w, true)
        else (sub_used (region_bytes r) (record w { regions = modify evicted i w.regions }), true)
  ]

  -- One round of the loop, with the number evicted so far.
  unfoldable pub evict_round : ℕ → Awm × ℕ → Awm × ℕ
  evict_round i (w, n) = elim (get_elem? w.regions i) [
    | none ↦ (w, n)
    | some r ↦
        if is_cold r.placement
        then ((awm_evict w i).0, if (awm_evict w i).1 then inc32 n else n)
        else (w, n)
  ]

  -- So many rounds from index `i` on.
  unfoldable pub cold_loop : ℕ → ℕ → Awm × ℕ → Awm × ℕ
  cold_loop zero i s = s
  cold_loop (suc k) i s = cold_loop k (i + 1) (evict_round i s)

  unfoldable pub evict_cold : Awm → Awm × ℕ
  evict_cold w = cold_loop (length w.regions) 0 (w, 0)

  -- From RAM to RAM: the result of `realloc` is asked for only where the size changes.
  unfoldable pub resize : Option ℕ → Awm → ℕ → Region → Placement → Awm × Bool
  resize block w i r p =
      let old_bytes = region_bytes r in
      let new_bytes = placement_bytes r.size_bytes p in
      if new_bytes == old_bytes
      then (
        record w { regions = modify (λ (x : Region). record x { placement = p }) i w.regions },
        true,
      )
      else elim block [
        | none ↦ (w, false)
        | some b ↦ (
          record w {
            regions =
                modify (λ (x : Region). record x { ram_ptr = some b; placement = p }) i w.regions;
            ram_used_bytes = (w.ram_used_bytes + 2 ^ 64 - old_bytes + new_bytes) % 2 ^ 64;
          },
          true,
        )
      ]

  -- The end of a move from the disk to RAM, once the bytes fit; a failed `calloc` leaves a null pointer.
  unfoldable pub bring : ℕ → Option ℕ → Awm → ℕ → ℕ → Placement → Awm × Bool
  bring now none w i new_bytes p = (
    record w { regions = modify (λ (x : Region). record x { ram_ptr = none }) i w.regions },
    false,
  )
  bring now (some b) w i new_bytes p = (
    add_used new_bytes (record w {
      regions = modify (λ (x : Region). record (loaded now b x) { placement = p }) i w.regions;
    }),
    true,
  )

  unfoldable pub load_from_disk : ℕ → Option ℕ → Awm → ℕ → Region → Placement → Awm × Bool
  load_from_disk now block w i r p =
      let new_bytes = placement_bytes r.size_bytes p in
      if exceeds w new_bytes
      then (if exceeds (evict_cold w).0 new_bytes
          then ((evict_cold w).0, false)
          else bring now block (evict_cold w).0 i new_bytes p)
      else bring now block w i new_bytes p

  unfoldable pub update_placement : ℕ → Option ℕ → Awm → ℕ → Placement → Awm × Bool
  update_placement now block w i p = elim (get_elem? w.regions i) [
    | none ↦ (w, false)
    | some r ↦
        if code r.placement == code p
        then (w, true)
        else if is_ssd r.placement
        then load_from_disk now block w i r p
        else if is_ssd p
        then (sub_used (region_bytes r) (record w { regions = modify evicted i w.regions }), true)
        else resize block w i r p
  ]

  -- The result is the pointer.
  unfoldable pub get_weight : ℕ → Option ℕ → Awm → ℕ → Awm × Option ℕ
  get_weight now block w i = elim (get_elem? w.regions i) [
    | none ↦ (w, none)
    | some r ↦ if r.is_loaded then (w, r.ram_ptr) else elim block [
      | none ↦ (
        record w { regions = modify (λ (x : Region). record x { ram_ptr = none }) i w.regions },
        none,
      )
      | some b ↦ (
        add_used (region_bytes r) (record w { regions = modify (loaded now b) i w.regions }),
        some b,
      )
    ]
  ]

  unfoldable pub awm_prefetch : ℕ → Option ℕ → Awm → ℕ → Awm × Bool
  awm_prefetch now block w i = elim (get_weight now block w i).1 [
    | none ↦ ((get_weight now block w i).0, false)
    | some b ↦ ((get_weight now block w i).0, true)
  ]

  -- The `while` loop, for at most so many rounds; `none` is a loop that goes on.
  unfoldable pub fit_loop : ℕ → Awm → Option Awm
  fit_loop zero w = none
  fit_loop (suc fuel) w =
      let rest = fit_loop fuel (evict_cold w).0 in
      if ltb w.ram_budget_bytes w.ram_used_bytes
      then (if (evict_cold w).1 == 0 then some (evict_cold w).0 else rest)
      else some w

  unfoldable pub set_budget : ℕ → Awm → ℕ → Option Awm
  set_budget fuel w budget = fit_loop fuel (record w { ram_budget_bytes = budget })
