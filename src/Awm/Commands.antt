-- ===== src/Awm/Commands.antt =====
-- The manager under any sequence of operations: a step relation, and what holds in every state that
-- is reached.
use cautreo.Awm.Budget.{evict_cold-Good, set_budget-Good}
use cautreo.Awm.Evictions.{awm_evict-Good}
use cautreo.Awm.Placing.{register-Good, update_placement-Good, Uncounted}
use cautreo.Awm.Reading.{get_weight-Good}
use cautreo.Awm.Accounts.{IsRounding, Good}
use cautreo.Awm.{
  Awm, get_weight, Option, awm_create, List, Placement, register, awm_evict, update_placement,
  evict_cold, set_budget,
}
use cautreo.Base.{ℕ, some, arith, ◌^◌, ◌<◌, ◌≡◌, subst}

module _ (to_double : ℕ → ℕ) where
  -- A registration with a block from `calloc`; a change of placement with or without one, but not one
  -- that brings to RAM a region of the disk that a read has loaded; the evictions; a new budget; and a
  -- read of any region, with or without a block, which is also what a prefetch does to the manager.
  pub data Move : Awm → Awm → Type 0 where
    registers :
        {w w' : Awm} (now b : ℕ) (name : Option (List ℕ)) (size offset : ℕ) (p : Placement)
        → size < 2 ^ 64
        → (register to_double now (some b) w name size offset p).0 ≡ w'
        → Move w w'
    updates :
        {w w' : Awm} (now : ℕ) (block : Option ℕ) (i : ℕ) (p : Placement)
        → Uncounted w i p
        → (update_placement to_double now block w i p).0 ≡ w'
        → Move w w'
    evicts : {w w' : Awm} (i : ℕ) → (awm_evict to_double w i).0 ≡ w' → Move w w'
    clears : {w w' : Awm} → (evict_cold to_double w).0 ≡ w' → Move w w'
    budgets :
        {w w' : Awm} (fuel budget : ℕ) → set_budget to_double fuel w budget ≡ some w' → Move w w'
    reads :
        {w w' : Awm} (now : ℕ) (block : Option ℕ) (i : ℕ)
        → (get_weight to_double now block w i).0 ≡ w'
        → Move w w'

  pub data Reachable : Awm → Type 0 where
    starts : {w : Awm} (capacity budget : ℕ) → awm_create capacity budget ≡ w → Reachable w
    moves : {w w' : Awm} → Reachable w → Move w w' → Reachable w'

  module _ (rounding : IsRounding to_double) where
    pub awm_create-Good : (capacity budget : ℕ) → Good to_double (awm_create capacity budget)
    unfolding awm_create
    awm_create-Good capacity budget = record {
      settled = λ i r h. absurd (ground (arith, h));
      accounted = omega arith;
      room = ground arith;
    }

    Move-Good : {w w' : Awm} → Move w w' → Good to_double w → Good to_double w'
    Move-Good {w} {w'} (registers now b name size offset p sized e) g =
        subst (Good to_double) e
          (register-Good to_double rounding now b w name size offset p g sized)
    Move-Good {w} {w'} (updates now block i p once e) g =
        subst (Good to_double) e (update_placement-Good to_double rounding now block w i p g once)
    Move-Good {w} {w'} (evicts i e) g =
        subst (Good to_double) e (awm_evict-Good to_double rounding w i g)
    Move-Good {w} {w'} (clears e) g =
        subst (Good to_double) e (evict_cold-Good to_double rounding w g)
    Move-Good {w} {w'} (budgets fuel budget e) g =
        set_budget-Good to_double rounding fuel w w' budget g e
    Move-Good {w} {w'} (reads now block i e) g =
        subst (Good to_double) e (get_weight-Good to_double rounding now block w i g)

    -- For a conversion to double that takes no `uint64_t` above 2⁶⁴: in every state reached from a new
    -- manager by registrations of regions of less than 2⁶⁴ bytes for which `calloc` gives a block, changes
    -- of placement, evictions, new budgets and reads of any region, with any outcome of the allocation in
    -- changes and reads, but without a change of placement to RAM of a
    -- region of the disk that a read has loaded: a region placed in RAM is loaded, `ram_used_bytes` is the
    -- sum of the bytes of the loaded regions modulo 2⁶⁴, and there are at most `capacity` regions.
    pub Reachable-Good : {w : Awm} → Reachable w → Good to_double w
    Reachable-Good (starts capacity budget e) =
        subst (Good to_double) e (awm_create-Good capacity budget)
    Reachable-Good (moves before m) = Move-Good m (Reachable-Good before)
