-- ===== src/Awm/Safety.antt =====
-- The bytes held over the moves that are compared with the budget.
use cautreo.Awm.Loads.{CrossesDisk, FitsRead, register-Held, update_placement-Held, get_weight-Held}
use cautreo.Awm.Commands.{
  Move, Reachable, registers, starts, awm_create-Good, updates, moves, evicts, clears, budgets,
  reads,
}
use cautreo.Awm.Limits.{Held, evict_cold-Held, awm_evict-Held}
use cautreo.Awm.{Awm, awm_create}
use cautreo.Awm.Accounts.{IsRounding, loaded_bytes, Good}
use cautreo.Base.{ℕ, arith, ◌^◌, ◌≤◌, ◌<◌, ◌≡◌, subst}

module _ (to_double : ℕ → ℕ) where
  abbrev pub Careful : {w w' : Awm} → Move to_double w w' → Type 0
  Careful (registers now b name size offset p sized e) = Unit
  Careful {w} (updates now block i p once e) = CrossesDisk w i p
  Careful (evicts i e) = Unit
  Careful (clears e) = Unit
  Careful (budgets fuel budget e) = ⊥
  Careful {w} (reads now block i e) = FitsRead to_double w i

  abbrev pub CarefulRun : {w : Awm} → Reachable to_double w → Type 0
  CarefulRun (starts capacity budget e) = budget < 2 ^ 63
  CarefulRun (moves before m) = CarefulRun before × Careful m

module _ (to_double : ℕ → ℕ) (rounding : IsRounding to_double) where
  Move-Held :
      {w w' : Awm} (m : Move to_double w w')
      → Careful to_double m
      → Held to_double w
      → Held to_double w'
  Move-Held {w} {w'} (registers now b name size offset p sized e) c v =
      subst (Held to_double) e (register-Held to_double rounding now b w name size offset p v sized)
  Move-Held {w} {w'} (updates now block i p once e) c v =
      subst (Held to_double) e (update_placement-Held to_double rounding now block w i p v c once)
  Move-Held {w} {w'} (evicts i e) c v =
      subst (Held to_double) e (awm_evict-Held to_double rounding w i v)
  Move-Held {w} {w'} (clears e) c v =
      subst (Held to_double) e (evict_cold-Held to_double rounding w v)
  Move-Held {w} {w'} (budgets fuel budget e) c v = absurd c
  Move-Held {w} {w'} (reads now block i e) c v =
      subst (Held to_double) e (get_weight-Held to_double rounding now block w i v c)

  start-Held : (capacity budget : ℕ) → budget < 2 ^ 63 → Held to_double (awm_create capacity budget)
  unfolding awm_create
  start-Held capacity budget small = record {
    good = awm_create-Good to_double rounding capacity budget;
    held = omega arith;
    limit = small;
  }

  Reachable-Held :
      {w : Awm} (before : Reachable to_double w) → CarefulRun to_double before → Held to_double w
  Reachable-Held (starts capacity budget e) small =
      subst (Held to_double) e (start-Held capacity budget small)
  Reachable-Held (moves before m) (careful, c) = Move-Held m c (Reachable-Held before careful)

  -- For a conversion to double that takes no `uint64_t` above 2⁶⁴: in every state reached from a new
  -- manager with a budget below 2⁶³ by registrations of regions of less than 2⁶⁴ bytes for which `calloc`
  -- gives a block, changes of placement from the disk or to it, evictions and reads, with any outcome of the
  -- allocation in changes and reads, the loaded regions hold no more bytes than the budget, and
  -- `ram_used_bytes` is the number that they hold. Left out are a read of a region that is not loaded and
  -- whose bytes do not fit the budget, a change of placement to RAM of a region of the disk that a read has
  -- loaded, a change of placement inside RAM, and a new budget.
  pub Reachable-within :
      (w : Awm) (before : Reachable to_double w)
      → CarefulRun to_double before
      → (loaded_bytes to_double w.regions ≤ w.ram_budget_bytes)
        × (w.ram_used_bytes ≡ loaded_bytes to_double w.regions)
  Reachable-within w before careful =
      let v = Reachable-Held before careful in
      (v.held, omega (arith, Good.accounted v.good, v.held, v.limit))
