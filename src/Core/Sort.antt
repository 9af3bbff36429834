-- ===== src/Core/Sort.antt =====
-- The partial selection sort by which the planner ranks tests and the router ranks executors: `for (i = 0;
-- i < keep; i++)` the best of the entries from `i` on changes places with the one at `i`.
pub mod Ranked
pub mod Mapped
use cautreo.Base.{
  ℕ, zero, suc, ◌+◌, Option, none, some, List, [], ◌∷◌, get_elem?, set, if◌then◌else◌,
}
use cautreo.Base.Float.{FloatOps}

-- `if (best != i)` the entries at `i` and `best` change places. The list begins at index `i`, so that
-- the best index is 0 for its head.
unfoldable pub swap_best {ℓ} : {A : Type ℓ} → A → List A → ℕ → A × List A
swap_best t ts zero = (t, ts)
swap_best t ts (suc b) = elim (get_elem? ts b) [ none ↦ (t, ts) | some u ↦ (u, set ts b t) ]

module _ (fl : FloatOps) {A : Type 0} (key : A → fl.F) where
  open fl use {F, lt}

  -- The inner loop: the index of the best entry, `best` so far, from index `j` on.
  unfoldable pub best_loop : ℕ → List A → ℕ → F → ℕ
  best_loop j [] best best_key = best
  best_loop j (t ∷ ts) best best_key =
      let better = lt best_key (key t) in
      best_loop (j + 1) ts (if better then j else best) (if better then key t else best_key)

  -- The part of the array from index `i` on, with so many rounds left.
  unfoldable pub rank_loop : ℕ → List A → List A
  rank_loop zero ts = ts
  rank_loop (suc n) [] = []
  rank_loop (suc n) (t ∷ ts) =
      let s = swap_best t ts (best_loop 1 ts 0 (key t)) in s.0 ∷ rank_loop n s.1
