-- ===== src/Core/Sort/Mapped.antt =====
-- The partial selection sort of the images of a list, by a key of the images, is the images of the
-- sorted list.
use cautreo.Base.{
  ℕ, zero, suc, ◌+◌, ◌≡◌, refl, ap, ◌∙◌, none, some, List, [], ◌∷◌, get_elem?, set, map, inl, inr,
  Option, Option-cases,
}
use cautreo.Base.Float.{FloatOps}
use cautreo.Core.Sort.{best_loop, swap_best, rank_loop}

module _ {ℓ} {A B : Type ℓ} (g : A → B) where
  map_option : Option A → Option B
  map_option none = none
  map_option (some a) = some (g a)

  get_elem?-map : (ts : List A) (i : ℕ) → get_elem? (map g ts) i ≡ map_option (get_elem? ts i)
  unfolding map_option
  get_elem?-map [] i = refl
  get_elem?-map (t ∷ ts) zero = refl
  get_elem?-map (t ∷ ts) (suc i) = get_elem?-map ts i

  set-map : (ts : List A) (i : ℕ) (t : A) → set (map g ts) i (g t) ≡ map g (set ts i t)
  set-map [] i t = refl
  set-map (u ∷ ts) zero t = refl
  set-map (u ∷ ts) (suc i) t = ap (◌∷◌ (g u)) (set-map ts i t)

  swap_best-map :
      (t : A) (ts : List A) (b : ℕ)
      → swap_best (g t) (map g ts) b ≡ (g (swap_best t ts b).0, map g (swap_best t ts b).1)
  unfolding swap_best map_option
  swap_best-map t ts zero = refl
  swap_best-map t ts (suc b) = elim (Option-cases (get_elem? ts b)) [
    | inl e ↦ rw (get_elem?-map ts b, swap_best) (rw (e, swap_best) refl)
    | inr (u, e) ↦
        rw (get_elem?-map ts b, swap_best)
          (rw (e, swap_best) (ap (λ us. (g u, us)) (set-map ts b t)))
  ]

module _ (fl : FloatOps) {A B : Type 0} (g : A → B) (key : B → fl.F) where
  best_loop-map :
      (j : ℕ) (ts : List A) (best : ℕ) (best_key : fl.F)
      → best_loop fl key j (map g ts) best best_key
        ≡ best_loop fl (λ a. key (g a)) j ts best best_key
  unfolding best_loop
  best_loop-map j [] best best_key = refl
  best_loop-map j (t ∷ ts) best best_key = best_loop-map (j + 1) ts _ _

  pub rank_loop-map :
      (n : ℕ) (ts : List A)
      → rank_loop fl key n (map g ts) ≡ map g (rank_loop fl (λ a. key (g a)) n ts)
  unfolding rank_loop
  rank_loop-map zero ts = refl
  rank_loop-map (suc n) [] = refl
  rank_loop-map (suc n) (t ∷ ts) =
      let b = best_loop fl (λ a. key (g a)) 1 ts 0 (key (g t)) in
      let same =
        ap (swap_best (g t) (map g ts)) (best_loop-map 1 ts 0 (key (g t)))
        ∙ swap_best-map g t ts b in
      rw same (ap (◌∷◌ (g (swap_best t ts b).0)) (rank_loop-map n (swap_best t ts b).1))
