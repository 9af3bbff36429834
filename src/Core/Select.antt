-- ===== src/Core/Select.antt =====
-- The loop by which the planner and the router choose: `for (i…) { if (!keep) continue; s = score;
-- if (s > best) { best = s; best_id = id; } }`.
use cautreo.Base.{
  ℕ, suc, ◌≡◌, refl, ◌⊎◌, inl, inr, Bool, true, false, ◌&&◌, List, [], ◌∷◌, if◌then◌else◌,
  Bool-cases, All, arith, some, get_elem?, sym,
}
use cautreo.Base.Float.{FloatOps, IsOrdered}

module _ (fl : FloatOps) {A : Type 0} (keep : A → Bool) (score : A → fl.F) (id_of : A → ℕ) where
  open fl use {F, lt}

  unfoldable pub select_loop : List A → ℕ → F → ℕ
  select_loop [] best_id best = best_id
  select_loop (x ∷ xs) best_id best =
      let better = keep x && lt best (score x) in
      select_loop xs (if better then id_of x else best_id) (if better then score x else best)

  -- The chosen element is kept, beats the score that the loop started from, and no kept element of
  -- the list beats it.
  pub record Chosen (xs : List A) (best : F) (id : ℕ) : Type 0 where
    pub element : A
    pub index : ℕ
    pub listed : get_elem? xs index ≡ some element
    pub kept : keep element ≡ true
    pub named : id_of element ≡ id
    pub beats : lt best (score element) ≡ true
    pub best_of : All (λ z. keep z ≡ true → lt (score element) (score z) ≡ false) xs

  -- Either nothing that is kept beats the first score, or the loop returns what beats all others.
  abbrev pub Selects : List A → ℕ → F → ℕ → Type 0
  Selects xs best_id best id =
      ((id ≡ best_id) × All (λ z. keep z ≡ true → lt best (score z) ≡ false) xs) ⊎ Chosen xs best id

  module _ (ord : IsOrdered fl) where
    asym : (a b : F) → lt a b ≡ true → lt b a ≡ false
    asym a b p = elim (Bool-cases (lt b a)) [
      | inl r ↦ absurd (ground (arith, ord.lt_trans a b a p r, ord.lt_irrefl a))
      | inr r ↦ r
    ]

    beaten : (a b c : F) → lt a b ≡ true → lt a c ≡ false → lt b c ≡ false
    beaten a b c p q = elim (Bool-cases (lt b c)) [
      | inl r ↦ absurd (ground (arith, ord.lt_trans a b c p r))
      | inr r ↦ r
    ]

    pub select_loop-Selects :
        (xs : List A) (best_id : ℕ) (best : F)
        → Selects xs best_id best (select_loop xs best_id best)
    unfolding select_loop
    select_loop-Selects [] best_id best = inl (refl, tt)
    select_loop-Selects (x ∷ xs) best_id best = elim (Bool-cases (keep x && lt best (score x))) [
      | inl better ↦ rw better (elim (select_loop-Selects xs (id_of x) (score x)) [
        | inl (e, none_better) ↦ inr (record {
          element = x;
          index = 0;
          listed = refl;
          kept = ground arith;
          named = sym e;
          beats = ground arith;
          best_of = ((λ _. ord.lt_irrefl (score x)), none_better);
        })
        | inr c ↦ inr (record {
          element = c.element;
          index = suc c.index;
          listed = c.listed;
          kept = c.kept;
          named = c.named;
          beats = ord.lt_trans best (score x) (score c.element) (ground arith) c.beats;
          best_of = ((λ _. asym (score x) (score c.element) c.beats), c.best_of);
        })
      ])
      | inr worse ↦ rw worse (elim (select_loop-Selects xs best_id best) [
        | inl (e, none_better) ↦ inl (e, ((λ k. ground arith), none_better))
        | inr c ↦ inr (record {
          element = c.element;
          index = suc c.index;
          listed = c.listed;
          kept = c.kept;
          named = c.named;
          beats = c.beats;
          best_of =
              ((λ k. beaten best (score c.element) (score x) c.beats (ground arith)), c.best_of);
        })
      ])
    ]
