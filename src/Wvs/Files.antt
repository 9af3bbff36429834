-- ===== src/Wvs/Files.antt =====
-- The entries that `ct_wvs_save` writes, as a list of keys and ratings.
use cautreo.Base.Bytes.{bytes_eq_iff}
use cautreo.Wvs.Probing.{get_elem?-keys, keys}
use cautreo.Wvs.Table.{Inv, wvs_lookup_absent, wvs_lookup, wvs_lookup-stored, find}
use cautreo.Wvs.Slots.{used}
use cautreo.Wvs.Ratings.{Rating, assoc, rating, ratings, map_some}
use cautreo.Wvs.{WvsEntry, Wvs, used_entries, is_free, bytes_eq}
use cautreo.Base.{
  ℕ, zero, suc, false, none, some, [], ◌∷◌, refl, sym, ap, ◌∙◌, arith, inl, inr, Option-cases,
  Bool-cases, List, get_elem?, ◌≡◌, length, ◌≢◌,
}

abbrev pub pairs : {F : Type 0} → List (WvsEntry F) → List (List ℕ × Rating F)
pairs [] = []
pairs (e ∷ es) = (e.key, rating e) ∷ pairs es

-- The list with the entries read put in front of it.
abbrev pub read_into :
    {F : Type 0} → List (WvsEntry F) → List (List ℕ × Rating F) → List (List ℕ × Rating F)
read_into [] m = m
read_into (e ∷ es) m = read_into es ((e.key, rating e) ∷ m)

-- The entries are in use, and their keys are new to the list and different.
abbrev pub New : {F : Type 0} → List (WvsEntry F) → List (List ℕ × Rating F) → Type 0
New [] m = Unit
New (e ∷ es) m = (is_free e.key ≡ false) × (assoc e.key m ≡ none) × New es ((e.key, rating e) ∷ m)

abbrev pub Alone : {F : Type 0} → List (WvsEntry F) → Type 0
Alone {F} es =
    (i j : ℕ) (e x : WvsEntry F)
    → get_elem? es i ≡ some e
    → get_elem? es j ≡ some x
    → is_free e.key ≡ false
    → e.key ≡ x.key
    → i ≡ j

module _ {F : Type 0} where
  Alone-tail : (e : WvsEntry F) (es : List (WvsEntry F)) → Alone (e ∷ es) → Alone es
  Alone-tail e es a i j x y h g u same =
      let p : suc i ≡ suc j = a (suc i) (suc j) x y h g u same in omega (arith, p)

  pub Inv-Alone : (w : Wvs F) → Inv w → Alone w.slots
  Inv-Alone w v i j e x h g u same =
      let left = v.found i e.key (get_elem?-keys w.slots i e h) u in
      let right = v.found j x.key (get_elem?-keys w.slots j x g) (ap is_free (sym same) ∙ u) in
      let one : some i ≡ some j = sym left ∙ ap (find w) same ∙ right in ground (arith, one)

  pub used-New :
      (es : List (WvsEntry F)) (m : List (List ℕ × Rating F))
      → Alone es
      → ((i : ℕ) (e : WvsEntry F)
          → get_elem? es i ≡ some e
          → is_free e.key ≡ false
          → assoc e.key m ≡ none)
      → New (used_entries es) m
  unfolding used_entries
  used-New [] m a absent = _
  used-New (e ∷ es) m a absent = elim (Bool-cases (is_free e.key)) [
    | inl free ↦ rw free (used-New es m (Alone-tail e es a) (λ i x h u. absent (suc i) x h u))
    | inr u ↦ rw u (
      u,
      absent 0 e refl u,
      used-New es ((e.key, rating e) ∷ m) (Alone-tail e es a) (λ i x h used_one.
          elim (Bool-cases (bytes_eq x.key e.key)) [
            | inl same ↦
                let p : 0 ≡ suc i =
                  a 0 (suc i) e x refl h u (sym ((bytes_eq_iff x.key e.key).0 same)) in
                absurd (omega (arith, p))
            | inr other ↦ rw other (absent (suc i) x h used_one)
          ]),
    )
  ]

  -- What is listed stands in a slot.
  pairs-stored :
      (es : List (WvsEntry F)) (k : List ℕ) (r : Rating F)
      → assoc k (pairs (used_entries es)) ≡ some r
      → (i : ℕ) × (e : WvsEntry F) × (get_elem? es i ≡ some e)
        × (is_free e.key ≡ false)
        × (e.key ≡ k)
        × (rating e ≡ r)
  unfolding used_entries
  pairs-stored [] k r h = absurd (ground arith)
  pairs-stored (e ∷ es) k r h = elim (Bool-cases (is_free e.key)) [
    | inl free ↦
        let (i, x, h', u', s', o) = pairs-stored es k r (ground arith) in (suc i, x, h', u', s', o)
    | inr u ↦ elim (Bool-cases (bytes_eq k e.key)) [
      | inl same ↦ (0, e, refl, u, sym ((bytes_eq_iff k e.key).0 same), ground arith)
      | inr other ↦
          let (i, x, h', u', s', o) = pairs-stored es k r (ground arith) in
          (suc i, x, h', u', s', o)
    ]
  ]

  stored-pairs :
      (es : List (WvsEntry F)) (k : List ℕ) (i : ℕ) (e : WvsEntry F)
      → get_elem? es i ≡ some e
      → is_free e.key ≡ false
      → e.key ≡ k
      → assoc k (pairs (used_entries es)) ≢ none
  unfolding used_entries
  stored-pairs [] k i e h u same bad = absurd (ground arith)
  stored-pairs (x ∷ es) k zero e h u same bad = absurd (ground (arith, (bytes_eq_iff k x.key).1))
  stored-pairs (x ∷ es) k (suc i) e h u same bad = stored-pairs es k i e h u same (ground arith)

  pub ratings-pairs :
      (w : Wvs F) → Inv w → (k : List ℕ) → ratings w k ≡ assoc k (pairs (used_entries w.slots))
  ratings-pairs w v k = elim (Option-cases (assoc k (pairs (used_entries w.slots)))) [
    | inl p ↦
        ap (map_some rating)
          (wvs_lookup_absent w k (λ i e h u same. absurd (stored-pairs w.slots k i e h u same p)))
        ∙ sym p
    | inr (r, p) ↦
        let (i, e, h, u, same, one) = pairs-stored w.slots k r p in
        ap (map_some rating) (sym (ap (wvs_lookup w) same) ∙ wvs_lookup-stored w v i e h u)
        ∙ ap some one
        ∙ sym p
  ]

  assoc-read_into :
      (es : List (WvsEntry F)) (m : List (List ℕ × Rating F)) (k : List ℕ) (r : Rating F)
      → New es m
      → assoc k m ≡ some r
      → assoc k (read_into es m) ≡ some r
  assoc-read_into [] m k r new h = h
  assoc-read_into (e ∷ es) m k r (u, absent, new) h =
      assoc-read_into es ((e.key, rating e) ∷ m) k r new
        (ground (arith, h, absent, (bytes_eq_iff k e.key).0, ap (λ x. assoc x m)))

  -- The order in which the entries are read does not matter.
  pub read_into-pairs :
      (es : List (WvsEntry F)) (m : List (List ℕ × Rating F)) (k : List ℕ)
      → New es m
      → assoc k m ≡ none
      → assoc k (read_into es m) ≡ assoc k (pairs es)
  read_into-pairs [] m k new h = h
  read_into-pairs (e ∷ es) m k (u, absent, new) h = elim (Bool-cases (bytes_eq k e.key)) [
    | inl same ↦
        assoc-read_into es ((e.key, rating e) ∷ m) k (rating e) new (ground arith) ∙ ground arith
    | inr other ↦
        read_into-pairs es ((e.key, rating e) ∷ m) k new (ground (arith, h)) ∙ ground arith
  ]

  pub length-used_entries : (es : List (WvsEntry F)) → length (used_entries es) ≡ used (keys es)
  unfolding used_entries
  length-used_entries [] = refl
  length-used_entries (e ∷ es) = ground (arith, length-used_entries es)
