-- ===== src/Wvs/Table.antt =====
-- The table as a map from keys to entries: the invariant, and lookups.
use cautreo.Wvs.Slots.{used}
use cautreo.Base.{
  ℕ, ◌^◌, ◌≤◌, ◌≡◌, ◌≢◌, inl, inr, sym, ap, ◌∙◌, true, false, Option, none, some, List, length,
  get_elem?, if◌then◌else◌, Option-cases, arith,
}
use cautreo.Base.Bytes.{bytes_eq, bytes_eq_iff}
use cautreo.Wvs.{WvsEntry, Wvs, is_free, wvs_hash, find_slot}
use cautreo.Wvs.Probing.{keys, get_elem?-keys, probe_keys, probe_loop-keys, probe_keys_sound}

module _ {F : Type 0} where
  abbrev pub find : Wvs F → List ℕ → Option ℕ
  find w key = probe_keys key w.capacity (wvs_hash key w.capacity) w.capacity 0 (keys w.slots)

  pub record Inv (w : Wvs F) : Type 0 where
    pub size : length w.slots ≡ w.capacity
    pub positive : 1 ≤ w.capacity
    pub small : w.capacity ≤ 2 ^ 31
    pub counted : w.count ≡ used (keys w.slots)
    -- What is stored is found where it stands.
    pub found :
        (i : ℕ) (k : List ℕ)
        → get_elem? (keys w.slots) i ≡ some k
        → is_free k ≡ false
        → find w k ≡ some i

  -- The entry of a key, if it is stored.
  abbrev pub used_entry : Option (WvsEntry F) → Option (WvsEntry F)
  used_entry none = none
  used_entry (some e) = if is_free e.key then none else some e

  abbrev pub entry_at : List (WvsEntry F) → Option ℕ → Option (WvsEntry F)
  entry_at es none = none
  entry_at es (some i) = used_entry (get_elem? es i)

  unfoldable pub wvs_lookup : Wvs F → List ℕ → Option (WvsEntry F)
  wvs_lookup w key = entry_at w.slots (find_slot w key)

  pub find_slot-find : (w : Wvs F) (key : List ℕ) → find_slot w key ≡ find w key
  unfolding find_slot
  find_slot-find w key =
      probe_loop-keys key w.capacity (wvs_hash key w.capacity) w.capacity 0 w.slots

  -- What is stored is what is looked up.
  pub wvs_lookup-stored :
      (w : Wvs F)
      → Inv w
      → (i : ℕ) (e : WvsEntry F) → get_elem? w.slots i ≡ some e
      → is_free e.key ≡ false
      → wvs_lookup w e.key ≡ some e
  unfolding wvs_lookup
  wvs_lookup-stored w v i e at u =
      let f = v.found i e.key (get_elem?-keys w.slots i e at) u in
      rw (find_slot-find w e.key ∙ f) (ground arith)

  pub stored-wvs_lookup :
      (w : Wvs F) (key : List ℕ) (e : WvsEntry F)
      → wvs_lookup w key ≡ some e
      → (i : ℕ) × (find_slot w key ≡ some i)
        × (get_elem? w.slots i ≡ some e)
        × (is_free e.key ≡ false)
        × (e.key ≡ key)
  unfolding wvs_lookup
  stored-wvs_lookup w key e h = elim (Option-cases (find_slot w key)) [
    | inl p ↦ absurd (ground arith)
    | inr (i, p) ↦ elim (Option-cases (get_elem? w.slots i)) [
      | inl q ↦ absurd (ground arith)
      | inr (d, q) ↦
          let (k, at, sound) =
            probe_keys_sound key w.capacity (wvs_hash key w.capacity) w.capacity 0 (keys w.slots) i
              (sym (find_slot-find w key) ∙ p) in
          let at' = get_elem?-keys w.slots i d q in
          let used_one : is_free d.key ≡ false = ground arith in
          let same : d ≡ e = ground arith in
          let matches : bytes_eq d.key key ≡ true = ground arith in
          (i, p, q ∙ ap some same, ground arith, ground (arith, (bytes_eq_iff d.key key).0 matches))
    ]
  ]

  -- Nothing is looked up where no slot holds the key.
  pub wvs_lookup_absent :
      (w : Wvs F) (key : List ℕ)
      → ((i : ℕ) (e : WvsEntry F)
          → get_elem? w.slots i ≡ some e
          → is_free e.key ≡ false
          → e.key ≢ key)
      → wvs_lookup w key ≡ none
  wvs_lookup_absent w key absent = elim (Option-cases (wvs_lookup w key)) [
    | inl p ↦ p
    | inr (e, p) ↦
        let (i, _, at, u, same) = stored-wvs_lookup w key e p in absurd (absent i e at u same)
  ]

  pub wvs_lookup-agree :
      (w w' : Wvs F)
      → Inv w
      → Inv w'
      → (k : List ℕ)
      → ((j : ℕ) (x : WvsEntry F)
          → get_elem? w.slots j ≡ some x
          → is_free x.key ≡ false
          → x.key ≡ k
          → get_elem? w'.slots j ≡ some x)
      → ((j : ℕ) (x : WvsEntry F)
          → get_elem? w'.slots j ≡ some x
          → is_free x.key ≡ false
          → x.key ≡ k
          → get_elem? w.slots j ≡ some x)
      → wvs_lookup w' k ≡ wvs_lookup w k
  wvs_lookup-agree w w' v v' k to from = elim (Option-cases (wvs_lookup w k)) [
    | inl p ↦
        wvs_lookup_absent w' k (λ j x at u same. absurd (
          ground
            (arith, wvs_lookup-stored w v j x (from j x at u same) u, ap (wvs_lookup w) same, p)))
        ∙ sym p
    | inr (x, p) ↦
        let (j, _, at, u, same) = stored-wvs_lookup w k x p in
        sym (ap (wvs_lookup w') same) ∙ wvs_lookup-stored w' v' j x (to j x at u same) u ∙ sym p
  ]
