-- ===== src/Wvs/Changes.antt =====
-- An entry that is changed, and one put in a free slot.
use cautreo.Wvs.Table.{Inv, wvs_lookup, find_slot-find, wvs_lookup-agree, wvs_lookup-stored}
use cautreo.Wvs.Slots.{used, used-le, used-set, get-bound, empty, set_same, same_at}
use cautreo.Base.{
  ℕ, ◌<◌, ◌≡◌, ◌≢◌, inl, inr, refl, sym, ap, ◌∙◌, subst, true, false, some, List, [], length,
  get_elem?, set, get_elem?-set_self, get_elem?-set_ne, length-set, ◌==◌, if◌then◌else◌, Bool-cases,
  inc32, arith,
}
use cautreo.Base.Bytes.{bytes_eq, bytes_eq_iff}
use cautreo.Wvs.{WvsEntry, Wvs, is_free, wvs_hash, find_slot}
use cautreo.Wvs.Probing.{
  keys, get_elem?-keys, keys-set, length-keys, probe_keys, probe_keys-set, probe_keys-set_self,
}

module _ {F : Type 0} where
  module _ (w : Wvs F) (v : Inv w) (i : ℕ) (d e : WvsEntry F)
      (at : get_elem? w.slots i ≡ some d) where
    inside : i < length w.slots
    inside = get-bound w.slots i d at

    -- An entry with the key of the one before.
    changed_keys : e.key ≡ d.key → keys (set w.slots i e) ≡ keys w.slots
    changed_keys same =
        keys-set w.slots i e
        ∙ ap (set (keys w.slots) i) same
        ∙ set_same (keys w.slots) i d.key (get_elem?-keys w.slots i d at)

    pub change-Inv : e.key ≡ d.key → Inv (record w { slots = set w.slots i e })
    change-Inv same = record {
      size = length-set w.slots i e ∙ v.size;
      positive = v.positive;
      small = v.small;
      counted = v.counted ∙ ap used (sym (changed_keys same));
      found = λ j k h u.
          subst (λ ks. probe_keys k w.capacity (wvs_hash k w.capacity) w.capacity 0 ks ≡ some j)
            (sym (changed_keys same))
            (v.found j k (subst (λ ks. get_elem? ks j ≡ some k) (changed_keys same) h) u);
    }

    elsewhere :
        (w' : Wvs F)
        → Inv w'
        → w'.slots ≡ set w.slots i e
        → (is_free d.key ≡ false → d.key ≡ e.key)
        → (k : List ℕ) → bytes_eq k e.key ≡ false
        → wvs_lookup w' k ≡ wvs_lookup w k
    elsewhere w' v' slots old k other =
        let differs : k ≢ e.key = λ h. absurd (ground (arith, (bytes_eq_iff k e.key).1 h)) in
        wvs_lookup-agree w w' v v' k
          (λ j x h u same.
            let ne : j ≢ i = λ c. differs (
              sym same
              ∙ (let one : x ≡ d = same_at w.slots i j x d c h at in
                  ap WvsEntry.key one ∙ old (ap is_free (ap WvsEntry.key (sym one)) ∙ u))) in
            ap (λ es. get_elem? es j) slots ∙ get_elem?-set_ne w.slots i j e (λ c. ne (sym c)) ∙ h)
          (λ j x h u same.
            let ne : j ≢ i = λ c. differs (
              sym same
              ∙ ap WvsEntry.key (
                  same_at (set w.slots i e) i j x e c (ap (λ es. get_elem? es j) (sym slots) ∙ h)
                    (get_elem?-set_self w.slots i e inside))) in
            sym (get_elem?-set_ne w.slots i j e (λ c. ne (sym c)))
            ∙ sym (ap (λ es. get_elem? es j) slots)
            ∙ h)

    here :
        (w' : Wvs F)
        → Inv w'
        → w'.slots ≡ set w.slots i e
        → (is_free d.key ≡ false → d.key ≡ e.key)
        → is_free e.key ≡ false
        → (k : List ℕ) → wvs_lookup w' k ≡ (if bytes_eq k e.key then some e else wvs_lookup w k)
    here w' v' slots old u k = elim (Bool-cases (bytes_eq k e.key)) [
      | inl is_key ↦ rw is_key (
          ap (wvs_lookup w') ((bytes_eq_iff k e.key).0 is_key)
          ∙ wvs_lookup-stored w' v' i e
              (ap (λ es. get_elem? es i) slots ∙ get_elem?-set_self w.slots i e inside) u)
      | inr other ↦ rw other (elsewhere w' v' slots old k other)
    ]

    pub wvs_lookup-change :
        is_free d.key ≡ false
        → e.key ≡ d.key
        → (k : List ℕ)
        → wvs_lookup (record w { slots = set w.slots i e }) k
          ≡ (if bytes_eq k e.key then some e else wvs_lookup w k)
    wvs_lookup-change u same k =
        here _ (change-Inv same) refl (λ _. sym same) (ap is_free same ∙ u) k

    -- An entry in a free slot that its key's probe sequence stops at.
    module _ (free : is_free d.key ≡ true) (stops : find_slot w e.key ≡ some i)
        (u : is_free e.key ≡ false) where
      free_at : get_elem? (keys w.slots) i ≡ some []
      unfolding is_free
      free_at = get_elem?-keys w.slots i d at ∙ ap some (empty d.key free)

      found_there :
          (j : ℕ) (k : List ℕ)
          → get_elem? (set (keys w.slots) i e.key) j ≡ some k
          → is_free k ≡ false
          → probe_keys k w.capacity
              (wvs_hash k w.capacity)
              w.capacity
              0
              (set (keys w.slots) i e.key)
            ≡ some j
      found_there j k h used_one = elim (Bool-cases (j == i)) [
        | inl at_i ↦
            let within : i < length (keys w.slots) = get-bound (keys w.slots) i [] free_at in
            let one : k ≡ e.key =
              same_at (set (keys w.slots) i e.key) i j k e.key (ground arith) h
                (get_elem?-set_self (keys w.slots) i e.key within) in
            let there =
              probe_keys-set_self e.key w.capacity (wvs_hash e.key w.capacity) w.capacity 0
                (keys w.slots) i free_at within (sym (find_slot-find w e.key) ∙ stops) in
            subst
              (λ x.
                probe_keys x w.capacity (wvs_hash x w.capacity) w.capacity 0
                  (set (keys w.slots) i e.key)
                ≡ some j)
              (sym one) (there ∙ ap some (ground arith))
        | inr other ↦
            let ne : j ≢ i = ground arith in
            let before = sym (get_elem?-set_ne (keys w.slots) i j e.key (λ c. ne (sym c))) ∙ h in
            probe_keys-set k w.capacity (wvs_hash k w.capacity) w.capacity 0 (keys w.slots) i j
              e.key free_at ne (v.found j k before used_one)
      ]

      found_in :
          (j : ℕ) (k : List ℕ)
          → get_elem? (set (keys w.slots) i e.key) j ≡ some k
          → is_free k ≡ false
          → probe_keys k w.capacity (wvs_hash k w.capacity) w.capacity 0 (keys (set w.slots i e))
            ≡ some j
      found_in j k h used_one =
          ap (probe_keys k w.capacity (wvs_hash k w.capacity) w.capacity 0) (keys-set w.slots i e)
          ∙ found_there j k h used_one

      pub insert-Inv : Inv (record w { slots = set w.slots i e; count = inc32 w.count })
      insert-Inv = record {
        size = length-set w.slots i e ∙ v.size;
        positive = v.positive;
        small = v.small;
        counted = ground (
          arith,
          v.counted,
          used-set (keys w.slots) i e.key free_at u,
          keys-set w.slots i e,
          used-le (keys w.slots),
          length-keys w.slots,
          v.size,
          v.small,
        );
        found =
            λ j k h. found_in j k (subst (λ ks. get_elem? ks j ≡ some k) (keys-set w.slots i e) h);
      }

      pub wvs_lookup-insert :
          (k : List ℕ)
          → wvs_lookup (record w { slots = set w.slots i e; count = inc32 w.count }) k
            ≡ (if bytes_eq k e.key then some e else wvs_lookup w k)
      wvs_lookup-insert k = here _ insert-Inv refl (λ h. absurd (ground (arith, h, free))) u k
