-- ===== src/Wvs/Board.antt =====
-- `ct_wvs_record_access` against the list of keys and ratings.
use cautreo.Wvs.Cases.{
  spec_full, spec_new, spec_known, access_nowhere, access_full, access_new, access_known,
  lookup_nowhere, lookup_free, lookup_known,
}
use cautreo.Wvs.Ratings.{
  Rating, Shows, assoc, spec_access, map_some, rating, fresh, ratings, assoc-revise, raised,
  length-revise,
}
use cautreo.Wvs.Probing.{
  keys, probe_keys_sound, length-keys, get_elem?-keys_none, get_elem?-keys, probe_keys_ends,
}
use cautreo.Wvs.Table.{wvs_lookup, Inv, find_slot-find}
use cautreo.Wvs.Changes.{change-Inv, wvs_lookup-change, wvs_lookup-insert, insert-Inv}
use cautreo.Wvs.Slots.{free_slot, wvs_hash-bound, reached, some-get, probe_index-bound}
use cautreo.Base.{
  ℕ, ◌≡◌, refl, sym, ap, ◌∙◌, true, false, Option, none, some, List, ◌∷◌, arith, length, get_elem?,
  ◌≤◌, ◌||◌, Bool-cases, Option-cases, leb, inl, inr, ◌<◌, subst, set, ◌↔◌, inc32, take, take_all,
}
use cautreo.Base.Bytes.{bytes_eq, bytes_eq_iff}
use cautreo.Base.Float.{FloatOps}
use cautreo.Wvs.{WvsEntry, Wvs, find_slot, record_access, is_free, wvs_hash, created_entry, touched}

module _ {F : Type 0} where
  -- No slot is left for a key that the probing does not end at.
  pub find_slot-full :
      (w : Wvs F) → Inv w → (key : List ℕ) → find_slot w key ≡ none → w.capacity ≤ w.count
  find_slot-full w v key h = elim (Bool-cases (leb w.capacity w.count)) [
    | inl full ↦ ground (arith, full)
    | inr room ↦
        let (i, free, inside) =
          free_slot (keys w.slots) (ground (arith, v.counted, v.size, length-keys w.slots, room)) in
        let idx : wvs_hash key w.capacity < w.capacity = wvs_hash-bound key w.capacity v.positive in
        let (p, below, at) =
          reached w.capacity (wvs_hash key w.capacity) i idx
            (ground (arith, length-keys w.slots, v.size)) v.small in
        absurd (
          probe_keys_ends key w.capacity (wvs_hash key w.capacity) w.capacity 0 (keys w.slots) p
            (omega arith) (omega (arith, below)) (ap (get_elem? (keys w.slots)) at ∙ free)
            (λ q. some-get (keys w.slots) _ (
              let b = probe_index-bound w.capacity (wvs_hash key w.capacity) q v.positive in
              ground (arith, length-keys w.slots, v.size)))
            (sym (find_slot-find w key) ∙ h))
  ]

  pub find_slot-some :
      (w : Wvs F) (key : List ℕ) (i : ℕ)
      → find_slot w key ≡ some i
      → (d : WvsEntry F) × (get_elem? w.slots i ≡ some d)
        × ((is_free d.key || bytes_eq d.key key) ≡ true)
  find_slot-some w key i h = elim (Option-cases (get_elem? w.slots i)) [
    | inl q ↦
        let (k, at, sound) =
          probe_keys_sound key w.capacity (wvs_hash key w.capacity) w.capacity 0 (keys w.slots) i
            (sym (find_slot-find w key) ∙ h) in
        absurd (ground (arith, get_elem?-keys_none w.slots i q))
    | inr (d, q) ↦
        let (k, at, sound) =
          probe_keys_sound key w.capacity (wvs_hash key w.capacity) w.capacity 0 (keys w.slots) i
            (sym (find_slot-find w key) ∙ h) in
        (d, q, ground (arith, get_elem?-keys w.slots i d q))
  ]

module _ (fl : FloatOps) where
  open fl use {F, lit, add, mul, lt}

  moved :
      {cap : ℕ} {w w' : Wvs F} {m m' : List (List ℕ × Rating F)}
      → w' ≡ w
      → m' ≡ m
      → Shows fl cap w m
      → Shows fl cap w' m'
  moved {cap} {w} {w'} {m} {m'} p q s =
      subst (λ x. Shows fl cap x m') (sym p) (subst (Shows fl cap w) (sym q) s)

  -- The result tells whether the key is stored afterwards.
  abbrev pub Step : ℕ → ℕ → List ℕ → List (List ℕ × Rating F) → Wvs F × Option ℕ → Type 0
  Step cap now key m (w', r) =
      Shows fl cap w' (spec_access fl cap now key m)
      × ((r ≡ none) ↔ (assoc key (spec_access fl cap now key m) ≡ none))

  module _ (cap now : ℕ) (w : Wvs F) (m : List (List ℕ × Rating F)) (s : Shows fl cap w m)
      (key : List ℕ) where
    refused : wvs_lookup w key ≡ none → cap ≤ length m → Step cap now key m (w, none)
    refused absent full =
        let a : assoc key m ≡ none = sym (s.listed key) ∙ ap (map_some rating) absent in
        let e = spec_full fl cap now key m a full in
        (moved refl e s, ((λ _. ap (assoc key) e ∙ a), (λ _. refl)))

    module _ (i : ℕ) (d : WvsEntry F) (stops : find_slot w key ≡ some i)
        (at : get_elem? w.slots i ≡ some d) where
      inserted :
          is_free d.key ≡ true
          → is_free key ≡ false
          → length key ≤ 63
          → leb w.capacity w.count ≡ false
          → Step cap now key m (
            record w { slots = set w.slots i (created_entry fl key now i); count = inc32 w.count },
            some i,
          )
      unfolding created_entry
      inserted free u fits room =
          let a : assoc key m ≡ none =
            sym (s.listed key)
            ∙ ap (map_some rating) (lookup_free fl now w key i d stops at free) in
          let e = spec_new fl cap now key m a (ground (arith, room, s.counted, s.capacity)) in
          let whole : take 63 key ≡ key = take_all key 63 fits in
          let stops' = ap (find_slot w) whole ∙ stops in
          let u' = ap is_free whole ∙ u in
          let listed : (k : List ℕ)
              → ratings
                  (record w {
                    slots = set w.slots i (created_entry fl key now i);
                    count = inc32 w.count;
                  })
                  k
                ≡ assoc k ((key, fresh fl now) ∷ m) =
            λ k.
              ap (map_some rating)
                (wvs_lookup-insert w s.inv i d (created_entry fl key now i) at free stops' u' k)
              ∙ ground (arith, whole, s.listed k) in
          (
            moved refl e record {
              inv = insert-Inv w s.inv i d (created_entry fl key now i) at free stops' u';
              listed = listed;
              counted = ground (arith, room, s.counted, Inv.small s.inv);
              capacity = s.capacity;
            },
            ground (arith, e, (bytes_eq_iff key key).1 refl),
          )

      changed :
          is_free d.key ≡ false
          → bytes_eq d.key key ≡ true
          → Step cap now key m (record w { slots = set w.slots i (touched fl now d) }, some i)
      unfolding touched
      changed u matches =
          let same = (bytes_eq_iff d.key key).0 matches in
          let a : assoc key m ≡ some (rating d) =
            sym (s.listed key) ∙ ap (map_some rating) (lookup_known fl now w key i d stops at u) in
          let e = spec_known fl cap now key m (rating d) a in
          (
            moved refl e record {
              inv = change-Inv w s.inv i d (touched fl now d) at refl;
              listed = λ k.
                  ap (map_some rating)
                    (wvs_lookup-change w s.inv i d (touched fl now d) at u refl k)
                  ∙ ground (
                    arith,
                    same,
                    s.listed k,
                    assoc-revise k key (raised fl now) m,
                    (bytes_eq_iff k key).0,
                    ap (λ x. assoc x m),
                    a,
                  );
              counted = s.counted ∙ sym (length-revise key (raised fl now) m);
              capacity = s.capacity;
            },
            ground (
              arith,
              e,
              assoc-revise key key (raised fl now) m,
              (bytes_eq_iff key key).1 refl,
              a,
            ),
          )

    pub record_access-Step :
        is_free key ≡ false
        → length key ≤ 63
        → Step cap now key m (record_access fl now w (some key))
    record_access-Step u fits = elim (Option-cases (find_slot w key)) [
      | inl p ↦ rw (access_nowhere fl now w key p) (
          refused (lookup_nowhere fl now w key p)
            (ground (arith, find_slot-full w s.inv key p, s.counted, s.capacity)))
      | inr (i, p) ↦
          let (d, at, sound) = find_slot-some w key i p in
          elim (Bool-cases (is_free d.key)) [
            | inl free ↦ elim (Bool-cases (leb w.capacity w.count)) [
              | inl full ↦ rw (access_full fl now w key i d p at free full) (
                  refused (lookup_free fl now w key i d p at free)
                    (ground (arith, full, s.counted, s.capacity)))
              | inr room ↦
                  rw (access_new fl now w key i d p at free room)
                    (inserted i d p at free u fits room)
            ]
            | inr known ↦
                rw (access_known fl now w key i d p at known)
                  (changed i d p at known (ground (arith, sound)))
          ]
    ]
