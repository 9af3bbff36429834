-- ===== src/Wvs/Loading.antt =====
-- `ct_wvs_load` of a file that `ct_wvs_save` wrote.
use cautreo.Wvs.Runs.{wvs_create-Shows}
use cautreo.Wvs.Files.{
  New, read_into, length-used_entries, used-New, Inv-Alone, read_into-pairs, ratings-pairs,
}
use cautreo.Wvs.Board.{find_slot-full, find_slot-some}
use cautreo.Wvs.Probing.{free_loop-probe_loop}
use cautreo.Base.Bytes.{bytes_eq_iff}
use cautreo.Wvs.Table.{Inv, wvs_lookup, wvs_lookup-stored}
use cautreo.Wvs.Changes.{insert-Inv, wvs_lookup-insert}
use cautreo.Wvs.Ratings.{Rating, Shows, ratings, assoc, rating, map_some}
use cautreo.Wvs.{
  load_entry, load_loop, Wvs, WvsEntry, wvs_load, free_loop, wvs_save, wvs_hash, is_free,
  used_entries, find_slot, wvs_create, bytes_eq, Granularity,
}
use cautreo.Base.{
  ℕ, zero, suc, true, false, none, some, [], ◌∷◌, refl, sym, ap, ◌∙◌, arith, inl, inr, ◌^◌, ◌+◌,
  ◌≤◌, ◌<◌, Option-cases, Bool-cases, List, ◌≡◌, set, inc32, length, get_elem?, subst,
}
use cautreo.Base.Float.{FloatOps}

load_entry_at :
    {F : Type 0} (w : Wvs F) (e : WvsEntry F) (j : ℕ)
    → free_loop w.capacity (wvs_hash e.key w.capacity) w.capacity 0 w.slots ≡ some j
    → load_entry w e
      ≡ record w { slots = set w.slots j (record e { slot = j }); count = inc32 w.count }
unfolding load_entry
load_entry_at w e j h = ground arith

load_entry-granularity :
    {F : Type 0} (w : Wvs F) (e : WvsEntry F) → (load_entry w e).granularity ≡ w.granularity
unfolding load_entry
load_entry-granularity w e = ground arith

load_loop-granularity :
    {F : Type 0} (n : ℕ) (es : List (WvsEntry F)) (w : Wvs F)
    → (load_loop n es w).granularity ≡ w.granularity
unfolding load_loop
load_loop-granularity zero es w = refl
load_loop-granularity (suc n) [] w = refl
load_loop-granularity (suc n) (e ∷ es) w = elim (Bool-cases (is_free e.key)) [
  | inl free ↦ rw (free, load_loop) (load_loop-granularity n es w)
  | inr u ↦
      rw (u, load_loop) (load_loop-granularity n es (load_entry w e) ∙ load_entry-granularity w e)
]

module _ (fl : FloatOps) where
  open fl use {F}

  module _ (cap : ℕ) (w : Wvs F) (m : List (List ℕ × Rating F)) (s : Shows fl cap w m)
      (e : WvsEntry F) (u : is_free e.key ≡ false) (new : assoc e.key m ≡ none) where
    unknown : wvs_lookup w e.key ≡ none
    unknown = ground (arith, s.listed e.key, new)

    nowhere : (i : ℕ) (x : WvsEntry F) → get_elem? w.slots i ≡ some x → bytes_eq x.key e.key ≡ false
    nowhere i x h = elim (Bool-cases (bytes_eq x.key e.key)) [
      | inl same ↦
          let one = (bytes_eq_iff x.key e.key).0 same in
          let u' : is_free x.key ≡ false = ap is_free one ∙ u in
          let p : wvs_lookup w x.key ≡ some x = wvs_lookup-stored w s.inv i x h u' in
          absurd (ground (arith, unknown, ap (wvs_lookup w) one))
      | inr other ↦ other
    ]

    same_slot :
        free_loop w.capacity (wvs_hash e.key w.capacity) w.capacity 0 w.slots ≡ find_slot w e.key
    unfolding find_slot
    same_slot =
        free_loop-probe_loop e.key w.capacity (wvs_hash e.key w.capacity) w.capacity 0 w.slots
          nowhere

    load_entry-Shows : length m < cap → Shows fl cap (load_entry w e) ((e.key, rating e) ∷ m)
    load_entry-Shows room = elim (Option-cases (find_slot w e.key)) [
      | inl p ↦ absurd (omega (arith, find_slot-full w s.inv e.key p, s.counted, s.capacity))
      | inr (i, p) ↦
          let (d, at, sound) = find_slot-some w e.key i p in
          let free : is_free d.key ≡ true = ground (arith, nowhere i d at, sound) in
          let e' : WvsEntry F = record e { slot = i } in
          subst (λ x. Shows fl cap x ((e.key, rating e) ∷ m))
            (sym (load_entry_at w e i (same_slot ∙ p)))
            record {
              inv = insert-Inv w s.inv i d e' at free p u;
              listed = λ k.
                  ap (map_some rating) (wvs_lookup-insert w s.inv i d e' at free p u k)
                  ∙ ground (arith, s.listed k);
              counted = ground (arith, room, s.counted, s.capacity, Inv.small s.inv);
              capacity = s.capacity;
            }
    ]

  load_loop-Shows :
      (cap : ℕ) (es : List (WvsEntry F)) (w : Wvs F) (m : List (List ℕ × Rating F))
      → Shows fl cap w m
      → New es m
      → length m + length es ≤ cap
      → Shows fl cap (load_loop (length es) es w) (read_into es m)
  unfolding load_loop
  load_loop-Shows cap [] w m s new room = s
  load_loop-Shows cap (e ∷ es) w m s (u, absent, new) room =
      rw (u, load_loop)
        (load_loop-Shows cap es (load_entry w e) ((e.key, rating e) ∷ m)
          (load_entry-Shows cap w m s e u absent (omega (arith, room))) new (omega (arith, room)))

  length-read_into :
      (es : List (WvsEntry F)) (m : List (List ℕ × Rating F))
      → length (read_into es m) ≡ length es + length m
  length-read_into [] m = omega arith
  length-read_into (e ∷ es) m = omega (arith, length-read_into es ((e.key, rating e) ∷ m))

  wvs_create-granularity : (max : ℕ) (g : Granularity) → (wvs_create fl max g).granularity ≡ g
  unfolding wvs_create
  wvs_create-granularity max g = refl

  -- Where the invariant holds of a scoreboard and its count is at most `max`, from one to 2³¹, a load
  -- with that size of what it saves succeeds. The new scoreboard gives every key the rating that the old one gives,
  -- or none alike, and has the same count and granularity, and the invariant.
  pub wvs_load-wvs_save :
      (w : Wvs F) (max : ℕ)
      → Inv w
      → 1 ≤ max
      → w.count ≤ max
      → max ≤ 2 ^ 31
      → (w' : Wvs F) × (wvs_load fl (some (wvs_save w)) max ≡ some w')
        × ((k : List ℕ) → ratings w' k ≡ ratings w k)
        × (w'.count ≡ w.count)
        × (w'.granularity ≡ w.granularity)
        × Inv w'
  unfolding wvs_load wvs_save
  wvs_load-wvs_save w max v positive room small =
      let es = used_entries w.slots in
      let start = wvs_create fl max w.granularity in
      let n : length es ≡ w.count = length-used_entries w.slots ∙ sym v.counted in
      let new : New es [] = used-New w.slots [] (Inv-Alone w v) (λ _ _ _ _. refl) in
      let whole =
        load_loop-Shows max es start [] (wvs_create-Shows fl max w.granularity positive small) new
          (omega (arith, n, room)) in
      let s : Shows fl max (load_loop w.count es start) (read_into es []) =
        subst (λ c. Shows fl max (load_loop c es start) (read_into es [])) n whole in
      (
        load_loop w.count es start,
        refl,
        λ k. s.listed k ∙ read_into-pairs es [] k new refl ∙ sym (ratings-pairs w v k),
        s.counted ∙ length-read_into es [] ∙ omega (arith, n),
        load_loop-granularity w.count es start ∙ wvs_create-granularity max w.granularity,
        s.inv,
      )
