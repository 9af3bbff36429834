-- ===== src/Wvs/Runs.antt =====
-- The scoreboard after any sequence of accesses and updates.
use cautreo.Base.{
  ℕ, zero, suc, true, none, some, [], ◌∷◌, refl, sym, ap, ◌∙◌, arith, ◌^◌, ◌==◌, length-replicate,
}
use cautreo.Wvs.Board.{record_access-Step}
use cautreo.Wvs.Probing.{keys, probe_keys}
use cautreo.Wvs.Ratings.{
  decay, BoardEvent, map_some, Rating, rating, Shows, aged, revise_all, KeysFit, assoc-revise_all,
  run_board, length-revise_all, run_spec, access, ratings, assoc,
}
use cautreo.Wvs.Table.{wvs_lookup, entry_at, find, Inv, find_slot-find, wvs_lookup_absent}
use cautreo.Wvs.Slots.{used}
use cautreo.Wvs.{
  WvsEntry, decay_all, update_all, decayed, free_entry, wvs_create, Granularity, Wvs, is_free,
  find_slot, wvs_hash,
}
use cautreo.Base.{
  ℕ, ◌≡◌, refl, sym, ap, ◌∙◌, arith, List, length, Option, ◌≤◌, ◌∷◌, some, get_elem?, suc,
  replicate, true, if◌then◌else◌,
}
use cautreo.Base.Float.{FloatOps}

module _ (fl : FloatOps) where
  open fl use {F}

  decay_one : WvsEntry F → WvsEntry F
  decay_one e = if is_free e.key then e else decayed fl e

  keys-decay_all : (es : List (WvsEntry F)) → keys (decay_all fl es) ≡ keys es
  unfolding decay_all decayed
  keys-decay_all [] = refl
  keys-decay_all (e ∷ es) = ground (arith, keys-decay_all es)

  length-decay_all : (es : List (WvsEntry F)) → length (decay_all fl es) ≡ length es
  unfolding decay_all
  length-decay_all [] = refl
  length-decay_all (e ∷ es) = ap suc (length-decay_all es)

  entry_at-decay_all :
      (es : List (WvsEntry F)) (i : ℕ)
      → entry_at (decay_all fl es) (some i) ≡ map_some (decayed fl) (entry_at es (some i))
  unfolding decay_all decayed
  entry_at-decay_all [] i = refl
  entry_at-decay_all (e ∷ es) zero = ground arith
  entry_at-decay_all (e ∷ es) (suc i) = entry_at-decay_all es i

  find-update_all : (w : Wvs F) (k : List ℕ) → find (update_all fl w) k ≡ find w k
  unfolding update_all
  find-update_all w k =
      ap (probe_keys k w.capacity (wvs_hash k w.capacity) w.capacity 0) (keys-decay_all w.slots)

  wvs_lookup-update_all :
      (w : Wvs F) (k : List ℕ)
      → wvs_lookup (update_all fl w) k ≡ map_some (decayed fl) (wvs_lookup w k)
  unfolding wvs_lookup update_all decay_all
  wvs_lookup-update_all w k =
      let same =
        find_slot-find (update_all fl w) k ∙ find-update_all w k ∙ sym (find_slot-find w k) in
      ap (entry_at (update_all fl w).slots) same ∙ at_place w (find_slot w k)
    where
      at_place :
          (w : Wvs F) (o : Option ℕ)
          → entry_at (update_all fl w).slots o ≡ map_some (decayed fl) (entry_at w.slots o)
      at_place w none = refl
      at_place w (some i) = entry_at-decay_all w.slots i

  update_all-Inv : (w : Wvs F) → Inv w → Inv (update_all fl w)
  unfolding update_all
  update_all-Inv w v = record {
    size = length-decay_all w.slots ∙ v.size;
    positive = v.positive;
    small = v.small;
    counted = v.counted ∙ ap used (sym (keys-decay_all w.slots));
    found = λ i k h u.
        find-update_all w k
        ∙ v.found i k (ap (λ ks. get_elem? ks i) (sym (keys-decay_all w.slots)) ∙ h) u;
  }

  rating-decayed :
      (o : Option (WvsEntry F))
      → map_some rating (map_some (decayed fl) o) ≡ map_some (aged fl) (map_some rating o)
  unfolding decayed
  rating-decayed none = refl
  rating-decayed (some e) = refl

  update_all-Shows :
      (cap : ℕ) (w : Wvs F) (m : List (List ℕ × Rating F))
      → Shows fl cap w m
      → Shows fl cap (update_all fl w) (revise_all (aged fl) m)
  unfolding update_all
  update_all-Shows cap w m s = record {
    inv = update_all-Inv w s.inv;
    listed = λ k.
        ap (map_some rating) (wvs_lookup-update_all w k)
        ∙ rating-decayed (wvs_lookup w k)
        ∙ ap (map_some (aged fl)) (s.listed k)
        ∙ sym (assoc-revise_all k (aged fl) m);
    counted = s.counted ∙ sym (length-revise_all (aged fl) m);
    capacity = s.capacity;
  }

  fresh_slot :
      (n i : ℕ) (e : WvsEntry F)
      → get_elem? (replicate n (free_entry fl)) i ≡ some e
      → is_free e.key ≡ true
  unfolding free_entry is_free
  fresh_slot zero i e h = absurd (ground arith)
  fresh_slot (suc n) zero e h = ground arith
  fresh_slot (suc n) (suc i) e h = fresh_slot n i e h

  fresh_key :
      (n i : ℕ) (k : List ℕ)
      → get_elem? (keys (replicate n (free_entry fl))) i ≡ some k
      → is_free k ≡ true
  unfolding free_entry is_free
  fresh_key zero i k h = absurd (ground arith)
  fresh_key (suc n) zero k h = ground arith
  fresh_key (suc n) (suc i) k h = fresh_key n i k h

  fresh_used : (n : ℕ) → used (keys (replicate n (free_entry fl))) ≡ 0
  unfolding free_entry is_free
  fresh_used zero = refl
  fresh_used (suc n) = ground (arith, fresh_used n)

  pub wvs_create-Shows :
      (max : ℕ) (g : Granularity) → 1 ≤ max → max ≤ 2 ^ 31 → Shows fl max (wvs_create fl max g) []
  unfolding wvs_create
  wvs_create-Shows max g positive small =
      let given : (if max == 0 then 4096 else max) ≡ max = ground arith in
      let v : Inv (wvs_create fl max g) = record {
        size = length-replicate _ _;
        positive = ground (arith, given);
        small = ground (arith, given);
        counted = sym (fresh_used _);
        found = λ i k h u. absurd (ground (arith, fresh_key _ i k h));
      } in
      record {
        inv = v;
        listed = λ k. ap (map_some rating) (
            wvs_lookup_absent (wvs_create fl max g) k
              (λ i e h u _. absurd (ground (arith, fresh_slot _ i e h))));
        counted = refl;
        capacity = given;
      }

  pub run-Shows :
      (cap : ℕ) (es : List BoardEvent) (w : Wvs F) (m : List (List ℕ × Rating F))
      → Shows fl cap w m
      → KeysFit es
      → Shows fl cap (run_board fl es w) (run_spec fl cap es m)
  run-Shows cap [] w m s fit = s
  run-Shows cap (access now key ∷ es) w m s (u, short, fit) =
      run-Shows cap es _ _ (record_access-Step fl cap now w m s key u short).0 fit
  run-Shows cap (decay ∷ es) w m s fit = run-Shows cap es _ _ (update_all-Shows cap w m s) fit

  -- Take a new scoreboard of `max` slots, at least one and at most 2³¹, and any sequence of accesses and
  -- updates in which no key is empty or longer than 63 bytes. Then the lookup of any key, stored or not,
  -- gives what a list of keys and ratings gives that was treated alike: a new key is put in the list while
  -- it has fewer than `max`, with the rating of a first access, and refused after that; an access to a
  -- listed key raises its rating; an update ages all. The count is the length of the list.
  pub run_board-run_spec :
      (max : ℕ) (g : Granularity) (es : List BoardEvent)
      → 1 ≤ max
      → max ≤ 2 ^ 31
      → KeysFit es
      → ((k : List ℕ)
          → ratings (run_board fl es (wvs_create fl max g)) k ≡ assoc k (run_spec fl max es []))
        × ((run_board fl es (wvs_create fl max g)).count ≡ length (run_spec fl max es []))
  run_board-run_spec max g es positive small fit =
      let s =
        run-Shows max es (wvs_create fl max g) [] (wvs_create-Shows max g positive small) fit in
      (s.listed, s.counted)
