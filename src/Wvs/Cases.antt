-- ===== src/Wvs/Cases.antt =====
-- The cases of an access, in the table and in the list.
use cautreo.Wvs.Ratings.{Rating, assoc, spec_access, fresh, revise, raised}
use cautreo.Wvs.Table.{wvs_lookup}
use cautreo.Base.{
  ℕ, ◌≡◌, refl, true, false, none, some, List, ◌∷◌, arith, length, get_elem?, ◌≤◌, leb, ◌<◌, set,
  inc32,
}
use cautreo.Base.Float.{FloatOps}
use cautreo.Wvs.{WvsEntry, Wvs, find_slot, record_access, is_free, created_entry, touched}

module _ (fl : FloatOps) where
  open fl use {F, lit, add, mul, lt}

  pub spec_full :
      (cap now : ℕ) (key : List ℕ) (m : List (List ℕ × Rating F))
      → assoc key m ≡ none
      → cap ≤ length m
      → spec_access fl cap now key m ≡ m
  spec_full cap now key m a h = ground arith

  pub spec_new :
      (cap now : ℕ) (key : List ℕ) (m : List (List ℕ × Rating F))
      → assoc key m ≡ none
      → length m < cap
      → spec_access fl cap now key m ≡ (key, fresh fl now) ∷ m
  spec_new cap now key m a h = ground arith

  pub spec_known :
      (cap now : ℕ) (key : List ℕ) (m : List (List ℕ × Rating F)) (r : Rating F)
      → assoc key m ≡ some r
      → spec_access fl cap now key m ≡ revise key (raised fl now) m
  spec_known cap now key m r a = ground arith

  module _ (now : ℕ) (w : Wvs F) (key : List ℕ) where
    pub access_nowhere : find_slot w key ≡ none → record_access fl now w (some key) ≡ (w, none)
    unfolding record_access
    access_nowhere h = ground arith

    pub access_full :
        (i : ℕ) (d : WvsEntry F)
        → find_slot w key ≡ some i
        → get_elem? w.slots i ≡ some d
        → is_free d.key ≡ true
        → leb w.capacity w.count ≡ true
        → record_access fl now w (some key) ≡ (w, none)
    unfolding record_access
    access_full i d h at free full = ground arith

    pub access_new :
        (i : ℕ) (d : WvsEntry F)
        → find_slot w key ≡ some i
        → get_elem? w.slots i ≡ some d
        → is_free d.key ≡ true
        → leb w.capacity w.count ≡ false
        → record_access fl now w (some key) ≡ (
          record w { slots = set w.slots i (created_entry fl key now i); count = inc32 w.count },
          some i,
        )
    unfolding record_access
    access_new i d h at free room = ground arith

    pub access_known :
        (i : ℕ) (d : WvsEntry F)
        → find_slot w key ≡ some i
        → get_elem? w.slots i ≡ some d
        → is_free d.key ≡ false
        → record_access fl now w (some key)
          ≡ (record w { slots = set w.slots i (touched fl now d) }, some i)
    unfolding record_access
    access_known i d h at u = ground arith

    pub lookup_nowhere : find_slot w key ≡ none → wvs_lookup w key ≡ none
    unfolding wvs_lookup
    lookup_nowhere h = rw h refl

    pub lookup_free :
        (i : ℕ) (d : WvsEntry F)
        → find_slot w key ≡ some i
        → get_elem? w.slots i ≡ some d
        → is_free d.key ≡ true
        → wvs_lookup w key ≡ none
    unfolding wvs_lookup
    lookup_free i d h at free = rw h (rw at (rw free refl))

    pub lookup_known :
        (i : ℕ) (d : WvsEntry F)
        → find_slot w key ≡ some i
        → get_elem? w.slots i ≡ some d
        → is_free d.key ≡ false
        → wvs_lookup w key ≡ some d
    unfolding wvs_lookup
    lookup_known i d h at u = rw h (rw at (rw u refl))
