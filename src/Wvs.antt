-- ===== src/Wvs.antt =====
-- wvs/wvs.c: the scoreboard of weights, a hash table with linear probing from which nothing is removed.
-- The scoreboard is not null, and a null key is `none`. A key is the list of its bytes, none of them
-- zero; `now` is the clock. An index of `uint32_t` keeps its wrap-around.
pub mod Probing
pub mod Slots
pub mod Table
pub mod Changes
pub mod Ratings
pub mod Cases
pub mod Board
pub mod Runs
pub mod Files
pub mod Loading
mod Tests
use Prim.Native.Nat.{bit_xor}
use cautreo.Base.{
  ℕ, zero, suc, ◌+◌, ◌*◌, ◌%◌, ◌^◌, Bool, true, false, not, ◌&&◌, ◌||◌, Option, none, some, List,
  [], ◌∷◌, length, get_elem?, set, take, replicate, ltb, leb, ◌==◌, if◌then◌else◌, inc32, inc64,
}
use cautreo.Base.Bytes.{bytes_eq}
use cautreo.Base.Float.{FloatOps}

pub data Granularity : Type 0 where
  gran_expert gran_tensor gran_hybrid gran_auto : Granularity

pub data Hotness : Type 0 where
  hot semi_hot warm cold rare : Hotness

-- `key` has at most 63 bytes, and none in a free slot.
pub record WvsEntry (F : Type 0) : Type 0 where
  pub key : List ℕ
  pub access_count : ℕ
  pub last_access_ms : ℕ
  pub hotness_score : F
  pub hotness : Hotness
  pub slot : ℕ

-- `slots` has `capacity` entries.
pub record Wvs (F : Type 0) : Type 0 where
  pub capacity : ℕ
  pub count : ℕ
  pub granularity : Granularity
  pub slots : List (WvsEntry F)

-- What is written: the header (with the magic number and the version of the format) and the
-- entries in use.
pub record WvsFile (F : Type 0) : Type 0 where
  pub magic : ℕ
  pub version : ℕ
  pub count : ℕ
  pub granularity : Granularity
  pub entries : List (WvsEntry F)

unfoldable pub hash_loop : List ℕ → ℕ → ℕ
hash_loop [] h = h
hash_loop (c ∷ key) h = hash_loop key (bit_xor h c * 0x01000193 % 2 ^ 32)

unfoldable pub wvs_hash : List ℕ → ℕ → ℕ
wvs_hash key cap = hash_loop key 0x9E3779B9 % cap

unfoldable pub is_free : List ℕ → Bool
is_free [] = true
is_free (c ∷ key) = false

-- `(idx + probe) % capacity`.
unfoldable pub probe_index : ℕ → ℕ → ℕ → ℕ
probe_index cap idx probe = (idx + probe) % 2 ^ 32 % cap

module _ {F : Type 0} where
  -- The loop over `probe`, for so many rounds: the first slot that is free or holds the key.
  unfoldable pub probe_loop : List ℕ → ℕ → ℕ → ℕ → ℕ → List (WvsEntry F) → Option ℕ
  probe_loop key cap idx zero probe slots = none
  probe_loop key cap idx (suc n) probe slots = elim (get_elem? slots (probe_index cap idx probe)) [
    | none ↦ none
    | some e ↦
        let rest = probe_loop key cap idx n (probe + 1) slots in
        if is_free e.key || bytes_eq e.key key then some (probe_index cap idx probe) else rest
  ]

  unfoldable pub find_slot : Wvs F → List ℕ → Option ℕ
  find_slot w key = probe_loop key w.capacity (wvs_hash key w.capacity) w.capacity 0 w.slots

  unfoldable pub get_hotness : Wvs F → Option (List ℕ) → Hotness
  get_hotness w none = rare
  get_hotness w (some key) = elim (find_slot w key) [
    | none ↦ rare
    | some i ↦ elim (get_elem? w.slots i) [
      | none ↦ rare
      | some e ↦ if is_free e.key then rare else e.hotness
    ]
  ]

  unfoldable pub set_granularity : Wvs F → Granularity → Wvs F
  set_granularity w g = record w { granularity = g }

  -- The entry number `idx` of those in use.
  unfoldable pub entry_loop : List (WvsEntry F) → ℕ → ℕ → Option (WvsEntry F)
  entry_loop [] idx seen = none
  entry_loop (e ∷ es) idx seen =
      let rest = entry_loop es idx (if is_free e.key then seen else inc32 seen) in
      if not (is_free e.key) && (seen == idx) then some e else rest

  unfoldable pub wvs_entry : Wvs F → ℕ → Option (WvsEntry F)
  wvs_entry w idx = if leb w.count idx then none else entry_loop w.slots idx 0

  unfoldable pub used_entries : List (WvsEntry F) → List (WvsEntry F)
  used_entries [] = []
  used_entries (e ∷ es) = if is_free e.key then used_entries es else e ∷ used_entries es

  -- The magic number is "WVS1".
  unfoldable pub wvs_save : Wvs F → WvsFile F
  wvs_save w = record {
    magic = 0x57565331;
    version = 1;
    count = w.count;
    granularity = w.granularity;
    entries = used_entries w.slots;
  }

  -- The loop of `ct_wvs_load` for the first free slot.
  unfoldable pub free_loop : ℕ → ℕ → ℕ → ℕ → List (WvsEntry F) → Option ℕ
  free_loop cap idx zero probe slots = none
  free_loop cap idx (suc n) probe slots = elim (get_elem? slots (probe_index cap idx probe)) [
    | none ↦ none
    | some e ↦
        let rest = free_loop cap idx n (probe + 1) slots in
        if is_free e.key then some (probe_index cap idx probe) else rest
  ]

  unfoldable pub load_entry : Wvs F → WvsEntry F → Wvs F
  load_entry w e = elim (free_loop w.capacity (wvs_hash e.key w.capacity) w.capacity 0 w.slots) [
    | none ↦ w
    | some j ↦ record w { slots = set w.slots j (record e { slot = j }); count = inc32 w.count }
  ]

  -- `i < count`, and the `break` at the end of the file.
  unfoldable pub load_loop : ℕ → List (WvsEntry F) → Wvs F → Wvs F
  load_loop zero es w = w
  load_loop (suc n) [] w = w
  load_loop (suc n) (e ∷ es) w = load_loop n es (if is_free e.key then w else load_entry w e)

unfoldable pub select_granularity : ℕ → ℕ → ℕ → ℕ → Bool → Granularity
select_granularity ram_total ram_avail model_size num_params is_moe =
    if leb num_params 32000000000 && leb 8000000000 ram_total
    then gran_tensor
    else if is_moe
        && (leb 40000000000 model_size && (leb 8000000000 ram_total && ltb ram_total 48000000000))
    then gran_hybrid
    else if ltb ram_total 8000000000 || leb 90000000000 model_size
    then gran_expert
    else gran_auto

module _ (fl : FloatOps) where
  open fl use {F, lit, add, mul, lt}

  unfoldable pub classify : F → Hotness
  classify score =
      if lt (lit 801 3) score
      then hot
      else if lt (lit 601 3) score
      then semi_hot
      else if lt (lit 251 3) score
      then warm
      else if lt (lit 99 3) score
      then cold
      else rare

  -- What `calloc` and `memset` leave in a slot.
  unfoldable pub free_entry : WvsEntry F
  free_entry = record {
    key = [];
    access_count = 0;
    last_access_ms = 0;
    hotness_score = lit 0 0;
    hotness = hot;
    slot = 0;
  }

  unfoldable pub wvs_create : ℕ → Granularity → Wvs F
  unfolding free_entry
  wvs_create max_entries granularity =
      let capacity = if max_entries == 0 then 4096 else max_entries in
      record {
        capacity = capacity;
        count = 0;
        granularity = granularity;
        slots = replicate capacity free_entry;
      }

  unfoldable pub wvs_reset : Wvs F → Wvs F
  unfolding free_entry
  wvs_reset w = record w { slots = replicate w.capacity free_entry; count = 0 }

  -- `strncpy` keeps 63 bytes.
  unfoldable pub created_entry : List ℕ → ℕ → ℕ → WvsEntry F
  created_entry key now i = record {
    key = take 63 key;
    access_count = 1;
    last_access_ms = now;
    hotness_score = lit 1 0;
    hotness = hot;
    slot = i;
  }

  unfoldable pub touched : ℕ → WvsEntry F → WvsEntry F
  touched now e =
      let raised = add e.hotness_score (lit 5 2) in
      let score = if lt (lit 1 0) raised then lit 1 0 else raised in
      record e {
        access_count = inc64 e.access_count;
        last_access_ms = now;
        hotness_score = score;
        hotness = classify score;
      }

  -- `none` is the result -1.
  unfoldable pub record_access : ℕ → Wvs F → Option (List ℕ) → Wvs F × Option ℕ
  record_access now w none = (w, none)
  record_access now w (some key) = elim (find_slot w key) [
    | none ↦ (w, none)
    | some i ↦ elim (get_elem? w.slots i) [
      | none ↦ (w, none)
      | some e ↦
          if is_free e.key
          then (if leb w.capacity w.count then (w, none) else (
            record w { slots = set w.slots i (created_entry key now i); count = inc32 w.count },
            some i,
          ))
          else (record w { slots = set w.slots i (touched now e) }, some i)
    ]
  ]

  unfoldable pub decayed : WvsEntry F → WvsEntry F
  decayed e =
      let lower = mul e.hotness_score (lit 995 3) in
      let score = if lt lower (lit 1 3) then lit 1 3 else lower in
      record e { hotness_score = score; hotness = classify score }

  unfoldable pub decay_all : List (WvsEntry F) → List (WvsEntry F)
  decay_all [] = []
  decay_all (e ∷ es) = (if is_free e.key then e else decayed e) ∷ decay_all es

  unfoldable pub update_all : Wvs F → Wvs F
  update_all w = record w { slots = decay_all w.slots }

  -- `none` is a file that cannot be opened or has no whole header; the granularity of a file is one
  -- of the enumeration.
  unfoldable pub wvs_load : Option (WvsFile F) → ℕ → Option (Wvs F)
  wvs_load none max_entries = none
  wvs_load (some f) max_entries =
      if not (f.magic == 0x57565331) || not (f.version == 1)
      then none
      else some (load_loop f.count f.entries (wvs_create max_entries f.granularity))
