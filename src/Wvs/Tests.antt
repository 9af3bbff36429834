-- ===== src/Wvs/Tests.antt =====
-- The theorems about the scoreboard at small tables, and runs of its operations.
use cautreo.Wvs.Loading.{wvs_load-wvs_save}
use cautreo.Wvs.Table.{Inv}
use cautreo.Wvs.Runs.{run_board-run_spec, run-Shows, wvs_create-Shows}
use cautreo.Base.Fixed.{fixed}
use cautreo.Base.Bytes.{bytes_eq}
use cautreo.Wvs.{
  is_free, Wvs, record_access, get_hotness, select_granularity, wvs_entry, update_all, wvs_load,
  wvs_create, gran_tensor, decay_all, free_entry, decayed, find_slot, probe_loop, probe_index,
  wvs_hash, hash_loop, created_entry, touched, classify, wvs_save, gran_auto, rare,
}
use cautreo.Wvs.Ratings.{
  BoardEvent, ratings, Shows, access, KeysFit, run_board, decay, assoc, run_spec,
}
use cautreo.Base.{ℕ, false, none, some, [], ◌∷◌, refl, arith, ◌≡◌, List, length, replicate}

-- "a", "b" and "a" again, with an update in between.
abbrev accesses : List BoardEvent
accesses = access 10 (97 ∷ []) ∷ access 11 (98 ∷ []) ∷ decay ∷ access 12 (97 ∷ []) ∷ []

accesses-KeysFit : KeysFit accesses
unfolding is_free
accesses-KeysFit = (refl, omega arith, (refl, omega arith, (refl, omega arith, _)))

run_board-run_spec_example :
    ((k : List ℕ)
      → ratings (run_board fixed accesses (wvs_create fixed 2 gran_tensor)) k
        ≡ assoc k (run_spec fixed 2 accesses []))
    × ((run_board fixed accesses (wvs_create fixed 2 gran_tensor)).count
        ≡ length (run_spec fixed 2 accesses []))
run_board-run_spec_example =
    run_board-run_spec fixed 2 gran_tensor accesses (omega arith) (omega arith) accesses-KeysFit

abbrev board : Wvs ℕ
board = run_board fixed accesses (wvs_create fixed 2 gran_tensor)

board-Shows : Shows fixed 2 board (run_spec fixed 2 accesses [])
board-Shows =
    run-Shows fixed 2 accesses (wvs_create fixed 2 gran_tensor) []
      (wvs_create-Shows fixed 2 gran_tensor (omega arith) (omega arith)) accesses-KeysFit

board_count : board.count ≡ 2
unfolding record_access update_all decay_all decayed wvs_create free_entry find_slot probe_loop
    probe_index wvs_hash hash_loop is_free created_entry touched bytes_eq classify
board_count = refl

wvs_load-wvs_save_example :
    (w' : Wvs ℕ) × (wvs_load fixed (some (wvs_save board)) 3 ≡ some w')
    × ((k : List ℕ) → ratings w' k ≡ ratings board k)
    × (w'.count ≡ board.count)
    × (w'.granularity ≡ board.granularity)
    × Inv w'
wvs_load-wvs_save_example =
    wvs_load-wvs_save fixed board 3 board-Shows.inv (omega arith) (omega (arith, board_count))
      (omega arith)

-- A key of 64 bytes is stored cut, and is not found again.
abbrev long_key : List ℕ
long_key = replicate 64 97

long_key_lost :
    get_hotness
      (record_access fixed 1 (wvs_create fixed 2 gran_auto) (some long_key)).0
      (some long_key)
    ≡ rare
unfolding get_hotness record_access wvs_create free_entry find_slot probe_loop probe_index wvs_hash
    hash_loop is_free created_entry touched bytes_eq classify
long_key_lost = refl

select_granularity_small :
    select_granularity 16000000000 0 5000000000 7000000000 false ≡ gran_tensor
unfolding select_granularity
select_granularity_small = refl

wvs_entry_second : wvs_entry board 2 ≡ none
unfolding wvs_entry
wvs_entry_second = ground (arith, board_count)
