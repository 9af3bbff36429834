-- ===== src/Core/Provenance/Tests.antt =====
-- The theorems about the event store at a small history.
use cautreo.Base.{ℕ, ◌+◌, ◌%◌, ◌^◌, ◌≡◌, refl, Bool, true, none, some, List, [], ◌∷◌, arith}
use cautreo.Core.Provenance.{
  Event, overrun, read_text, event_store_replay, event_store_count, replay_loop,
}
use cautreo.Core.Provenance.Codec.{IsStorable, IsReplayable, stored}
use cautreo.Core.Provenance.Replay.{occurrences, replay_loop_fuel}
use cautreo.Core.Provenance.Runs.{
  Action, append, flush, spills, appended, recorded, final, accepts, event_store_replay-recorded,
  event_store_count-recorded,
}

abbrev proposed : Event
proposed = record {
  event_id = 1;
  type = 1;
  timestamp = 1700000000;
  entity_id = 42;
  description = some (b'h' ∷ b'i' ∷ []);
  source_span = none;
  payload = 7 ∷ 8 ∷ 9 ∷ [];
  payload_len = 3;
}

abbrev pruned : Event
pruned = record proposed { event_id = 2; type = 10; payload = []; payload_len = 0 }

abbrev history : List Action
history = append (some proposed) ∷ spills 5 ∷ append none ∷ flush ∷ append (some pruned) ∷ []

-- A handler that counts the events and accepts those of one entity.
abbrev counting : Event → ℕ → Bool × ℕ
counting e n = (true, n + e.event_id)

proposed-IsStorable : IsStorable proposed
proposed-IsStorable = omega arith

pruned-IsStorable : IsStorable pruned
pruned-IsStorable = omega arith

proposed-IsReplayable : IsReplayable proposed
proposed-IsReplayable = record {
  storable = proposed-IsStorable;
  description = omega arith;
  source_span = omega arith;
}

pruned-IsReplayable : IsReplayable pruned
pruned-IsReplayable = record {
  storable = pruned-IsStorable;
  description = omega arith;
  source_span = omega arith;
}

-- A description of 2^32 - 1 bytes, claimed by a record of a file, is written behind an empty block.
read_text_overrun : read_text 4294967295 [] ≡ overrun
unfolding read_text
read_text_overrun = refl

event_store_replay-recorded_example :
    event_store_replay (recorded history) true (some counting) 0
    ≡ some (record { total_events = 2; replayed = 2; deterministic = true }, 3)
unfolding appended final accepts stored
event_store_replay-recorded_example =
    event_store_replay-recorded counting history 0
      (proposed-IsReplayable, (pruned-IsReplayable, tt))

event_store_count-recorded_example :
    event_store_count (recorded history) true 10 ≡ occurrences 10 (appended history) % 2 ^ 64
unfolding appended
event_store_count-recorded_example =
    event_store_count-recorded history 10 (proposed-IsStorable, (pruned-IsStorable, tt))

replay_loop_fuel_example :
    replay_loop 50
      (1 ∷ 2 ∷ 3 ∷ [])
      (some counting)
      (record { total_events = 0; replayed = 0; deterministic = true })
      0
    ≡ replay_loop 3
        (1 ∷ 2 ∷ 3 ∷ [])
        (some counting)
        (record { total_events = 0; replayed = 0; deterministic = true })
        0
replay_loop_fuel_example =
    replay_loop_fuel 50 3 (1 ∷ 2 ∷ 3 ∷ []) (some counting)
      (record { total_events = 0; replayed = 0; deterministic = true }) 0 (omega arith)
      (omega arith)
