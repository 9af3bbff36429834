-- ===== src/Core/Provenance/Runs.antt =====
-- A store from its creation on: appends between flushes, with stdio spilling as it likes.
use native.Mathlib.Nat.{zero-add}
use cautreo.Base.{
  ℕ, ◌+◌, ◌%◌, ◌^◌, ◌<◌, ◌≡◌, refl, sym, ◌∙◌, Bool, true, ◌&&◌, Option, none, some, List, [], ◌∷◌,
  ◌++◌, map, length, append_assoc, append-nil, take-append-drop, arith, All, ap,
}
use cautreo.Core.Provenance.{
  Event, EventStore, event_store_create, event_store_append, event_store_flush, spill, ReplayResult,
  handle, event_store_replay, event_store_count, event_bytes,
}
use cautreo.Core.Provenance.Codec.{IsStorable, IsReplayable, stored}
use cautreo.Core.Provenance.Replay.{
  all_bytes, handle_all, replay_loop-all_bytes, occurrences, count_loop-all_bytes,
}

-- What the owner of a store, and stdio, do with it.
pub data Action : Type 0 where
  append : Option Event → Action
  flush : Action
  spills : ℕ → Action

unfoldable pub step : EventStore → Action → EventStore
step s (append e) = (event_store_append s e).0
step s flush = (event_store_flush s).0
step s (spills n) = spill n s

unfoldable pub run : EventStore → List Action → EventStore
run s [] = s
run s (a ∷ acts) = run (step s a) acts

-- The events of the appends that name one.
unfoldable pub appended : List Action → List Event
appended [] = []
appended (append (some e) ∷ acts) = e ∷ appended acts
appended (append none ∷ acts) = appended acts
appended (flush ∷ acts) = appended acts
appended (spills n ∷ acts) = appended acts

abbrev bytes_of : EventStore → List ℕ
bytes_of s = s.disk ++ s.pending

step-file : (s : EventStore) (a : Action) → s.file ≡ true → (step s a).file ≡ true
unfolding step event_store_append event_store_flush spill
step-file s (append none) h = h
step-file s (append (some e)) h = ground arith
step-file s flush h = ground arith
step-file s (spills n) h = h

step-bytes :
    (s : EventStore) (a : Action)
    → s.file ≡ true
    → bytes_of (step s a) ≡ bytes_of s ++ all_bytes (appended (a ∷ []))
unfolding step appended all_bytes event_store_append event_store_flush spill
step-bytes s (append none) h = sym (append-nil _)
step-bytes s (append (some e)) h =
    ground (arith, append_assoc s.disk s.pending (event_bytes e), append-nil (event_bytes e))
step-bytes s flush h = ground (arith, append-nil (s.disk ++ s.pending))
step-bytes s (spills n) h = simp (append_assoc, append-nil, take-append-drop)

all_bytes-appended :
    (a : Action) (acts : List Action)
    → all_bytes (appended (a ∷ acts)) ≡ all_bytes (appended (a ∷ [])) ++ all_bytes (appended acts)
unfolding appended all_bytes
all_bytes-appended (append none) acts = refl
all_bytes-appended (append (some e)) acts = simp append-nil
all_bytes-appended flush acts = refl
all_bytes-appended (spills n) acts = refl

-- Disk and buffer together hold the records of all that was appended, in order.
pub run-bytes :
    (s : EventStore) (acts : List Action)
    → s.file ≡ true
    → (bytes_of (run s acts) ≡ bytes_of s ++ all_bytes (appended acts)) × ((run s acts).file ≡ true)
unfolding run
run-bytes s [] h = (unfold appended all_bytes in sym (append-nil _), h)
run-bytes s (a ∷ acts) h =
    let (more, opened) = run-bytes (step s a) acts (step-file s a h) in
    (rw (more, step-bytes s a h, all_bytes-appended a acts) (simp append_assoc), opened)

-- A new store on an empty file, used and then flushed.
abbrev pub recorded : List Action → EventStore
recorded acts = (event_store_flush (run (event_store_create [] true) acts)).0

flush-disk : (s : EventStore) → s.file ≡ true → (event_store_flush s).0.disk ≡ s.disk ++ s.pending
unfolding event_store_flush
flush-disk s h = ground arith

pub disk-recorded : (acts : List Action) → (recorded acts).disk ≡ all_bytes (appended acts)
unfolding event_store_create
disk-recorded acts =
    let (bytes, opened) = run-bytes (event_store_create [] true) acts refl in
    flush-disk _ opened ∙ bytes

module _ {ℓ} {U : Type ℓ} (on_event : Event → U → Bool × U) where
  -- The handler's state after the events, and whether it accepted each of them.
  unfoldable pub final : List Event → U → U
  final [] u = u
  final (e ∷ es) u = final es (on_event e u).1

  unfoldable pub accepts : List Event → U → Bool
  accepts [] u = true
  accepts (e ∷ es) u = (on_event e u).0 && accepts es (on_event e u).1

  handle_all_lem :
      (es : List Event) (r : ReplayResult) (u : U)
      → r.total_events < 2 ^ 64
      → r.replayed < 2 ^ 64
      → handle_all (some on_event) es r u ≡ (
        record {
          total_events = (r.total_events + length es) % 2 ^ 64;
          replayed = (r.replayed + length es) % 2 ^ 64;
          deterministic = r.deterministic && accepts es u;
        },
        final es u,
      )
  unfolding handle_all handle final accepts
  handle_all_lem [] r u t p = ground arith
  handle_all_lem (e ∷ es) r u t p = handle_all_lem es _ _ (omega arith) (omega arith) ∙ ground arith

  -- A store is made on an empty file, events are appended (null ones too) between flushes, and stdio
  -- hands bytes over when it likes. If the events are storable and each of their strings is shorter than
  -- 2^32 - 1 bytes, then after a last flush a replay runs to its end without a write behind a block; it
  -- gives the handler each of them once and in order, empty strings as null; it counts them modulo
  -- 2^64, and reports a deterministic replay exactly when the handler accepted each.
  pub event_store_replay-recorded :
      (acts : List Action) (u : U)
      → All IsReplayable (appended acts)
      → let es = map stored (appended acts) in
        event_store_replay (recorded acts) true (some on_event) u
        ≡ some (
          record {
            total_events = length es % 2 ^ 64;
            replayed = length es % 2 ^ 64;
            deterministic = accepts es u;
          },
          final es u,
        )
  unfolding event_store_replay
  event_store_replay-recorded acts u v = rw (disk-recorded acts) (
      replay_loop-all_bytes _ (appended acts) (some on_event) _ u (omega arith) v
      ∙ ap some (
          handle_all_lem (map stored (appended acts)) _ u (omega arith) (omega arith)
          ∙ simp zero-add))

-- Of such a store, when the events are storable, the counting scan returns how often a type occurs
-- among the appended events, modulo 2^64.
pub event_store_count-recorded :
    (acts : List Action) (type : ℕ)
    → All IsStorable (appended acts)
    → event_store_count (recorded acts) true type ≡ occurrences type (appended acts) % 2 ^ 64
unfolding event_store_count
event_store_count-recorded acts type v =
    rw (disk-recorded acts)
      (count_loop-all_bytes _ (appended acts) type 0 (omega arith) (omega arith) v ∙ omega arith)
