-- ===== src/Core/Provenance.antt =====
-- core/provenance/provenance.c: an append-only event store in a file, and its replay.
-- The file is a list of bytes. What `fwrite` has written and stdio has not yet handed over stands
-- in `pending`; a reader opens the path anew and sees `disk` alone. `malloc` and `strdup` succeed.
pub mod Codec
pub mod Replay
pub mod Runs
mod Tests
use cautreo.Base.{
  ℕ, zero, suc, ◌+◌, ◌-◌, ◌%◌, ◌^◌, ◌<◌, Bool, true, false, ◌&&◌, Option, none, some, List, [], ◌∷◌,
  ◌++◌, length, take, drop, inc64, ◌==◌, if◌then◌else◌,
}
use cautreo.Base.Bytes.{to_bytes, read_word}

-- A C string is the list of its bytes, and `none` the null pointer. `type` is the raw enumeration
-- value and `timestamp` the 64-bit pattern of a `time_t`.
pub record Event : Type 0 where
  pub event_id : ℕ
  pub type : ℕ
  pub timestamp : ℕ
  pub entity_id : ℕ
  pub description : Option (List ℕ)
  pub source_span : Option (List ℕ)
  pub payload : List ℕ
  pub payload_len : ℕ

-- `file` tells whether `fopen(path, "ab")` gave a stream.
pub record EventStore : Type 0 where
  pub disk : List ℕ
  pub pending : List ℕ
  pub file : Bool
  pub count : ℕ

unfoldable pub event_store_create : List ℕ → Bool → EventStore
event_store_create disk opened = record { disk = disk; pending = []; file = opened; count = 0 }

-- The bytes of an optional string; the null pointer has none.
abbrev pub text_of : Option (List ℕ) → List ℕ
text_of none = []
text_of (some s) = s

-- `(uint32_t)strlen(s)`, then that many bytes.
unfoldable pub field_bytes : List ℕ → ℕ → List ℕ
field_bytes s len = to_bytes 4 (len % 2 ^ 32) ++ take (len % 2 ^ 32) s

unfoldable pub event_bytes : Event → List ℕ
event_bytes e =
    to_bytes 4 e.type
    ++ (to_bytes 8 e.event_id
        ++ (to_bytes 8 e.timestamp
            ++ (to_bytes 8 e.entity_id
                ++ (field_bytes (text_of e.description) (length (text_of e.description))
                    ++ (field_bytes (text_of e.source_span) (length (text_of e.source_span))
                        ++ field_bytes e.payload e.payload_len)))))

-- `none` is a null event.
unfoldable pub event_store_append : EventStore → Option Event → EventStore × Bool
event_store_append s none = (s, false)
event_store_append s (some e) =
    if s.file
    then (record s { pending = s.pending ++ event_bytes e; count = inc64 s.count }, true)
    else (s, false)

-- `fflush`, when the device takes all that is pending.
unfoldable pub event_store_flush : EventStore → EventStore × Bool
event_store_flush s =
    if s.file then (record s { disk = s.disk ++ s.pending; pending = [] }, true) else (s, false)

-- stdio hands bytes over by itself when its buffer fills.
unfoldable pub spill : ℕ → EventStore → EventStore
spill n s = record s { disk = s.disk ++ take n s.pending; pending = drop n s.pending }

-- How a part of a round ends: with a value, with a `break`, or with a write behind a block, after
-- which the program has no defined behaviour.
pub data Outcome {ℓ} (A : Type ℓ) : Type ℓ where
  done : A → Outcome A
  broken overrun : Outcome A

infixl 5 ◌>>=◌
abbrev ◌>>=◌ {ℓ κ} : {A : Type ℓ} {B : Type κ} → Outcome A → (A → Outcome B) → Outcome B
done a >>= f = f a
broken >>= f = broken
overrun >>= f = overrun

-- `if (fread(...) != 1) break;`.
abbrev pub or_break {ℓ} : {A : Type ℓ} → Option A → Outcome A
or_break none = broken
or_break (some a) = done a

-- `if (len > 0) { s = malloc(len + 1); fread(s, 1, len, f); s[len] = 0; }` with the read unchecked: at
-- the end of the file the string is what was left. `len + 1` is a `uint32_t`: where it wraps around to
-- 0 the block has no byte, and `s[len]` lies behind it.
unfoldable pub read_text : ℕ → List ℕ → Outcome (Option (List ℕ) × List ℕ)
read_text len file =
    if len == 0
    then done (none, file)
    else if (len + 1) % 2 ^ 32 == 0
    then overrun
    else done (some (take len file), drop len file)

-- One round of the replay loop. A payload cut short by the end of the file is delivered with the
-- length that the record claims.
unfoldable pub read_event : List ℕ → Outcome (Event × List ℕ)
read_event f0 = do
  (type, f1) ← or_break (read_word 4 f0)
  (event_id, f2) ← or_break (read_word 8 f1)
  (timestamp, f3) ← or_break (read_word 8 f2)
  (entity_id, f4) ← or_break (read_word 8 f3)
  (desc_len, f5) ← or_break (read_word 4 f4)
  (description, f6) ← read_text desc_len f5
  (span_len, f7) ← or_break (read_word 4 f6)
  (source_span, f8) ← read_text span_len f7
  (plen, f9) ← or_break (read_word 4 f8)
  done (
    record {
      event_id = event_id;
      type = type;
      timestamp = timestamp;
      entity_id = entity_id;
      description = description;
      source_span = source_span;
      payload = take plen f9;
      payload_len = plen;
    },
    drop plen f9,
  )

pub record ReplayResult : Type 0 where
  pub total_events : ℕ
  pub replayed : ℕ
  pub deterministic : Bool

-- `on_event` with its `userdata`, or a null handler.
abbrev pub Handler {ℓ} : Type ℓ → Type ℓ
Handler U = Option (Event → U → Bool × U)

module _ {ℓ} {U : Type ℓ} where
  unfoldable pub handle : Handler U → Event → ReplayResult → U → ReplayResult × U
  handle none e r u =
      (record r { total_events = inc64 r.total_events; replayed = inc64 r.replayed }, u)
  handle (some on_event) e r u = (
    record {
      total_events = inc64 r.total_events;
      replayed = inc64 r.replayed;
      deterministic = r.deterministic && (on_event e u).0;
    },
    (on_event e u).1,
  )

  -- `while (ftell(f) < fsize)`: each round takes at least 40 bytes, so `length file` rounds do. `none`
  -- is a write behind a block, after which nothing is said.
  unfoldable pub replay_loop : ℕ → List ℕ → Handler U → ReplayResult → U → Option (ReplayResult × U)
  replay_loop zero file h r u = some (r, u)
  replay_loop (suc fuel) [] h r u = some (r, u)
  replay_loop (suc fuel) (b ∷ file) h r u = elim (read_event (b ∷ file)) [
    | broken ↦ some (r, u)
    | overrun ↦ none
    | done (e, rest) ↦ replay_loop fuel rest h (handle h e r u).0 (handle h e r u).1
  ]

  -- `readable` tells whether `fopen(path, "rb")` gave a stream.
  unfoldable pub event_store_replay : EventStore → Bool → Handler U → U → Option (ReplayResult × U)
  event_store_replay s readable h u =
      let r : ReplayResult = record { total_events = 0; replayed = 0; deterministic = true } in
      if readable then replay_loop (length s.disk) s.disk h r u else some (r, u)

-- `fread(&len, 4, 1, f); fseek(f, len, SEEK_CUR)` of the counting scan, both unchecked. At the end
-- of the file the position is past it, whatever `len` holds.
unfoldable pub skip_field : List ℕ → List ℕ
skip_field file = elim (read_word 4 file) [ none ↦ [] | some (len, rest) ↦ drop len rest ]

unfoldable pub count_loop : ℕ → List ℕ → ℕ → ℕ → ℕ
unfolding skip_field
count_loop zero file type count = count
count_loop (suc fuel) [] type count = count
count_loop (suc fuel) (b ∷ file) type count = elim (read_word 4 (b ∷ file)) [
  | none ↦ count
  | some (t, rest) ↦
      count_loop fuel (skip_field (skip_field (skip_field (drop 24 rest)))) type
        (if t == type then inc64 count else count)
]

unfoldable pub event_store_count : EventStore → Bool → ℕ → ℕ
event_store_count s readable type = if readable then count_loop (length s.disk) s.disk type 0 else 0

-- A stub in the source.
unfoldable pub event_store_get : EventStore → ℕ → Option Event
event_store_get s event_id = none
