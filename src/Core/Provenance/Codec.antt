-- ===== src/Core/Provenance/Codec.antt =====
-- Reading back one record of the event file.
use cautreo.Base.{
  ◌-◌, ℕ, ◌%◌, ◌^◌, ◌<◌, ◌≡◌, refl, Option, none, some, List, [], ◌∷◌, ◌++◌, length, append_assoc,
  take-append_length, drop-append_length, length-append, take_all, arith, ◌≤◌, drop,
}
use cautreo.Base.Bytes.{read_word, read_word-to_bytes, length-to_bytes, to_bytes}
use cautreo.Core.Provenance.{
  Event, done, text_of, field_bytes, event_bytes, read_text, read_event, skip_field,
}

-- What the file format can hold: every word in its range, the payload of the length it claims.
pub record IsStorable (e : Event) : Type 0 where
  pub type : e.type < 2 ^ 32
  pub event_id : e.event_id < 2 ^ 64
  pub timestamp : e.timestamp < 2 ^ 64
  pub entity_id : e.entity_id < 2 ^ 64
  pub description : length (text_of e.description) < 2 ^ 32
  pub source_span : length (text_of e.source_span) < 2 ^ 32
  pub payload : e.payload_len ≡ length e.payload
  pub payload_len : e.payload_len < 2 ^ 32

-- What a replay can take back too: one byte less, for the zero byte behind it.
pub record IsReplayable (e : Event) : Type 0 where
  pub storable : IsStorable e
  pub description : length (text_of e.description) < 2 ^ 32 - 1
  pub source_span : length (text_of e.source_span) < 2 ^ 32 - 1

-- An empty string comes back as the null pointer.
unfoldable pub stored_text : List ℕ → Option (List ℕ)
stored_text [] = none
stored_text (c ∷ s) = some (c ∷ s)

unfoldable pub stored : Event → Event
stored e = record e {
  description = stored_text (text_of e.description);
  source_span = stored_text (text_of e.source_span);
}

read_word-field_bytes :
    (s rest : List ℕ)
    → length s < 2 ^ 32
    → read_word 4 (field_bytes s (length s) ++ rest) ≡ some (length s, s ++ rest)
unfolding field_bytes
read_word-field_bytes s rest h =
    let small : length s % 2 ^ 32 ≡ length s = omega arith in
    rw (small, take_all s (length s) (omega arith), append_assoc)
      (read_word-to_bytes 4 (length s) (s ++ rest) h)

read_text-append :
    (s rest : List ℕ)
    → length s < 2 ^ 32 - 1
    → read_text (length s) (s ++ rest) ≡ done (stored_text s, rest)
unfolding read_text stored_text
read_text-append [] rest h = refl
read_text-append (c ∷ s) rest h =
    ground (arith, take-append_length s rest, drop-append_length s rest)

-- A replayable event that was written is read back, with an empty string come back as null, and what
-- follows its record in the file is left to be read.
pub read_event-event_bytes :
    (e : Event) (rest : List ℕ)
    → IsReplayable e
    → read_event (event_bytes e ++ rest) ≡ done (stored e, rest)
unfolding read_event event_bytes stored
read_event-event_bytes e rest v = simp (
  append_assoc, read_word-to_bytes, read_word-field_bytes, read_text-append, w.payload, w.type,
  w.event_id, w.timestamp, w.entity_id, w.description, w.source_span, v.description, v.source_span,
  fits, take-append_length, drop-append_length,
)
  where
    w : IsStorable e
    w = v.storable

    fits : length e.payload < 2 ^ 32
    fits = omega arith

pub length-event_bytes : (e : Event) → 40 ≤ length (event_bytes e)
unfolding event_bytes field_bytes
length-event_bytes e = simp (length-append, length-to_bytes) (omega arith)

skip_field-field_bytes :
    (s rest : List ℕ) → length s < 2 ^ 32 → skip_field (field_bytes s (length s) ++ rest) ≡ rest
unfolding skip_field
skip_field-field_bytes s rest h =
    rw (read_word-field_bytes s rest h, skip_field) (drop-append_length s rest)

-- What stands behind the type of a record.
pub body_bytes : Event → List ℕ → List ℕ
body_bytes e rest =
    to_bytes 8 e.event_id
    ++ (to_bytes 8 e.timestamp
        ++ (to_bytes 8 e.entity_id
            ++ (field_bytes (text_of e.description) (length (text_of e.description))
                ++ (field_bytes (text_of e.source_span) (length (text_of e.source_span))
                    ++ (field_bytes e.payload e.payload_len ++ rest)))))

pub read_word-event_bytes :
    (e : Event) (rest : List ℕ)
    → IsStorable e
    → read_word 4 (event_bytes e ++ rest) ≡ some (e.type, body_bytes e rest)
unfolding event_bytes body_bytes
read_word-event_bytes e rest v = simp (append_assoc, read_word-to_bytes, v.type)

-- The counting scan goes over one record.
pub skip_record :
    (e : Event) (rest : List ℕ)
    → IsStorable e
    → skip_field (skip_field (skip_field (drop 24 (body_bytes e rest)))) ≡ rest
unfolding body_bytes to_bytes
skip_record e rest v = simp (skip_field-field_bytes, v.payload, v.description, v.source_span, fits)
  where
    fits : length e.payload < 2 ^ 32
    fits = omega arith
