-- ===== src/Server/Tests.antt =====
-- The theorems about the server at small texts, and runs of its functions.
use cautreo.Server.Tokens.{
  tokens_text, text_start, tokens_loop, listed, print_int, tokens_text-fits, int_text, decimal_loop,
  put_char, close_text,
}
use cautreo.Base.Bytes.{bytes_eq}
use cautreo.Server.Fields.{json_get_str-field}
use cautreo.Server.Request.{
  input_ids, parse_request, take_word, ids_loop, skip_spaces, at_end, body_of, skip_commas, strtol,
  skip_white, signed_number, scan_digits,
}
use cautreo.Server.Counters.{serve, total, errors_of, completions_of, serve-counts}
use cautreo.Server.Handlers.{
  Engine, ServerStats, path_health, handle_connection, route, answer_error, error_reply, not_found,
  health,
}
use cautreo.Server.Escaping.{unescape, IsInside, json_escape-fits, unescape-json_escape}
use cautreo.Server.Json.{
  json_escape, json_get_str, escape_loop, quoted, strstr, starts_with, is_digit,
}
use cautreo.Base.{
  ℕ, true, false, none, some, [], ◌∷◌, ◌+◌, ◌<◌, refl, arith, ◌++◌, List, length, Option, ◌≡◌,
  replicate,
}

-- `a"b`, a line feed and `\`.
abbrev raw : List ℕ
raw = b'a' ∷ b'"' ∷ b'b' ∷ 10 ∷ b'\\' ∷ []

json_escape-fits_example : (length (json_escape 6 raw) < 6) × IsInside false (json_escape 6 raw)
json_escape-fits_example = json_escape-fits 6 raw (omega arith)

json_escape_cut : json_escape 6 raw ≡ b'a' ∷ b'\\' ∷ b'"' ∷ b'b' ∷ []
unfolding json_escape escape_loop
json_escape_cut = refl

unescape-json_escape_example : unescape false (json_escape 200 raw) ≡ raw
unescape-json_escape_example = unescape-json_escape 200 raw (omega arith)

-- `{"prompt": "hi\" ...`: the escaped quote ends the field.
json_get_str-field_example :
    json_get_str
      ((b'{' ∷ [])
        ++ (quoted (b'p' ∷ [])
            ++ ((b':' ∷ b' ' ∷ [])
                ++ (b'"' ∷ ((b'h' ∷ b'\\' ∷ []) ++ (b'"' ∷ (b'i' ∷ b'"' ∷ [])))))))
      (b'p' ∷ [])
      4096
    ≡ some (b'h' ∷ b'\\' ∷ [])
json_get_str-field_example =
    json_get_str-field (b'{' ∷ []) (b'p' ∷ []) (b':' ∷ b' ' ∷ []) (b'h' ∷ b'\\' ∷ [])
      (b'i' ∷ b'"' ∷ []) 4096 (omega arith) (refl, (refl, record {})) (omega arith) (omega arith)
      (omega arith)

abbrev echo : Engine ℕ
echo = record { is_loaded = true; tokenize = λ s. s; generate = λ ts n. (ts, 7) }

abbrev no_stats : ServerStats ℕ
no_stats = record { n_requests = 0; n_completions = 0; n_errors = 0; avg_tps = 0 }

-- A path that is not known, a connection that fails, and "/health".
abbrev connections : List (Option (List ℕ))
connections =
    some (b'G' ∷ b'E' ∷ b'T' ∷ b' ' ∷ b'/' ∷ [])
    ∷ none
    ∷ some (b'G' ∷ b'E' ∷ b'T' ∷ b' ' ∷ path_health)
    ∷ []

serve-counts_example :
    ((serve echo connections no_stats).0.n_requests
      ≡ no_stats.n_requests + length (serve echo connections no_stats).1)
    × ((serve echo connections no_stats).0.n_errors
        ≡ no_stats.n_errors + total errors_of (serve echo connections no_stats).1)
    × ((serve echo connections no_stats).0.n_completions
        ≡ no_stats.n_completions + total completions_of (serve echo connections no_stats).1)
serve-counts_example =
    serve-counts echo connections no_stats (omega arith) (omega arith) (omega arith)

served : (serve echo connections no_stats).1 ≡ error_reply 404 not_found ∷ health true 2 ∷ []
unfolding handle_connection route parse_request take_word skip_spaces body_of strstr starts_with
    bytes_eq answer_error
served = refl

abbrev ids_body : List ℕ
ids_body =
    b'"' ∷ b'i' ∷ b'n' ∷ b'p' ∷ b'u' ∷ b't' ∷ b'_' ∷ b'i' ∷ b'd' ∷ b's' ∷ b'"' ∷ b':' ∷ b'[' ∷ b'1'
    ∷ b'2' ∷ b',' ∷ b' ' ∷ b'7' ∷ b']' ∷ []

ids_read : input_ids ids_body ≡ 12 ∷ 7 ∷ []
unfolding input_ids strstr starts_with ids_loop at_end skip_commas strtol skip_white signed_number
    scan_digits is_digit
ids_read = refl

tokens_text-fits_example :
    ((tokens_text (129279 ∷ 5 ∷ [])).inside ≡ true)
    × ((tokens_text (129279 ∷ 5 ∷ [])).written
        ≡ text_start ++ (listed true (129279 ∷ 5 ∷ []) ++ (b']' ∷ [])))
    × ((tokens_text (129279 ∷ 5 ∷ [])).pos ≡ length (tokens_text (129279 ∷ 5 ∷ [])).written)
tokens_text-fits_example = tokens_text-fits (129279 ∷ 5 ∷ []) (omega arith)

-- Larger identifiers are written behind the buffer.
large_outside : (tokens_text (replicate 12 2000000000)).inside ≡ false
unfolding tokens_text tokens_loop print_int int_text decimal_loop put_char close_text
large_outside = refl
