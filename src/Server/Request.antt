-- ===== src/Server/Request.antt =====
-- parse_request of server/server.c, and the token identifiers of a body.
use cautreo.Server.Json.{strstr, is_digit}
use cautreo.Base.{
  ℕ, zero, suc, true, false, none, some, [], ◌∷◌, ◌+◌, ◌-◌, ◌*◌, ◌%◌, ◌^◌, ltb, leb, ◌==◌, ◌++◌,
  ◌||◌, ◌&&◌, List, Bool, if◌then◌else◌, Option, length, take, drop,
}

pub record Request : Type 0 where
  pub method : List ℕ
  pub path : List ℕ
  pub body : List ℕ

-- At most so many bytes up to a space, and what follows.
unfoldable pub take_word : ℕ → List ℕ → List ℕ × List ℕ
take_word zero s = ([], s)
take_word (suc n) [] = ([], [])
take_word (suc n) (c ∷ s) =
    let rest = take_word n s in if c == b' ' then ([], c ∷ s) else (c ∷ rest.0, rest.1)

unfoldable pub skip_spaces : List ℕ → List ℕ
skip_spaces [] = []
skip_spaces (c ∷ s) = let rest = skip_spaces s in if c == b' ' then rest else c ∷ s

unfoldable pub body_of : ℕ → List ℕ → List ℕ
body_of body_cap buf = elim (strstr (13 ∷ 10 ∷ 13 ∷ 10 ∷ []) buf) [
  | none ↦ []
  | some p ↦ take (body_cap - 1) (drop 4 p)
]

unfoldable pub parse_request : ℕ → List ℕ → Request
parse_request body_cap buf =
    let first = take_word 15 buf in
    record {
      method = first.0;
      path = (take_word 255 (skip_spaces first.1)).0;
      body = body_of body_cap buf;
    }

-- Spaces and commas.
unfoldable pub skip_commas : List ℕ → List ℕ
skip_commas [] = []
skip_commas (c ∷ s) = let rest = skip_commas s in if (c == b' ') || (c == b',') then rest else c ∷ s

unfoldable pub skip_white : List ℕ → List ℕ
skip_white [] = []
skip_white (c ∷ s) =
    let rest = skip_white s in if (c == 32) || (leb 9 c && leb c 13) then rest else c ∷ s

-- The digits at the start as a number, with their count, and what follows.
unfoldable pub scan_digits : ℕ → List ℕ → ℕ × ℕ × List ℕ
scan_digits v [] = (v, 0, [])
scan_digits v (c ∷ s) =
    let (w, n, rest) = scan_digits (10 * v + (c - b'0')) s in
    if is_digit c then (w, suc n, rest) else (v, 0, c ∷ s)

-- `(int32_t)strtol(p, &end, 10)` of the digits behind a sign, as 32 bits, with the rest of the text; `none` is `end == p`.
unfoldable pub signed_number : Bool → List ℕ → Option (ℕ × List ℕ)
signed_number negative s =
    let (v, n, rest) = scan_digits 0 s in
    let limit = if negative then 2 ^ 63 else 2 ^ 63 - 1 in
    let size = if ltb limit v then limit else v in
    if n == 0
    then none
    else some (if negative then (2 ^ 32 - size % 2 ^ 32) % 2 ^ 32 else size % 2 ^ 32, rest)

unfoldable pub strtol : List ℕ → Option (ℕ × List ℕ)
strtol s = elim (skip_white s) [
  | [] ↦ none
  | c ∷ rest ↦
      if c == b'-'
      then signed_number true rest
      else if c == b'+'
      then signed_number false rest
      else signed_number false (c ∷ rest)
]

unfoldable pub at_end : List ℕ → Bool
at_end [] = true
at_end (c ∷ s) = c == b']'

-- The loop over the identifiers, for at most so many rounds, with the tokens so far.
unfoldable pub ids_loop : ℕ → ℕ → List ℕ → List ℕ → List ℕ
ids_loop zero cap s tokens = tokens
ids_loop (suc fuel) cap s tokens =
    if at_end s
    then tokens
    else if at_end (skip_commas s)
    then tokens
    else elim (strtol (skip_commas s)) [
      | none ↦ tokens
      | some (v, rest) ↦
          ids_loop fuel cap rest (if ltb (length tokens) cap then tokens ++ (v ∷ []) else tokens)
    ]

-- "input_ids" and the next bracket.
unfoldable pub input_ids : List ℕ → List ℕ
input_ids body =
    elim (strstr (b'"' ∷ b'i' ∷ b'n' ∷ b'p' ∷ b'u' ∷ b't' ∷ b'_' ∷ b'i' ∷ b'd' ∷ b's' ∷ b'"' ∷ [])
      body) [
        | none ↦ []
        | some p ↦ elim (strstr (b'[' ∷ []) p) [
          | none ↦ []
          | some q ↦ ids_loop (length q) 4096 (drop 1 q) []
        ]
      ]
