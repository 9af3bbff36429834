-- ===== src/Server/Json.antt =====
-- The text functions of server/server.c: json_escape, and the search for a field of a JSON text. A text is the
-- list of its bytes up to the zero at the end; a number of type `int` is its 32 bits.
use cautreo.Base.{
  ℕ, zero, suc, true, false, none, some, [], ◌∷◌, ◌+◌, ◌-◌, ◌*◌, ◌%◌, ◌^◌, ltb, leb, ◌==◌, ◌++◌,
  ◌||◌, ◌&&◌, not, List, Bool, if◌then◌else◌, Option, drop, length, take,
}

-- `j` bytes are written, of a buffer of `cap`; quotes and backslashes take a backslash, a line feed becomes
-- `\n`, and what has no room is left out.
unfoldable pub escape_loop : ℕ → ℕ → List ℕ → List ℕ
escape_loop cap j [] = []
escape_loop cap j (c ∷ s) =
    let two = ltb (j + 3) cap in
    let special = (c == b'"') || (c == b'\\') in
    let rest =
      escape_loop cap (if special || (c == 10) then (if two then j + 2 else j) else j + 1) s in
    if not (ltb (j + 2) cap)
    then []
    else if special
    then (if two then b'\\' ∷ c ∷ rest else rest)
    else if c == 10
    then (if two then b'\\' ∷ b'n' ∷ rest else rest)
    else c ∷ rest

unfoldable pub json_escape : ℕ → List ℕ → List ℕ
json_escape cap src = escape_loop cap 0 src

unfoldable pub starts_with : List ℕ → List ℕ → Bool
starts_with [] s = true
starts_with (c ∷ p) [] = false
starts_with (c ∷ p) (d ∷ s) = (c == d) && starts_with p s

-- `strstr`: the text from the first occurrence on.
unfoldable pub strstr : List ℕ → List ℕ → Option (List ℕ)
strstr needle [] = if starts_with needle [] then some [] else none
strstr needle (c ∷ s) =
    let rest = strstr needle s in if starts_with needle (c ∷ s) then some (c ∷ s) else rest

-- `snprintf(search, sizeof(search), "\"%s\"", key)` with a `search` of 128 bytes, which cuts a longer
-- text to 127.
unfoldable pub quoted : List ℕ → List ℕ
quoted key = take 127 (b'"' ∷ (key ++ (b'"' ∷ [])))

unfoldable pub skip_separators : List ℕ → List ℕ
skip_separators [] = []
skip_separators (c ∷ s) =
    let rest = skip_separators s in if (c == b' ') || (c == b':') then rest else c ∷ s

-- The text from behind the key and the separators on.
unfoldable pub field_value : List ℕ → List ℕ → Option (List ℕ)
field_value json key = elim (strstr (quoted key) json) [
  | none ↦ none
  | some p ↦ some (skip_separators (drop (length (quoted key)) p))
]

-- Up to the next quote, and at most so many bytes.
unfoldable pub take_quoted : ℕ → List ℕ → List ℕ
take_quoted zero s = []
take_quoted (suc n) [] = []
take_quoted (suc n) (c ∷ s) = let rest = take_quoted n s in if c == b'"' then [] else c ∷ rest

unfoldable pub string_value : ℕ → List ℕ → Option (List ℕ)
string_value cap [] = none
string_value cap (c ∷ s) = if c == b'"' then some (take_quoted (cap - 1) s) else none

-- `none` is the result 0, which leaves the buffer as it was.
unfoldable pub json_get_str : List ℕ → List ℕ → ℕ → Option (List ℕ)
json_get_str json key cap = elim (field_value json key) [
  | none ↦ none
  | some p ↦ string_value cap p
]

unfoldable pub is_digit : ℕ → Bool
is_digit c = leb b'0' c && leb c b'9'

-- At most so many digits and minus signs.
unfoldable pub take_number : ℕ → List ℕ → List ℕ
take_number zero s = []
take_number (suc n) [] = []
take_number (suc n) (c ∷ s) =
    let rest = take_number n s in if (c == b'-') || is_digit c then c ∷ rest else []

unfoldable pub digits_value : ℕ → List ℕ → ℕ
digits_value v [] = v
digits_value v (c ∷ s) =
    let rest = digits_value (10 * v + (c - b'0')) s in if is_digit c then rest else v

-- `atoi` of a text that begins with a digit or a minus sign; a number that an `int` does not hold wraps
-- around.
unfoldable pub atoi : List ℕ → ℕ
atoi [] = 0
atoi (c ∷ s) =
    if c == b'-'
    then (2 ^ 32 - digits_value 0 s % 2 ^ 32) % 2 ^ 32
    else digits_value 0 (c ∷ s) % 2 ^ 32

unfoldable pub number_or : ℕ → List ℕ → ℕ
number_or def [] = def
number_or def (c ∷ s) = atoi (c ∷ s)

unfoldable pub json_get_int : List ℕ → List ℕ → ℕ → ℕ
json_get_int json key def = elim (field_value json key) [
  | none ↦ def
  | some p ↦ number_or def (take_number 31 p)
]

unfoldable pub json_get_bool : List ℕ → List ℕ → Bool → Bool
json_get_bool json key def = elim (field_value json key) [
  | none ↦ def
  | some p ↦
      if starts_with (b't' ∷ b'r' ∷ b'u' ∷ b'e' ∷ []) p
      then true
      else if starts_with (b'f' ∷ b'a' ∷ b'l' ∷ b's' ∷ b'e' ∷ []) p
      then false
      else def
]
