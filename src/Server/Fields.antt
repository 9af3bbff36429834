-- ===== src/Server/Fields.antt =====
-- The search for a text field of a body.
use cautreo.Server.Json.{
  starts_with, strstr, skip_separators, take_quoted, json_get_str, field_value, string_value,
  quoted,
}
use cautreo.Base.{
  ℕ, zero, suc, true, some, [], ◌∷◌, ◌<◌, ◌≤◌, refl, ◌∙◌, arith, ◌==◌, ◌||◌, ◌++◌, List, ◌≢◌, ◌≡◌,
  length, drop, drop-append_length, ◌-◌, take_all, length-append,
}

abbrev pub NoQuote : List ℕ → Type 0
NoQuote [] = Unit
NoQuote (c ∷ s) = (c ≢ b'"') × NoQuote s

abbrev pub AllSeparators : List ℕ → Type 0
AllSeparators [] = Unit
AllSeparators (c ∷ s) = (((c == b' ') || (c == b':')) ≡ true) × AllSeparators s

starts_with_self : (p r : List ℕ) → starts_with p (p ++ r) ≡ true
unfolding starts_with
starts_with_self [] r = refl
starts_with_self (c ∷ p) r = ground (arith, starts_with_self p r)

strstr_self : (c : ℕ) (p r : List ℕ) → strstr (c ∷ p) ((c ∷ p) ++ r) ≡ some ((c ∷ p) ++ r)
unfolding strstr
strstr_self c p r = ground (arith, starts_with_self (c ∷ p) r)

strstr-NoQuote :
    (p pre r : List ℕ) → NoQuote pre → strstr (b'"' ∷ p) (pre ++ r) ≡ strstr (b'"' ∷ p) r
unfolding strstr starts_with
strstr-NoQuote p [] r h = refl
strstr-NoQuote p (c ∷ pre) r (ne, h) = ground (arith, ne, strstr-NoQuote p pre r h)

skip_separators-AllSeparators :
    (seps : List ℕ) (s : List ℕ)
    → AllSeparators seps
    → skip_separators (seps ++ (b'"' ∷ s)) ≡ b'"' ∷ s
unfolding skip_separators
skip_separators-AllSeparators [] s h = refl
skip_separators-AllSeparators (c ∷ seps) s (one, h) =
    ground (arith, one, skip_separators-AllSeparators seps s h)

take_quoted-NoQuote :
    (n : ℕ) (a b : List ℕ) → NoQuote a → length a ≤ n → take_quoted n (a ++ (b'"' ∷ b)) ≡ a
unfolding take_quoted
take_quoted-NoQuote zero [] b h fits = refl
take_quoted-NoQuote zero (c ∷ a) b h fits = absurd (omega (arith, fits))
take_quoted-NoQuote (suc n) [] b h fits = refl
take_quoted-NoQuote (suc n) (c ∷ a) b (ne, h) fits =
    ground (arith, ne, take_quoted-NoQuote n a b h (omega (arith, fits)))

quoted-whole : (key : List ℕ) → length key ≤ 125 → quoted key ≡ b'"' ∷ (key ++ (b'"' ∷ []))
unfolding quoted
quoted-whole key short =
    take_all (b'"' ∷ (key ++ (b'"' ∷ []))) 127 (omega (arith, length-append key (b'"' ∷ []), short))

-- For a key of at most 125 bytes, in a body whose first quote begins the key, followed by spaces and colons and a quote, the field is read
-- up to the next quote, whether or not a backslash stands before that, if it fits the buffer.
pub json_get_str-field :
    (pre key seps a b : List ℕ) (cap : ℕ)
    → NoQuote pre
    → AllSeparators seps
    → NoQuote a
    → length a < cap
    → length key ≤ 125
    → json_get_str (pre ++ (quoted key ++ (seps ++ (b'"' ∷ (a ++ (b'"' ∷ b)))))) key cap ≡ some a
unfolding json_get_str field_value string_value
json_get_str-field pre key seps a b cap hp hs ha fits short =
    let whole = quoted-whole key short in
    let tail = seps ++ (b'"' ∷ (a ++ (b'"' ∷ b))) in
    let found : strstr (quoted key) (pre ++ (quoted key ++ tail)) ≡ some (quoted key ++ tail) =
      rw whole (
        strstr-NoQuote (key ++ (b'"' ∷ [])) pre ((b'"' ∷ (key ++ (b'"' ∷ []))) ++ tail) hp
        ∙ strstr_self b'"' (key ++ (b'"' ∷ [])) tail) in
    let behind : drop (length (quoted key)) (quoted key ++ tail) ≡ tail =
      drop-append_length (quoted key) tail in
    let value = skip_separators-AllSeparators seps (a ++ (b'"' ∷ b)) hs in
    let text = take_quoted-NoQuote (cap - 1) a b ha (omega (arith, fits)) in
    ground (arith, found, behind, value, text)
