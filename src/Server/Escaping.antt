-- ===== src/Server/Escaping.antt =====
-- What json_escape writes, against a decoder of JSON's escapes.
use cautreo.Server.Json.{escape_loop, json_escape}
use cautreo.Base.{
  ℕ, true, false, [], ◌∷◌, ◌+◌, ◌*◌, ◌<◌, ◌≤◌, refl, arith, ◌==◌, Bool, List, ◌&&◌, ◌≡◌, not, ◌⊎◌,
  if◌then◌else◌, ◌≢◌, length,
}

-- The text that an escaped one stands for; `escaped` tells that a backslash went before.
abbrev pub unescape : Bool → List ℕ → List ℕ
unescape escaped [] = []
unescape escaped (c ∷ s) =
    let rest = unescape ((c == b'\\') && not escaped) s in
    if escaped then (if c == b'n' then 10 else c) ∷ rest else if c == b'\\' then rest else c ∷ rest

-- No quote stands without a backslash before it.
abbrev pub IsInside : Bool → List ℕ → Type 0
IsInside escaped [] = escaped ≡ false
IsInside escaped (c ∷ s) =
    ((escaped ≡ true) ⊎ (c ≢ b'"')) × IsInside ((c == b'\\') && not escaped) s

module _ (cap : ℕ) where
  escape_loop-bound : (s : List ℕ) (j : ℕ) → j < cap → j + length (escape_loop cap j s) < cap
  unfolding escape_loop
  escape_loop-bound [] j h = omega (arith, h)
  escape_loop-bound (c ∷ s) j h =
      let here = escape_loop-bound s j h in
      let one : j + 2 < cap → j + 1 + length (escape_loop cap (j + 1) s) < cap =
        λ room. escape_loop-bound s (j + 1) (omega (arith, room)) in
      let two : j + 3 < cap → j + 2 + length (escape_loop cap (j + 2) s) < cap =
        λ room. escape_loop-bound s (j + 2) (omega (arith, room)) in
      ground (arith, here, one, two)

  escape_loop-unescape :
      (s : List ℕ) (j : ℕ) → j + 2 * length s + 2 < cap → unescape false (escape_loop cap j s) ≡ s
  unfolding escape_loop
  escape_loop-unescape [] j h = refl
  escape_loop-unescape (c ∷ s) j h =
      let one = escape_loop-unescape s (j + 1) (omega (arith, h)) in
      let two = escape_loop-unescape s (j + 2) (omega (arith, h)) in ground (arith, h, one, two)

  escape_loop-IsInside : (s : List ℕ) (j : ℕ) → IsInside false (escape_loop cap j s)
  unfolding escape_loop
  escape_loop-IsInside [] j = refl
  escape_loop-IsInside (c ∷ s) j = ground (
    arith,
    escape_loop-IsInside s j,
    escape_loop-IsInside s (j + 1),
    escape_loop-IsInside s (j + 2),
  )

-- In a buffer of at least one byte the escaped text and its zero fit, and no quote in it stands without
-- a backslash before it, whatever the text.
pub json_escape-fits :
    (cap : ℕ) (s : List ℕ)
    → 1 ≤ cap
    → (length (json_escape cap s) < cap) × IsInside false (json_escape cap s)
unfolding json_escape
json_escape-fits cap s h =
    (omega (arith, escape_loop-bound cap s 0 (omega (arith, h))), escape_loop-IsInside cap s 0)

-- In a buffer of more than twice the text's length and two bytes, the escaped text decodes to the text.
pub unescape-json_escape :
    (cap : ℕ) (s : List ℕ) → 2 * length s + 2 < cap → unescape false (json_escape cap s) ≡ s
unfolding json_escape
unescape-json_escape cap s h = escape_loop-unescape cap s 0 (omega (arith, h))
