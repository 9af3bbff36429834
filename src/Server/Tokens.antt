-- ===== src/Server/Tokens.antt =====
-- handle_completions of server/server.c: the text of the tokens that it answers with, and its buffer.
-- The code comes to it with one token at least; without a token its answer is another, fixed text.
use native.Mathlib.Nat.{pow-suc}
use cautreo.Base.{
  ℕ, zero, suc, true, false, [], ◌∷◌, ◌+◌, ◌-◌, ◌*◌, ◌/◌, ◌%◌, ◌^◌, ◌<◌, ◌≤◌, refl, sym, ap, ◌∙◌,
  arith, ltb, leb, ◌++◌, ◌&&◌, List, if◌then◌else◌, Bool, length, ◌≡◌, take, take_all,
  length-append, append-nil, append_assoc,
}

-- The buffer with its size, the position of the next write, what was written, and whether all of it was
-- written inside.
pub record TextBuffer : Type 0 where
  pub size : ℕ
  pub pos : ℕ
  pub written : List ℕ
  pub inside : Bool

-- The decimal digits; a 32-bit number has at most ten.
unfoldable pub decimal_loop : ℕ → ℕ → List ℕ → List ℕ
decimal_loop zero n digits = digits
decimal_loop (suc fuel) n digits =
    let more = (48 + n % 10) ∷ digits in
    let rest = decimal_loop fuel (n / 10) more in if ltb n 10 then more else rest

-- "%d" of an `int32_t`.
unfoldable pub int_text : ℕ → List ℕ
int_text v = if ltb v (2 ^ 31) then decimal_loop 10 v [] else b'-' ∷ decimal_loop 10 (2 ^ 32 - v) []

-- `text[pos++] = c`.
unfoldable pub put_char : ℕ → TextBuffer → TextBuffer
put_char c t = record t {
  pos = t.pos + 1;
  written = t.written ++ (c ∷ []);
  inside = t.inside && ltb t.pos t.size;
}

-- `pos += snprintf(text + pos, buf_len - pos, "%d", v)`: the size wraps around where `pos` is behind the buffer.
unfoldable pub print_int : ℕ → TextBuffer → TextBuffer
print_int v t =
    let s = int_text v in
    if leb t.pos t.size
    then record t { pos = t.pos + length s; written = t.written ++ take (t.size - t.pos - 1) s }
    else record t { pos = t.pos + length s; written = t.written ++ s; inside = false }

unfoldable pub tokens_loop : List ℕ → Bool → TextBuffer → TextBuffer
tokens_loop [] first t = t
tokens_loop (v ∷ vs) first t =
    tokens_loop vs false (print_int v (if first then t else put_char b',' t))

unfoldable pub close_text : TextBuffer → TextBuffer
close_text t = if ltb t.pos (t.size - 2) then put_char b']' t else t

abbrev pub text_start : List ℕ
text_start = b'[' ∷ b't' ∷ b'o' ∷ b'k' ∷ b'e' ∷ b'n' ∷ b's' ∷ b':' ∷ b' ' ∷ []

-- For at least one token: `gen.n_tokens > 0` is tested before.
unfoldable pub tokens_text : List ℕ → TextBuffer
tokens_text tokens = close_text (
    tokens_loop tokens true
      (record { size = length tokens * 8 + 32; pos = 9; written = text_start; inside = true }))

-- The tokens with commas before all but the first.
abbrev pub listed : Bool → List ℕ → List ℕ
listed first [] = []
listed first (v ∷ vs) = (if first then [] else b',' ∷ []) ++ (int_text v ++ listed false vs)

abbrev pub AllShort : List ℕ → Type 0
AllShort [] = Unit
AllShort (v ∷ vs) = (v < 10 ^ 7) × AllShort vs

decimal_loop-length :
    (k fuel n : ℕ) (digits : List ℕ)
    → n < 10 ^ suc k
    → length (decimal_loop fuel n digits) ≤ suc k + length digits
unfolding decimal_loop
decimal_loop-length k zero n digits h = omega arith
decimal_loop-length zero (suc fuel) n digits h = ground (arith, h)
decimal_loop-length (suc k) (suc fuel) n digits h =
    let step : 10 ^ suc (suc k) ≡ 10 ^ suc k * 10 = pow-suc 10 (suc k) in
    let below : n / 10 < 10 ^ suc k = omega (arith, h, step) in
    let more = (48 + n % 10) ∷ digits in
    ground (arith, decimal_loop-length k fuel (n / 10) more below)

int_text-length : (v : ℕ) → v < 10 ^ 7 → length (int_text v) ≤ 7
unfolding int_text
int_text-length v h = ground (arith, decimal_loop-length 6 10 v [] h, h)

-- Nothing was written outside, and there is room for `n` more tokens and the end.
record Room (n : ℕ) (t : TextBuffer) : Type 0 where
  inside : t.inside ≡ true
  at : t.pos ≡ length t.written
  room : t.pos + n * 8 + 3 ≤ t.size

print_int-fits :
    (v : ℕ) (t : TextBuffer)
    → t.pos + length (int_text v) + 1 ≤ t.size
    → print_int v t
      ≡ record t { pos = t.pos + length (int_text v); written = t.written ++ int_text v }
unfolding print_int
print_int-fits v t h =
    let whole : take (t.size - t.pos - 1) (int_text v) ≡ int_text v =
      take_all (int_text v) (t.size - t.pos - 1) (omega (arith, h)) in
    ground (arith, whole, h)

put_char-Room :
    (c n : ℕ) (t : TextBuffer)
    → t.inside ≡ true
    → t.pos ≡ length t.written
    → t.pos + n + 1 ≤ t.size
    → ((put_char c t).inside ≡ true) × ((put_char c t).pos ≡ length (put_char c t).written)
unfolding put_char
put_char-Room c n t h p r =
    (ground (arith, h, r), omega (arith, p, length-append t.written (c ∷ [])))

closed : (t : TextBuffer) → (put_char b']' t).written ≡ t.written ++ (b']' ∷ [])
unfolding put_char
closed t = refl

print_int-Room :
    (v n : ℕ) (t : TextBuffer)
    → v < 10 ^ 7
    → t.inside ≡ true
    → t.pos ≡ length t.written
    → t.pos + 7 + n * 8 + 3 ≤ t.size
    → Room n (print_int v t)
      × ((print_int v t).written ≡ t.written ++ int_text v)
      × ((print_int v t).size ≡ t.size)
print_int-Room v n t short h p r =
    let few = int_text-length v short in
    let e = print_int-fits v t (omega (arith, few, r)) in
    rw e (
      record {
        inside = h;
        at = omega (arith, p, length-append t.written (int_text v));
        room = omega (arith, few, r);
      },
      refl,
      refl,
    )

tokens_loop-Room :
    (vs : List ℕ) (first : Bool) (t : TextBuffer)
    → AllShort vs
    → Room (length vs) t
    → Room 0 (tokens_loop vs first t)
      × ((tokens_loop vs first t).written ≡ t.written ++ listed first vs)
      × ((tokens_loop vs first t).size ≡ t.size)
unfolding tokens_loop put_char
tokens_loop-Room [] first t short r = (
  record { inside = r.inside; at = r.at; room = omega (arith, r.room) },
  sym (append-nil t.written),
  refl,
)
tokens_loop-Room (v ∷ vs) true t (small, short) r =
    let (a, b, c) = print_int-Room v (length vs) t small r.inside r.at (omega (arith, r.room)) in
    let (d, e, f) = tokens_loop-Room vs false (print_int v t) short a in
    (
      d,
      e ∙ ap (λ x. x ++ listed false vs) b ∙ append_assoc t.written (int_text v) (listed false vs),
      f ∙ c,
    )
tokens_loop-Room (v ∷ vs) false t (small, short) r =
    let (g, h) = put_char-Room b',' 0 t r.inside r.at (omega (arith, r.room)) in
    let (a, b, c) =
      print_int-Room v (length vs) (put_char b',' t) small g h (omega (arith, r.room)) in
    let (d, e, f) = tokens_loop-Room vs false (print_int v (put_char b',' t)) short a in
    (d, e ∙ ap (λ x. x ++ listed false vs) b ∙ simp append_assoc refl, f ∙ c)

-- Where every token is below ten million, the text of the tokens is the list of them in brackets, and nothing is
-- written outside its buffer; `pos` is its length.
pub tokens_text-fits :
    (tokens : List ℕ)
    → AllShort tokens
    → ((tokens_text tokens).inside ≡ true)
      × ((tokens_text tokens).written ≡ text_start ++ (listed true tokens ++ (b']' ∷ [])))
      × ((tokens_text tokens).pos ≡ length (tokens_text tokens).written)
unfolding tokens_text close_text
tokens_text-fits tokens short =
    let start : TextBuffer = record {
      size = length tokens * 8 + 32;
      pos = 9;
      written = text_start;
      inside = true;
    } in
    let (r, w, same) =
      tokens_loop-Room tokens true start short
        (record { inside = refl; at = refl; room = omega arith }) in
    let t : TextBuffer = tokens_loop tokens true start in
    let (a, b) = put_char-Room b']' 0 t r.inside r.at (omega (arith, r.room)) in
    let fits : ltb t.pos (t.size - 2) ≡ true = ground (arith, r.room) in
    rw (fits, close_text)
      (
        a,
        closed t
            ∙ ap (λ x. x ++ (b']' ∷ [])) w
            ∙ append_assoc text_start (listed true tokens) (b']' ∷ []),
        b,
      )
