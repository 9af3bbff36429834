-- ===== src/Gguf/Places.antt =====
-- The readers at a place of a file whose bytes from there on are known.
use cautreo.Base.Bytes.{to_bytes, length-to_bytes, of_bytes-to_bytes}
use cautreo.Gguf.{fread, read_number, seek}
use cautreo.Base.{
  ℕ, zero, suc, true, some, [], ◌∷◌, ◌+◌, ◌++◌, ◌^◌, ◌<◌, refl, sym, ap, ◌∙◌, arith, List, take,
  drop, length, ◌≡◌, length-append, leb, subst, drop-append_length, take-append_length,
}

drop_nil : (n : ℕ) → drop {A = ℕ} n [] ≡ []
drop_nil zero = refl
drop_nil (suc n) = refl

drop-drop : (m n : ℕ) (xs : List ℕ) → drop (m + n) xs ≡ drop n (drop m xs)
drop-drop zero n xs = ap (λ k. drop k xs) {y = n} (omega arith)
drop-drop (suc m) n [] = drop_nil (suc m + n) ∙ sym (drop_nil n)
drop-drop (suc m) n (x ∷ xs) =
    ap (λ k. drop k (x ∷ xs)) {y = suc (m + n)} (omega arith) ∙ drop-drop m n xs

-- What is left of the file at the position.
pub record At (file : List ℕ) (pos : ℕ) (rest : List ℕ) : Type 0 where
  pub left : drop pos file ≡ rest
  pub size : pos + length rest ≡ length file

pub At-next :
    (file : List ℕ) (pos : ℕ) (a rest : List ℕ)
    → At file pos (a ++ rest)
    → At file (pos + length a) rest
At-next file pos a rest at = record {
  left = drop-drop pos (length a) file ∙ ap (drop (length a)) at.left ∙ drop-append_length a rest;
  size = omega (arith, at.size, length-append a rest);
}

pub fread-At :
    (file : List ℕ) (pos : ℕ) (a rest : List ℕ)
    → At file pos (a ++ rest)
    → fread (length a) file pos ≡ (some a, pos + length a)
unfolding fread
fread-At file pos a rest at =
    let fits : leb (pos + length a) (length file) ≡ true =
      ground (arith, at.size, length-append a rest) in
    let bytes : take (length a) (drop pos file) ≡ a =
      ap (take (length a)) at.left ∙ take-append_length a rest in
    ground (arith, fits, bytes)

pub read_number-At :
    (n v : ℕ) (file : List ℕ) (pos : ℕ) (rest : List ℕ)
    → v < 256 ^ n
    → At file pos (to_bytes n v ++ rest)
    → (p : ℕ) × (read_number n file pos ≡ (some v, p)) × At file p rest
unfolding read_number
read_number-At n v file pos rest small at =
    let e : fread n file pos ≡ (some (to_bytes n v), pos + length (to_bytes n v)) =
      ap (λ k. fread k file pos) (sym (length-to_bytes n v))
      ∙ fread-At file pos (to_bytes n v) rest at in
    (
      pos + length (to_bytes n v),
      ground (arith, e, of_bytes-to_bytes n v small),
      At-next file pos (to_bytes n v) rest at,
    )

pub seek-At :
    (v : ℕ) (file : List ℕ) (pos : ℕ) (a rest : List ℕ)
    → length file < 2 ^ 63
    → length a ≡ v
    → At file pos (a ++ rest)
    → (seek v pos ≡ some (pos + v)) × At file (pos + v) rest
unfolding seek
seek-At v file pos a rest small e at =
    let inside : pos + v < 2 ^ 63 = omega (arith, at.size, length-append a rest, small, e) in
    (ground (arith, inside), subst (λ k. At file (pos + k) rest) e (At-next file pos a rest at))
