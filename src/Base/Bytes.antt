-- ===== src/Base/Bytes.antt =====
-- Byte strings: C strings and files are lists of numbers below 256, integers are little-endian, as
-- `memcpy`, `fread` and `fwrite` of a word see them on the machines that the program targets.
use native.Mathlib.Nat.{pow-suc}
use cautreo.Base.{
  ℕ, zero, suc, ◌+◌, ◌*◌, ◌/◌, ◌%◌, ◌^◌, ◌<◌, ◌≡◌, refl, ap, Bool, true, false, ◌&&◌, Option, none,
  some, List, [], ◌∷◌, ◌++◌, length, take, drop, ltb, ◌==◌, if◌then◌else◌, arith, ◌↔◌,
  length-append, length-drop,
}

-- The `n` bytes of `v`, the lowest first.
unfoldable pub to_bytes : ℕ → ℕ → List ℕ
to_bytes zero v = []
to_bytes (suc n) v = (v % 256) ∷ to_bytes n (v / 256)

unfoldable pub of_bytes : List ℕ → ℕ
of_bytes [] = 0
of_bytes (b ∷ bs) = b + 256 * of_bytes bs

pub length-to_bytes : (n v : ℕ) → length (to_bytes n v) ≡ n
unfolding to_bytes
length-to_bytes zero v = refl
length-to_bytes (suc n) v = ap suc (length-to_bytes n (v / 256))

pub of_bytes-to_bytes : (n v : ℕ) → v < 256 ^ n → of_bytes (to_bytes n v) ≡ v
unfolding of_bytes to_bytes
of_bytes-to_bytes zero v h = omega arith
of_bytes-to_bytes (suc n) v h =
    let step : 256 ^ suc n ≡ 256 ^ n * 256 = pow-suc 256 n in
    omega (arith, of_bytes-to_bytes n (v / 256) (omega (arith, step)))

-- `fread(&v, n, 1, f) == 1`: all `n` bytes of a word, or the failure.
unfoldable pub read_word : ℕ → List ℕ → Option (ℕ × List ℕ)
read_word n file = if ltb (length file) n then none else some (of_bytes (take n file), drop n file)

take_bytes : (n v : ℕ) (rest : List ℕ) → take n (to_bytes n v ++ rest) ≡ to_bytes n v
unfolding to_bytes
take_bytes zero v rest = refl
take_bytes (suc n) v rest = ap (◌∷◌ (v % 256)) (take_bytes n (v / 256) rest)

drop_bytes : (n v : ℕ) (rest : List ℕ) → drop n (to_bytes n v ++ rest) ≡ rest
unfolding to_bytes
drop_bytes zero v rest = refl
drop_bytes (suc n) v rest = drop_bytes n (v / 256) rest

pub read_word-to_bytes :
    (n v : ℕ) (rest : List ℕ) → v < 256 ^ n → read_word n (to_bytes n v ++ rest) ≡ some (v, rest)
unfolding read_word
read_word-to_bytes n v rest h = ground (
  arith,
  length-append (to_bytes n v) rest,
  length-to_bytes n v,
  of_bytes-to_bytes n v h,
  take_bytes n v rest,
  drop_bytes n v rest,
)

pub read_word-shrinks :
    (n : ℕ) (file : List ℕ) {v : ℕ} {rest : List ℕ}
    → read_word n file ≡ some (v, rest)
    → length rest + n ≡ length file
unfolding read_word
read_word-shrinks n file h = ground (arith, length-drop n file)

-- `strcmp(a, b) == 0`.
unfoldable pub bytes_eq : List ℕ → List ℕ → Bool
bytes_eq [] [] = true
bytes_eq (x ∷ xs) (y ∷ ys) = (x == y) && bytes_eq xs ys
bytes_eq _ _ = false

pub bytes_eq_iff : (a b : List ℕ) → (bytes_eq a b ≡ true) ↔ (a ≡ b)
unfolding bytes_eq
bytes_eq_iff [] [] = ground arith
bytes_eq_iff [] (y ∷ ys) = ground arith
bytes_eq_iff (x ∷ xs) [] = ground arith
bytes_eq_iff (x ∷ xs) (y ∷ ys) = ground (arith, bytes_eq_iff xs ys)
