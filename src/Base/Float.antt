-- ===== src/Base/Float.antt =====
-- C's `float` and `double`, which the language and its library give and not the program: a type
-- with its operations, taken as a parameter. The operations round, and a comparison with a NaN is
-- false, so no law is assumed here; a proof that needs one names it.
use cautreo.Base.{ℕ, ◌≡◌, Bool, true, false}

pub record FloatOps : Type 1 where
  pub F : Type 0
  -- The literal `m / 10^e`.
  pub lit : ℕ → ℕ → F
  pub neg : F → F
  pub add : F → F → F
  pub sub : F → F → F
  pub mul : F → F → F
  pub div : F → F → F
  pub lt : F → F → Bool
  pub le : F → F → Bool
  pub eq : F → F → Bool
  -- The conversion to an unsigned integer, and from one.
  pub trunc : F → ℕ
  pub of_ℕ : ℕ → F

-- No NaN takes part: `<` is a strict weak order.
pub record IsOrdered (fl : FloatOps) : Type 0 where
  pub lt_irrefl : (a : fl.F) → fl.lt a a ≡ false
  pub lt_trans : (a b c : fl.F) → fl.lt a b ≡ true → fl.lt b c ≡ true → fl.lt a c ≡ true
  pub nlt_trans : (a b c : fl.F) → fl.lt a b ≡ false → fl.lt b c ≡ false → fl.lt a c ≡ false
