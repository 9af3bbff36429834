-- ===== src/Base/Fixed.antt =====
-- Fixed-point numbers with one decimal, from -100 on: an instance of the interface of C's floats,
-- at which theorems about any such type are evaluated. `x` stands for `(x - 1000) / 10`.
use cautreo.Base.{ℕ, zero, suc, ◌+◌, ◌-◌, ◌*◌, ◌/◌, ltb, leb, ◌==◌, arith}
use cautreo.Base.Float.{FloatOps, IsOrdered}

abbrev pub fixed_lit : ℕ → ℕ → ℕ
fixed_lit m zero = 1000 + m * 10
fixed_lit m (suc zero) = 1000 + m
fixed_lit m (suc (suc e)) = 1000

abbrev pub fixed : FloatOps
fixed = record {
  F = ℕ;
  lit = fixed_lit;
  neg = λ a. 2000 - a;
  add = λ a b. a + b - 1000;
  sub = λ a b. a + 1000 - b;
  mul = λ a b. 1000 + (a - 1000) * (b - 1000) / 10;
  div = λ a b. 1000 + (a - 1000) * 10 / (b - 1000);
  lt = ltb;
  le = leb;
  eq = λ a b. a == b;
  trunc = λ a. (a - 1000) / 10;
  of_ℕ = λ n. 1000 + n * 10;
}

pub fixed-IsOrdered : IsOrdered fixed
fixed-IsOrdered = record {
  lt_irrefl = λ a. ground arith;
  lt_trans = λ a b c p q. ground arith;
  nlt_trans = λ a b c p q. ground arith;
}
