-- ===== src/Prelude/Floats.antt =====
-- IEEE 754 arithmetic, which the source takes from the compiler: a parameter of the model.
-- `Fraction` computes with exact fractions instead, so that tests and witnesses can run.
use Prim.Native.Nat.{ℕ, zero, suc, ◌+◌, ◌-◌, ◌*◌, ◌/◌}
use mathlib.Core.Bool.{Bool}
use icn.Prelude.Tests.{ltb, leb, u64_mod, if◌then◌else◌}

-- The operations of `f64`. A literal such as 100.0 is `of_u64 100`.
pub record Floats : Type 1 where
  pub F : Type 0
  -- `n as f64`
  pub of_u64 : ℕ → F
  -- `x as u64`, which truncates and saturates
  pub to_u64 : F → ℕ
  pub add : F → F → F
  pub sub : F → F → F
  pub mul : F → F → F
  pub div : F → F → F
  pub ceil : F → F
  pub round : F → F
  pub sqrt : F → F
  pub lt : F → F → Bool
  pub le : F → F → Bool

-- A fraction of two naturals; one with denominator 0 stands for infinity.
pub record Fraction : Type 0 where
  pub num : ℕ
  pub den : ℕ

unfoldable pub sqrt_below : ℕ → ℕ → ℕ
sqrt_below zero n = 0
sqrt_below (suc k) n = let rest = sqrt_below k n in if leb (suc k * suc k) n then suc k else rest

abbrev pub fractions : Floats
fractions = record {
  F = Fraction;
  of_u64 = λ n. record { num = n; den = 1 };
  to_u64 = λ x. let q = x.num / x.den in if ltb q u64_mod then q else u64_mod - 1;
  add = λ x y. record { num = x.num * y.den + y.num * x.den; den = x.den * y.den };
  sub = λ x y. record { num = x.num * y.den - y.num * x.den; den = x.den * y.den };
  mul = λ x y. record { num = x.num * y.num; den = x.den * y.den };
  div = λ x y. record { num = x.num * y.den; den = x.den * y.num };
  ceil = λ x. record { num = (x.num + (x.den - 1)) / x.den; den = 1 };
  round = λ x. record { num = (2 * x.num + x.den) / (2 * x.den); den = 1 };
  sqrt = λ x. record { num = sqrt_below (x.num * x.den) (x.num * x.den); den = x.den };
  lt = λ x y. ltb (x.num * y.den) (y.num * x.den);
  le = λ x y. leb (x.num * y.den) (y.num * x.den);
}
