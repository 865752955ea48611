-- ===== src/Prelude/Int.antt =====
-- Signed integers over the native numbers, for i64 timestamps: the program only compares them.
use icn.Prelude.Tests.{ltb, u64_mod, if◌then◌else◌}
use Prim.Native.Nat.{ℕ, suc, ◌+◌, ◌-◌, ◌*◌, ◌%◌, ◌≤◌}
use mathlib.Core.Bool.{Bool}

-- `negsuc n` is -(n + 1).
pub data ℤ : Type 0 where
  pos : ℕ → ℤ
  negsuc : ℕ → ℤ

abbrev pub pos_part : ℤ → ℕ
pos_part (pos n) = n
pos_part (negsuc _) = 0

abbrev pub neg_part : ℤ → ℕ
neg_part (pos _) = 0
neg_part (negsuc n) = suc n

infix 50 ◌≤ℤ◌ ◌<ℤ◌
abbrev pub ◌≤ℤ◌ : ℤ → ℤ → Type 0
a ≤ℤ b = pos_part a + neg_part b ≤ pos_part b + neg_part a

abbrev pub ◌<ℤ◌ : ℤ → ℤ → Type 0
a <ℤ b = suc (pos_part a + neg_part b) ≤ pos_part b + neg_part a

abbrev pub ltb_ℤ : ℤ → ℤ → Bool
ltb_ℤ a b = ltb (pos_part a + neg_part b) (pos_part b + neg_part a)

-- `a + b` and `a * b` on i64, as a release build computes them: the result wraps to 64 bits.
abbrev pub wrap_i64 : ℕ → ℤ
wrap_i64 n =
    let r = n % u64_mod in if ltb r 0x8000000000000000 then pos r else negsuc (u64_mod - 1 - r)

abbrev pub bits_of : ℤ → ℕ
bits_of (pos n) = n % u64_mod
bits_of (negsuc n) = u64_mod - 1 - n % u64_mod

abbrev pub add_i64 : ℤ → ℤ → ℤ
add_i64 a b = wrap_i64 (bits_of a + bits_of b)

abbrev pub mul_i64 : ℤ → ℤ → ℤ
mul_i64 a b = wrap_i64 (bits_of a * bits_of b)
