-- ===== src/Escrow/Token.antt =====
-- TokenAmount and RewardSettings of crates/mesh/mesh-escrow/src/lib.rs. The messages of the
-- `anyhow` errors are constructors.
pub mod Laws
mod Tests
use icn.Prelude.{
  ℕ, ◌+◌, ◌-◌, ◌%◌, Bool, true, false, String, Result, ok, err, ltb, leb, u64_mod, if◌then◌else◌,
  ◌==◌, nat_eq,
}
use icn.Prelude.Floats.{Floats}

pub record TokenAmount : Type 0 where
  pub value : ℕ
  pub decimals : ℕ

pub data TokenError : Type 0 where
  different_precision addition_overflow subtraction_underflow : TokenError

-- `checked_add` of u64
pub add : TokenAmount → TokenAmount → Result TokenError TokenAmount
add a b =
    if a.decimals == b.decimals
    then (if ltb (a.value + b.value) u64_mod
        then ok (record { value = a.value + b.value; decimals = a.decimals })
        else err addition_overflow)
    else err different_precision

-- `checked_sub` of u64
pub sub : TokenAmount → TokenAmount → Result TokenError TokenAmount
sub a b =
    if a.decimals == b.decimals
    then (if leb b.value a.value
        then ok (record { value = a.value - b.value; decimals = a.decimals })
        else err subtraction_underflow)
    else err different_precision

-- `mul` never fails.
unfoldable pub mul : (fl : Floats) → TokenAmount → fl.F → TokenAmount
mul fl a scalar = record a { value = fl.to_u64 (fl.round (fl.mul (fl.of_u64 a.value) scalar)) }

pub record RewardSettings : Type 0 where
  pub worker_percentage : ℕ
  pub verifier_percentage : ℕ
  pub platform_fee_percentage : ℕ
  pub use_reputation_weighting : Bool
  pub platform_fee_address : String

pub default_settings : RewardSettings
default_settings = record {
  worker_percentage = 70;
  verifier_percentage = 20;
  platform_fee_percentage = 10;
  use_reputation_weighting = true;
  platform_fee_address = "fee-address";
}

-- The percentages are u8, and so are their sums.
unfoldable pub validate : RewardSettings → Bool
validate s =
    ((s.worker_percentage + s.verifier_percentage) % 256 + s.platform_fee_percentage) % 256 == 100
