-- ===== src/Escrow/Token/Tests.antt =====
-- The laws of token amounts at concrete amounts.
use icn.Prelude.{ℕ, ◌≡◌, refl}
use icn.Prelude.Floats.{fractions}
use icn.Escrow.Token.{TokenAmount, mul, RewardSettings, default_settings}

abbrev amount : ℕ → TokenAmount
amount n = record { value = n; decimals = 6 }

scaled : mul fractions (amount 100) (record { num = 1; den = 2 }) ≡ amount 50
unfolding mul
scaled = refl

abbrev coarse : TokenAmount
coarse = record { value = 50; decimals = 2 }

abbrev oversized : RewardSettings
oversized = record default_settings {
  worker_percentage = 200;
  verifier_percentage = 100;
  platform_fee_percentage = 56;
}
