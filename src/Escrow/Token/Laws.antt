-- ===== src/Escrow/Token/Laws.antt =====
-- Laws of token amounts and of the check on reward settings (crates/mesh/mesh-escrow/src/lib.rs).
use icn.Prelude.{◌+◌, ◌≤◌, ◌<◌, ◌≡◌, ◌≢◌, ◌⊎◌, ◌↔◌, ok, err, arith, u64_mod, true}
use icn.Escrow.Token.{
  TokenAmount, TokenError, different_precision, addition_overflow, subtraction_underflow, add, sub,
  RewardSettings, validate,
}

-- An amount that was added can be taken off again, and gives back the amount that was there.
pub sub-add :
    (a b c : TokenAmount)
    → add a b ≡ ok c
    → (sub c b ≡ ok a) × (c.value ≡ a.value + b.value) × (c.value < u64_mod)
unfolding add sub
sub-add a b c h = ground arith

-- An amount that was taken off can be added again, if the whole was a u64.
pub add-sub :
    (a b c : TokenAmount)
    → a.value < u64_mod
    → sub a b ≡ ok c
    → (add c b ≡ ok a) × (b.value ≤ a.value)
unfolding add sub
add-sub a b c h k = ground arith

-- Which error a sum or a difference ends with: the precisions differ, or it leaves the u64 range.
pub add-sub_errors :
    (a b : TokenAmount) (e : TokenError)
    → (add a b ≡ err e) ⊎ (sub a b ≡ err e)
    → ((a.decimals ≢ b.decimals) × (e ≡ different_precision))
      ⊎ ((a.decimals ≡ b.decimals) × (u64_mod ≤ a.value + b.value) × (e ≡ addition_overflow))
      ⊎ ((a.decimals ≡ b.decimals) × (a.value < b.value) × (e ≡ subtraction_underflow))
unfolding add sub
add-sub_errors a b e h = ground arith

-- Settings of three u8 percentages are accepted exactly when they sum up to 100, to 356 or to 612:
-- the sum wraps, so that shares of more than the whole pass the check.
pub validate_iff :
    (s : RewardSettings)
    → s.worker_percentage < 256
    → s.verifier_percentage < 256
    → s.platform_fee_percentage < 256
    → let sum = s.worker_percentage + s.verifier_percentage + s.platform_fee_percentage in
      (validate s ≡ true) ↔ ((sum ≡ 100) ⊎ (sum ≡ 356) ⊎ (sum ≡ 612))
unfolding validate
validate_iff s w v p = (ground arith, ground arith)
