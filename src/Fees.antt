-- ===== src/Fees.antt =====
-- Protocol fees (programs/tidebook/src/fees.rs): a taker pays a share of the quote amount, rounded up.
pub mod Bounds
mod Tests
use tidebook.Base.{
  ℕ, ◌+◌, ◌*◌, ◌/◌, leb, ◌==◌, ◌||◌, Result, ok, ◌>>=◌, ◌>>◌, require, ok_or, if◌then◌else◌,
}
use tidebook.Base.Word.{checked_mul_u128, checked_add_u128, try_from_u64}
use tidebook.Errors.{program, fee_rate_too_high, fee_calculation_overflow}

-- `BASIS_POINTS_DENOMINATOR` and `MAX_TAKER_FEE_BPS`.
abbrev pub basis_points_denominator : ℕ
basis_points_denominator = 10_000

abbrev pub max_taker_fee_bps : ℕ
max_taker_fee_bps = 1_000

-- The part of `calculate_taker_fee` after the early return.
unfoldable pub rounded_up_fee : ℕ → ℕ → Result ℕ
unfolding checked_mul_u128 checked_add_u128 try_from_u64
rounded_up_fee quote_quantity fee_bps = do
  product ← ok_or (checked_mul_u128 quote_quantity fee_bps) (program fee_calculation_overflow)
  numerator ← ok_or (checked_add_u128 product 9_999) (program fee_calculation_overflow)
  ok_or (try_from_u64 (numerator / basis_points_denominator)) (program fee_calculation_overflow)

unfoldable pub calculate_taker_fee : ℕ → ℕ → Result ℕ
unfolding rounded_up_fee
calculate_taker_fee quote_quantity fee_bps = do
  require (leb fee_bps max_taker_fee_bps) (program fee_rate_too_high)
  if quote_quantity == 0 || fee_bps == 0 then ok 0 else rounded_up_fee quote_quantity fee_bps
