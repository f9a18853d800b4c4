-- ===== src/Fees/Tests.antt =====
-- Fees at small amounts (programs/tidebook/src/fees.rs).
use tidebook.Base.{◌+◌, ◌*◌, ◌≤◌, ◌<◌, ◌≡◌, refl, ok, err, arith}
use tidebook.Base.Word.{checked_mul_u128, checked_add_u128, try_from_u64}
use tidebook.Errors.{program, fee_rate_too_high}
use tidebook.Fees.{calculate_taker_fee, rounded_up_fee, max_taker_fee_bps}
use tidebook.Fees.Bounds.{
  ceiling_fee, calculate_taker_fee-eq, calculate_taker_fee_bounds, calculate_taker_fee_subadditive,
}

fee_of_3 : calculate_taker_fee 3 90 ≡ ok 1
unfolding calculate_taker_fee rounded_up_fee checked_mul_u128 checked_add_u128 try_from_u64
fee_of_3 = refl

fee_of_150 : calculate_taker_fee 150 90 ≡ ok 2
unfolding calculate_taker_fee rounded_up_fee checked_mul_u128 checked_add_u128 try_from_u64
fee_of_150 = refl

fee_of_153 : calculate_taker_fee (150 + 3) 90 ≡ ok 2
unfolding calculate_taker_fee rounded_up_fee checked_mul_u128 checked_add_u128 try_from_u64
fee_of_153 = refl

calculate_taker_fee-eq_example :
    (90 ≤ max_taker_fee_bps → calculate_taker_fee 150 90 ≡ ok (ceiling_fee 150 90))
    × (max_taker_fee_bps < 90 → calculate_taker_fee 150 90 ≡ err (program fee_rate_too_high))
calculate_taker_fee-eq_example = calculate_taker_fee-eq 150 90 (omega arith)

calculate_taker_fee_bounds_example :
    (150 * 90 ≤ 2 * 10_000) × (2 * 10_000 < 150 * 90 + 10_000) × (2 ≤ 150)
calculate_taker_fee_bounds_example = calculate_taker_fee_bounds 150 90 2 fee_of_150

calculate_taker_fee_subadditive_example : 2 ≤ 2 + 1
calculate_taker_fee_subadditive_example =
    calculate_taker_fee_subadditive 150 3 90 2 2 1 fee_of_153 fee_of_150 fee_of_3
