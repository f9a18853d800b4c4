-- ===== src/Matching.antt =====
-- The matching engine's arithmetic (programs/tidebook/src/matching.rs).
pub mod Fill
pub mod Plan
pub mod Funding
pub mod Life
mod Tests
use tidebook.Base.{
  ℕ, ◌-◌, ◌*◌, ◌/◌, min, Bool, not, ◌&&◌, ltb, leb, ◌==◌, Result, ok, ◌>>=◌, ◌>>◌, require, ok_or,
  if◌then◌else◌,
}
use tidebook.Base.Word.{checked_pow_u128, checked_mul_u128, checked_div, try_from_u64}
use tidebook.Errors.{
  program, invalid_quantity, order_notional_overflow, order_notional_too_small, matching_same_side,
  orders_do_not_cross, invalid_maker_collateral,
}
use tidebook.State.{OrderSide, bid, ask, side_eq}

pub record FillCalculation : Type 0 where
  pub base_quantity : ℕ
  pub quote_quantity : ℕ
  pub execution_price : ℕ

pub record SettlementPlan : Type 0 where
  pub fill : FillCalculation
  pub maker_locked_debit : ℕ
  pub maker_quote_refund : ℕ
  pub maker_fully_filled : Bool
  pub taker_fully_filled : Bool

unfoldable pub prices_cross : OrderSide → ℕ → ℕ → Bool
prices_cross bid taker_limit_price maker_price = leb maker_price taker_limit_price
prices_cross ask taker_limit_price maker_price = leb taker_limit_price maker_price

-- `floor(price * quantity / 10^base_decimals)` as the handlers compute it, still a `u128`.
unfoldable pub quote_notional : ℕ → ℕ → ℕ → Result ℕ
unfolding checked_pow_u128 checked_mul_u128 checked_div
quote_notional price quantity base_decimals = do
  base_scale ← ok_or (checked_pow_u128 10 base_decimals) (program order_notional_overflow)
  product ← ok_or (checked_mul_u128 price quantity) (program order_notional_overflow)
  ok_or (checked_div product base_scale) (program order_notional_overflow)

unfoldable pub calculate_fill : ℕ → ℕ → ℕ → ℕ → Result FillCalculation
unfolding try_from_u64
calculate_fill maker_price taker_remaining maker_remaining base_decimals = do
  let base_quantity = min taker_remaining maker_remaining
  require (ltb 0 base_quantity) (program invalid_quantity)
  notional ← quote_notional maker_price base_quantity base_decimals
  require (ltb 0 notional) (program order_notional_too_small)
  quote_quantity ← ok_or (try_from_u64 notional) (program order_notional_overflow)
  ok (record {
    base_quantity = base_quantity;
    quote_quantity = quote_quantity;
    execution_price = maker_price;
  })

-- The maker's debit and refund, by the maker's side.
unfoldable pub maker_debit : OrderSide → FillCalculation → Bool → ℕ → ℕ → Result (ℕ × ℕ)
maker_debit ask fill maker_fully_filled maker_remaining maker_locked_collateral = do
  require (maker_locked_collateral == maker_remaining) (program invalid_maker_collateral)
  ok (fill.base_quantity, 0)
maker_debit bid fill maker_fully_filled maker_remaining maker_locked_collateral = do
  let locked_debit = if maker_fully_filled then maker_locked_collateral else fill.quote_quantity
  require (leb fill.quote_quantity locked_debit && leb locked_debit maker_locked_collateral)
      (program invalid_maker_collateral)
  ok (locked_debit, locked_debit - fill.quote_quantity)

unfoldable pub calculate_settlement :
    OrderSide → ℕ → ℕ → OrderSide → ℕ → ℕ → ℕ → ℕ → Result SettlementPlan
calculate_settlement taker_side taker_limit_price taker_remaining maker_side maker_price
      maker_remaining maker_locked_collateral base_decimals =
    do
      require (not (side_eq taker_side maker_side)) (program matching_same_side)
      require (prices_cross taker_side taker_limit_price maker_price) (program orders_do_not_cross)
      fill ← calculate_fill maker_price taker_remaining maker_remaining base_decimals
      let maker_fully_filled = fill.base_quantity == maker_remaining
      debit ← maker_debit maker_side fill maker_fully_filled maker_remaining maker_locked_collateral
      ok (record {
        fill = fill;
        maker_locked_debit = debit.0;
        maker_quote_refund = debit.1;
        maker_fully_filled = maker_fully_filled;
        taker_fully_filled = fill.base_quantity == taker_remaining;
      })
