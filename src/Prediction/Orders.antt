-- ===== src/Prediction/Orders.antt =====
-- Rules of resting prediction orders (programs/tidebook/src/prediction_orders.rs). A changed account
-- is returned; the chain's clock is the argument `now`.
pub mod Funds
pub mod Terms
use tidebook.Base.{
  ℕ, ◌*◌, Option, none, some, Bool, ◌&&◌, ltb, leb, ◌==◌, is_multiple_of, Result, ok, ◌>>=◌, ◌>>◌,
  require, ok_or,
}
use tidebook.Base.Word.{checked_add, checked_sub, checked_mul}
use tidebook.Base.Int.{ℤ, ltb_ℤ}
use tidebook.Errors.{
  Error, program, prediction_order_unavailable, invalid_prediction_contract_quantity,
  invalid_prediction_order_price, invalid_prediction_order_id, prediction_order_would_cross,
  prediction_accounting_overflow, insufficient_free_balance, insufficient_prediction_positions,
  locked_balance_overflow,
}
use tidebook.State.{
  OrderSide, bid, ask, PredictionMarket, PredictionOrderBook, PredictionPosition, PredictionOutcome,
  status_is_open, best_price,
}

abbrev pub opposite : OrderSide → OrderSide
opposite bid = ask
opposite ask = bid

-- A resting price stays strictly on its own side of the opposite best price.
abbrev pub stays_apart : OrderSide → ℕ → ℕ → Bool
stays_apart bid price other = ltb price other
stays_apart ask price other = ltb other price

unfoldable pub reject_crossing : OrderSide → ℕ → Option ℕ → Result (Unit {0})
reject_crossing side price none = ok tt
reject_crossing side price (some other) =
    require (stays_apart side price other) (program prediction_order_would_cross)

-- The next order id and the next open-order count.
unfoldable pub validate_resting_order :
    (now : ℤ)
    → PredictionMarket
    → PredictionOrderBook
    → ℕ
    → PredictionOutcome
    → OrderSide
    → ℕ
    → ℕ
    → Result (ℕ × ℕ)
unfolding checked_add
validate_resting_order now market book order_id outcome side price quantity = do
  require (status_is_open market.status && ltb_ℤ now market.close_ts)
      (program prediction_order_unavailable)
  require (ltb 0 quantity) (program invalid_prediction_contract_quantity)
  require (ltb 0 price && (ltb price market.payout_per_contract && ltb 0 market.price_tick))
      (program invalid_prediction_order_price)
  require (is_multiple_of price market.price_tick) (program invalid_prediction_order_price)
  require (ltb 0 order_id && order_id == book.next_order_id) (program invalid_prediction_order_id)
  reject_crossing side price (best_price book outcome (opposite side))
  next_id ← ok_or (checked_add book.next_order_id 1) (program prediction_accounting_overflow)
  count ← ok_or (checked_add market.open_order_count 1) (program prediction_accounting_overflow)
  ok (next_id, count)

-- The bucket that an order draws on: its free part, its locked part and the amount to lock.
unfoldable pub funding_bucket :
    PredictionPosition → PredictionOutcome → OrderSide → ℕ → ℕ → Result (ℕ × ℕ × ℕ)
unfolding checked_mul
funding_bucket p outcome bid price quantity = do
  amount ← ok_or (checked_mul price quantity) (program prediction_accounting_overflow)
  ok (p.collateral_free, p.collateral_locked, amount)
funding_bucket p PredictionOutcome.yes_ ask price quantity = ok (p.yes_free, p.yes_locked, quantity)
funding_bucket p PredictionOutcome.no_ ask price quantity = ok (p.no_free, p.no_locked, quantity)

abbrev pub short_of_funds : OrderSide → Error
short_of_funds bid = program insufficient_free_balance
short_of_funds ask = program insufficient_prediction_positions

unfoldable pub write_bucket :
    PredictionPosition → PredictionOutcome → OrderSide → (free locked : ℕ) → PredictionPosition
write_bucket p outcome bid free locked = record p {
  collateral_free = free;
  collateral_locked = locked;
}
write_bucket p PredictionOutcome.yes_ ask free locked = record p {
  yes_free = free;
  yes_locked = locked;
}
write_bucket p PredictionOutcome.no_ ask free locked = record p {
  no_free = free;
  no_locked = locked;
}

-- The locked amount with the changed position.
unfoldable pub lock_resting_funds :
    PredictionPosition → PredictionOutcome → OrderSide → ℕ → ℕ → Result (ℕ × PredictionPosition)
unfolding funding_bucket write_bucket checked_add checked_sub
lock_resting_funds position outcome side price quantity = do
  (free, locked, amount) ← funding_bucket position outcome side price quantity
  next_free ← ok_or (checked_sub free amount) (short_of_funds side)
  next_locked ← ok_or (checked_add locked amount) (program locked_balance_overflow)
  ok (amount, write_bucket position outcome side next_free next_locked)
