-- ===== src/Prediction/Match/Steps.antt =====
-- The calculations of a prediction match, the tests on the accounts that a full fill touches, and the
-- settlement (programs/tidebook/src/instructions/match_prediction_order.rs).
use tidebook.Base.{
  ℕ, ◌-◌, Option, none, some, is_none, is_some, Bool, false, ◌&&◌, not, ltb, leb, ◌==◌, min, opt_eq,
  Result, ok, ◌>>=◌, ◌>>◌, require, ok_or, if◌then◌else◌,
}
use tidebook.Base.Word.{checked_add, checked_sub, checked_mul}
use tidebook.Errors.{
  program, prediction_accounting_overflow, fee_accrual_overflow,
  prediction_order_accounting_mismatch, invalid_prediction_order_neighbor,
  invalid_prediction_price_level, insufficient_free_balance, free_balance_overflow,
  locked_balance_underflow, insufficient_prediction_positions,
}
use tidebook.State.{
  Account, Runtime, OrderSide, bid, ask, side_eq, is_open, has_priority, PredictionPosition,
  PredictionOutcome, outcome_eq, PredictionPriceLevel, PredictionOrder,
}
use tidebook.Fees.{calculate_taker_fee}
use tidebook.Spot.Match.Steps.{key_of}
use tidebook.Prediction.Book.{
  derive_prediction_price_level_pda, derive_prediction_order_pda, level_key,
}
use tidebook.Prediction.Cancel.{check_rent_recipient}
use tidebook.Prediction.Match.{MatchPredictionOrder}

-- What the handler calculates before it writes.
pub record Next : Type 0 where
  pub fill : ℕ
  pub notional : ℕ
  pub taker_fee : ℕ
  pub accrued : ℕ
  pub remaining : ℕ
  pub level_quantity : ℕ

unfoldable pub next_values : MatchPredictionOrder → (quantity : ℕ) → Result Next
unfolding checked_add checked_sub checked_mul
next_values c quantity = do
  let o = c.maker_order.val
  let fill = min quantity o.remaining_quantity
  notional ← ok_or (checked_mul o.price fill) (program prediction_accounting_overflow)
  fee ← calculate_taker_fee notional c.protocol_config.val.taker_fee_bps
  accrued ←
      ok_or (checked_add c.market_fees.val.accrued_quote_fees fee) (program fee_accrual_overflow)
  level_quantity ←
      ok_or (checked_sub c.price_level.val.total_remaining_quantity fill)
        (program prediction_order_accounting_mismatch)
  ok (record {
    fill = fill;
    notional = notional;
    taker_fee = fee;
    accrued = accrued;
    remaining = o.remaining_quantity - fill;
    level_quantity = level_quantity;
  })

abbrev pub is_full : Next → Bool
is_full n = n.remaining == 0

abbrev pub removes_level : MatchPredictionOrder → Next → Bool
removes_level c n = is_full n && c.price_level.val.order_count == 1

-- The successor of a maker that leaves.
unfoldable pub check_successor :
    Runtime
    → PredictionOutcome
    → MatchPredictionOrder
    → Option (Account PredictionOrder)
    → Result (Unit {0})
check_successor rt outcome c none = require false (program invalid_prediction_order_neighbor)
check_successor rt outcome c (some next) = do
  let o = c.maker_order.val
  let n = next.val
  let (expected, bump) = derive_prediction_order_pda rt c.market.key n.order_id
  require
      (opt_eq (some next.key) o.next_order
        && (next.key == expected
            && (n.bump == bump
                && (n.market == c.market.key
                    && (outcome_eq n.outcome outcome
                        && (side_eq n.side o.side
                            && (n.price == o.price
                                && (n.price_level == c.price_level.key
                                    && (is_open n.status
                                        && (opt_eq n.previous_order (some c.maker_order.key)
                                            && (ltb o.order_id n.order_id
                                                && (ltb 0 n.remaining_quantity
                                                    && leb n.remaining_quantity
                                                        n.quantity))))))))))))
      (program invalid_prediction_order_neighbor)

unfoldable pub check_next :
    Runtime → PredictionOutcome → MatchPredictionOrder → Next → Result (Unit {0})
check_next rt outcome c n =
    if is_full n && not (removes_level c n)
    then check_successor rt outcome c c.next_order
    else require (is_none c.next_order) (program invalid_prediction_order_neighbor)

-- The level behind the one that is removed.
unfoldable pub check_worse :
    Runtime
    → PredictionOutcome
    → MatchPredictionOrder
    → Option (Account PredictionPriceLevel)
    → Result (Unit {0})
check_worse rt outcome c none = ok tt
check_worse rt outcome c (some worse) = do
  let o = c.maker_order.val
  let w = worse.val
  let (_, bump) = derive_prediction_price_level_pda rt c.market.key outcome o.side w.price
  require
      (w.bump == bump
        && (w.market == c.market.key
            && (outcome_eq w.outcome outcome
                && (side_eq w.side o.side
                    && (opt_eq w.better_price (some c.price_level.val.price)
                        && (ltb 0 w.order_count
                            && (ltb 0 w.total_remaining_quantity
                                && (is_some w.first_order
                                    && (is_some w.last_order
                                        && has_priority o.side o.price w.price)))))))))
      (program invalid_prediction_price_level)

unfoldable pub check_removal :
    Runtime → PredictionOutcome → MatchPredictionOrder → Next → Result (Unit {0})
check_removal rt outcome c n = do
  let level = c.price_level.val
  require (n.level_quantity == 0) (program prediction_order_accounting_mismatch)
  check_rent_recipient c.level_rent_recipient level.rent_payer
  require
      (opt_eq (key_of c.worse_level)
        (level_key rt c.market.key outcome c.maker_order.val.side level.worse_price))
      (program invalid_prediction_price_level)
  check_worse rt outcome c c.worse_level

unfoldable pub check_levels :
    Runtime → PredictionOutcome → MatchPredictionOrder → Next → Result (Unit {0})
check_levels rt outcome c n =
    if removes_level c n
    then check_removal rt outcome c n
    else require (is_none c.worse_level && is_none c.level_rent_recipient)
        (program invalid_prediction_price_level)

-- The open orders of the market after the fill.
unfoldable pub next_count : MatchPredictionOrder → Next → Result ℕ
unfolding checked_sub
next_count c n =
    if is_full n
    then ok_or (checked_sub c.market.val.open_order_count 1)
        (program prediction_order_accounting_mismatch)
    else ok c.market.val.open_order_count

-- The contracts of one outcome in a position.
abbrev pub contracts_free : PredictionOutcome → PredictionPosition → ℕ
contracts_free PredictionOutcome.yes_ p = p.yes_free
contracts_free PredictionOutcome.no_ p = p.no_free

abbrev pub contracts_locked : PredictionOutcome → PredictionPosition → ℕ
contracts_locked PredictionOutcome.yes_ p = p.yes_locked
contracts_locked PredictionOutcome.no_ p = p.no_locked

abbrev pub set_contracts_free : PredictionOutcome → ℕ → PredictionPosition → PredictionPosition
set_contracts_free PredictionOutcome.yes_ n p = record p { yes_free = n }
set_contracts_free PredictionOutcome.no_ n p = record p { no_free = n }

abbrev pub set_contracts_locked : PredictionOutcome → ℕ → PredictionPosition → PredictionPosition
set_contracts_locked PredictionOutcome.yes_ n p = record p { yes_locked = n }
set_contracts_locked PredictionOutcome.no_ n p = record p { no_locked = n }

pub record Positions : Type 0 where
  pub taker : PredictionPosition
  pub maker : PredictionPosition

-- The two positions after the fill, by the taker's side.
unfoldable pub settle_positions :
    OrderSide
    → PredictionOutcome
    → (expected : ℕ) → Next
    → (taker maker : PredictionPosition) → Result Positions
unfolding checked_add checked_sub
settle_positions bid outcome expected n taker maker = do
  require (leb expected (contracts_locked outcome maker))
      (program prediction_order_accounting_mismatch)
  cost ← ok_or (checked_add n.notional n.taker_fee) (program prediction_accounting_overflow)
  taker_cash ← ok_or (checked_sub taker.collateral_free cost) (program insufficient_free_balance)
  maker_cash ← ok_or (checked_add maker.collateral_free n.notional) (program free_balance_overflow)
  maker_locked ←
      ok_or (checked_sub (contracts_locked outcome maker) n.fill) (program locked_balance_underflow)
  taker_free ←
      ok_or (checked_add (contracts_free outcome taker) n.fill)
        (program prediction_accounting_overflow)
  ok (record {
    taker = set_contracts_free outcome taker_free (record taker { collateral_free = taker_cash });
    maker =
        set_contracts_locked outcome maker_locked (record maker { collateral_free = maker_cash });
  })
settle_positions ask outcome expected n taker maker = do
  require (leb expected maker.collateral_locked) (program prediction_order_accounting_mismatch)
  taker_free ←
      ok_or (checked_sub (contracts_free outcome taker) n.fill)
        (program insufficient_prediction_positions)
  proceeds ←
      ok_or (checked_sub n.notional n.taker_fee) (program prediction_order_accounting_mismatch)
  taker_cash ← ok_or (checked_add taker.collateral_free proceeds) (program free_balance_overflow)
  maker_locked ←
      ok_or (checked_sub maker.collateral_locked n.notional) (program locked_balance_underflow)
  maker_free ←
      ok_or (checked_add (contracts_free outcome maker) n.fill)
        (program prediction_accounting_overflow)
  ok (record {
    taker = set_contracts_free outcome taker_free (record taker { collateral_free = taker_cash });
    maker =
        set_contracts_free outcome maker_free (record maker { collateral_locked = maker_locked });
  })

-- What a fill takes out of the lock of the maker's order.
abbrev pub backing_debit : OrderSide → Next → ℕ
backing_debit bid n = n.notional
backing_debit ask n = n.fill
