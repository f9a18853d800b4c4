-- ===== src/Prediction/Append.antt =====
-- Appending an order to a price level of a prediction book
-- (programs/tidebook/src/instructions/append_prediction_order.rs).
pub mod Enqueue
use tidebook.Base.{
  ℕ, none, some, is_none, is_some, Bool, not, ◌&&◌, ltb, leb, ◌==◌, bool_eq, opt_eq, Result, ok,
  ◌>>=◌, ◌>>◌, require, ok_or, if◌then◌else◌,
}
use tidebook.Base.Word.{checked_add}
use tidebook.Base.Int.{ℤ}
use tidebook.Errors.{
  Error, program, invalid_prediction_price_level, invalid_prediction_tail,
  prediction_accounting_overflow,
}
use tidebook.State.{
  Pubkey, Account, NewAccount, Runtime, check_seeds, check_init, OrderSide, side_eq, is_open,
  PredictionMarket, PredictionPosition, PredictionOutcome, outcome_eq, PredictionOrderBook,
  PredictionPriceLevel, PredictionOrder, best_price,
}
use tidebook.Prediction.Orders.{validate_resting_order, lock_resting_funds}
use tidebook.Prediction.Book.{check_trader, level_seeds, order_seeds, not_better, new_order}

pub record AppendPredictionOrder : Type 0 where
  pub owner : Pubkey
  pub market : Account PredictionMarket
  pub position : Account PredictionPosition
  pub order_book : Account PredictionOrderBook
  pub price_level : Account PredictionPriceLevel
  pub tail_order : Account PredictionOrder
  pub order : NewAccount

-- The accounts that the instruction has written.
pub record Appended : Type 0 where
  pub market : Account PredictionMarket
  pub position : Account PredictionPosition
  pub order_book : Account PredictionOrderBook
  pub price_level : Account PredictionPriceLevel
  pub tail_order : Account PredictionOrder
  pub order : Account PredictionOrder

-- The account constraints; the bump of the new order account is returned.
unfoldable pub check_accounts :
    Runtime → ℕ → PredictionOutcome → OrderSide → ℕ → AppendPredictionOrder → Result ℕ
check_accounts rt order_id outcome side price c = do
  let level = c.price_level.val
  let tail = c.tail_order.val
  check_trader rt c.owner c.market c.position c.order_book
  check_seeds rt (level_seeds c.market.key outcome side price) level.bump c.price_level.key
  require (level.market == c.market.key) (program invalid_prediction_price_level)
  require (outcome_eq level.outcome outcome && (side_eq level.side side && level.price == price))
      (program invalid_prediction_price_level)
  check_seeds rt (order_seeds c.market.key tail.order_id) tail.bump c.tail_order.key
  check_init rt (order_seeds c.market.key order_id) c.order

-- The level stands in the list that starts at the best price.
unfoldable pub check_level :
    PredictionOrderBook
    → PredictionPriceLevel
    → PredictionOutcome
    → OrderSide
    → ℕ
    → Result (Unit {0})
check_level book level outcome side price = do
  best ← ok_or (best_price book outcome side) (program invalid_prediction_price_level)
  require (bool_eq (best == price) (is_none level.better_price) && not_better side best price)
      (program invalid_prediction_price_level)

-- The supplied tail is the last order of the level.
unfoldable pub check_tail :
    (order_id : ℕ) → PredictionOutcome → OrderSide → ℕ → AppendPredictionOrder → Result (Unit {0})
check_tail order_id outcome side price c = do
  let level = c.price_level.val
  let tail = c.tail_order.val
  require
      (ltb 0 level.order_count
        && (is_some level.first_order && opt_eq level.last_order (some c.tail_order.key)))
      (program invalid_prediction_tail)
  require
      (tail.market == c.market.key
        && (tail.price_level == c.price_level.key
            && (outcome_eq tail.outcome outcome
                && (side_eq tail.side side
                    && (tail.price == price
                        && (is_open tail.status
                            && (ltb 0 tail.remaining_quantity
                                && (leb tail.remaining_quantity tail.quantity
                                    && (is_none tail.next_order
                                        && (ltb 0 tail.order_id
                                            && ltb tail.order_id order_id))))))))))
      (program invalid_prediction_tail)

-- A level of one order starts and ends at it.
unfoldable pub check_ends : AppendPredictionOrder → Result (Unit {0})
check_ends c = if level.order_count == 1 then require alone failure else require among failure
  where
    open c.price_level use {val as level}
    open c.tail_order use {key as tail_key, val as tail}

    failure : Error
    failure = program invalid_prediction_tail

    alone : Bool
    alone =
        opt_eq level.first_order (some tail_key)
        && (is_none tail.previous_order
            && level.total_remaining_quantity == tail.remaining_quantity)

    among : Bool
    among =
        not (opt_eq level.first_order (some tail_key))
        && (is_some tail.previous_order
            && (not (opt_eq tail.previous_order (some tail_key))
                && leb tail.remaining_quantity level.total_remaining_quantity))

-- The writes at the end of the handler.
abbrev pub append_writes :
    AppendPredictionOrder
    → (order_id : ℕ) → PredictionOutcome
    → OrderSide
    → (price quantity amount total level_count next_id count bump : ℕ) → PredictionPosition
    → Appended
append_writes c order_id outcome side price quantity amount total level_count next_id count bump
      position =
    record {
      order = record {
        key = c.order.key;
        val =
            new_order c.owner c.market.key order_id outcome side price c.price_level.key
              (some c.tail_order.key) quantity amount bump;
      };
      tail_order = record {
        key = c.tail_order.key;
        val = record tail { next_order = some c.order.key };
      };
      price_level = record {
        key = c.price_level.key;
        val = record level {
          last_order = some c.order.key;
          total_remaining_quantity = total;
          order_count = level_count;
        };
      };
      order_book = record { key = c.order_book.key; val = record book { next_order_id = next_id } };
      market = record { key = c.market.key; val = record market { open_order_count = count } };
      position = record { key = c.position.key; val = position };
    }
  where
    open c.market use {val as market}
    open c.order_book use {val as book}
    open c.price_level use {val as level}
    open c.tail_order use {val as tail}

unfoldable pub handle_append_prediction_order :
    Runtime
    → (now : ℤ) → (order_id : ℕ) → PredictionOutcome
    → OrderSide
    → (price quantity : ℕ) → AppendPredictionOrder
    → Result Appended
unfolding checked_add
handle_append_prediction_order rt now order_id outcome side price quantity c = do
  let book = c.order_book.val
  let level = c.price_level.val
  bump ← check_accounts rt order_id outcome side price c
  (next_id, count) ←
      validate_resting_order now c.market.val book order_id outcome side price quantity
  check_level book level outcome side price
  check_tail order_id outcome side price c
  check_ends c
  total ←
      ok_or (checked_add level.total_remaining_quantity quantity)
        (program prediction_accounting_overflow)
  level_count ← ok_or (checked_add level.order_count 1) (program prediction_accounting_overflow)
  (amount, position) ← lock_resting_funds c.position.val outcome side price quantity
  ok (
      append_writes c order_id outcome side price quantity amount total level_count next_id count
        bump position)
