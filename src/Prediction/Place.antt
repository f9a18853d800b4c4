-- ===== src/Prediction/Place.antt =====
-- Placing the first order of an empty side of a prediction book
-- (programs/tidebook/src/instructions/place_prediction_order.rs).
pub mod Opening
use tidebook.Base.{ℕ, none, some, is_none, Result, ok, ◌>>=◌, ◌>>◌, require}
use tidebook.Base.Int.{ℤ}
use tidebook.Errors.{program, prediction_side_not_empty}
use tidebook.State.{
  Pubkey, Account, NewAccount, Runtime, check_init, OrderSide, PredictionMarket, PredictionPosition,
  PredictionOutcome, PredictionOrderBook, PredictionPriceLevel, PredictionOrder, best_price,
  set_best_price,
}
use tidebook.Prediction.Orders.{validate_resting_order, lock_resting_funds}
use tidebook.Prediction.Book.{check_trader, Bumps, level_seeds, order_seeds, new_order, new_level}

pub record PlacePredictionOrder : Type 0 where
  pub owner : Pubkey
  pub market : Account PredictionMarket
  pub position : Account PredictionPosition
  pub order_book : Account PredictionOrderBook
  pub price_level : NewAccount
  pub order : NewAccount

-- The accounts that the instruction has written.
pub record Placed : Type 0 where
  pub market : Account PredictionMarket
  pub position : Account PredictionPosition
  pub order_book : Account PredictionOrderBook
  pub price_level : Account PredictionPriceLevel
  pub order : Account PredictionOrder

unfoldable pub check_accounts :
    Runtime → ℕ → PredictionOutcome → OrderSide → ℕ → PlacePredictionOrder → Result Bumps
check_accounts rt order_id outcome side price c = do
  check_trader rt c.owner c.market c.position c.order_book
  level ← check_init rt (level_seeds c.market.key outcome side price) c.price_level
  order ← check_init rt (order_seeds c.market.key order_id) c.order
  ok (record { order = order; price_level = level })

unfoldable pub place_writes :
    PlacePredictionOrder
    → (order_id : ℕ) → PredictionOutcome
    → OrderSide
    → (price quantity amount next_id count : ℕ) → Bumps
    → PredictionPosition
    → Placed
place_writes c order_id outcome side price quantity amount next_id count bumps position = record {
  price_level = record {
    key = c.price_level.key;
    val =
        new_level c.market.key outcome side price none none c.order.key quantity c.owner
          bumps.price_level;
  };
  order = record {
    key = c.order.key;
    val =
        new_order c.owner c.market.key order_id outcome side price c.price_level.key none quantity
          amount bumps.order;
  };
  order_book = record {
    key = c.order_book.key;
    val = record (set_best_price book outcome side (some price)) { next_order_id = next_id };
  };
  market = record { key = c.market.key; val = record market { open_order_count = count } };
  position = record { key = c.position.key; val = position };
}
  where
    open c.market use {val as market}
    open c.order_book use {val as book}

unfoldable pub handle_place_prediction_order :
    Runtime
    → (now : ℤ) → (order_id : ℕ) → PredictionOutcome
    → OrderSide
    → (price quantity : ℕ) → PlacePredictionOrder
    → Result Placed
handle_place_prediction_order rt now order_id outcome side price quantity c = do
  let book = c.order_book.val
  bumps ← check_accounts rt order_id outcome side price c
  (next_id, count) ←
      validate_resting_order now c.market.val book order_id outcome side price quantity
  require (is_none (best_price book outcome side)) (program prediction_side_not_empty)
  (amount, position) ← lock_resting_funds c.position.val outcome side price quantity
  ok (place_writes c order_id outcome side price quantity amount next_id count bumps position)
