-- ===== src/Prediction/Insert.antt =====
-- Opening a new price level of a prediction book between its neighbors
-- (programs/tidebook/src/instructions/insert_prediction_order.rs).
pub mod Ladder
pub mod Refinement
use tidebook.Base.{
  ℕ, Option, none, some, is_none, is_some, Bool, false, ◌&&◌, ltb, ◌==◌, bool_eq, opt_eq, Result,
  ok, ◌>>=◌, ◌>>◌, require, ok_or, if◌then◌else◌,
}
use tidebook.Base.Int.{ℤ}
use tidebook.Errors.{program, invalid_prediction_price_level}
use tidebook.State.{
  Pubkey, Account, NewAccount, Runtime, check_init, OrderSide, side_eq, has_priority,
  PredictionMarket, PredictionPosition, PredictionOutcome, outcome_eq, PredictionOrderBook,
  PredictionPriceLevel, PredictionOrder, best_price, set_best_price,
}
use tidebook.Prediction.Orders.{validate_resting_order, lock_resting_funds}
use tidebook.Prediction.Book.{
  check_trader, Bumps, level_seeds, order_seeds, derive_prediction_price_level_pda, not_better,
  new_order, new_level,
}

pub record InsertPredictionOrder : Type 0 where
  pub owner : Pubkey
  pub market : Account PredictionMarket
  pub position : Account PredictionPosition
  pub order_book : Account PredictionOrderBook
  pub price_level : NewAccount
  pub order : NewAccount
  pub better_level : Option (Account PredictionPriceLevel)
  pub worse_level : Option (Account PredictionPriceLevel)

-- The accounts that the instruction has written.
pub record Inserted : Type 0 where
  pub market : Account PredictionMarket
  pub position : Account PredictionPosition
  pub order_book : Account PredictionOrderBook
  pub price_level : Account PredictionPriceLevel
  pub order : Account PredictionOrder
  pub better_level : Option (Account PredictionPriceLevel)
  pub worse_level : Option (Account PredictionPriceLevel)

unfoldable pub check_accounts :
    Runtime → ℕ → PredictionOutcome → OrderSide → ℕ → InsertPredictionOrder → Result Bumps
check_accounts rt order_id outcome side price c = do
  check_trader rt c.owner c.market c.position c.order_book
  level ← check_init rt (level_seeds c.market.key outcome side price) c.price_level
  order ← check_init rt (order_seeds c.market.key order_id) c.order
  ok (record { order = order; price_level = level })

-- A supplied neighbor is a level of the list that starts at `best`; an absent one is skipped.
unfoldable pub validate_neighbor :
    Runtime
    → Option (Account PredictionPriceLevel)
    → Pubkey
    → PredictionOutcome
    → OrderSide
    → (best : ℕ) → Result (Unit {0})
validate_neighbor rt none market outcome side best = ok tt
validate_neighbor rt (some level) market outcome side best = do
  let l = level.val
  let (expected, bump) = derive_prediction_price_level_pda rt market outcome side l.price
  require
      (level.key == expected
        && (l.bump == bump
            && (l.market == market
                && (outcome_eq l.outcome outcome
                    && (side_eq l.side side
                        && (ltb 0 l.order_count
                            && (ltb 0 l.total_remaining_quantity
                                && (is_some l.first_order
                                    && (is_some l.last_order
                                        && (bool_eq (l.price == best) (is_none l.better_price)
                                            && not_better side best l.price))))))))))
      (program invalid_prediction_price_level)

-- The place of the price between its neighbors.
unfoldable pub valid_place :
    OrderSide → (price best : ℕ) → (better worse : Option (Account PredictionPriceLevel)) → Bool
valid_place side price best none (some worse) =
    worse.val.price == best
    && (is_none worse.val.better_price && has_priority side price worse.val.price)
valid_place side price best (some better) (some worse) =
    opt_eq better.val.worse_price (some worse.val.price)
    && (opt_eq worse.val.better_price (some better.val.price)
        && (has_priority side better.val.price price && has_priority side price worse.val.price))
valid_place side price best (some better) none =
    is_none better.val.worse_price && has_priority side better.val.price price
valid_place side price best none none = false

-- `level.price` of an optional neighbor.
abbrev pub price_of : Option (Account PredictionPriceLevel) → Option ℕ
price_of none = none
price_of (some level) = some level.val.price

abbrev pub link_worse :
    ℕ → Option (Account PredictionPriceLevel) → Option (Account PredictionPriceLevel)
link_worse price none = none
link_worse price (some b) = some (record b { val = record b.val { worse_price = some price } })

abbrev pub link_better :
    ℕ → Option (Account PredictionPriceLevel) → Option (Account PredictionPriceLevel)
link_better price none = none
link_better price (some w) = some (record w { val = record w.val { better_price = some price } })

-- The head of the list moves only where no level is better than the new one.
unfoldable pub book_after :
    PredictionOrderBook
    → PredictionOutcome
    → OrderSide
    → ℕ
    → Option (Account PredictionPriceLevel)
    → (next_id : ℕ) → PredictionOrderBook
book_after book outcome side price better next_id =
    record (if is_none better then set_best_price book outcome side (some price) else book) {
      next_order_id = next_id;
    }

unfoldable pub insert_writes :
    InsertPredictionOrder
    → (order_id : ℕ) → PredictionOutcome
    → OrderSide
    → (price quantity amount next_id count : ℕ) → Bumps
    → PredictionPosition
    → Inserted
insert_writes c order_id outcome side price quantity amount next_id count bumps position = record {
  better_level = link_worse price c.better_level;
  worse_level = link_better price c.worse_level;
  price_level = record {
    key = c.price_level.key;
    val =
        new_level c.market.key outcome side price (price_of c.better_level) (price_of c.worse_level)
          c.order.key quantity c.owner bumps.price_level;
  };
  order = record {
    key = c.order.key;
    val =
        new_order c.owner c.market.key order_id outcome side price c.price_level.key none quantity
          amount bumps.order;
  };
  order_book = record {
    key = c.order_book.key;
    val = book_after c.order_book.val outcome side price c.better_level next_id;
  };
  market = record { key = c.market.key; val = record market { open_order_count = count } };
  position = record { key = c.position.key; val = position };
}
  where
    open c.market use {val as market}

unfoldable pub handle_insert_prediction_order :
    Runtime
    → (now : ℤ) → (order_id : ℕ) → PredictionOutcome
    → OrderSide
    → (price quantity : ℕ) → InsertPredictionOrder
    → Result Inserted
handle_insert_prediction_order rt now order_id outcome side price quantity c = do
  let book = c.order_book.val
  bumps ← check_accounts rt order_id outcome side price c
  (next_id, count) ←
      validate_resting_order now c.market.val book order_id outcome side price quantity
  best ← ok_or (best_price book outcome side) (program invalid_prediction_price_level)
  validate_neighbor rt c.better_level c.market.key outcome side best
  validate_neighbor rt c.worse_level c.market.key outcome side best
  require (valid_place side price best c.better_level c.worse_level)
      (program invalid_prediction_price_level)
  (amount, position) ← lock_resting_funds c.position.val outcome side price quantity
  ok (insert_writes c order_id outcome side price quantity amount next_id count bumps position)
