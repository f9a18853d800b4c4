-- ===== src/Prediction/Cancel/Handler.antt =====
-- The writes of a cancellation of a prediction order and its handler
-- (programs/tidebook/src/instructions/cancel_prediction_order.rs).
use tidebook.Base.{
  ℕ, Option, none, some, is_none, true, false, ◌&&◌, ◌==◌, Result, ok, ◌>>=◌, ◌>>◌, if◌then◌else◌,
}
use tidebook.State.{
  Pubkey, Account, Runtime, canceled, PredictionMarket, PredictionPosition, PredictionOrderBook,
  PredictionPriceLevel, PredictionOrder, set_best_price,
}
use tidebook.Spot.Match.Steps.{key_of}
use tidebook.Prediction.Cancel.{
  CancelPredictionOrder, check_accounts, check_order, check_links, validate_fifo_neighbor,
  check_best, Counters, next_counters, check_levels, release_position,
}

-- The accounts after the cancellation; a level that it has closed is `none`.
pub record Canceled : Type 0 where
  pub market : Account PredictionMarket
  pub position : Account PredictionPosition
  pub order_book : Account PredictionOrderBook
  pub order : Account PredictionOrder
  pub price_level : Option (Account PredictionPriceLevel)
  pub previous_order : Option (Account PredictionOrder)
  pub next_order : Option (Account PredictionOrder)
  pub better_level : Option (Account PredictionPriceLevel)
  pub worse_level : Option (Account PredictionPriceLevel)

-- The neighbors in the queue, linked to each other.
abbrev pub set_next :
    Option Pubkey → Option (Account PredictionOrder) → Option (Account PredictionOrder)
set_next k none = none
set_next k (some p) = some (record p { val = record p.val { next_order = k } })

abbrev pub set_previous :
    Option Pubkey → Option (Account PredictionOrder) → Option (Account PredictionOrder)
set_previous k none = none
set_previous k (some n) = some (record n { val = record n.val { previous_order = k } })

-- The level: a missing neighbor means that the order was its head or its tail.
unfoldable pub level_after :
    CancelPredictionOrder → Counters → PredictionPriceLevel → PredictionPriceLevel
level_after c n level = record level {
  first_order = if is_none c.previous_order then key_of c.next_order else level.first_order;
  last_order = if is_none c.next_order then key_of c.previous_order else level.last_order;
  order_count = n.level_count;
  total_remaining_quantity = n.total;
}

-- The neighbors in the list of levels, linked to each other.
abbrev pub set_worse :
    Option ℕ → Option (Account PredictionPriceLevel) → Option (Account PredictionPriceLevel)
set_worse p none = none
set_worse p (some b) = some (record b { val = record b.val { worse_price = p } })

abbrev pub set_better :
    Option ℕ → Option (Account PredictionPriceLevel) → Option (Account PredictionPriceLevel)
set_better p none = none
set_better p (some w) = some (record w { val = record w.val { better_price = p } })

-- The head of the list moves where the level that leaves was the best.
unfoldable pub book_after : CancelPredictionOrder → Counters → PredictionOrderBook
book_after c n =
    if n.level_count == 0 && is_none c.better_level
    then set_best_price c.order_book.val c.order.val.outcome c.order.val.side
        c.price_level.val.worse_price
    else c.order_book.val

-- The order as a history account.
abbrev pub order_after : PredictionOrder → PredictionOrder
order_after o = record o {
  status = canceled;
  remaining_quantity = 0;
  locked_collateral = 0;
  previous_order = none;
  next_order = none;
}

unfoldable pub cancel_writes : CancelPredictionOrder → PredictionPosition → Counters → Canceled
cancel_writes c position n = record {
  position = record { key = c.position.key; val = position };
  previous_order = set_next (key_of c.next_order) c.previous_order;
  next_order = set_previous (key_of c.previous_order) c.next_order;
  price_level =
      if n.level_count == 0
      then none
      else some (record { key = c.price_level.key; val = level_after c n c.price_level.val });
  better_level =
      if n.level_count == 0
      then set_worse c.price_level.val.worse_price c.better_level
      else c.better_level;
  worse_level =
      if n.level_count == 0
      then set_better c.price_level.val.better_price c.worse_level
      else c.worse_level;
  order_book = record { key = c.order_book.key; val = book_after c n };
  order = record { key = c.order.key; val = order_after c.order.val };
  market = record { key = c.market.key; val = record market { open_order_count = n.market_count } };
}
  where
    open c.market use {val as market}

unfoldable pub handle_cancel_prediction_order :
    Runtime → ℕ → CancelPredictionOrder → Result Canceled
handle_cancel_prediction_order rt order_id c = do
  let o = c.order.val
  check_accounts rt order_id c
  check_order order_id c
  check_links c
  validate_fifo_neighbor rt c.previous_order c.order true
  validate_fifo_neighbor rt c.next_order c.order false
  best ← check_best c
  n ← next_counters c
  check_levels rt c best n
  position ← release_position c.position.val o.outcome o.side o.locked_collateral
  ok (cancel_writes c position n)
