-- ===== src/Prediction/Book/View.antt =====
-- A prediction order and a prediction level as nodes of a queue and of a list of prices
-- (programs/tidebook/src/state/prediction_book.rs): apart from the outcome, which tells the two books
-- of a market apart, they have the fields of a spot order and a spot level.
use tidebook.Base.{List}
use tidebook.State.{Pubkey, Account, Order, PriceLevel, PredictionOrder, PredictionPriceLevel}
use tidebook.Spot.Queue.{Store, IsQueue}
use tidebook.Spot.Queue.View.{view_store, view_account}

abbrev pub as_order : PredictionOrder → Order
as_order o = record {
  owner = o.owner;
  market = o.market;
  order_id = o.order_id;
  side = o.side;
  price = o.price;
  price_level = o.price_level;
  previous_order = o.previous_order;
  next_order = o.next_order;
  quantity = o.quantity;
  remaining_quantity = o.remaining_quantity;
  locked_collateral = o.locked_collateral;
  status = o.status;
  bump = o.bump;
}

abbrev pub as_level : PredictionPriceLevel → PriceLevel
as_level l = record {
  market = l.market;
  side = l.side;
  price = l.price;
  better_price = l.better_price;
  worse_price = l.worse_price;
  first_order = l.first_order;
  last_order = l.last_order;
  total_remaining_quantity = l.total_remaining_quantity;
  order_count = l.order_count;
  rent_payer = l.rent_payer;
  bump = l.bump;
}

-- The accounts of a ledger, seen so.
abbrev pub order_store : Store PredictionOrder → Store Order
order_store = view_store as_order

abbrev pub level_store : Store PredictionPriceLevel → Store PriceLevel
level_store = view_store as_level

abbrev pub level_account : Account PredictionPriceLevel → Account PriceLevel
level_account = view_account as_level

-- A prediction level with its FIFO queue.
abbrev pub IsPredictionQueue :
    Store PredictionOrder → Account PredictionPriceLevel → List Pubkey → Type 0
IsPredictionQueue st level ks = IsQueue (order_store st) (level_account level) ks
