-- ===== src/Spot/Cancel/Handler.antt =====
-- The writes of a cancellation and its handler
-- (programs/tidebook/src/instructions/cancel_limit_order.rs).
use tidebook.Base.{
  ℕ, Option, none, some, is_none, ◌&&◌, ◌==◌, Result, ok, ◌>>=◌, ◌>>◌, if◌then◌else◌,
}
use tidebook.State.{
  Pubkey, Account, Runtime, Market, Order, canceled, set_best, PriceLevel, TraderBalance,
}
use tidebook.Spot.Match.Steps.{key_of, check_worse}
use tidebook.Spot.Cancel.{
  CancelLimitOrder, check_accounts, check_queue, release_balance, Counters, next_counters,
  check_levels, check_better,
}

-- The accounts after the cancellation; a level that it has closed is `none`.
pub record Canceled : Type 0 where
  pub market : Account Market
  pub order : Account Order
  pub price_level : Option (Account PriceLevel)
  pub previous_order : Option (Account Order)
  pub next_order : Option (Account Order)
  pub better_level : Option (Account PriceLevel)
  pub worse_level : Option (Account PriceLevel)
  pub trader_balance : Account TraderBalance

-- The neighbors in the queue, linked to each other.
abbrev pub set_next : Option Pubkey → Option (Account Order) → Option (Account Order)
set_next k none = none
set_next k (some p) = some (record p { val = record p.val { next_order = k } })

abbrev pub set_previous : Option Pubkey → Option (Account Order) → Option (Account Order)
set_previous k none = none
set_previous k (some n) = some (record n { val = record n.val { previous_order = k } })

-- The level: a missing neighbor means that the order was its head or its tail.
unfoldable pub level_after : CancelLimitOrder → Counters → PriceLevel
level_after c n = record level {
  first_order = if is_none c.previous_order then key_of c.next_order else level.first_order;
  last_order = if is_none c.next_order then key_of c.previous_order else level.last_order;
  order_count = n.level_order_count;
  total_remaining_quantity = n.level_quantity;
}
  where
    open c.price_level use {val as level}

-- The neighbors in the list of levels, linked to each other.
abbrev pub set_worse : Option ℕ → Option (Account PriceLevel) → Option (Account PriceLevel)
set_worse p none = none
set_worse p (some b) = some (record b { val = record b.val { worse_price = p } })

abbrev pub set_better : Option ℕ → Option (Account PriceLevel) → Option (Account PriceLevel)
set_better p none = none
set_better p (some w) = some (record w { val = record w.val { better_price = p } })

unfoldable pub market_after : CancelLimitOrder → Counters → Market
market_after c n =
    let m =
      if n.level_order_count == 0 && is_none c.better_level
      then set_best c.order.val.side c.price_level.val.worse_price c.market.val
      else c.market.val in
    record m { open_order_count = n.open_order_count }

-- The order as a history account.
abbrev pub order_after : Order → Order
order_after o = record o {
  locked_collateral = 0;
  remaining_quantity = 0;
  previous_order = none;
  next_order = none;
  status = canceled;
}

unfoldable pub cancel_writes : CancelLimitOrder → TraderBalance → Counters → Canceled
cancel_writes c balance n = record {
  trader_balance = record { key = c.trader_balance.key; val = balance };
  previous_order = set_next (key_of c.next_order) c.previous_order;
  next_order = set_previous (key_of c.previous_order) c.next_order;
  price_level =
      if n.level_order_count == 0
      then none
      else some (record { key = c.price_level.key; val = level_after c n });
  better_level =
      if n.level_order_count == 0
      then set_worse c.price_level.val.worse_price c.better_level
      else c.better_level;
  worse_level =
      if n.level_order_count == 0
      then set_better c.price_level.val.better_price c.worse_level
      else c.worse_level;
  order = record { key = c.order.key; val = order_after c.order.val };
  market = record { key = c.market.key; val = market_after c n };
}

unfoldable pub handle_cancel_limit_order : Runtime → ℕ → CancelLimitOrder → Result Canceled
handle_cancel_limit_order rt order_id c = do
  let o = c.order.val
  let level = c.price_level.val
  check_accounts rt order_id c
  check_queue c
  balance ← release_balance o.side o.locked_collateral c.trader_balance.val
  n ← next_counters c.market.val level o.remaining_quantity
  check_levels rt c n
  check_better c.better_level level.better_price c.market.key o.side level.price
  check_worse c.worse_level level.worse_price c.market.key o.side level.price
  ok (cancel_writes c balance n)
