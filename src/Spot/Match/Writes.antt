-- ===== src/Spot/Match/Writes.antt =====
-- The writes of `handle_match_limit_order` (programs/tidebook/src/instructions/match_limit_order.rs),
-- after every test has passed.
use tidebook.Base.{Option, none, some, ◌==◌, if◌then◌else◌}
use tidebook.State.{Account, Market, MarketFees, Order, filled, set_best, PriceLevel, TraderBalance}
use tidebook.Spot.Match.Defs.{MatchLimitOrder}
use tidebook.Spot.Match.Steps.{Next, Balances, key_of, removes_price_level}

-- The accounts after the match; a level that the match has closed is `none`.
pub record Matched : Type 0 where
  pub market : Account Market
  pub market_fees : Account MarketFees
  pub maker_order : Account Order
  pub maker_price_level : Option (Account PriceLevel)
  pub next_order : Option (Account Order)
  pub worse_level : Option (Account PriceLevel)
  pub maker_balance : Account TraderBalance
  pub taker_balance : Account TraderBalance

-- The maker's order: emptied and taken out of the queue, or with its new remainder.
unfoldable pub order_after : Next → Order → Order
order_after n o =
    if n.plan.maker_fully_filled
    then record o {
      remaining_quantity = 0;
      locked_collateral = 0;
      previous_order = none;
      next_order = none;
      status = filled;
    }
    else record o { remaining_quantity = n.order_remaining; locked_collateral = n.order_collateral }

-- The level: its head is the successor, if there is one, after a full fill.
unfoldable pub level_after : Next → Option (Account Order) → PriceLevel → PriceLevel
level_after n next l =
    if n.plan.maker_fully_filled
    then record l {
      first_order = if n.level_order_count == 0 then l.first_order else key_of next;
      order_count = n.level_order_count;
      total_remaining_quantity = n.level_quantity;
    }
    else record l { total_remaining_quantity = n.level_quantity }

abbrev pub unlink_head : Option (Account Order) → Option (Account Order)
unlink_head none = none
unlink_head (some x) = some (record x { val = record x.val { previous_order = none } })

abbrev pub clear_better : Option (Account PriceLevel) → Option (Account PriceLevel)
clear_better none = none
clear_better (some w) = some (record w { val = record w.val { better_price = none } })

-- The market: one order fewer after a full fill, and a new best price after a removal.
unfoldable pub market_after : MatchLimitOrder → Next → Market
market_after c n =
    if n.plan.maker_fully_filled
    then (let m =
          if n.level_order_count == 0
          then set_best c.maker_order.val.side c.maker_price_level.val.worse_price c.market.val
          else c.market.val in
        record m { open_order_count = n.open_order_count })
    else c.market.val

unfoldable pub match_writes : MatchLimitOrder → Next → Balances → Matched
match_writes c n b = record {
  market = record { key = c.market.key; val = market_after c n };
  market_fees = record {
    key = c.market_fees.key;
    val = record fees { accrued_quote_fees = n.accrued_quote_fees };
  };
  maker_order = record { key = c.maker_order.key; val = order_after n c.maker_order.val };
  maker_price_level =
      if removes_price_level n
      then none
      else some (record {
        key = c.maker_price_level.key;
        val = level_after n c.next_order c.maker_price_level.val;
      });
  next_order =
      if n.plan.maker_fully_filled
      then (if n.level_order_count == 0 then c.next_order else unlink_head c.next_order)
      else c.next_order;
  worse_level = if removes_price_level n then clear_better c.worse_level else c.worse_level;
  maker_balance = record { key = c.maker_balance.key; val = b.maker };
  taker_balance = record { key = c.taker_balance.key; val = b.taker };
}
  where
    open c.market_fees use {val as fees}
