-- ===== src/Spot/Append.antt =====
-- Appending an order to an existing price level
-- (programs/tidebook/src/instructions/append_limit_order.rs).
pub mod Queue
pub mod Effects
use tidebook.Base.{
  ℕ, [], ◌∷◌, Option, none, some, is_none, ◌==◌, opt_eq, Result, ok, ◌>>=◌, ◌>>◌, require, ok_or,
}
use tidebook.Base.Word.{checked_add}
use tidebook.Errors.{
  program, market_not_active, price_level_market_mismatch, price_level_side_mismatch,
  price_level_price_mismatch, invalid_price_level_tail, order_price_level_mismatch, order_not_open,
  order_id_overflow, open_order_count_overflow, price_level_quantity_overflow,
  price_level_order_count_overflow,
}
use tidebook.State.{
  Pubkey, Account, NewAccount, Runtime, check_seeds, check_init, key_seed, le_bytes, order_seed,
  price_level_seed, Market, Order, OrderSide, side_seed, side_eq, is_open, is_active, PriceLevel,
  TraderBalance,
}
use tidebook.Spot.Placement.{
  check_balance, check_positive, check_grid, order_collateral, lock_balance, new_order,
}

pub record AppendLimitOrder : Type 0 where
  pub trader : Pubkey
  pub market : Account Market
  pub order : NewAccount
  pub price_level : Account PriceLevel
  pub previous_order : Account Order
  pub trader_balance : Account TraderBalance

-- The accounts that the instruction has written.
pub record Appended : Type 0 where
  pub market : Account Market
  pub order : Account Order
  pub price_level : Account PriceLevel
  pub previous_order : Account Order
  pub trader_balance : Account TraderBalance

-- The account constraints; the bump of the new order account is returned.
unfoldable pub check_accounts : Runtime → OrderSide → ℕ → AppendLimitOrder → Result ℕ
check_accounts rt side price c = do
  let level = c.price_level.val
  let tail = c.previous_order.val
  require (is_active c.market.val.status) (program market_not_active)
  bump ←
      check_init rt (order_seed ∷ key_seed c.market.key ∷ le_bytes c.market.val.next_order_id ∷ [])
        c.order
  check_seeds rt (price_level_seed ∷ key_seed c.market.key ∷ side_seed side ∷ le_bytes price ∷ [])
      level.bump c.price_level.key
  require (level.market == c.market.key) (program price_level_market_mismatch)
  require (side_eq level.side side) (program price_level_side_mismatch)
  require (level.price == price) (program price_level_price_mismatch)
  require (opt_eq level.last_order (some c.previous_order.key)) (program invalid_price_level_tail)
  require (tail.price_level == c.price_level.key) (program order_price_level_mismatch)
  require (is_open tail.status) (program order_not_open)
  require (is_none tail.next_order) (program invalid_price_level_tail)
  check_balance rt c.market.key c.trader c.trader_balance
  ok bump

-- The counters of the market and of the level after the order.
pub record Counters : Type 0 where
  pub next_order_id : ℕ
  pub open_order_count : ℕ
  pub level_quantity : ℕ
  pub level_count : ℕ

unfoldable pub next_counters : Market → PriceLevel → ℕ → Result Counters
unfolding checked_add
next_counters m level quantity = do
  next_id ← ok_or (checked_add m.next_order_id 1) (program order_id_overflow)
  count ← ok_or (checked_add m.open_order_count 1) (program open_order_count_overflow)
  total ←
      ok_or (checked_add level.total_remaining_quantity quantity)
        (program price_level_quantity_overflow)
  orders ← ok_or (checked_add level.order_count 1) (program price_level_order_count_overflow)
  ok (record {
    next_order_id = next_id;
    open_order_count = count;
    level_quantity = total;
    level_count = orders;
  })

-- The writes at the end of the handler.
abbrev pub append_writes :
    AppendLimitOrder
    → OrderSide
    → (price quantity locked bump : ℕ) → TraderBalance
    → Counters
    → Appended
append_writes c side price quantity locked bump balance n = record {
  trader_balance = record { key = c.trader_balance.key; val = balance };
  previous_order = record {
    key = c.previous_order.key;
    val = record tail { next_order = some c.order.key };
  };
  order = record {
    key = c.order.key;
    val =
        new_order c.trader c.market.key market.next_order_id side price c.price_level.key
          (some c.previous_order.key) quantity locked bump;
  };
  price_level = record {
    key = c.price_level.key;
    val = record level {
      last_order = some c.order.key;
      total_remaining_quantity = n.level_quantity;
      order_count = n.level_count;
    };
  };
  market = record {
    key = c.market.key;
    val = record market { next_order_id = n.next_order_id; open_order_count = n.open_order_count };
  };
}
  where
    open c.market use {val as market}
    open c.price_level use {val as level}
    open c.previous_order use {val as tail}

unfoldable pub handle_append_limit_order :
    Runtime → OrderSide → ℕ → ℕ → AppendLimitOrder → Result Appended
handle_append_limit_order rt side price quantity c = do
  bump ← check_accounts rt side price c
  check_positive price quantity
  check_grid c.market.val price quantity
  locked ← order_collateral c.market.val side price quantity
  balance ← lock_balance side locked c.trader_balance.val
  n ← next_counters c.market.val c.price_level.val quantity
  ok (append_writes c side price quantity locked bump balance n)
