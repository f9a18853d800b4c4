-- ===== src/Spot/Placement.antt =====
-- What appending and inserting an order share (programs/tidebook/src/instructions/
-- append_limit_order.rs and insert_limit_order.rs): the tests of price and quantity, the collateral,
-- and the ledger's lock.
pub mod Collateral
use tidebook.Base.{
  ℕ, [], ◌∷◌, ltb, ◌==◌, is_multiple_of, Result, ok, ◌>>=◌, ◌>>◌, require, ok_or, Option, none,
  some,
}
use tidebook.Base.Word.{checked_add, checked_sub, try_from_u64}
use tidebook.Errors.{
  program, invalid_price, invalid_quantity, price_not_on_tick, quantity_not_on_lot,
  order_notional_too_small, order_notional_overflow, insufficient_free_balance,
  locked_balance_overflow, trader_balance_market_mismatch, trader_balance_owner_mismatch,
}
use tidebook.State.{
  Pubkey, Account, Runtime, check_seeds, key_seed, trader_balance_seed, Market, Order, OrderSide,
  bid, ask, open_, TraderBalance,
}
use tidebook.Matching.{quote_notional}

-- The account constraints of a trader's ledger.
abbrev pub check_balance : Runtime → Pubkey → Pubkey → Account TraderBalance → Result (Unit {0})
check_balance rt market owner balance = do
  check_seeds rt (trader_balance_seed ∷ key_seed market ∷ key_seed owner ∷ []) balance.val.bump
      balance.key
  require (balance.val.market == market) (program trader_balance_market_mismatch)
  require (balance.val.owner == owner) (program trader_balance_owner_mismatch)

unfoldable pub check_positive : ℕ → ℕ → Result (Unit {0})
check_positive price quantity = do
  require (ltb 0 price) (program invalid_price)
  require (ltb 0 quantity) (program invalid_quantity)

unfoldable pub check_grid : Market → ℕ → ℕ → Result (Unit {0})
check_grid market price quantity = do
  require (is_multiple_of price market.price_tick_size) (program price_not_on_tick)
  require (is_multiple_of quantity market.quantity_lot_size) (program quantity_not_on_lot)

-- An ask locks its quantity, a bid its worth, which must fit a `u64`.
unfoldable pub side_collateral : OrderSide → ℕ → ℕ → Result ℕ
unfolding try_from_u64
side_collateral ask quantity notional = ok quantity
side_collateral bid quantity notional =
    ok_or (try_from_u64 notional) (program order_notional_overflow)

unfoldable pub order_collateral : Market → OrderSide → ℕ → ℕ → Result ℕ
order_collateral market side price quantity = do
  notional ← quote_notional price quantity market.base_decimals
  require (ltb 0 notional) (program order_notional_too_small)
  side_collateral side quantity notional

-- The ledger after an amount has moved from the free to the locked part of the side's asset.
unfoldable pub lock_balance : OrderSide → ℕ → TraderBalance → Result TraderBalance
unfolding checked_add checked_sub
lock_balance ask amount b = do
  free ← ok_or (checked_sub b.base_free amount) (program insufficient_free_balance)
  locked ← ok_or (checked_add b.base_locked amount) (program locked_balance_overflow)
  ok (record b { base_free = free; base_locked = locked })
lock_balance bid amount b = do
  free ← ok_or (checked_sub b.quote_free amount) (program insufficient_free_balance)
  locked ← ok_or (checked_add b.quote_locked amount) (program locked_balance_overflow)
  ok (record b { quote_free = free; quote_locked = locked })

-- The order account that a placement writes.
abbrev pub new_order :
    (owner market : Pubkey)
    → ℕ
    → OrderSide
    → (price : ℕ) → Pubkey
    → Option Pubkey
    → (quantity locked : ℕ) → (bump : ℕ) → Order
new_order owner market order_id side price price_level previous quantity locked bump = record {
  owner = owner;
  market = market;
  order_id = order_id;
  side = side;
  price = price;
  price_level = price_level;
  previous_order = previous;
  next_order = none;
  quantity = quantity;
  remaining_quantity = quantity;
  locked_collateral = locked;
  status = open_;
  bump = bump;
}
