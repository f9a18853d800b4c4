-- ===== src/Spot/Insert.antt =====
-- Opening a new price level with its first order
-- (programs/tidebook/src/instructions/insert_limit_order.rs).
pub mod Links
pub mod Ladder
pub mod Refinement
use tidebook.Base.{
  ℕ, [], ◌∷◌, Option, none, some, Bool, is_none, ◌&&◌, ◌==◌, opt_eq, Result, ok, err, ◌>>=◌, ◌>>◌,
  require, ok_or, if◌then◌else◌,
}
use tidebook.Base.Word.{checked_add}
use tidebook.Errors.{
  program, market_not_active, price_level_market_mismatch, price_level_side_mismatch,
  noncanonical_price_level, best_price_level_mismatch, invalid_price_level_ordering,
  invalid_price_level_neighbors, order_id_overflow, open_order_count_overflow,
}
use tidebook.State.{
  Pubkey, Account, NewAccount, Runtime, check_seeds, check_init, key_seed, le_bytes, order_seed,
  price_level_seed, Market, Order, OrderSide, side_seed, side_eq, best_of, set_best, has_priority,
  is_active, PriceLevel, TraderBalance,
}
use tidebook.Spot.Placement.{
  check_balance, check_positive, check_grid, order_collateral, lock_balance, new_order,
}

pub record InsertLimitOrder : Type 0 where
  pub trader : Pubkey
  pub market : Account Market
  pub order : NewAccount
  pub price_level : NewAccount
  pub trader_balance : Account TraderBalance
  pub better_level : Option (Account PriceLevel)
  pub worse_level : Option (Account PriceLevel)

-- The accounts that the instruction has written.
pub record Inserted : Type 0 where
  pub market : Account Market
  pub order : Account Order
  pub price_level : Account PriceLevel
  pub trader_balance : Account TraderBalance
  pub better_level : Option (Account PriceLevel)
  pub worse_level : Option (Account PriceLevel)

-- The bumps of the two new accounts.
pub record Bumps : Type 0 where
  pub order : ℕ
  pub price_level : ℕ

unfoldable pub check_accounts : Runtime → OrderSide → ℕ → InsertLimitOrder → Result Bumps
check_accounts rt side price c = do
  require (is_active c.market.val.status) (program market_not_active)
  order ←
      check_init rt (order_seed ∷ key_seed c.market.key ∷ le_bytes c.market.val.next_order_id ∷ [])
        c.order
  level ←
      check_init rt
        (price_level_seed ∷ key_seed c.market.key ∷ side_seed side ∷ le_bytes price ∷ [])
        c.price_level
  check_balance rt c.market.key c.trader c.trader_balance
  ok (record { order = order; price_level = level })

-- `derive_price_level_pda` of pda.rs, without the bump.
abbrev pub derive_price_level_pda : Runtime → Pubkey → OrderSide → ℕ → Pubkey
derive_price_level_pda rt market side price =
    (rt.find_program_address
      (price_level_seed ∷ key_seed market ∷ side_seed side ∷ le_bytes price ∷ [])).0

unfoldable pub validate_level :
    Runtime → Account PriceLevel → Pubkey → OrderSide → Result (Unit {0})
validate_level rt level market side = do
  require (level.val.market == market) (program price_level_market_mismatch)
  require (side_eq level.val.side side) (program price_level_side_mismatch)
  require (level.key == derive_price_level_pda rt market side level.val.price)
      (program noncanonical_price_level)

-- The four places of a new level, by the best price and the supplied neighbors.
unfoldable pub check_neighbors :
    Runtime
    → Pubkey
    → OrderSide
    → ℕ
    → (best : Option ℕ) → (better worse : Option (Account PriceLevel)) → Result (Unit {0})
check_neighbors rt market side price none none none = ok tt
check_neighbors rt market side price (some best) none (some worse) = do
  validate_level rt worse market side
  require (worse.val.price == best) (program best_price_level_mismatch)
  require (is_none worse.val.better_price) (program best_price_level_mismatch)
  require (has_priority side price worse.val.price) (program invalid_price_level_ordering)
check_neighbors rt market side price (some _) (some better) (some worse) = do
  validate_level rt better market side
  validate_level rt worse market side
  require (opt_eq better.val.worse_price (some worse.val.price))
      (program invalid_price_level_neighbors)
  require (opt_eq worse.val.better_price (some better.val.price))
      (program invalid_price_level_neighbors)
  require (has_priority side better.val.price price && has_priority side price worse.val.price)
      (program invalid_price_level_ordering)
check_neighbors rt market side price (some _) (some better) none = do
  validate_level rt better market side
  require (is_none better.val.worse_price) (program invalid_price_level_neighbors)
  require (has_priority side better.val.price price) (program invalid_price_level_ordering)
check_neighbors rt market side price _ _ _ = err (program invalid_price_level_neighbors)

-- `level.price` of an optional neighbor.
abbrev pub price_of : Option (Account PriceLevel) → Option ℕ
price_of none = none
price_of (some level) = some level.val.price

abbrev pub link_worse : ℕ → Option (Account PriceLevel) → Option (Account PriceLevel)
link_worse price none = none
link_worse price (some b) = some (record b { val = record b.val { worse_price = some price } })

abbrev pub link_better : ℕ → Option (Account PriceLevel) → Option (Account PriceLevel)
link_better price none = none
link_better price (some w) = some (record w { val = record w.val { better_price = some price } })

-- The level account that the instruction creates.
abbrev pub new_level :
    (market : Pubkey)
    → OrderSide
    → (price : ℕ) → (better worse : Option ℕ) → (order : Pubkey) → (quantity : ℕ)
    → (rent_payer : Pubkey) → (bump : ℕ) → PriceLevel
new_level market side price better worse order quantity rent_payer bump = record {
  market = market;
  side = side;
  price = price;
  better_price = better;
  worse_price = worse;
  first_order = some order;
  last_order = some order;
  total_remaining_quantity = quantity;
  order_count = 1;
  rent_payer = rent_payer;
  bump = bump;
}

unfoldable pub insert_writes :
    InsertLimitOrder
    → OrderSide
    → (price quantity locked : ℕ) → Bumps
    → TraderBalance
    → (next_order_id open_order_count : ℕ) → Inserted
insert_writes c side price quantity locked bumps balance next_order_id open_order_count = record {
  trader_balance = record { key = c.trader_balance.key; val = balance };
  better_level = link_worse price c.better_level;
  worse_level = link_better price c.worse_level;
  price_level = record {
    key = c.price_level.key;
    val =
        new_level c.market.key side price (price_of c.better_level) (price_of c.worse_level)
          c.order.key quantity c.trader bumps.price_level;
  };
  order = record {
    key = c.order.key;
    val =
        new_order c.trader c.market.key market.next_order_id side price c.price_level.key none
          quantity locked bumps.order;
  };
  market = record {
    key = c.market.key;
    val = record pointed { next_order_id = next_order_id; open_order_count = open_order_count };
  };
}
  where
    open c.market use {val as market}

    pointed : Market
    pointed = if is_none c.better_level then set_best side (some price) market else market

unfoldable pub handle_insert_limit_order :
    Runtime → OrderSide → ℕ → ℕ → InsertLimitOrder → Result Inserted
unfolding checked_add
handle_insert_limit_order rt side price quantity c = do
  let market = c.market.val
  bumps ← check_accounts rt side price c
  check_positive price quantity
  check_grid market price quantity
  check_neighbors rt c.market.key side price (best_of side market) c.better_level c.worse_level
  locked ← order_collateral market side price quantity
  balance ← lock_balance side locked c.trader_balance.val
  next_order_id ← ok_or (checked_add market.next_order_id 1) (program order_id_overflow)
  count ← ok_or (checked_add market.open_order_count 1) (program open_order_count_overflow)
  ok (insert_writes c side price quantity locked bumps balance next_order_id count)
