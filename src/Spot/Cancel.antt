-- ===== src/Spot/Cancel.antt =====
-- Cancelling an open order (programs/tidebook/src/instructions/cancel_limit_order.rs).
pub mod Handler
pub mod Effects
pub mod Remove
pub mod Neighbors
pub mod Queue
pub mod Unlinked
pub mod Unlink
use tidebook.Base.{
  ℕ, [], ◌∷◌, Option, none, some, Bool, is_none, ◌&&◌, ◌==◌, opt_eq, Result, ok, err, ◌>>=◌, ◌>>◌,
  require, ok_or, if◌then◌else◌,
}
use tidebook.Base.Word.{checked_add, checked_sub}
use tidebook.Errors.{
  program, unauthorized_order_owner, order_market_mismatch, order_price_level_mismatch,
  price_level_market_mismatch, price_level_side_mismatch, price_level_price_mismatch,
  order_not_open, invalid_order_neighbor, broken_order_queue_link, free_balance_overflow,
  locked_balance_underflow, open_order_count_underflow, price_level_order_count_underflow,
  price_level_quantity_underflow, invalid_price_level_neighbors, invalid_price_level_endpoints,
  invalid_price_level_aggregate, best_price_level_mismatch,
}
use tidebook.State.{
  Pubkey, Account, UncheckedAccount, Runtime, check_seeds, key_seed, le_bytes, order_seed,
  price_level_seed, Market, Order, OrderSide, bid, ask, OrderStatus, canceled, side_seed, side_eq,
  best_of, set_best, is_open, PriceLevel, TraderBalance,
}
use tidebook.Spot.Placement.{check_balance}
use tidebook.Spot.Match.Steps.{key_of, level_key, check_rent_recipient}

pub record CancelLimitOrder : Type 0 where
  pub owner : Pubkey
  pub market : Account Market
  pub order : Account Order
  pub price_level : Account PriceLevel
  pub previous_order : Option (Account Order)
  pub next_order : Option (Account Order)
  pub better_level : Option (Account PriceLevel)
  pub worse_level : Option (Account PriceLevel)
  pub level_rent_recipient : Option UncheckedAccount
  pub trader_balance : Account TraderBalance

unfoldable pub check_accounts : Runtime → ℕ → CancelLimitOrder → Result (Unit {0})
check_accounts rt order_id c = do
  let o = c.order.val
  let level = c.price_level.val
  check_seeds rt (order_seed ∷ key_seed c.market.key ∷ le_bytes order_id ∷ []) o.bump c.order.key
  require (o.owner == c.owner) (program unauthorized_order_owner)
  require (o.market == c.market.key) (program order_market_mismatch)
  check_seeds rt
      (price_level_seed ∷ key_seed c.market.key ∷ side_seed o.side ∷ le_bytes o.price ∷ [])
      level.bump c.price_level.key
  require (o.price_level == c.price_level.key) (program order_price_level_mismatch)
  require (level.market == c.market.key) (program price_level_market_mismatch)
  require (side_eq level.side o.side) (program price_level_side_mismatch)
  require (level.price == o.price) (program price_level_price_mismatch)
  check_balance rt c.market.key c.owner c.trader_balance

-- The supplied neighbor in the queue is open, on the same level, and links back.
unfoldable pub check_previous : (level order : Pubkey) → Option (Account Order) → Result (Unit {0})
check_previous level order none = ok tt
check_previous level order (some p) = do
  require (is_open p.val.status) (program order_not_open)
  require (p.val.price_level == level) (program order_price_level_mismatch)
  require (opt_eq p.val.next_order (some order)) (program broken_order_queue_link)

unfoldable pub check_next : (level order : Pubkey) → Option (Account Order) → Result (Unit {0})
check_next level order none = ok tt
check_next level order (some n) = do
  require (is_open n.val.status) (program order_not_open)
  require (n.val.price_level == level) (program order_price_level_mismatch)
  require (opt_eq n.val.previous_order (some order)) (program broken_order_queue_link)

unfoldable pub check_queue : CancelLimitOrder → Result (Unit {0})
check_queue c = do
  require (is_open c.order.val.status) (program order_not_open)
  require (opt_eq c.order.val.previous_order (key_of c.previous_order))
      (program invalid_order_neighbor)
  require (opt_eq c.order.val.next_order (key_of c.next_order)) (program invalid_order_neighbor)
  check_previous c.price_level.key c.order.key c.previous_order
  check_next c.price_level.key c.order.key c.next_order

-- The ledger after an amount has moved back from the locked to the free part of the side's asset.
unfoldable pub release_balance : OrderSide → ℕ → TraderBalance → Result TraderBalance
unfolding checked_add checked_sub
release_balance ask amount b = do
  free ← ok_or (checked_add b.base_free amount) (program free_balance_overflow)
  locked ← ok_or (checked_sub b.base_locked amount) (program locked_balance_underflow)
  ok (record b { base_free = free; base_locked = locked })
release_balance bid amount b = do
  free ← ok_or (checked_add b.quote_free amount) (program free_balance_overflow)
  locked ← ok_or (checked_sub b.quote_locked amount) (program locked_balance_underflow)
  ok (record b { quote_free = free; quote_locked = locked })

-- The counters without the order.
pub record Counters : Type 0 where
  pub open_order_count : ℕ
  pub level_order_count : ℕ
  pub level_quantity : ℕ

unfoldable pub next_counters : Market → PriceLevel → ℕ → Result Counters
unfolding checked_sub
next_counters m level remaining = do
  count ← ok_or (checked_sub m.open_order_count 1) (program open_order_count_underflow)
  orders ← ok_or (checked_sub level.order_count 1) (program price_level_order_count_underflow)
  total ←
      ok_or (checked_sub level.total_remaining_quantity remaining)
        (program price_level_quantity_underflow)
  ok (record { open_order_count = count; level_order_count = orders; level_quantity = total })

-- A level that is the head of its list must be the market's best.
unfoldable pub check_head : (better best : Option ℕ) → ℕ → Result (Unit {0})
check_head none best price = require (opt_eq best (some price)) (program best_price_level_mismatch)
check_head (some _) best price = ok tt

-- The order was the only one of its level, which is removed.
unfoldable pub check_removal : Runtime → CancelLimitOrder → Counters → Result (Unit {0})
check_removal rt c n = do
  let o = c.order.val
  let level = c.price_level.val
  require (is_none o.previous_order && is_none o.next_order) (program invalid_price_level_endpoints)
  require
      (opt_eq level.first_order (some c.order.key) && opt_eq level.last_order (some c.order.key))
      (program invalid_price_level_endpoints)
  require (n.level_quantity == 0) (program invalid_price_level_aggregate)
  check_head level.better_price (best_of o.side c.market.val) level.price
  check_rent_recipient c.level_rent_recipient level.rent_payer
  require
      (opt_eq (key_of c.better_level) (level_key rt c.market.key o.side level.better_price)
        && opt_eq (key_of c.worse_level) (level_key rt c.market.key o.side level.worse_price))
      (program invalid_price_level_neighbors)

unfoldable pub check_levels : Runtime → CancelLimitOrder → Counters → Result (Unit {0})
check_levels rt c n =
    if n.level_order_count == 0
    then check_removal rt c n
    else require
        (is_none c.better_level && (is_none c.worse_level && is_none c.level_rent_recipient))
        (program invalid_price_level_neighbors)

-- A supplied neighbor in the list of levels links back to the level.
unfoldable pub check_better :
    Option (Account PriceLevel) → Option ℕ → Pubkey → OrderSide → ℕ → Result (Unit {0})
check_better (some b) (some price) market side level_price = do
  require (b.val.market == market) (program price_level_market_mismatch)
  require
      (side_eq b.val.side side
        && (b.val.price == price && opt_eq b.val.worse_price (some level_price)))
      (program invalid_price_level_neighbors)
check_better _ _ market side level_price = ok tt
