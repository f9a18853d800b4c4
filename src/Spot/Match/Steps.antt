-- ===== src/Spot/Match/Steps.antt =====
-- The calculations and tests of `handle_match_limit_order`
-- (programs/tidebook/src/instructions/match_limit_order.rs), in its order.
use tidebook.Base.{
  ℕ, [], ◌∷◌, Option, none, some, Bool, true, false, ◌&&◌, not, ltb, ◌==◌, opt_eq, is_none, Result,
  ok, ◌>>◌, ◌>>=◌, require, ok_or, if◌then◌else◌,
}
use tidebook.Base.Word.{checked_add, checked_sub}
use tidebook.Errors.{
  program, fee_accrual_overflow, invalid_quantity, price_level_quantity_underflow,
  invalid_maker_collateral, price_level_order_count_underflow, open_order_count_underflow,
  broken_order_queue_link, invalid_order_neighbor, invalid_price_level_endpoints,
  invalid_price_level_aggregate, best_price_level_mismatch, invalid_price_level_neighbors,
  invalid_price_level_rent_recipient, price_level_market_mismatch, order_not_open,
  order_market_mismatch, order_price_level_mismatch, fee_calculation_overflow,
  insufficient_free_balance, free_balance_overflow, locked_balance_underflow,
}
use tidebook.State.{
  Pubkey, Account, UncheckedAccount, Runtime, key_seed, le_bytes, price_level_seed, Order,
  OrderSide, bid, ask, side_seed, side_eq, is_open, PriceLevel, TraderBalance,
}
use tidebook.Fees.{calculate_taker_fee}
use tidebook.Matching.{SettlementPlan, calculate_settlement}
use tidebook.Spot.Match.Defs.{MatchLimitOrder}

-- Every value that the handler calculates before it writes.
pub record Next : Type 0 where
  pub plan : SettlementPlan
  pub taker_fee_quote : ℕ
  pub accrued_quote_fees : ℕ
  pub order_remaining : ℕ
  pub order_collateral : ℕ
  pub level_quantity : ℕ
  pub level_order_count : ℕ
  pub open_order_count : ℕ

-- A counter falls only when the maker leaves the book.
unfoldable pub count_after : Bool → ℕ → Result ℕ → Result ℕ
count_after true count fewer = fewer
count_after false count fewer = ok count

unfoldable pub next_values : MatchLimitOrder → OrderSide → ℕ → ℕ → Result Next
unfolding checked_add checked_sub count_after
next_values c taker_side limit_price quantity = do
  let o = c.maker_order.val
  let level = c.maker_price_level.val
  plan ←
      calculate_settlement taker_side limit_price quantity o.side o.price o.remaining_quantity
        o.locked_collateral c.market.val.base_decimals
  fee ← calculate_taker_fee plan.fill.quote_quantity c.protocol_config.val.taker_fee_bps
  accrued ←
      ok_or (checked_add c.market_fees.val.accrued_quote_fees fee) (program fee_accrual_overflow)
  taker_remaining ← ok_or (checked_sub quantity plan.fill.base_quantity) (program invalid_quantity)
  remaining ←
      ok_or (checked_sub o.remaining_quantity plan.fill.base_quantity)
        (program price_level_quantity_underflow)
  collateral ←
      ok_or (checked_sub o.locked_collateral plan.maker_locked_debit)
        (program invalid_maker_collateral)
  total ←
      ok_or (checked_sub level.total_remaining_quantity plan.fill.base_quantity)
        (program price_level_quantity_underflow)
  orders ←
      count_after plan.maker_fully_filled level.order_count
        (ok_or (checked_sub level.order_count 1) (program price_level_order_count_underflow))
  open_orders ←
      count_after plan.maker_fully_filled c.market.val.open_order_count
        (ok_or (checked_sub c.market.val.open_order_count 1) (program open_order_count_underflow))
  ok (record {
    plan = plan;
    taker_fee_quote = fee;
    accrued_quote_fees = accrued;
    order_remaining = remaining;
    order_collateral = collateral;
    level_quantity = total;
    level_order_count = orders;
    open_order_count = open_orders;
  })

abbrev pub key_of : {A : Type 0} → Option (Account A) → Option Pubkey
key_of none = none
key_of (some a) = some a.key

-- The address of the level at a price, if there is one.
abbrev pub level_key : Runtime → Pubkey → OrderSide → Option ℕ → Option Pubkey
level_key rt market side none = none
level_key rt market side (some price) =
    some
      (rt.find_program_address
        (price_level_seed ∷ key_seed market ∷ side_seed side ∷ le_bytes price ∷ [])).0

unfoldable pub check_rent_recipient : Option UncheckedAccount → Pubkey → Result (Unit {0})
check_rent_recipient none payer = require false (program invalid_price_level_rent_recipient)
check_rent_recipient (some r) payer =
    require (r.key == payer) (program invalid_price_level_rent_recipient)

-- The worse level that was supplied links back to the level that is removed.
unfoldable pub check_worse :
    Option (Account PriceLevel) → Option ℕ → Pubkey → OrderSide → ℕ → Result (Unit {0})
check_worse (some w) (some price) market side level_price = do
  require (w.val.market == market) (program price_level_market_mismatch)
  require
      (side_eq w.val.side side
        && (w.val.price == price && opt_eq w.val.better_price (some level_price)))
      (program invalid_price_level_neighbors)
check_worse _ _ market side level_price = ok tt

-- The maker was the only order of the level, which is removed.
unfoldable pub check_removal : Runtime → MatchLimitOrder → Next → Result (Unit {0})
check_removal rt c n = do
  let o = c.maker_order.val
  let level = c.maker_price_level.val
  require (is_none o.next_order && opt_eq level.last_order (some c.maker_order.key))
      (program invalid_price_level_endpoints)
  require (n.level_quantity == 0) (program invalid_price_level_aggregate)
  require (is_none level.better_price) (program best_price_level_mismatch)
  require (opt_eq (key_of c.worse_level) (level_key rt c.market.key o.side level.worse_price))
      (program invalid_price_level_neighbors)
  check_rent_recipient c.level_rent_recipient level.rent_payer
  check_worse c.worse_level level.worse_price c.market.key o.side level.price

-- The maker has a successor, which becomes the head.
unfoldable pub check_successor : MatchLimitOrder → Next → Option (Account Order) → Result (Unit {0})
check_successor c n none = require false (program invalid_order_neighbor)
check_successor c n (some x) = do
  let o = c.maker_order.val
  require (is_open x.val.status) (program order_not_open)
  require (x.val.market == c.market.key) (program order_market_mismatch)
  require (x.val.price_level == c.maker_price_level.key) (program order_price_level_mismatch)
  require
      (not (x.key == c.maker_order.key)
        && (side_eq x.val.side o.side
            && (x.val.price == c.maker_price_level.val.price
                && opt_eq x.val.previous_order (some c.maker_order.key))))
      (program broken_order_queue_link)
  require (ltb 0 n.level_quantity) (program invalid_price_level_aggregate)
  require (is_none c.worse_level && is_none c.level_rent_recipient)
      (program invalid_price_level_neighbors)

abbrev pub removes_price_level : Next → Bool
removes_price_level n = n.plan.maker_fully_filled && n.level_order_count == 0

unfoldable pub check_filled : Runtime → MatchLimitOrder → Next → Result (Unit {0})
check_filled rt c n = do
  require (is_none c.maker_order.val.previous_order) (program broken_order_queue_link)
  require (opt_eq (key_of c.next_order) c.maker_order.val.next_order)
      (program invalid_order_neighbor)
  if n.level_order_count == 0 then check_removal rt c n else check_successor c n c.next_order

unfoldable pub check_partial : MatchLimitOrder → Result (Unit {0})
check_partial c = do
  require (is_none c.next_order) (program invalid_order_neighbor)
  require (is_none c.worse_level && is_none c.level_rent_recipient)
      (program invalid_price_level_neighbors)

unfoldable pub check_transition : Runtime → MatchLimitOrder → Next → Result (Unit {0})
check_transition rt c n = if n.plan.maker_fully_filled then check_filled rt c n else check_partial c

pub record Balances : Type 0 where
  pub taker : TraderBalance
  pub maker : TraderBalance

-- The two ledgers after the fill, by the taker's side.
unfoldable pub settle_balances : OrderSide → Next → (taker maker : TraderBalance) → Result Balances
unfolding checked_add checked_sub
settle_balances bid n taker maker = do
  let fill = n.plan.fill
  debit ←
      ok_or (checked_add fill.quote_quantity n.taker_fee_quote) (program fee_calculation_overflow)
  taker_quote ← ok_or (checked_sub taker.quote_free debit) (program insufficient_free_balance)
  taker_base ←
      ok_or (checked_add taker.base_free fill.base_quantity) (program free_balance_overflow)
  maker_base ←
      ok_or (checked_sub maker.base_locked n.plan.maker_locked_debit)
        (program locked_balance_underflow)
  maker_quote ←
      ok_or (checked_add maker.quote_free fill.quote_quantity) (program free_balance_overflow)
  ok (record {
    taker = record taker { quote_free = taker_quote; base_free = taker_base };
    maker = record maker { base_locked = maker_base; quote_free = maker_quote };
  })
settle_balances ask n taker maker = do
  let fill = n.plan.fill
  proceeds ←
      ok_or (checked_sub fill.quote_quantity n.taker_fee_quote) (program fee_calculation_overflow)
  taker_base ←
      ok_or (checked_sub taker.base_free fill.base_quantity) (program insufficient_free_balance)
  taker_quote ← ok_or (checked_add taker.quote_free proceeds) (program free_balance_overflow)
  maker_locked ←
      ok_or (checked_sub maker.quote_locked n.plan.maker_locked_debit)
        (program locked_balance_underflow)
  maker_base ←
      ok_or (checked_add maker.base_free fill.base_quantity) (program free_balance_overflow)
  maker_quote ←
      ok_or (checked_add maker.quote_free n.plan.maker_quote_refund) (program free_balance_overflow)
  ok (record {
    taker = record taker { base_free = taker_base; quote_free = taker_quote };
    maker = record maker {
      quote_locked = maker_locked;
      base_free = maker_base;
      quote_free = maker_quote;
    };
  })
