-- ===== src/Shared/Match.antt =====
-- The accounts, the tests and the settlement of a match in a shared book
-- (programs/tidebook/src/instructions/shared_match.rs).
pub mod Handler
pub mod Parts
pub mod Conservation
pub mod Dequeue
use tidebook.Base.{
  ℕ, [], ◌∷◌, Option, none, some, is_none, Bool, true, not, ◌&&◌, ◌==◌, opt_eq, Result, ok, ◌>>=◌,
  ◌>>◌, require, ok_or, if◌then◌else◌,
}
use tidebook.Base.Word.{checked_add, checked_sub}
use tidebook.Base.Int.{ℤ}
use tidebook.Errors.{
  program, self_trade_not_allowed, invalid_shared_neighbor, maker_not_at_best_price,
  maker_not_fifo_head, fee_accrual_overflow, fee_calculation_overflow, invalid_shared_book,
  free_balance_overflow, insufficient_free_balance, locked_balance_underflow,
}
use tidebook.State.{
  Pubkey, Account, UncheckedAccount, Runtime, check_seeds, protocol_config_seed, ProtocolConfig,
  MarketKind, OrderSide, bid, ask, side_eq, AssetBalance, SharedOutcome, SharedBook, SharedOrder,
  SharedPriceLevel, shared_outcome_eq, best_at, opposite_slot,
}
use tidebook.Fees.{calculate_taker_fee}
use tidebook.Matching.{SettlementPlan, calculate_settlement}
use tidebook.Shared.Rules.{MarketInfo, Claims, trading_open, order_terms, check_trader}
use tidebook.Shared.Links.{Bucket, check_level, check_order, base_buckets, write_base_buckets}
use tidebook.Shared.Place.{check_book}

pub record MatchSharedOrder : Type 0 where
  pub taker : Pubkey
  pub market : MarketInfo
  pub book : Account SharedBook
  pub protocol_config : Account ProtocolConfig
  pub maker_order : Account SharedOrder
  pub price_level : Account SharedPriceLevel
  pub maker_claims : Claims
  pub taker_claims : Claims
  pub next_order : Option (Account SharedOrder)
  pub worse_level : Option (Account SharedPriceLevel)
  pub level_rent_recipient : Option UncheckedAccount

unfoldable pub check_accounts : Runtime → MatchSharedOrder → Result (Unit {0})
check_accounts rt c = do
  check_book rt c.market c.book
  check_seeds rt (protocol_config_seed ∷ []) c.protocol_config.val.bump c.protocol_config.key

-- The maker is the oldest order at the best price of the other side.
unfoldable pub check_maker :
    Runtime → SharedOutcome → (slot : ℕ) → MatchSharedOrder → Result (Unit {0})
check_maker rt outcome i c = do
  let maker = c.maker_order.val
  let level = c.price_level.val
  check_order rt c.maker_order c.book
  check_level rt c.price_level c.book
  require (not (maker.owner == c.taker)) (program self_trade_not_allowed)
  require
      (shared_outcome_eq maker.outcome outcome
        && (maker.price_level == c.price_level.key
            && (shared_outcome_eq level.outcome outcome
                && (side_eq level.side maker.side && level.price == maker.price))))
      (program invalid_shared_neighbor)
  require
      (opt_eq (best_at c.book.val.best_prices (opposite_slot i)) (some maker.price)
        && is_none level.better_price)
      (program maker_not_at_best_price)
  require (opt_eq level.first_order (some c.maker_order.key) && is_none maker.previous_order)
      (program maker_not_fifo_head)

-- What the fill leaves.
pub record Next : Type 0 where
  pub plan : SettlementPlan
  pub taker_fee : ℕ
  pub accrued : ℕ
  pub remaining : ℕ
  pub collateral : ℕ
  pub total : ℕ

unfoldable pub next_values : OrderSide → (limit_price quantity : ℕ) → MatchSharedOrder → Result Next
unfolding checked_add checked_sub
next_values taker_side limit_price quantity c = do
  let maker = c.maker_order.val
  plan ←
      calculate_settlement taker_side limit_price quantity maker.side maker.price
        maker.remaining_quantity maker.locked_collateral c.book.val.base_decimals
  taker_fee ← calculate_taker_fee plan.fill.quote_quantity c.protocol_config.val.taker_fee_bps
  accrued ←
      ok_or (checked_add c.book.val.accrued_quote_fees taker_fee) (program fee_accrual_overflow)
  remaining ←
      ok_or (checked_sub maker.remaining_quantity plan.fill.base_quantity)
        (program invalid_shared_book)
  collateral ←
      ok_or (checked_sub maker.locked_collateral plan.maker_locked_debit)
        (program invalid_shared_book)
  total ←
      ok_or (checked_sub c.price_level.val.total_remaining_quantity plan.fill.base_quantity)
        (program invalid_shared_book)
  ok (record {
    plan = plan;
    taker_fee = taker_fee;
    accrued = accrued;
    remaining = remaining;
    collateral = collateral;
    total = total;
  })

-- A maker that stays open needs no neighbor.
unfoldable pub check_hints : Next → MatchSharedOrder → Result (Unit {0})
check_hints n c =
    require
      (if n.plan.maker_fully_filled
        then true
        else is_none c.next_order && (is_none c.worse_level && is_none c.level_rent_recipient))
      (program invalid_shared_neighbor)

-- The two traders' claims after the fill, by the taker's side. The maker's order alone determines the
-- debit: the locked part of its bucket may back other orders.
pub record Settled : Type 0 where
  pub maker : Claims
  pub taker : Claims

abbrev pub set_cash : (free locked : ℕ) → Claims → Claims
set_cash free locked c = record c {
  quote = record c.quote { val = record c.quote.val { free = free; locked = locked } };
}

unfoldable pub settle_buckets :
    OrderSide
    → MarketKind
    → SharedOutcome
    → Next
    → (maker_base taker_base : Bucket) → (maker taker : Claims) → Result Settled
unfolding checked_add checked_sub
settle_buckets bid kind outcome n maker_base taker_base maker taker = do
  let p = n.plan
  cost ← ok_or (checked_add p.fill.quote_quantity n.taker_fee) (program free_balance_overflow)
  taker_cash ← ok_or (checked_sub taker.quote.val.free cost) (program insufficient_free_balance)
  maker_cash ←
      ok_or (checked_add maker.quote.val.free p.fill.quote_quantity) (program free_balance_overflow)
  maker_locked ←
      ok_or (checked_sub maker_base.locked p.maker_locked_debit) (program locked_balance_underflow)
  taker_free ←
      ok_or (checked_add taker_base.free p.fill.base_quantity) (program free_balance_overflow)
  ok (record {
    maker =
        write_base_buckets kind outcome (record maker_base { locked = maker_locked })
          (set_cash maker_cash maker.quote.val.locked maker);
    taker =
        write_base_buckets kind outcome (record taker_base { free = taker_free })
          (set_cash taker_cash taker.quote.val.locked taker);
  })
settle_buckets ask kind outcome n maker_base taker_base maker taker = do
  let p = n.plan
  proceeds ←
      ok_or (checked_sub p.fill.quote_quantity n.taker_fee) (program fee_calculation_overflow)
  taker_free ←
      ok_or (checked_sub taker_base.free p.fill.base_quantity) (program insufficient_free_balance)
  maker_free ←
      ok_or (checked_add maker_base.free p.fill.base_quantity) (program free_balance_overflow)
  taker_cash ← ok_or (checked_add taker.quote.val.free proceeds) (program free_balance_overflow)
  maker_locked ←
      ok_or (checked_sub maker.quote.val.locked p.maker_locked_debit)
        (program locked_balance_underflow)
  maker_cash ←
      ok_or (checked_add maker.quote.val.free p.maker_quote_refund) (program free_balance_overflow)
  ok (record {
    maker =
        write_base_buckets kind outcome (record maker_base { free = maker_free })
          (set_cash maker_cash maker_locked maker);
    taker =
        write_base_buckets kind outcome (record taker_base { free = taker_free })
          (set_cash taker_cash taker.quote.val.locked taker);
  })

unfoldable pub settle_claims :
    OrderSide → MarketKind → SharedOutcome → Next → (maker taker : Claims) → Result Settled
settle_claims taker_side kind outcome n maker taker = do
  maker_base ← base_buckets kind outcome maker
  taker_base ← base_buckets kind outcome taker
  settle_buckets taker_side kind outcome n maker_base taker_base maker taker
