-- ===== src/Prediction/Match.antt =====
-- The accounts of a prediction match and the tests before its calculations
-- (programs/tidebook/src/instructions/match_prediction_order.rs).
pub mod Steps
pub mod Handler
pub mod Parts
pub mod Settlement
pub mod Dequeue
use tidebook.Base.{
  ℕ, [], ◌∷◌, Option, none, some, is_none, is_some, Bool, true, false, not, ◌&&◌, ltb, leb, ◌==◌,
  opt_eq, is_multiple_of, Result, ok, ◌>>=◌, ◌>>◌, require, ok_or, if◌then◌else◌,
}
use tidebook.Base.Word.{checked_mul}
use tidebook.Base.Int.{ℤ, ltb_ℤ}
use tidebook.Errors.{
  program, market_fees_market_mismatch, market_fees_quote_mint_mismatch,
  prediction_position_market_mismatch, invalid_prediction_price_level, prediction_self_trade,
  prediction_order_unavailable, invalid_prediction_contract_quantity,
  invalid_prediction_order_price, prediction_order_not_open, prediction_matching_same_side,
  prediction_orders_do_not_cross, prediction_maker_not_best, prediction_maker_not_head,
  prediction_order_accounting_mismatch, prediction_accounting_overflow,
}
use tidebook.State.{
  Pubkey, Account, UncheckedAccount, Runtime, check_seeds, key_seed, protocol_config_seed,
  market_fees_seed, ProtocolConfig, MarketFees, OrderSide, bid, ask, side_eq, is_open,
  PredictionMarket, PredictionPosition, PredictionOutcome, outcome_eq, status_is_open,
  PredictionOrderBook, PredictionPriceLevel, PredictionOrder, best_price,
}
use tidebook.Prediction.Book.{check_market, check_position, check_book, level_seeds, order_seeds}

pub record MatchPredictionOrder : Type 0 where
  pub taker : Pubkey
  pub market : Account PredictionMarket
  pub order_book : Account PredictionOrderBook
  pub protocol_config : Account ProtocolConfig
  pub market_fees : Account MarketFees
  pub maker_order : Account PredictionOrder
  pub price_level : Account PredictionPriceLevel
  pub maker_position : Account PredictionPosition
  pub taker_position : Account PredictionPosition
  pub next_order : Option (Account PredictionOrder)
  pub worse_level : Option (Account PredictionPriceLevel)
  pub level_rent_recipient : Option UncheckedAccount

unfoldable pub check_market_accounts : Runtime → MatchPredictionOrder → Result (Unit {0})
check_market_accounts rt c = do
  let fees = c.market_fees.val
  check_market rt c.market
  check_book rt c.market.key c.order_book
  check_seeds rt (protocol_config_seed ∷ []) c.protocol_config.val.bump c.protocol_config.key
  check_seeds rt (market_fees_seed ∷ key_seed c.market.key ∷ []) fees.bump c.market_fees.key
  require (fees.market == c.market.key) (program market_fees_market_mismatch)
  require (fees.quote_mint == c.market.val.collateral_mint)
      (program market_fees_quote_mint_mismatch)

unfoldable pub check_maker_accounts :
    Runtime → PredictionOutcome → MatchPredictionOrder → Result (Unit {0})
check_maker_accounts rt outcome c = do
  let o = c.maker_order.val
  let level = c.price_level.val
  check_seeds rt (order_seeds c.market.key o.order_id) o.bump c.maker_order.key
  require (o.market == c.market.key) (program prediction_position_market_mismatch)
  require (outcome_eq o.outcome outcome) (program invalid_prediction_price_level)
  require (not (o.owner == c.taker)) (program prediction_self_trade)
  check_seeds rt (level_seeds c.market.key outcome o.side o.price) level.bump c.price_level.key
  require (level.market == c.market.key) (program invalid_prediction_price_level)
  require
      (outcome_eq level.outcome outcome
        && (side_eq level.side o.side
            && (level.price == o.price && o.price_level == c.price_level.key)))
      (program invalid_prediction_price_level)

unfoldable pub check_accounts :
    Runtime → PredictionOutcome → MatchPredictionOrder → Result (Unit {0})
check_accounts rt outcome c = do
  check_market_accounts rt c
  check_maker_accounts rt outcome c
  check_position rt c.market.key c.maker_order.val.owner c.maker_position
  check_position rt c.market.key c.taker c.taker_position

-- The taker's limit covers the maker's price.
abbrev pub crosses : OrderSide → (limit_price maker_price : ℕ) → Bool
crosses bid limit_price maker_price = leb maker_price limit_price
crosses ask limit_price maker_price = leb limit_price maker_price

unfoldable pub check_request :
    (now : ℤ) → PredictionMarket → (limit_price quantity : ℕ) → Result (Unit {0})
check_request now market limit_price quantity = do
  require (status_is_open market.status && ltb_ℤ now market.close_ts)
      (program prediction_order_unavailable)
  require (ltb 0 quantity) (program invalid_prediction_contract_quantity)
  require
      (ltb 0 limit_price
        && (ltb limit_price market.payout_per_contract
            && (ltb 0 market.price_tick && is_multiple_of limit_price market.price_tick)))
      (program invalid_prediction_order_price)

-- The maker is open, on the other side, within the limit, and first in line.
unfoldable pub check_maker :
    PredictionOutcome → OrderSide → ℕ → MatchPredictionOrder → Result (Unit {0})
check_maker outcome taker_side limit_price c = do
  let o = c.maker_order.val
  let level = c.price_level.val
  require (is_open o.status) (program prediction_order_not_open)
  require (not (o.owner == c.taker)) (program prediction_self_trade)
  require (not (side_eq o.side taker_side)) (program prediction_matching_same_side)
  require (crosses taker_side limit_price o.price) (program prediction_orders_do_not_cross)
  require
      (opt_eq (best_price c.order_book.val outcome o.side) (some o.price)
        && is_none level.better_price)
      (program prediction_maker_not_best)
  require (opt_eq level.first_order (some c.maker_order.key) && is_none o.previous_order)
      (program prediction_maker_not_head)

-- The records of the maker and of its level are consistent.
unfoldable pub check_accounting : MatchPredictionOrder → Result (Unit {0})
check_accounting c = do
  let o = c.maker_order.val
  let level = c.price_level.val
  let market = c.market.val
  require
      (ltb 0 o.order_id
        && (ltb o.order_id c.order_book.val.next_order_id
            && (ltb 0 o.remaining_quantity
                && (leb o.remaining_quantity o.quantity
                    && (ltb 0 o.price
                        && (ltb o.price market.payout_per_contract
                            && (is_multiple_of o.price market.price_tick
                                && (ltb 0 level.order_count
                                    && (leb o.remaining_quantity level.total_remaining_quantity
                                        && is_some level.last_order)))))))))
      (program prediction_order_accounting_mismatch)

-- What an open order locks: a bid its cost, an ask its contracts.
unfoldable pub backing : OrderSide → (price quantity : ℕ) → Result ℕ
unfolding checked_mul
backing bid price quantity =
    ok_or (checked_mul price quantity) (program prediction_accounting_overflow)
backing ask price quantity = ok quantity

-- A level of one order holds the maker only, one of more holds others too.
abbrev pub consistent_ends : MatchPredictionOrder → Bool
consistent_ends c =
    if level.order_count == 1
    then opt_eq level.last_order (some key)
      && (is_none o.next_order && level.total_remaining_quantity == o.remaining_quantity)
    else not (opt_eq level.last_order (some key))
      && (is_some o.next_order
          && (not (opt_eq o.next_order (some key))
              && ltb o.remaining_quantity level.total_remaining_quantity))
  where
    open c.maker_order use {key, val as o}
    open c.price_level use {val as level}

-- The amount that the maker's order must have locked.
unfoldable pub expected_backing : MatchPredictionOrder → Result ℕ
unfolding backing
expected_backing c = do
  let o = c.maker_order.val
  expected ← backing o.side o.price o.remaining_quantity
  require (o.locked_collateral == expected) (program prediction_order_accounting_mismatch)
  require (consistent_ends c) (program prediction_order_accounting_mismatch)
  ok expected
