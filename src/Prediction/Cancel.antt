-- ===== src/Prediction/Cancel.antt =====
-- Cancelling an open prediction order
-- (programs/tidebook/src/instructions/cancel_prediction_order.rs).
pub mod Handler
pub mod Parts
pub mod Unlink
use tidebook.Base.{
  ℕ, ◌*◌, Option, none, some, is_none, is_some, Bool, true, false, not, ◌&&◌, ◌||◌, ltb, leb, ◌==◌,
  bool_eq, opt_eq, Result, ok, ◌>>=◌, ◌>>◌, require, ok_or, if◌then◌else◌,
}
use tidebook.Base.Word.{checked_add, checked_sub, checked_mul}
use tidebook.Errors.{
  program, unauthorized_prediction_order_owner, prediction_position_market_mismatch,
  invalid_prediction_price_level, prediction_order_not_open, prediction_order_accounting_mismatch,
  invalid_prediction_order_neighbor, invalid_prediction_rent_recipient, free_balance_overflow,
  locked_balance_underflow,
}
use tidebook.State.{
  Pubkey, Account, UncheckedAccount, Runtime, check_seeds, OrderSide, bid, ask, side_eq, is_open,
  has_priority, PredictionMarket, PredictionPosition, PredictionOutcome, outcome_eq,
  PredictionOrderBook, PredictionPriceLevel, PredictionOrder, best_price,
}
use tidebook.Spot.Match.Steps.{key_of}
use tidebook.Prediction.Orders.{write_bucket}
use tidebook.Prediction.Book.{
  check_trader, level_seeds, order_seeds, derive_prediction_price_level_pda,
  derive_prediction_order_pda, level_key, not_better,
}

pub record CancelPredictionOrder : Type 0 where
  pub owner : Pubkey
  pub market : Account PredictionMarket
  pub position : Account PredictionPosition
  pub order_book : Account PredictionOrderBook
  pub order : Account PredictionOrder
  pub price_level : Account PredictionPriceLevel
  pub previous_order : Option (Account PredictionOrder)
  pub next_order : Option (Account PredictionOrder)
  pub better_level : Option (Account PredictionPriceLevel)
  pub worse_level : Option (Account PredictionPriceLevel)
  pub level_rent_recipient : Option UncheckedAccount

unfoldable pub check_accounts : Runtime → ℕ → CancelPredictionOrder → Result (Unit {0})
check_accounts rt order_id c = do
  let o = c.order.val
  let level = c.price_level.val
  check_trader rt c.owner c.market c.position c.order_book
  check_seeds rt (order_seeds c.market.key order_id) o.bump c.order.key
  require (o.owner == c.owner) (program unauthorized_prediction_order_owner)
  require (o.market == c.market.key) (program prediction_position_market_mismatch)
  check_seeds rt (level_seeds c.market.key o.outcome o.side o.price) level.bump c.price_level.key
  require (o.price_level == c.price_level.key) (program invalid_prediction_price_level)
  require (level.market == c.market.key) (program invalid_prediction_price_level)
  require
      (outcome_eq level.outcome o.outcome && (side_eq level.side o.side && level.price == o.price))
      (program invalid_prediction_price_level)

-- What an order locks: a bid its cost, an ask its contracts.
unfoldable pub expected_lock : PredictionOrder → Result ℕ
unfolding checked_mul
expected_lock o = elim o.side [
  | bid ↦
      ok_or (checked_mul o.price o.remaining_quantity)
        (program prediction_order_accounting_mismatch)
  | ask ↦ ok o.remaining_quantity
]

unfoldable pub check_order : ℕ → CancelPredictionOrder → Result (Unit {0})
check_order order_id c = do
  let o = c.order.val
  require (is_open o.status) (program prediction_order_not_open)
  require
      (order_id == o.order_id
        && (ltb 0 order_id
            && (ltb order_id c.order_book.val.next_order_id
                && (ltb 0 o.remaining_quantity
                    && (leb o.remaining_quantity o.quantity && ltb 0 o.price)))))
      (program prediction_order_accounting_mismatch)
  lock ← expected_lock o
  require (o.locked_collateral == lock) (program prediction_order_accounting_mismatch)

-- The supplied neighbors are the ones that the order names, and the ends of the level agree.
unfoldable pub check_links : CancelPredictionOrder → Result (Unit {0})
check_links c = do
  let o = c.order.val
  let level = c.price_level.val
  let previous = key_of c.previous_order
  let next = key_of c.next_order
  require
      (opt_eq previous o.previous_order
        && (opt_eq next o.next_order
            && (not (opt_eq previous (some c.order.key)) && not (opt_eq next (some c.order.key)))))
      (program invalid_prediction_order_neighbor)
  require
      (bool_eq (opt_eq level.first_order (some c.order.key)) (is_none previous)
        && (bool_eq (opt_eq level.last_order (some c.order.key)) (is_none next)
            && (is_some level.first_order && is_some level.last_order)))
      (program invalid_prediction_order_neighbor)

-- `validate_fifo_neighbor`, its last test by the side that the neighbor is on.
abbrev pub links_to : (previous : Bool) → (neighbor order : Account PredictionOrder) → Bool
links_to true n o = opt_eq n.val.next_order (some o.key) && ltb n.val.order_id o.val.order_id
links_to false n o = opt_eq n.val.previous_order (some o.key) && ltb o.val.order_id n.val.order_id

unfoldable pub validate_fifo_neighbor :
    Runtime
    → Option (Account PredictionOrder)
    → Account PredictionOrder
    → (previous : Bool) → Result (Unit {0})
validate_fifo_neighbor rt none order previous = ok tt
validate_fifo_neighbor rt (some neighbor) order previous = do
  let n = neighbor.val
  let o = order.val
  let (expected, bump) = derive_prediction_order_pda rt o.market n.order_id
  require
      (neighbor.key == expected
        && (n.bump == bump
            && (n.market == o.market
                && (outcome_eq n.outcome o.outcome
                    && (side_eq n.side o.side
                        && (n.price == o.price
                            && (n.price_level == o.price_level
                                && (is_open n.status
                                    && (ltb 0 n.remaining_quantity
                                        && (leb n.remaining_quantity n.quantity
                                            && links_to previous neighbor order))))))))))
      (program invalid_prediction_order_neighbor)

-- The best price of the order's list, in which the level stands.
unfoldable pub check_best : CancelPredictionOrder → Result ℕ
check_best c = do
  let o = c.order.val
  let level = c.price_level.val
  best ←
      ok_or (best_price c.order_book.val o.outcome o.side) (program invalid_prediction_price_level)
  require
      (bool_eq (best == level.price) (is_none level.better_price)
        && not_better o.side best level.price)
      (program invalid_prediction_price_level)
  ok best

-- The counters without the order.
pub record Counters : Type 0 where
  pub level_count : ℕ
  pub total : ℕ
  pub market_count : ℕ

unfoldable pub next_counters : CancelPredictionOrder → Result Counters
unfolding checked_sub
next_counters c = do
  let level = c.price_level.val
  let failure = program prediction_order_accounting_mismatch
  level_count ← ok_or (checked_sub level.order_count 1) failure
  total ← ok_or (checked_sub level.total_remaining_quantity c.order.val.remaining_quantity) failure
  market_count ← ok_or (checked_sub c.market.val.open_order_count 1) failure
  ok (record { level_count = level_count; total = total; market_count = market_count })

-- `validate_price_neighbor`, its last test by the side that the neighbor is on.
abbrev pub borders : (better : Bool) → (neighbor level : PredictionPriceLevel) → Bool
borders true n l = opt_eq n.worse_price (some l.price) && has_priority l.side n.price l.price
borders false n l = opt_eq n.better_price (some l.price) && has_priority l.side l.price n.price

unfoldable pub validate_price_neighbor :
    Runtime
    → Option (Account PredictionPriceLevel)
    → PredictionPriceLevel
    → (best : ℕ) → (better : Bool) → Result (Unit {0})
validate_price_neighbor rt none l best better = ok tt
validate_price_neighbor rt (some neighbor) l best better = do
  let n = neighbor.val
  let (expected, bump) = derive_prediction_price_level_pda rt l.market l.outcome l.side n.price
  require
      (neighbor.key == expected
        && (n.bump == bump
            && (n.market == l.market
                && (outcome_eq n.outcome l.outcome
                    && (side_eq n.side l.side
                        && (ltb 0 n.order_count
                            && (ltb 0 n.total_remaining_quantity
                                && (is_some n.first_order
                                    && (is_some n.last_order
                                        && (bool_eq (best == n.price) (is_none n.better_price)
                                            && borders better n l))))))))))
      (program invalid_prediction_price_level)

unfoldable pub check_rent_recipient : Option UncheckedAccount → Pubkey → Result (Unit {0})
check_rent_recipient none payer = require false (program invalid_prediction_rent_recipient)
check_rent_recipient (some r) payer =
    require (r.key == payer) (program invalid_prediction_rent_recipient)

-- The order was the only one of its level, which is removed.
unfoldable pub check_removal :
    Runtime → CancelPredictionOrder → (best : ℕ) → Counters → Result (Unit {0})
check_removal rt c best n = do
  let o = c.order.val
  let level = c.price_level.val
  require (is_none c.previous_order && (is_none c.next_order && n.total == 0))
      (program prediction_order_accounting_mismatch)
  check_rent_recipient c.level_rent_recipient level.rent_payer
  require
      (opt_eq (key_of c.better_level) (level_key rt o.market o.outcome o.side level.better_price)
        && opt_eq (key_of c.worse_level) (level_key rt o.market o.outcome o.side level.worse_price))
      (program invalid_prediction_price_level)
  validate_price_neighbor rt c.better_level level best true
  validate_price_neighbor rt c.worse_level level best false

-- The level keeps other orders.
unfoldable pub check_stays : CancelPredictionOrder → Counters → Result (Unit {0})
check_stays c n = do
  require (ltb 0 n.total && (is_some c.previous_order || is_some c.next_order))
      (program prediction_order_accounting_mismatch)
  require (is_none c.better_level && (is_none c.worse_level && is_none c.level_rent_recipient))
      (program invalid_prediction_price_level)

unfoldable pub check_levels :
    Runtime → CancelPredictionOrder → (best : ℕ) → Counters → Result (Unit {0})
check_levels rt c best n = if n.level_count == 0 then check_removal rt c best n else check_stays c n

-- The position after the amount has moved back from the locked to the free part of its bucket.
unfoldable pub refund_bucket :
    PredictionPosition
    → PredictionOutcome
    → OrderSide
    → (free locked amount : ℕ) → Result PredictionPosition
unfolding checked_add checked_sub write_bucket
refund_bucket p outcome side free locked amount = do
  next_free ← ok_or (checked_add free amount) (program free_balance_overflow)
  next_locked ← ok_or (checked_sub locked amount) (program locked_balance_underflow)
  ok (write_bucket p outcome side next_free next_locked)

unfoldable pub release_position :
    PredictionPosition → PredictionOutcome → OrderSide → ℕ → Result PredictionPosition
unfolding refund_bucket
release_position p outcome bid amount =
    refund_bucket p outcome bid p.collateral_free p.collateral_locked amount
release_position p PredictionOutcome.yes_ ask amount =
    refund_bucket p PredictionOutcome.yes_ ask p.yes_free p.yes_locked amount
release_position p PredictionOutcome.no_ ask amount =
    refund_bucket p PredictionOutcome.no_ ask p.no_free p.no_locked amount
