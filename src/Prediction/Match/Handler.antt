-- ===== src/Prediction/Match/Handler.antt =====
-- The writes of a prediction match and its handler
-- (programs/tidebook/src/instructions/match_prediction_order.rs).
use tidebook.Base.{ℕ, ◌-◌, Option, none, some, Result, ok, ◌>>=◌, ◌>>◌, ok_or, if◌then◌else◌}
use tidebook.Base.Word.{checked_sub}
use tidebook.Base.Int.{ℤ}
use tidebook.Errors.{program, prediction_order_accounting_mismatch}
use tidebook.State.{
  Account, Runtime, MarketFees, OrderSide, filled, PredictionMarket, PredictionPosition,
  PredictionOutcome, PredictionOrderBook, PredictionPriceLevel, PredictionOrder, set_best_price,
}
use tidebook.Prediction.Match.{
  MatchPredictionOrder, check_accounts, check_request, check_maker, check_accounting,
  expected_backing,
}
use tidebook.Prediction.Match.Steps.{
  Next, next_values, is_full, removes_level, check_next, check_levels, next_count, Positions,
  settle_positions, backing_debit,
}

-- The accounts after the match; a level that the match has closed is `none`.
pub record Matched : Type 0 where
  pub market : Account PredictionMarket
  pub order_book : Account PredictionOrderBook
  pub market_fees : Account MarketFees
  pub maker_order : Account PredictionOrder
  pub price_level : Option (Account PredictionPriceLevel)
  pub maker_position : Account PredictionPosition
  pub taker_position : Account PredictionPosition
  pub next_order : Option (Account PredictionOrder)
  pub worse_level : Option (Account PredictionPriceLevel)

-- The maker's order: out of the queue, or with its new remainder and lock.
unfoldable pub order_after : Next → (new_backing : ℕ) → PredictionOrder → PredictionOrder
order_after n new_backing o =
    if is_full n
    then record o {
      remaining_quantity = n.remaining;
      locked_collateral = new_backing;
      status = filled;
      previous_order = none;
      next_order = none;
    }
    else record o { remaining_quantity = n.remaining; locked_collateral = new_backing }

-- The level: its head is the maker's successor after a full fill.
unfoldable pub level_after :
    MatchPredictionOrder → Next → PredictionPriceLevel → PredictionPriceLevel
level_after c n level =
    if is_full n
    then record level {
      total_remaining_quantity = n.level_quantity;
      order_count = level.order_count - 1;
      first_order = c.maker_order.val.next_order;
    }
    else record level { total_remaining_quantity = n.level_quantity }

abbrev pub unlink_head : Option (Account PredictionOrder) → Option (Account PredictionOrder)
unlink_head none = none
unlink_head (some x) = some (record x { val = record x.val { previous_order = none } })

abbrev pub clear_better :
    Option (Account PredictionPriceLevel) → Option (Account PredictionPriceLevel)
clear_better none = none
clear_better (some w) = some (record w { val = record w.val { better_price = none } })

unfoldable pub match_writes :
    PredictionOutcome → MatchPredictionOrder → Next → (count new_backing : ℕ) → Positions → Matched
match_writes outcome c n count new_backing p = record {
  market_fees = record {
    key = c.market_fees.key;
    val = record fees { accrued_quote_fees = n.accrued };
  };
  market = record { key = c.market.key; val = record market { open_order_count = count } };
  maker_order = record {
    key = c.maker_order.key;
    val = order_after n new_backing c.maker_order.val;
  };
  price_level =
      if removes_level c n
      then none
      else some (record { key = c.price_level.key; val = level_after c n c.price_level.val });
  next_order = if is_full n then unlink_head c.next_order else c.next_order;
  order_book = record {
    key = c.order_book.key;
    val =
        if removes_level c n
        then set_best_price book outcome c.maker_order.val.side c.price_level.val.worse_price
        else book;
  };
  worse_level = if removes_level c n then clear_better c.worse_level else c.worse_level;
  maker_position = record { key = c.maker_position.key; val = p.maker };
  taker_position = record { key = c.taker_position.key; val = p.taker };
}
  where
    open c.market_fees use {val as fees}
    open c.market use {val as market}
    open c.order_book use {val as book}

unfoldable pub handle_match_prediction_order :
    Runtime
    → (now : ℤ) → PredictionOutcome
    → OrderSide
    → (limit_price quantity : ℕ) → MatchPredictionOrder
    → Result Matched
unfolding checked_sub
handle_match_prediction_order rt now outcome taker_side limit_price quantity c = do
  let o = c.maker_order.val
  check_accounts rt outcome c
  check_request now c.market.val limit_price quantity
  check_maker outcome taker_side limit_price c
  check_accounting c
  expected ← expected_backing c
  n ← next_values c quantity
  check_next rt outcome c n
  check_levels rt outcome c n
  count ← next_count c n
  positions ←
      settle_positions taker_side outcome expected n c.taker_position.val c.maker_position.val
  new_backing ←
      ok_or (checked_sub o.locked_collateral (backing_debit o.side n))
        (program prediction_order_accounting_mismatch)
  ok (match_writes outcome c n count new_backing positions)
