-- ===== src/Prediction/Match/Parts.antt =====
-- A prediction match that goes through, taken apart
-- (programs/tidebook/src/instructions/match_prediction_order.rs).
use tidebook.Base.{ℕ, ◌+◌, ◌*◌, ◌≡◌, none, some, true, false, min, ok, ok_or, bind_case, arith}
use tidebook.Base.Word.{checked_sub, checked_sub-ok}
use tidebook.Base.Int.{ℤ}
use tidebook.Errors.{program, prediction_order_accounting_mismatch}
use tidebook.State.{Runtime, OrderSide, bid, ask, open_, side_eq, PredictionOutcome, best_price}
use tidebook.Fees.{calculate_taker_fee}
use tidebook.Prediction.Orders.{opposite}
use tidebook.Prediction.Orders.Funds.{cost_of}
use tidebook.Prediction.Match.{
  MatchPredictionOrder, check_accounts, check_request, crosses, check_maker, check_accounting,
  backing, expected_backing,
}
use tidebook.Prediction.Match.Steps.{
  Next, next_values, check_next, check_levels, next_count, Positions, settle_positions,
  backing_debit,
}
use tidebook.Prediction.Match.Handler.{Matched, match_writes, handle_match_prediction_order}

-- What the tests on the maker establish.
pub record MakerChecked (outcome : PredictionOutcome) (taker_side : OrderSide) (limit_price : ℕ)
    (c : MatchPredictionOrder) : Type 0 where
  pub is_open_ : c.maker_order.val.status ≡ open_
  pub side_is : c.maker_order.val.side ≡ opposite taker_side
  pub within_limit : crosses taker_side limit_price c.maker_order.val.price ≡ true
  pub best :
      best_price c.order_book.val outcome c.maker_order.val.side ≡ some c.maker_order.val.price
  pub first : c.price_level.val.first_order ≡ some c.maker_order.key
  pub no_predecessor : c.maker_order.val.previous_order ≡ none

other_side : (s t : OrderSide) → side_eq s t ≡ false → s ≡ opposite t
other_side bid bid e = absurd (ground arith)
other_side bid ask e = ground arith
other_side ask bid e = ground arith
other_side ask ask e = absurd (ground arith)

check_maker-MakerChecked :
    (outcome : PredictionOutcome) (taker_side : OrderSide) (limit_price : ℕ)
    (c : MatchPredictionOrder)
    → check_maker outcome taker_side limit_price c ≡ ok tt
    → MakerChecked outcome taker_side limit_price c
unfolding check_maker
check_maker-MakerChecked outcome taker_side limit_price c h = record {
  is_open_ = ground arith;
  side_is = other_side c.maker_order.val.side taker_side (ground arith);
  within_limit = ground arith;
  best = ground arith;
  first = ground arith;
  no_predecessor = ground arith;
}

backing-cost :
    (side : OrderSide) (price quantity expected : ℕ)
    → backing side price quantity ≡ ok expected
    → expected ≡ cost_of side price quantity
unfolding backing
backing-cost bid price quantity expected h = ground arith
backing-cost ask price quantity expected h = ground arith

-- The lock of the maker's order is exactly what its remainder costs.
expected_backing-cost :
    (c : MatchPredictionOrder) (expected : ℕ)
    → expected_backing c ≡ ok expected
    → let o = c.maker_order.val in
      (expected ≡ o.locked_collateral)
      × (o.locked_collateral ≡ cost_of o.side o.price o.remaining_quantity)
unfolding expected_backing
expected_backing-cost c expected h =
    let o = c.maker_order.val in
    bind_case (backing o.side o.price o.remaining_quantity) _ h λ cost found h₁.
      let cost_is = backing-cost o.side o.price o.remaining_quantity cost found in
      (ground arith, ground arith)

pub record Values (c : MatchPredictionOrder) (quantity : ℕ) (n : Next) : Type 0 where
  pub fill_is : n.fill ≡ min quantity c.maker_order.val.remaining_quantity
  pub notional_is : n.notional ≡ c.maker_order.val.price * n.fill
  pub charged : calculate_taker_fee n.notional c.protocol_config.val.taker_fee_bps ≡ ok n.taker_fee
  pub accrued : n.accrued ≡ c.market_fees.val.accrued_quote_fees + n.taker_fee
  pub left : n.remaining + n.fill ≡ c.maker_order.val.remaining_quantity
  pub level_left : n.level_quantity + n.fill ≡ c.price_level.val.total_remaining_quantity

next_values-Values :
    (c : MatchPredictionOrder) (quantity : ℕ) (n : Next)
    → next_values c quantity ≡ ok n
    → Values c quantity n
unfolding next_values
next_values-Values c quantity n h = ground arith

pub record Parts (rt : Runtime) (now : ℤ) (outcome : PredictionOutcome) (taker_side : OrderSide)
    (limit_price quantity : ℕ) (c : MatchPredictionOrder) (d : Matched) : Type 0 where
  pub next : Next
  pub expected : ℕ
  pub count : ℕ
  pub new_backing : ℕ
  pub positions : Positions
  pub accounts : check_accounts rt outcome c ≡ ok tt
  pub request : check_request now c.market.val limit_price quantity ≡ ok tt
  pub maker : MakerChecked outcome taker_side limit_price c
  pub accounting : check_accounting c ≡ ok tt
  pub backed : expected_backing c ≡ ok expected
  pub exact :
      let o = c.maker_order.val in o.locked_collateral ≡ cost_of o.side o.price o.remaining_quantity
  pub values : Values c quantity next
  pub next_checked : check_next rt outcome c next ≡ ok tt
  pub levels_checked : check_levels rt outcome c next ≡ ok tt
  pub counted : next_count c next ≡ ok count
  pub settled :
      settle_positions taker_side outcome expected next c.taker_position.val c.maker_position.val
      ≡ ok positions
  pub released :
      new_backing + backing_debit c.maker_order.val.side next ≡ c.maker_order.val.locked_collateral
  pub written : d ≡ match_writes outcome c next count new_backing positions

pub match-Parts :
    (rt : Runtime) (now : ℤ) (outcome : PredictionOutcome) (taker_side : OrderSide)
    (limit_price quantity : ℕ) (c : MatchPredictionOrder) (d : Matched)
    → handle_match_prediction_order rt now outcome taker_side limit_price quantity c ≡ ok d
    → Parts rt now outcome taker_side limit_price quantity c d
unfolding handle_match_prediction_order
match-Parts rt now outcome taker_side limit_price quantity c d h =
    let o = c.maker_order.val in
    let failure = program prediction_order_accounting_mismatch in
    bind_case (check_accounts rt outcome c) _ h λ _ accounts h₁.
      bind_case (check_request now c.market.val limit_price quantity) _ h₁ λ _ request h₂.
        bind_case (check_maker outcome taker_side limit_price c) _ h₂ λ _ maker h₃.
          bind_case (check_accounting c) _ h₃ λ _ accounting h₄.
            bind_case (expected_backing c) _ h₄ λ expected backed h₅.
              bind_case (next_values c quantity) _ h₅ λ n calculated h₆.
                bind_case (check_next rt outcome c n) _ h₆ λ _ next_checked h₇.
                  bind_case (check_levels rt outcome c n) _ h₇ λ _ levels_checked h₈.
                    bind_case (next_count c n) _ h₈ λ count counted h₉.
                      bind_case
                        (settle_positions taker_side outcome expected n c.taker_position.val
                          c.maker_position.val)
                        _ h₉
                        λ positions settled h₁₀.
                          bind_case
                            (ok_or (checked_sub o.locked_collateral (backing_debit o.side n))
                              failure)
                            _ h₁₀
                            λ new_backing less h₁₁. record {
                              next = n;
                              expected = expected;
                              count = count;
                              new_backing = new_backing;
                              positions = positions;
                              accounts = ground arith;
                              request = ground arith;
                              maker =
                                  check_maker-MakerChecked outcome taker_side limit_price c
                                    (ground arith);
                              accounting = ground arith;
                              backed = backed;
                              exact = (expected_backing-cost c expected backed).1;
                              values = next_values-Values c quantity n calculated;
                              next_checked = ground arith;
                              levels_checked = ground arith;
                              counted = counted;
                              settled = settled;
                              released =
                                  (checked_sub-ok o.locked_collateral (backing_debit o.side n)
                                    failure less).0;
                              written = ground arith;
                            }
