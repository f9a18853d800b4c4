-- ===== src/Matching/Tests.antt =====
-- Settlements against one resting bid and one resting ask (programs/tidebook/src/matching.rs).
use tidebook.Base.{ℕ, ◌+◌, ◌-◌, ◌≤◌, ◌≡◌, refl, List, [], ◌∷◌, true, false, ok, is_ok, arith}
use tidebook.Base.Word.{checked_pow_u128, checked_mul_u128, checked_div, try_from_u64}
use tidebook.State.{bid, ask}
use tidebook.Matching.{
  SettlementPlan, prices_cross, quote_notional, calculate_fill, maker_debit, calculate_settlement,
}
use tidebook.Matching.Fill.{notional}
use tidebook.Matching.Plan.{Request, settle, WithinLimit, settle-WithinLimit}
use tidebook.Matching.Funding.{IsFunded, IsFundedMaker, settle_total_of_funded, settle-IsFunded}
use tidebook.Matching.Life.{Maker, Taker, after_fill, Life, fill_all, bid_life}

-- A bid for 7 at 33 that has locked 23, the worth of all of it rounded down; decimals 1.
abbrev seller : ℕ → Request
seller quantity = record {
  taker_side = ask;
  taker_limit_price = 30;
  taker_remaining = quantity;
  maker_side = bid;
  maker_price = 33;
  maker_remaining = 7;
  maker_locked_collateral = 23;
  base_decimals = 1;
}

abbrev plan : SettlementPlan
plan = record {
  fill = record { base_quantity = 4; quote_quantity = 13; execution_price = 33 };
  maker_locked_debit = 13;
  maker_quote_refund = 0;
  maker_fully_filled = false;
  taker_fully_filled = true;
}

plan_is : settle (seller 4) ≡ ok plan
unfolding calculate_settlement prices_cross calculate_fill quote_notional maker_debit
    checked_pow_u128 checked_mul_u128 checked_div try_from_u64
plan_is = refl

fill_is : calculate_fill 33 4 7 1 ≡ ok plan.fill
unfolding calculate_fill quote_notional checked_pow_u128 checked_mul_u128 checked_div try_from_u64
fill_is = refl

funded : IsFundedMaker (seller 4)
unfolding notional
funded = omega arith

crossing : prices_cross ask 30 33 ≡ true
unfolding prices_cross
crossing = refl

settle-WithinLimit_example : WithinLimit ask (notional 30 4 1) 13
settle-WithinLimit_example = settle-WithinLimit (seller 4) plan plan_is

settle_total_of_funded_example : is_ok (settle (seller 4)) ≡ true
settle_total_of_funded_example =
    settle_total_of_funded (seller 4) plan.fill funded refl crossing fill_is

settle-IsFunded_example : IsFunded bid 33 (7 - 4) (23 - 13) 1
settle-IsFunded_example = settle-IsFunded (seller 4) plan plan_is funded

-- Two sellers fill the bid; the rounding of the parts leaves one atom, which the maker gets back.
abbrev resting : Maker
resting = record { price = 33; remaining = 7; locked = 23; base_decimals = 1 }

abbrev sellers : List Taker
sellers = record { limit_price = 30; quantity = 4 } ∷ record { limit_price = 33; quantity = 9 } ∷ []

abbrev filled_bid : Life
filled_bid = record {
  maker = record { price = 33; remaining = 0; locked = 0; base_decimals = 1 };
  traded = 7;
  quoted = 22;
  refunded = 1;
}

filled_bid_is : fill_all bid resting sellers ≡ ok filled_bid
unfolding fill_all after_fill calculate_settlement prices_cross calculate_fill quote_notional
    maker_debit checked_pow_u128 checked_mul_u128 checked_div try_from_u64
filled_bid_is = refl

bid_life_example :
    (filled_bid.maker.remaining + 7 ≡ 7)
    × (filled_bid.maker.locked + 22 + 1 ≡ 23)
    × (filled_bid.maker.remaining ≡ 0 → filled_bid.maker.locked ≡ 0)
    × (22 ≤ notional 33 7 1)
bid_life_example = bid_life resting sellers filled_bid filled_bid_is λ e. ground arith
