-- ===== src/Spot/Tests/Trading.antt =====
-- A buyer who takes part of the best ask, and one who takes all of it
-- (programs/tidebook/src/instructions/match_limit_order.rs).
use tidebook.Base.{
  ℕ, ◌+◌, ◌-◌, ◌≤◌, ◌<◌, ◌≡◌, refl, List, [], ◌∷◌, Option, none, some, ok, ◌⊎◌, arith,
}
use tidebook.Base.Word.{
  checked_add, checked_sub, checked_mul_u128, checked_add_u128, checked_pow_u128, checked_mul_u128,
  checked_div, try_from_u64,
}
use tidebook.State.{Account, Order, PriceLevel, bid, filled, best_of}
use tidebook.Fees.{calculate_taker_fee, rounded_up_fee}
use tidebook.Fees.Bounds.{ceiling_fee}
use tidebook.Matching.{
  prices_cross, quote_notional, calculate_fill, maker_debit, calculate_settlement,
}
use tidebook.Matching.Fill.{notional}
use tidebook.Matching.Plan.{WithinLimit}
use tidebook.Spot.Placement.{check_positive, check_grid}
use tidebook.Spot.Placement.Collateral.{base_total, quote_total, locked_for}
use tidebook.Spot.Queue.{put, IsQueue}
use tidebook.Spot.Match.Defs.{
  MatchLimitOrder, check_market_accounts, check_maker_accounts, check_accounts,
}
use tidebook.Spot.Match.Steps.{
  count_after, next_values, check_successor, check_filled, check_partial, check_transition,
  settle_balances,
}
use tidebook.Spot.Match.Writes.{Matched, order_after, level_after, market_after, match_writes}
use tidebook.Spot.Match.Handler.{handle_match_limit_order}
use tidebook.Spot.Match.Conservation.{match_conserves}
use tidebook.Spot.Match.Backing.{IsFundedOrder, match_keeps_backing}
use tidebook.Spot.Match.Exchange.{Exchanges, match-Exchanges}
use tidebook.Spot.Match.Priority.{Completed, Promoted, Removed, match-Completed}
use tidebook.Spot.Match.Dequeue.{matched_store, match_keeps_IsQueue, match_dequeues}
use tidebook.Sample.{hashing}
use tidebook.Spot.Tests.Data.{
  market, config, fees, level, order_key, first_order, second_order, ledger, orders, level-IsQueue,
}

abbrev taking : Option (Account Order) → MatchLimitOrder
taking next = record {
  taker = 22;
  market = market;
  protocol_config = config;
  market_fees = fees;
  maker_order = first_order;
  maker_price_level = level;
  next_order = next;
  worse_level = none;
  level_rent_recipient = none;
  maker_balance = ledger 21 0 40 0 0;
  taker_balance = ledger 22 0 0 1_000 0;
}

-- Thirty of the forty are bought for 150 and a fee of two.
abbrev part : Matched
part = record {
  market = market;
  market_fees = record fees { val = record fees.val { accrued_quote_fees = 10 } };
  maker_order = record first_order {
    val = record first_order.val { remaining_quantity = 10; locked_collateral = 10 };
  };
  maker_price_level =
      some (record level { val = record level.val { total_remaining_quantity = 30 } });
  next_order = none;
  worse_level = none;
  maker_balance = ledger 21 0 10 150 0;
  taker_balance = ledger 22 30 0 848 0;
}

part_is : handle_match_limit_order hashing bid 505 30 (taking none) ≡ ok part
unfolding handle_match_limit_order check_accounts check_market_accounts check_maker_accounts
    check_positive check_grid next_values count_after calculate_settlement prices_cross
    calculate_fill quote_notional maker_debit checked_pow_u128 checked_mul_u128 checked_add_u128
    checked_div try_from_u64 calculate_taker_fee rounded_up_fee checked_add checked_sub
    check_transition check_partial settle_balances match_writes order_after level_after market_after
    best_of
part_is = refl

-- All forty are bought for 200 and a fee of two; the second order is the new head.

abbrev second_head : Account Order
second_head = record second_order { val = record second_order.val { previous_order = none } }

abbrev level_left : Account PriceLevel
level_left = record level {
  val = record level.val {
    first_order = some (order_key 2);
    order_count = 1;
    total_remaining_quantity = 20;
  };
}

abbrev whole : Matched
whole = record {
  market = record market { val = record market.val { open_order_count = 1 } };
  market_fees = record fees { val = record fees.val { accrued_quote_fees = 10 } };
  maker_order = record first_order {
    val = record first_order.val {
      remaining_quantity = 0;
      locked_collateral = 0;
      previous_order = none;
      next_order = none;
      status = filled;
    };
  };
  maker_price_level = some level_left;
  next_order = some second_head;
  worse_level = none;
  maker_balance = ledger 21 0 0 200 0;
  taker_balance = ledger 22 40 0 798 0;
}

whole_is : handle_match_limit_order hashing bid 505 100 (taking (some second_order)) ≡ ok whole
unfolding handle_match_limit_order check_accounts check_market_accounts check_maker_accounts
    check_positive check_grid next_values count_after calculate_settlement prices_cross
    calculate_fill quote_notional maker_debit checked_pow_u128 checked_mul_u128 checked_add_u128
    checked_div try_from_u64 calculate_taker_fee rounded_up_fee checked_add checked_sub
    check_transition check_filled check_successor settle_balances match_writes order_after
    level_after market_after best_of
whole_is = refl

match_conserves_example :
    (base_total part.taker_balance.val + base_total part.maker_balance.val ≡ 40)
    × (quote_total part.taker_balance.val + quote_total part.maker_balance.val + 10 ≡ 1_008)
match_conserves_example = match_conserves hashing bid 505 30 (taking none) part part_is

match-Exchanges_example :
    (0 < 40 - 10)
    × (40 - 10 ≤ 30)
    × WithinLimit bid (notional 505 30 2) (notional 500 30 2)
    × Exchanges bid 30
        (notional 500 30 2)
        (ceiling_fee (notional 500 30 2) 90)
        (ledger 22 0 0 1_000 0).val
        part.taker_balance.val
match-Exchanges_example = match-Exchanges hashing bid 505 30 (taking none) part part_is

match_keeps_backing_example : (10 + 40 ≡ 40 + 10) × IsFundedOrder part.maker_order.val 2
unfolding locked_for
match_keeps_backing_example = match_keeps_backing hashing bid 505 30 (taking none) part part_is refl

match_keeps_IsQueue_example :
    (l : Account PriceLevel) × ((part.maker_price_level ≡ some l)
      × IsQueue (matched_store part orders) l (order_key 1 ∷ order_key 2 ∷ []))
unfolding put
match_keeps_IsQueue_example =
    match_keeps_IsQueue hashing bid 505 30 (taking none) part orders
      (order_key 1 ∷ order_key 2 ∷ []) part_is level-IsQueue refl refl

match-Completed_example :
    Completed (taking (some second_order)) whole
    × (((x : Account Order) × ((l : Account PriceLevel) × Promoted
              (taking (some second_order))
              whole
              x
              l))
        ⊎ Removed (taking (some second_order)) whole)
match-Completed_example =
    match-Completed hashing bid 505 100 (taking (some second_order)) whole whole_is refl

second_stored : (x : Account Order) → some second_order ≡ some x → orders x.key ≡ some x.val
unfolding put
second_stored x e = let s : second_order ≡ x = ground arith in rw (← s) refl

match_dequeues_example :
    (rest : List ℕ) × (((order_key 1 ∷ order_key 2 ∷ []) ≡ order_key 1 ∷ rest)
      × (((l : Account PriceLevel) × ((whole.maker_price_level ≡ some l)
              × IsQueue (matched_store whole orders) l rest))
          ⊎ ((whole.maker_price_level ≡ none) × (rest ≡ []))))
unfolding put
match_dequeues_example =
    match_dequeues hashing bid 505 100 (taking (some second_order)) whole orders
      (order_key 1 ∷ order_key 2 ∷ []) whole_is level-IsQueue refl second_stored refl
