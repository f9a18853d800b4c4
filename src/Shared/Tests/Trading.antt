-- ===== src/Shared/Tests/Trading.antt =====
-- A seller meets the oldest bid, whose rest then has nothing locked
-- (programs/tidebook/src/instructions/shared_match.rs).
use tidebook.Base.{
  ◌+◌, ◌≡◌, refl, sym, List, [], ◌∷◌, none, some, false, ◌⊎◌, inl, inr, ok, is_ok, arith,
}
use tidebook.Base.Word.{
  checked_add, checked_sub, checked_pow_u128, checked_mul_u128, checked_add_u128, checked_div,
  try_from_u64,
}
use tidebook.Base.Int.{pos}
use tidebook.Sample.{hashing}
use tidebook.State.{
  Pubkey, Account, ask, open_, filled, SharedOutcome, SharedOrder, SharedPriceLevel, slot_group,
  slot, best_at,
}
use tidebook.Fees.{calculate_taker_fee, rounded_up_fee}
use tidebook.Matching.{
  prices_cross, quote_notional, calculate_fill, maker_debit, calculate_settlement,
}
use tidebook.Spot.Queue.{Store, put}
use tidebook.Shared.Rules.{
  spot_info, spot_terms, terms_of_kind, terms, trading_open, quote_amount, check_units, order_terms,
  check_asset, check_spot_claims, check_trader,
}
use tidebook.Shared.Links.{base_buckets, write_base_buckets, check_level, minimum, check_order}
use tidebook.Shared.Claims.{cash, held}
use tidebook.Shared.Queue.{IsSharedQueue}
use tidebook.Shared.Remove.Unlink.{removed_store}
use tidebook.Shared.Cancel.{CancelSharedOrder, handle_cancel_shared_order}
use tidebook.Shared.Match
use tidebook.Shared.Match.{
  MatchSharedOrder, check_maker, next_values, check_hints, settle_buckets, settle_claims,
}
use tidebook.Shared.Match.Handler as MatchHandler
use tidebook.Shared.Match.Handler.{Matched, update_queue, handle_match_shared_order}
use tidebook.Shared.Match.Conservation.{match_shared_conserves}
use tidebook.Shared.Match.Dequeue.{match_shared_serves}
use tidebook.Shared.Dust.{unlocked_order_is_stuck}
use tidebook.Shared.Tests.Data.{
  market, config, book, order_key, claims_of, first, second, level, orders, level-IsQueue,
}

-- The trader 23 sells ten atoms at 1 to the first bid, whose lock of one atom they take, while five
-- atoms of it are left.
abbrev selling : MatchSharedOrder
selling = record {
  taker = 23;
  market = spot_info market;
  book = book;
  protocol_config = config;
  maker_order = first;
  price_level = level;
  maker_claims = claims_of 21 0 5 1;
  taker_claims = claims_of 23 50 100 0;
  next_order = none;
  worse_level = none;
  level_rent_recipient = none;
}

abbrev rest : Account SharedOrder
rest = record first { val = record first.val { remaining_quantity = 5; locked_collateral = 0 } }

abbrev sold : Matched
sold = record {
  queue = record {
    book = record book { val = record book.val { accrued_quote_fees = 9 } };
    current = some (record level { val = record level.val { total_remaining_quantity = 25 } });
    previous = none;
    next = none;
    better = none;
    worse = none;
  };
  maker_order = rest;
  maker_claims = claims_of 21 10 5 0;
  taker_claims = claims_of 23 40 100 0;
}

sold_is : handle_match_shared_order hashing (pos 5) SharedOutcome.spot_ ask 1 10 selling ≡ ok sold
unfolding handle_match_shared_order Match.check_accounts trading_open terms terms_of_kind spot_terms
    order_terms check_units slot slot_group quote_amount checked_pow_u128 checked_mul_u128
    checked_add_u128 checked_div try_from_u64 check_maker check_order minimum check_level best_at
    check_trader check_asset check_spot_claims next_values calculate_settlement prices_cross
    calculate_fill quote_notional maker_debit calculate_taker_fee rounded_up_fee checked_add
    checked_sub check_hints settle_claims base_buckets settle_buckets write_base_buckets
    update_queue MatchHandler.order_after
sold_is = refl

match_shared_conserves_example :
    (cash sold.maker_claims + cash sold.taker_claims + 9
      ≡ cash (claims_of 21 0 5 1) + cash (claims_of 23 50 100 0) + 8)
    × ((a : SharedOutcome)
        → held a sold.maker_claims + held a sold.taker_claims
          ≡ held a (claims_of 21 0 5 1) + held a (claims_of 23 50 100 0))
match_shared_conserves_example =
    match_shared_conserves hashing (pos 5) SharedOutcome.spot_ ask 1 10 selling sold sold_is

match_shared_serves_example :
    (after : List Pubkey) × ((order_key 1 ∷ order_key 2 ∷ [] ≡ order_key 1 ∷ after)
      × (((rest.val.status ≡ open_)
            × ((l : Account SharedPriceLevel) × ((sold.queue.current ≡ some l)
                  × IsSharedQueue
                      (removed_store sold.queue (order_key 1) rest.val orders)
                      l
                      (order_key 1 ∷ order_key 2 ∷ []))))
          ⊎ ((rest.val.status ≡ filled)
              × (((l : Account SharedPriceLevel) × ((sold.queue.current ≡ some l)
                      × IsSharedQueue
                          (removed_store sold.queue (order_key 1) rest.val orders)
                          l
                          after))
                  ⊎ ((sold.queue.current ≡ none) × (after ≡ []))))))
unfolding put
match_shared_serves_example =
    match_shared_serves hashing (pos 5) SharedOutcome.spot_ ask 1 10 selling sold orders
      (order_key 1 ∷ order_key 2 ∷ []) sold_is level-IsQueue refl (λ x e. absurd (ground arith))

-- What is left of the first bid blocks the level: the bid behind it can neither be matched nor
-- canceled.
abbrev blocked : CancelSharedOrder
blocked = record {
  owner = 22;
  book = sold.queue.book;
  claims = claims_of 22 0 0 2;
  order = second;
  price_level = record level { val = record level.val { total_remaining_quantity = 25 } };
  previous_order = some rest;
  next_order = none;
  better_level = none;
  worse_level = none;
  level_rent_recipient = none;
}

abbrev meeting : MatchSharedOrder
meeting = record selling { book = sold.queue.book; maker_order = rest; next_order = some second }

abbrev traded : Store SharedOrder
traded = put (order_key 1) rest.val orders

unlocked_order_is_stuck_example :
    (is_ok (handle_cancel_shared_order hashing blocked) ≡ false)
    × (is_ok (handle_match_shared_order hashing (pos 6) SharedOutcome.spot_ ask 1 5 meeting)
        ≡ false)
unfolding put
unlocked_order_is_stuck_example =
    unlocked_order_is_stuck hashing (pos 6) SharedOutcome.spot_ ask 1 5 traded (order_key 1)
      rest.val blocked meeting refl refl refl
      (λ a e. let same : rest ≡ a = ground arith in rw (sym same) refl)
      (λ a e. absurd (ground arith)) (inr (inl refl)) refl refl
