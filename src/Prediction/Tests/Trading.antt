-- ===== src/Prediction/Tests/Trading.antt =====
-- A buyer of YES meets the two asks at 450, and the older seller takes its order back
-- (programs/tidebook/src/instructions/match_prediction_order.rs, cancel_prediction_order.rs).
use tidebook.Base.{ℕ, ◌+◌, ◌<◌, ◌≡◌, refl, List, [], ◌∷◌, none, some, true, ok, ◌⊎◌, arith}
use tidebook.Base.Word.{
  checked_add, checked_sub, checked_mul, checked_mul_u128, checked_add_u128, checked_div,
  try_from_u64,
}
use tidebook.Base.Int.{pos}
use tidebook.Sample.{address, hashing}
use tidebook.State.{
  Account, ProtocolConfig, MarketFees, protocol_config_seed, market_fees_seed, key_seed, bid, ask,
  open_, filled, canceled, PredictionOutcome, PredictionOrder, PredictionPriceLevel, best_price,
}
use tidebook.Fees.{calculate_taker_fee, rounded_up_fee}
use tidebook.Spot.Queue.{put, mem}
use tidebook.Spot.Cancel.Remove.{remove}
use tidebook.Prediction.Orders.{write_bucket}
use tidebook.Prediction.Orders.Funds.{locked_of}
use tidebook.Prediction.Book.View.{IsPredictionQueue}
use tidebook.Prediction.Book.Backing.{IsExact}
use tidebook.Prediction.Match
use tidebook.Prediction.Match.{
  MatchPredictionOrder, check_market_accounts, check_maker_accounts, check_request, crosses,
  check_maker, check_accounting, backing, expected_backing,
}
use tidebook.Prediction.Match.Steps.{
  next_values, check_successor, check_next, check_levels, next_count, settle_positions,
}
use tidebook.Prediction.Match.Handler.{
  Matched, order_after, level_after, match_writes, handle_match_prediction_order,
}
use tidebook.Prediction.Match.Settlement.{
  cash, contracts, Exchanged, match_prediction_conserves, match_prediction-Exchanged,
  match_prediction_keeps_backing,
}
use tidebook.Prediction.Match.Dequeue.{matched_store, match_prediction_serves}
use tidebook.Prediction.Cancel
use tidebook.Prediction.Cancel.{
  CancelPredictionOrder, expected_lock, check_order, check_links, validate_fifo_neighbor,
  check_best, next_counters, check_stays, refund_bucket, release_position,
}
use tidebook.Prediction.Cancel.Handler as CancelHandler
use tidebook.Prediction.Cancel.Handler.{Canceled, cancel_writes, handle_cancel_prediction_order}
use tidebook.Prediction.Cancel.Parts.{Releases}
use tidebook.Prediction.Cancel.Unlink.{canceled_store, cancel_prediction_unlinks}
use tidebook.Prediction.Tests.Data.{market, position}
use tidebook.Prediction.Tests.Book.{
  root, order_key, position_of, first, second, level, orders, level-IsQueue,
}

abbrev config : Account ProtocolConfig
config = record {
  key = address (protocol_config_seed ∷ []);
  val = record { super_admin = 10; taker_fee_bps = 90; bump = 255 };
}

abbrev fees : ℕ → Account MarketFees
fees accrued = record {
  key = address (market_fees_seed ∷ key_seed market.key ∷ []);
  val = record { market = market.key; quote_mint = 12; accrued_quote_fees = accrued; bump = 255 };
}

-- The trader 22 asks for five YES and gets the three of the first seller, for 1,350 and a fee of 13.
abbrev buying : MatchPredictionOrder
buying = record {
  taker = 22;
  market = market;
  order_book = root;
  protocol_config = config;
  market_fees = fees 8;
  maker_order = first;
  price_level = level;
  maker_position = position_of 24 100 0 3;
  taker_position = position;
  next_order = some second;
  worse_level = none;
  level_rent_recipient = none;
}

abbrev level_left : Account PredictionPriceLevel
level_left = record level {
  val = record level.val {
    first_order = some (order_key 5);
    total_remaining_quantity = 2;
    order_count = 1;
  };
}

abbrev second_head : Account PredictionOrder
second_head = record second { val = record second.val { previous_order = none } }

abbrev bought : Matched
bought = record {
  market = record market { val = record market.val { open_order_count = 3 } };
  order_book = root;
  market_fees = fees 21;
  maker_order = record first {
    val = record first.val {
      remaining_quantity = 0;
      locked_collateral = 0;
      previous_order = none;
      next_order = none;
      status = filled;
    };
  };
  price_level = some level_left;
  maker_position = position_of 24 1_450 0 0;
  taker_position = record position {
    val = record position.val { collateral_free = 3_637; yes_free = 5 };
  };
  next_order = some second_head;
  worse_level = none;
}

bought_is :
    handle_match_prediction_order hashing (pos 99) PredictionOutcome.yes_ bid 460 5 buying
    ≡ ok bought
unfolding handle_match_prediction_order Match.check_accounts check_market_accounts
    check_maker_accounts check_request check_maker check_accounting expected_backing backing
    next_values calculate_taker_fee rounded_up_fee checked_mul_u128 checked_add_u128 checked_div
    try_from_u64 checked_add checked_sub checked_mul check_next check_successor check_levels
    next_count settle_positions match_writes order_after level_after best_price
bought_is = refl

match_prediction_conserves_example :
    let t = position.val in
    let m = (position_of 24 100 0 3).val in
    let t' = bought.taker_position.val in
    let m' = bought.maker_position.val in
    (cash t' + cash m' + 21 ≡ cash t + cash m + 8)
    × (contracts PredictionOutcome.yes_ t' + contracts PredictionOutcome.yes_ m'
        ≡ contracts PredictionOutcome.yes_ t + contracts PredictionOutcome.yes_ m)
    × (contracts PredictionOutcome.no_ t' + contracts PredictionOutcome.no_ m'
        ≡ contracts PredictionOutcome.no_ t + contracts PredictionOutcome.no_ m)
    × (bought.market.val.yes_supply ≡ 3)
    × (bought.market.val.no_supply ≡ 3)
    × (bought.market.val.backing_reserve ≡ 3_000)
match_prediction_conserves_example =
    match_prediction_conserves hashing (pos 99) PredictionOutcome.yes_ bid 460 5 buying bought
      bought_is

match_prediction-Exchanged_example :
    (fee : ℕ) × ((calculate_taker_fee 1_350 90 ≡ ok fee)
      × (bought.market_fees.val.accrued_quote_fees ≡ 8 + fee)
      × (0 < 3)
      × (crosses bid 460 450 ≡ true)
      × (bought.maker_order.val.remaining_quantity + 3 ≡ 3)
      × Exchanged bid PredictionOutcome.yes_ 3 1_350 fee position.val bought.taker_position.val
          (position_of 24 100 0 3).val
          bought.maker_position.val)
match_prediction-Exchanged_example =
    match_prediction-Exchanged hashing (pos 99) PredictionOutcome.yes_ bid 460 5 buying bought
      bought_is

match_prediction_keeps_backing_example :
    IsExact bought.maker_order.val
    × (locked_of bought.maker_position.val PredictionOutcome.yes_ ask + 3
        ≡ 3 + bought.maker_order.val.locked_collateral)
match_prediction_keeps_backing_example =
    match_prediction_keeps_backing hashing (pos 99) PredictionOutcome.yes_ bid 460 5 buying bought
      bought_is

match_prediction_serves_example :
    (rest : List ℕ) × ((order_key 3 ∷ order_key 5 ∷ [] ≡ order_key 3 ∷ rest)
      × (((bought.maker_order.val.status ≡ open_)
            × ((l : Account PredictionPriceLevel) × ((bought.price_level ≡ some l)
                  × IsPredictionQueue
                      (matched_store bought orders)
                      l
                      (order_key 3 ∷ order_key 5 ∷ []))))
          ⊎ ((bought.maker_order.val.status ≡ filled)
              × (((l : Account PredictionPriceLevel) × ((bought.price_level ≡ some l)
                      × IsPredictionQueue (matched_store bought orders) l rest))
                  ⊎ ((bought.price_level ≡ none) × (rest ≡ []))))))
unfolding put
match_prediction_serves_example =
    match_prediction_serves hashing (pos 99) PredictionOutcome.yes_ bid 460 5 buying bought orders
      (order_key 3 ∷ order_key 5 ∷ []) bought_is level-IsQueue refl
      (λ x e. let s : second ≡ x = ground arith in rw (← s) refl)

-- The first seller takes its order back instead.
abbrev leaving : CancelPredictionOrder
leaving = record {
  owner = 24;
  market = market;
  position = position_of 24 100 0 3;
  order_book = root;
  order = first;
  price_level = level;
  previous_order = none;
  next_order = some second;
  better_level = none;
  worse_level = none;
  level_rent_recipient = none;
}

abbrev left : Canceled
left = record {
  market = record market { val = record market.val { open_order_count = 3 } };
  position = position_of 24 100 3 0;
  order_book = root;
  order = record first {
    val = record first.val {
      remaining_quantity = 0;
      locked_collateral = 0;
      previous_order = none;
      next_order = none;
      status = canceled;
    };
  };
  price_level = some level_left;
  previous_order = none;
  next_order = some second_head;
  better_level = none;
  worse_level = none;
}

left_is : handle_cancel_prediction_order hashing 3 leaving ≡ ok left
unfolding handle_cancel_prediction_order Cancel.check_accounts check_order expected_lock check_links
    validate_fifo_neighbor check_best best_price next_counters Cancel.check_levels check_stays
    refund_bucket release_position write_bucket cancel_writes CancelHandler.level_after
    CancelHandler.book_after checked_add checked_sub checked_mul
left_is = refl

cancel_prediction_unlinks_example :
    (((l : Account PredictionPriceLevel) × ((left.price_level ≡ some l)
          × IsPredictionQueue (canceled_store left orders) l (order_key 5 ∷ [])))
      ⊎ ((left.price_level ≡ none) × (order_key 5 ∷ [] ≡ [])))
    × IsExact first.val
    × Releases PredictionOutcome.yes_ ask 3 (position_of 24 100 0 3).val left.position.val
unfolding put remove mem
cancel_prediction_unlinks_example =
    cancel_prediction_unlinks hashing 3 leaving left orders (order_key 3 ∷ order_key 5 ∷ []) left_is
      level-IsQueue refl refl (λ p e. absurd (ground arith))
      (λ a e. let s : second ≡ a = ground arith in rw (← s) refl)
