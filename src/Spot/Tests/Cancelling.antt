-- ===== src/Spot/Tests/Cancelling.antt =====
-- The older of two sellers leaves the level
-- (programs/tidebook/src/instructions/cancel_limit_order.rs).
use tidebook.Base.{[], ◌∷◌, ◌⊎◌, ◌+◌, arith, ◌≡◌, refl, none, some, ok}
use tidebook.Base.Word.{checked_add, checked_sub}
use tidebook.Sample.{hashing}
use tidebook.State.{Account, Market, paused, ask, canceled}
use tidebook.Spot.Cancel.{
  CancelLimitOrder, check_accounts, check_previous, check_next, check_queue, release_balance,
  next_counters, check_levels, check_better,
}
use tidebook.Spot.Match.Steps.{check_worse}
use tidebook.Spot.Cancel.Handler.{
  Canceled, level_after, market_after, cancel_writes, handle_cancel_limit_order,
}
use tidebook.Spot.Cancel.Effects.{Releases, cancel_refunds, cancel_any_status}
use tidebook.State.{PriceLevel}
use tidebook.Spot.Queue.{put, mem, IsQueue}
use tidebook.Spot.Cancel.Remove.{remove}
use tidebook.Spot.Cancel.Unlink.{canceled_store, cancel_unlinks}
use tidebook.Spot.Tests.Data.{
  orders, level-IsQueue, market, level, order_key, first_order, second_order, ledger,
}

abbrev leaving : CancelLimitOrder
leaving = record {
  owner = 21;
  market = market;
  order = first_order;
  price_level = level;
  previous_order = none;
  next_order = some second_order;
  better_level = none;
  worse_level = none;
  level_rent_recipient = none;
  trader_balance = ledger 21 5 40 0 0;
}

abbrev left : Canceled
left = record {
  market = record market { val = record market.val { open_order_count = 1 } };
  order = record first_order {
    val = record first_order.val {
      remaining_quantity = 0;
      locked_collateral = 0;
      previous_order = none;
      next_order = none;
      status = canceled;
    };
  };
  price_level = some (record level {
    val = record level.val {
      first_order = some (order_key 2);
      total_remaining_quantity = 20;
      order_count = 1;
    };
  });
  previous_order = none;
  next_order =
      some (record second_order { val = record second_order.val { previous_order = none } });
  better_level = none;
  worse_level = none;
  trader_balance = ledger 21 45 0 0 0;
}

left_is : handle_cancel_limit_order hashing 1 leaving ≡ ok left
unfolding handle_cancel_limit_order check_accounts check_queue check_previous check_next
    release_balance checked_add checked_sub next_counters check_levels check_better check_worse
    cancel_writes level_after market_after
left_is = refl

cancel_refunds_example :
    Releases ask 40 (ledger 21 5 40 0 0).val (ledger 21 45 0 0 0).val
    × (left.order.val.status ≡ canceled)
    × (left.order.val.locked_collateral ≡ 0)
    × (left.order.val.remaining_quantity ≡ 0)
    × (left.order.val.previous_order ≡ none)
    × (left.order.val.next_order ≡ none)
    × (left.market.val.open_order_count + 1 ≡ 2)
cancel_refunds_example = cancel_refunds hashing 1 leaving left left_is

abbrev pausing : Account Market → Account Market
pausing m = record m { val = record m.val { status = paused } }

cancel_any_status_example :
    handle_cancel_limit_order hashing 1 (record leaving { market = pausing market })
    ≡ ok (record left { market = pausing left.market })
cancel_any_status_example = cancel_any_status hashing 1 leaving left paused left_is

cancel_unlinks_example :
    ((after : Account PriceLevel) × ((left.price_level ≡ some after)
        × IsQueue (canceled_store left orders) after (order_key 2 ∷ [])))
    ⊎ ((left.price_level ≡ none) × ((order_key 2 ∷ []) ≡ []))
unfolding remove mem put
cancel_unlinks_example =
    cancel_unlinks hashing 1 leaving left orders (order_key 1 ∷ order_key 2 ∷ []) left_is
      level-IsQueue refl refl (λ p e. absurd (ground arith)) (λ a e. ground arith)
