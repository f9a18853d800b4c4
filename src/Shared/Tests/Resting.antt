-- ===== src/Shared/Tests/Resting.antt =====
-- A third bid joins, and the owner of the first one takes it back
-- (programs/tidebook/src/instructions/shared_orders.rs).
use tidebook.Base.{◌≡◌, refl, [], ◌∷◌, none, some, false, ◌⊎◌, ok, arith}
use tidebook.Base.Word.{checked_add, checked_sub, checked_pow_u128, checked_mul_u128, try_from_u64}
use tidebook.Base.Int.{pos}
use tidebook.Sample.{hashing}
use tidebook.State.{Account, bid, SharedOutcome, SharedPriceLevel, slot_group, slot, best_at}
use tidebook.Matching.Funding.{IsFunded}
use tidebook.Spot.Queue.{put, mem}
use tidebook.Spot.Cancel.Remove.{remove}
use tidebook.Shared.Rules.{
  spot_info, spot_terms, terms_of_kind, terms, trading_open, quote_amount, check_units, order_terms,
  check_asset, check_spot_claims, check_trader,
}
use tidebook.Shared.Links.{
  side_buckets, write_side_buckets, lock, check_level, minimum, check_order,
}
use tidebook.Shared.Locks.{Locks}
use tidebook.Shared.Queue.{IsSharedQueue}
use tidebook.Shared.Remove.{
  check_place, check_best, check_links, check_neighbor, next_counters, check_stays, check_levels,
  level_after, book_after, removal_writes, remove_order,
}
use tidebook.Shared.Remove.Unlink.{removed_store}
use tidebook.Shared.Place
use tidebook.Shared.Place.{
  PlaceSharedOrder, Placed, check_joined, check_tail, join_level, find_place,
}
use tidebook.Shared.Place.Handler as PlaceHandler
use tidebook.Shared.Place.Handler.{lock_claims, place_writes, handle_place_shared_order}
use tidebook.Shared.Place.Enqueue.{placed_store, place_shared_enqueues}
use tidebook.Shared.Cancel
use tidebook.Shared.Cancel.{
  CancelSharedOrder, Canceled, order_after, release, handle_cancel_shared_order,
}
use tidebook.Shared.Cancel.Unlink.{cancel_shared_unlinks}
use tidebook.Shared.Tests.Data.{
  market, book, order_key, claims_of, first, second, level, orders, level-IsQueue,
}

-- The trader 23 bids for thirty atoms at 1, which lock three.
abbrev joining : PlaceSharedOrder
joining = record {
  owner = 23;
  market = spot_info market;
  book = book;
  claims = claims_of 23 50 100 0;
  order = record { key = order_key 3; in_use = false };
  price_level = level;
  tail = some second;
  better_level = none;
  worse_level = none;
}

abbrev joined : Placed
joined = record {
  book = record book { val = record book.val { next_order_id = 4; open_order_count = 3 } };
  claims = claims_of 23 50 97 3;
  order = record {
    key = order_key 3;
    val = record second.val {
      owner = 23;
      order_id = 3;
      previous_order = some (order_key 2);
      quantity = 30;
      remaining_quantity = 30;
      locked_collateral = 3;
    };
  };
  price_level = record level {
    val = record level.val {
      last_order = some (order_key 3);
      order_count = 3;
      total_remaining_quantity = 65;
    };
  };
  tail = some (record second { val = record second.val { next_order = some (order_key 3) } });
  better_level = none;
  worse_level = none;
}

joined_is :
    handle_place_shared_order hashing (pos 5) SharedOutcome.spot_ bid 1 30 3 joining ≡ ok joined
unfolding handle_place_shared_order Place.check_accounts trading_open terms terms_of_kind spot_terms
    check_trader check_asset check_spot_claims order_terms check_units slot slot_group quote_amount
    checked_pow_u128 checked_mul_u128 try_from_u64 best_at checked_add checked_sub find_place
    join_level check_joined check_tail check_level check_order minimum lock_claims side_buckets lock
    write_side_buckets place_writes PlaceHandler.level_after PlaceHandler.book_after
joined_is = refl

place_shared_enqueues_example :
    IsSharedQueue
      (placed_store joined orders)
      joined.price_level
      (order_key 1 ∷ order_key 2 ∷ order_key 3 ∷ [])
    × IsFunded bid 1 30 3 1
    × Locks book.val.kind SharedOutcome.spot_ bid 3 (claims_of 23 50 100 0) (claims_of 23 50 97 3)
unfolding put
place_shared_enqueues_example =
    place_shared_enqueues hashing (pos 5) SharedOutcome.spot_ bid 1 30 3 joining joined orders
      (order_key 1 ∷ order_key 2 ∷ []) joined_is (λ e. absurd (ground arith)) (λ e. level-IsQueue)
      (λ t e. ground arith) refl

-- The owner of the first bid takes it back.
abbrev leaving : CancelSharedOrder
leaving = record {
  owner = 21;
  book = book;
  claims = claims_of 21 0 5 1;
  order = first;
  price_level = level;
  previous_order = none;
  next_order = some second;
  better_level = none;
  worse_level = none;
  level_rent_recipient = none;
}

abbrev left : Canceled
left = record {
  removed = record {
    book = record book { val = record book.val { open_order_count = 1 } };
    current = some (record level {
      val = record level.val {
        first_order = some (order_key 2);
        order_count = 1;
        total_remaining_quantity = 20;
      };
    });
    previous = none;
    next = some (record second { val = record second.val { previous_order = none } });
    better = none;
    worse = none;
  };
  claims = claims_of 21 0 6 0;
  order = record first { val = order_after first.val };
}

left_is : handle_cancel_shared_order hashing leaving ≡ ok left
unfolding handle_cancel_shared_order Cancel.check_accounts check_trader check_asset
    check_spot_claims check_order slot slot_group minimum quote_amount checked_pow_u128
    checked_mul_u128 try_from_u64 side_buckets release checked_add checked_sub remove_order
    check_place check_level check_best best_at check_links check_neighbor next_counters check_levels
    check_stays removal_writes level_after book_after write_side_buckets
left_is = refl

cancel_shared_unlinks_example :
    (((l : Account SharedPriceLevel) × ((left.removed.current ≡ some l)
          × IsSharedQueue
              (removed_store left.removed (order_key 1) left.order.val orders)
              l
              (order_key 2 ∷ [])))
      ⊎ ((left.removed.current ≡ none) × (order_key 2 ∷ [] ≡ [])))
    × Locks book.val.kind SharedOutcome.spot_ bid 1 (claims_of 21 0 6 0) (claims_of 21 0 5 1)
unfolding put mem remove
cancel_shared_unlinks_example =
    cancel_shared_unlinks hashing leaving left orders (order_key 1 ∷ order_key 2 ∷ []) left_is
      level-IsQueue refl refl (λ p e. absurd (ground arith)) (λ a e. ground arith)
