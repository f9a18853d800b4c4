-- ===== src/Prediction/Tests/Resting.antt =====
-- Orders that come to rest in a prediction book
-- (programs/tidebook/src/instructions/append_prediction_order.rs, insert_ and place_).
use tidebook.Base.{ℕ, ◌≡◌, refl, List, [], ◌∷◌, none, some, false, ok, arith}
use tidebook.Base.Word.{checked_add, checked_sub, checked_mul}
use tidebook.Base.Int.{pos}
use tidebook.Sample.{address, hashing}
use tidebook.State.{
  Account, bid, ask, PredictionOutcome, PredictionPriceLevel, best_price, set_best_price,
}
use tidebook.Spot.Queue.{Store, put}
use tidebook.Spot.Ladder.{insert_price, IsChain}
use tidebook.Prediction.Orders.{
  reject_crossing, validate_resting_order, funding_bucket, write_bucket, lock_resting_funds,
}
use tidebook.Prediction.Book.{level_seeds, new_order, new_level}
use tidebook.Prediction.Book.View.{IsPredictionQueue}
use tidebook.Prediction.Book.Backing.{Reserves}
use tidebook.Prediction.Append
use tidebook.Prediction.Append.{
  AppendPredictionOrder, Appended, check_level, check_tail, check_ends,
  handle_append_prediction_order,
}
use tidebook.Prediction.Append.Enqueue.{append_prediction_enqueues}
use tidebook.Prediction.Insert
use tidebook.Prediction.Insert.{
  InsertPredictionOrder, Inserted, validate_neighbor, valid_place, book_after, insert_writes,
  handle_insert_prediction_order,
}
use tidebook.Prediction.Insert.Ladder.{IsPredictionLadder, inserted_levels}
use tidebook.Prediction.Insert.Refinement.{insert_prediction_extends}
use tidebook.Prediction.Place
use tidebook.Prediction.Place.{
  PlacePredictionOrder, Placed, place_writes, handle_place_prediction_order,
}
use tidebook.Prediction.Place.Opening.{place_opens_side}
use tidebook.Prediction.Tests.Data.{market, position}
use tidebook.Prediction.Tests.Book.{
  root, level_key, order_key, second, level, orders, levels, level-IsQueue, levels-IsLadder,
}

-- The trader 22 offers two YES at 450, behind the two asks.
abbrev joining : AppendPredictionOrder
joining = record {
  owner = 22;
  market = market;
  position = position;
  order_book = root;
  price_level = level;
  tail_order = second;
  order = record { key = order_key 9; in_use = false };
}

abbrev joined : Appended
joined = record {
  market = record market { val = record market.val { open_order_count = 5 } };
  position = record position { val = record position.val { yes_free = 0; yes_locked = 3 } };
  order_book = record root { val = record root.val { next_order_id = 10 } };
  price_level = record level {
    val = record level.val {
      last_order = some (order_key 9);
      total_remaining_quantity = 7;
      order_count = 3;
    };
  };
  tail_order = record second { val = record second.val { next_order = some (order_key 9) } };
  order = record {
    key = order_key 9;
    val =
        new_order 22 market.key 9 PredictionOutcome.yes_ ask 450 (level_key 450)
          (some (order_key 5)) 2 2 255;
  };
}

joined_is :
    handle_append_prediction_order hashing (pos 99) 9 PredictionOutcome.yes_ ask 450 2 joining
    ≡ ok joined
unfolding handle_append_prediction_order Append.check_accounts check_level check_tail check_ends
    validate_resting_order reject_crossing lock_resting_funds funding_bucket write_bucket best_price
    checked_add checked_sub
joined_is = refl

append_prediction_enqueues_example :
    IsPredictionQueue
      (put (order_key 9) joined.order.val (put (order_key 5) joined.tail_order.val orders))
      joined.price_level
      (order_key 3 ∷ order_key 5 ∷ order_key 9 ∷ [])
    × Reserves joined.order.val position.val joined.position.val
unfolding put
append_prediction_enqueues_example =
    append_prediction_enqueues hashing (pos 99) 9 PredictionOutcome.yes_ ask 450 2 joining joined
      orders (order_key 3 ∷ order_key 5 ∷ []) joined_is level-IsQueue refl refl

-- The same trader offers them at 460, behind the level at 450.
abbrev opening : InsertPredictionOrder
opening = record {
  owner = 22;
  market = market;
  position = position;
  order_book = root;
  price_level = record { key = level_key 460; in_use = false };
  order = record { key = order_key 9; in_use = false };
  better_level = some level;
  worse_level = none;
}

abbrev opened : Inserted
opened = record {
  market = joined.market;
  position = joined.position;
  order_book = joined.order_book;
  price_level = record {
    key = level_key 460;
    val =
        new_level market.key PredictionOutcome.yes_ ask 460 (some 450) none (order_key 9) 2 22 255;
  };
  order = record {
    key = order_key 9;
    val = new_order 22 market.key 9 PredictionOutcome.yes_ ask 460 (level_key 460) none 2 2 255;
  };
  better_level = some (record level { val = record level.val { worse_price = some 460 } });
  worse_level = none;
}

opened_is :
    handle_insert_prediction_order hashing (pos 99) 9 PredictionOutcome.yes_ ask 460 2 opening
    ≡ ok opened
unfolding handle_insert_prediction_order Insert.check_accounts validate_neighbor valid_place
    validate_resting_order reject_crossing lock_resting_funds funding_bucket write_bucket best_price
    insert_writes book_after checked_add checked_sub
opened_is = refl

level_stored :
    (b : Account PredictionPriceLevel) → some level ≡ some b → levels b.val.price ≡ some b.val
unfolding put
level_stored b e = let s : level ≡ b = ground arith in rw (← s) refl

insert_prediction_extends_example :
    IsPredictionLadder ask (inserted_levels opened levels) (some 450) (450 ∷ 460 ∷ [])
    × IsPredictionQueue
        (put (order_key 9) opened.order.val orders)
        opened.price_level
        (order_key 9 ∷ [])
    × Reserves opened.order.val position.val opened.position.val
unfolding insert_price best_price
insert_prediction_extends_example =
    insert_prediction_extends hashing (pos 99) 9 PredictionOutcome.yes_ ask 460 2 opening opened
      levels orders (450 ∷ []) opened_is levels-IsLadder level_stored (λ w e. absurd (ground arith))

-- A bid of three NO at 500 is the first of its side.
abbrev no_level : ℕ
no_level = address (level_seeds market.key PredictionOutcome.no_ bid 500)

abbrev starting : PlacePredictionOrder
starting = record {
  owner = 22;
  market = market;
  position = position;
  order_book = root;
  price_level = record { key = no_level; in_use = false };
  order = record { key = order_key 9; in_use = false };
}

abbrev started : Placed
started = record {
  market = joined.market;
  position = record position {
    val = record position.val { collateral_free = 3_500; collateral_locked = 2_200 };
  };
  order_book = record root { val = record root.val { next_order_id = 10; no_best_bid = some 500 } };
  price_level = record {
    key = no_level;
    val = new_level market.key PredictionOutcome.no_ bid 500 none none (order_key 9) 3 22 255;
  };
  order = record {
    key = order_key 9;
    val = new_order 22 market.key 9 PredictionOutcome.no_ bid 500 no_level none 3 1_500 255;
  };
}

started_is :
    handle_place_prediction_order hashing (pos 99) 9 PredictionOutcome.no_ bid 500 3 starting
    ≡ ok started
unfolding handle_place_prediction_order Place.check_accounts validate_resting_order reject_crossing
    lock_resting_funds funding_bucket write_bucket best_price set_best_price place_writes
    checked_add checked_sub checked_mul
started_is = refl

no_levels : Store PredictionPriceLevel
no_levels _ = none

no_levels-IsLadder : IsPredictionLadder bid no_levels none []
unfolding IsChain no_levels
no_levels-IsLadder = record { chain = refl; complete = λ q l e. absurd (ground arith) }

place_opens_side_example :
    (◌≡◌ {A = List ℕ} [] [])
    × IsPredictionLadder bid (put 500 started.price_level.val no_levels) (some 500) (500 ∷ [])
    × IsPredictionQueue
        (put (order_key 9) started.order.val orders)
        started.price_level
        (order_key 9 ∷ [])
    × Reserves started.order.val position.val started.position.val
unfolding best_price
place_opens_side_example =
    place_opens_side hashing (pos 99) 9 PredictionOutcome.no_ bid 500 3 starting started no_levels
      orders [] started_is no_levels-IsLadder
