-- ===== src/Spot/Tests/Placing.antt =====
-- A seller who joins the best ask, and one who opens a better level
-- (programs/tidebook/src/instructions/append_limit_order.rs and insert_limit_order.rs).
use tidebook.Base.{ℕ, ◌≡◌, refl, [], ◌∷◌, Option, none, some, false, ok}
use tidebook.Base.Word.{
  checked_add, checked_sub, checked_pow_u128, checked_mul_u128, checked_div, try_from_u64,
}
use tidebook.State.{Account, Order, Market, ask, open_, best_of, set_best}
use tidebook.Matching.{quote_notional}
use tidebook.Spot.Placement.{
  check_positive, check_grid, side_collateral, order_collateral, lock_balance,
}
use tidebook.Spot.Queue.{put, IsQueue}
use tidebook.Spot.Append.{AppendLimitOrder, Appended, next_counters, handle_append_limit_order}
use tidebook.Spot.Append.{check_accounts}
use tidebook.Spot.Append.Queue.{joined}
use tidebook.Spot.Append.Effects.{append_enqueues}
use tidebook.Spot.Insert as Insert
use tidebook.Spot.Insert.{
  InsertLimitOrder, Inserted, validate_level, check_neighbors, insert_writes,
  handle_insert_limit_order,
}
use tidebook.Spot.Ladder.{Levels, mem, insert_price, IsChain, IsLadder}
use tidebook.Spot.Insert.Refinement.{inserted_levels, insert_extends}
use tidebook.State.{PriceLevel}
use tidebook.Base.{arith, true}
use tidebook.Sample.{hashing}
use tidebook.Spot.Tests.Data.{
  market_key, market, level_key, level, order_key, second_order, ledger, orders, level-IsQueue,
}

abbrev joining : AppendLimitOrder
joining = record {
  trader = 24;
  market = market;
  order = record { key = order_key 3; in_use = false };
  price_level = level;
  previous_order = second_order;
  trader_balance = ledger 24 100 0 0 0;
}

abbrev third_order : ℕ → Option ℕ → Account Order
third_order price previous = record {
  key = order_key 3;
  val = record {
    owner = 24;
    market = market_key;
    order_id = 3;
    side = ask;
    price = price;
    price_level = level_key price;
    previous_order = previous;
    next_order = none;
    quantity = 30;
    remaining_quantity = 30;
    locked_collateral = 30;
    status = open_;
    bump = 255;
  };
}

abbrev grown : Account Market → Account Market
grown m = record m { val = record m.val { next_order_id = 4; open_order_count = 3 } }

abbrev appended : Appended
appended = record {
  market = grown market;
  order = third_order 500 (some (order_key 2));
  price_level = record level {
    val = record level.val {
      last_order = some (order_key 3);
      total_remaining_quantity = 90;
      order_count = 3;
    };
  };
  previous_order = record second_order {
    val = record second_order.val { next_order = some (order_key 3) };
  };
  trader_balance = ledger 24 70 30 0 0;
}

appended_is : handle_append_limit_order hashing ask 500 30 joining ≡ ok appended
unfolding handle_append_limit_order check_accounts check_positive check_grid order_collateral
    side_collateral quote_notional checked_pow_u128 checked_mul_u128 checked_div try_from_u64
    checked_add checked_sub lock_balance next_counters
appended_is = refl

append_enqueues_example :
    IsQueue
      (joined orders (order_key 2) appended.previous_order.val (order_key 3) appended.order.val)
      appended.price_level
      (order_key 1 ∷ order_key 2 ∷ order_key 3 ∷ [])
unfolding put
append_enqueues_example =
    append_enqueues hashing ask 500 30 joining appended orders (order_key 1 ∷ order_key 2 ∷ [])
      appended_is level-IsQueue refl refl

-- A better ask at 495.
abbrev opening : InsertLimitOrder
opening = record {
  trader = 24;
  market = market;
  order = record { key = order_key 3; in_use = false };
  price_level = record { key = level_key 495; in_use = false };
  trader_balance = ledger 24 100 0 0 0;
  better_level = none;
  worse_level = some level;
}

abbrev opened : Inserted
opened = record {
  market = record market {
    val = record market.val { next_order_id = 4; open_order_count = 3; best_ask = some 495 };
  };
  order = third_order 495 none;
  price_level = record {
    key = level_key 495;
    val = record {
      market = market_key;
      side = ask;
      price = 495;
      better_price = none;
      worse_price = some 500;
      first_order = some (order_key 3);
      last_order = some (order_key 3);
      total_remaining_quantity = 30;
      order_count = 1;
      rent_payer = 24;
      bump = 255;
    };
  };
  trader_balance = ledger 24 70 30 0 0;
  better_level = none;
  worse_level = some (record level { val = record level.val { better_price = some 495 } });
}

opened_is : handle_insert_limit_order hashing ask 495 30 opening ≡ ok opened
unfolding handle_insert_limit_order Insert.check_accounts check_positive check_grid check_neighbors
    validate_level order_collateral side_collateral quote_notional checked_pow_u128 checked_mul_u128
    checked_div try_from_u64 checked_add checked_sub lock_balance insert_writes set_best best_of
opened_is = refl

abbrev levels : Levels
levels = put 500 level.val (λ _. none)

levels_complete : (q : ℕ) (l : PriceLevel) → levels q ≡ some l → mem q (500 ∷ []) ≡ true
unfolding put mem
levels_complete q l e = ground arith

levels-IsLadder : IsLadder ask levels (some 500) (500 ∷ [])
unfolding IsChain put
levels-IsLadder = record {
  chain = (
    refl,
    (
      level.val,
      (
        record { stored = refl; priced = refl; back = refl; sorted = λ b e. absurd (ground arith) },
        refl,
      ),
    ),
  );
  complete = levels_complete;
}

level_stored : (w : Account PriceLevel) → some level ≡ some w → levels w.val.price ≡ some w.val
unfolding put
level_stored w e = let s : level ≡ w = ground arith in rw (← s) refl

insert_extends_example : IsLadder ask (inserted_levels opened levels) (some 495) (495 ∷ 500 ∷ [])
unfolding insert_price best_of
insert_extends_example =
    insert_extends hashing ask 495 30 opening opened levels (500 ∷ []) opened_is levels-IsLadder
      (λ b e. absurd (ground arith)) level_stored
