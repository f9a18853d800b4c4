-- ===== src/Prediction/Tests/Book.antt =====
-- A prediction book with two YES asks at 450 (programs/tidebook/src/state/prediction_book.rs).
use tidebook.Base.{ℕ, ◌≡◌, refl, [], ◌∷◌, none, some, true, arith}
use tidebook.Sample.{address}
use tidebook.State.{
  Pubkey, Account, key_seed, prediction_book_seed, prediction_position_seed, ask, open_,
  PredictionPosition, PredictionOutcome, PredictionOrderBook, PredictionPriceLevel, PredictionOrder,
}
use tidebook.Spot.Queue.{Store, put, IsLinked, mem, distinct, length}
use tidebook.Spot.Ladder as Ladder
use tidebook.Spot.Ladder.{IsChain, IsLadder}
use tidebook.Prediction.Book.{level_seeds, order_seeds}
use tidebook.Prediction.Book.View.{as_order, as_level, level_store, IsPredictionQueue}
use tidebook.Prediction.Insert.Ladder.{IsPredictionLadder}
use tidebook.Prediction.Tests.Data.{market, book}

abbrev pub root : Account PredictionOrderBook
root = record { key = address (prediction_book_seed ∷ key_seed market.key ∷ []); val = book }

abbrev pub level_key : ℕ → Pubkey
level_key price = address (level_seeds market.key PredictionOutcome.yes_ ask price)

abbrev pub order_key : ℕ → Pubkey
order_key id = address (order_seeds market.key id)

abbrev pub position_of : (owner cash contracts locked : ℕ) → Account PredictionPosition
position_of owner cash contracts locked = record {
  key = address (prediction_position_seed ∷ key_seed market.key ∷ key_seed owner ∷ []);
  val = record {
    market = market.key;
    owner = owner;
    collateral_free = cash;
    collateral_locked = 0;
    yes_free = contracts;
    yes_locked = locked;
    no_free = 0;
    no_locked = 0;
    bump = 255;
  };
}

abbrev pub first : Account PredictionOrder
first = record {
  key = order_key 3;
  val = record {
    owner = 24;
    market = market.key;
    order_id = 3;
    outcome = PredictionOutcome.yes_;
    side = ask;
    price = 450;
    price_level = level_key 450;
    previous_order = none;
    next_order = some (order_key 5);
    quantity = 4;
    remaining_quantity = 3;
    locked_collateral = 3;
    status = open_;
    bump = 255;
  };
}

abbrev pub second : Account PredictionOrder
second = record {
  key = order_key 5;
  val = record {
    owner = 25;
    market = market.key;
    order_id = 5;
    outcome = PredictionOutcome.yes_;
    side = ask;
    price = 450;
    price_level = level_key 450;
    previous_order = some (order_key 3);
    next_order = none;
    quantity = 2;
    remaining_quantity = 2;
    locked_collateral = 2;
    status = open_;
    bump = 255;
  };
}

abbrev pub level : Account PredictionPriceLevel
level = record {
  key = level_key 450;
  val = record {
    market = market.key;
    outcome = PredictionOutcome.yes_;
    side = ask;
    price = 450;
    better_price = none;
    worse_price = none;
    first_order = some (order_key 3);
    last_order = some (order_key 5);
    total_remaining_quantity = 5;
    order_count = 2;
    rent_payer = 24;
    bump = 255;
  };
}

-- The accounts on the ledger: the two orders, and the one level of the YES asks.
abbrev pub orders : Store PredictionOrder
orders = put (order_key 3) first.val (put (order_key 5) second.val (λ _. none))

abbrev pub levels : Store PredictionPriceLevel
levels = put 450 level.val (λ _. none)

pub level-IsQueue : IsPredictionQueue orders level (order_key 3 ∷ order_key 5 ∷ [])
unfolding IsLinked length mem distinct put
level-IsQueue = record {
  linked = (
    refl,
    (
      as_order first.val,
      (
        record { stored = refl; rests_here = refl; still_open = refl; back = refl },
        (
          2,
          (
            refl,
            (
              refl,
              (
                as_order second.val,
                (
                  record { stored = refl; rests_here = refl; still_open = refl; back = refl },
                  (0, (refl, (refl, refl, refl))),
                ),
              ),
            ),
          ),
        ),
      ),
    ),
  );
  counted = refl;
  apart = refl;
}

levels_complete : (q : ℕ) (l : _) → level_store levels q ≡ some l → Ladder.mem q (450 ∷ []) ≡ true
unfolding put Ladder.mem
levels_complete q l e = ground arith

pub levels-IsLadder : IsPredictionLadder ask levels (some 450) (450 ∷ [])
unfolding IsChain put
levels-IsLadder = record {
  chain = (
    refl,
    (
      as_level level.val,
      (
        record { stored = refl; priced = refl; back = refl; sorted = λ b e. absurd (ground arith) },
        refl,
      ),
    ),
  );
  complete = levels_complete;
}
