-- ===== src/Prediction/Place/Opening.antt =====
-- The first order of an empty side of a prediction book
-- (programs/tidebook/src/instructions/place_prediction_order.rs).
use tidebook.Base.{
  ℕ, ◌≡◌, refl, List, [], ◌∷◌, none, some, is_none, ok, bind_case, require_case, arith,
}
use tidebook.Base.Int.{ℤ}
use tidebook.Errors.{program, prediction_side_not_empty}
use tidebook.State.{
  Runtime, OrderSide, bid, ask, PredictionPosition, PredictionOutcome, PredictionOrderBook,
  PredictionOrder, PredictionPriceLevel, best_price, set_best_price,
}
use tidebook.Spot.Queue.{Store, put}
use tidebook.Spot.Ladder.{insert_price, IsChain}
use tidebook.Spot.Insert.Refinement.{linked_levels-IsLadder}
use tidebook.Prediction.Orders.{validate_resting_order, lock_resting_funds}
use tidebook.Prediction.Book.{Bumps}
use tidebook.Spot.Queue.View.{view_store-put, opened-IsQueue}
use tidebook.Prediction.Book.View.{
  level_account, as_level, level_store, IsPredictionQueue, as_order,
}
use tidebook.Prediction.Book.Backing.{Reserves, lock_resting_funds-Reserves}
use tidebook.Prediction.Place.{
  PlacePredictionOrder, Placed, check_accounts, place_writes, handle_place_prediction_order,
}
use tidebook.Prediction.Insert.Ladder.{IsPredictionLadder, first_Place}

record Parts (rt : Runtime) (now : ℤ) (order_id : ℕ) (outcome : PredictionOutcome)
    (side : OrderSide) (price quantity : ℕ) (c : PlacePredictionOrder) (d : Placed) : Type 0 where
  bumps : Bumps
  next_id : ℕ
  count : ℕ
  amount : ℕ
  position : PredictionPosition
  was_empty : best_price c.order_book.val outcome side ≡ none
  locks : lock_resting_funds c.position.val outcome side price quantity ≡ ok (amount, position)
  written :
      d ≡ place_writes c order_id outcome side price quantity amount next_id count bumps position

place-Parts :
    (rt : Runtime) (now : ℤ) (order_id : ℕ) (outcome : PredictionOutcome) (side : OrderSide)
    (price quantity : ℕ) (c : PlacePredictionOrder) (d : Placed)
    → handle_place_prediction_order rt now order_id outcome side price quantity c ≡ ok d
    → Parts rt now order_id outcome side price quantity c d
unfolding handle_place_prediction_order
place-Parts rt now order_id outcome side price quantity c d h =
    let book = c.order_book.val in
    bind_case (check_accounts rt order_id outcome side price c) _ h λ bumps _ h₁.
      bind_case (validate_resting_order now c.market.val book order_id outcome side price quantity)
        _ h₁
        λ ids _ h₂.
          require_case (is_none (best_price book outcome side)) (program prediction_side_not_empty)
            _ h₂
            λ vacant h₃.
              bind_case (lock_resting_funds c.position.val outcome side price quantity) _ h₃
                λ locked locks h₄. record {
                  bumps = bumps;
                  next_id = ids.0;
                  count = ids.1;
                  amount = locked.0;
                  position = locked.1;
                  was_empty = ground arith;
                  locks = locks;
                  written = ground arith;
                }

best_placed :
    (book : PredictionOrderBook) (outcome : PredictionOutcome) (side : OrderSide)
    (price next_id : ℕ)
    → best_price
        (record (set_best_price book outcome side (some price)) { next_order_id = next_id })
        outcome
        side
      ≡ some price
unfolding best_price set_best_price
best_placed book PredictionOutcome.yes_ bid price next_id = refl
best_placed book PredictionOutcome.yes_ ask price next_id = refl
best_placed book PredictionOutcome.no_ bid price next_id = refl
best_placed book PredictionOutcome.no_ ask price next_id = refl

empty_ladder :
    (side : OrderSide) (st : Store PredictionPriceLevel) (ps : List ℕ)
    → IsPredictionLadder side st none ps
    → ps ≡ []
unfolding IsChain
empty_ladder side st [] l = refl
empty_ladder side st (p ∷ ps) l = absurd (ground (arith, l.chain.0))

-- Placing the first order of a side opens its list of prices: where the levels of the outcome and
-- side on the ledger are linked in a list from the best price on, with none besides, that list is
-- empty, and afterwards the new level is the only one and its price the best. The level stands for the
-- queue of the new order alone, whose lock is exactly its cost and has moved from the free to the
-- locked part of the trader's position, which keeps its claims.
pub place_opens_side :
    (rt : Runtime) (now : ℤ) (order_id : ℕ) (outcome : PredictionOutcome) (side : OrderSide)
    (price quantity : ℕ) (c : PlacePredictionOrder) (d : Placed)
    (levels : Store PredictionPriceLevel) (orders : Store PredictionOrder) (ps : List ℕ)
    → handle_place_prediction_order rt now order_id outcome side price quantity c ≡ ok d
    → IsPredictionLadder side levels (best_price c.order_book.val outcome side) ps
    → (ps ≡ [])
      × IsPredictionLadder side
          (put d.price_level.val.price d.price_level.val levels)
          (best_price d.order_book.val outcome side)
          (price ∷ [])
      × IsPredictionQueue (put d.order.key d.order.val orders) d.price_level (d.order.key ∷ [])
      × Reserves d.order.val c.position.val d.position.val
unfolding place_writes insert_price
place_opens_side rt now order_id outcome side price quantity c d levels orders ps h ladder =
    let p = place-Parts rt now order_id outcome side price quantity c d h in
    let w =
      place_writes c order_id outcome side price quantity p.amount p.next_id p.count p.bumps
        p.position in
    let new = w.price_level.val in
    let vacant : IsPredictionLadder side levels none ps = rw p.was_empty at ladder in
    let nothing = empty_ladder side levels ps vacant in
    rw p.written (
      nothing,
      rw
          (
            best_placed c.order_book.val outcome side price p.next_id,
            view_store-put as_level price new levels,
          )
          (linked_levels-IsLadder side price (as_level new) none none none (level_store levels) []
            (first_Place side price)
            (record {
              better_stored = λ b e. absurd (ground arith);
              worse_stored = λ v e. absurd (ground arith);
              new_price = refl;
              new_better = refl;
              new_worse = refl;
            })
            (rw nothing at vacant)),
      opened-IsQueue as_order orders c.order.key w.order.val (level_account w.price_level)
          (refl, refl, refl, refl, refl, refl, refl, refl),
      lock_resting_funds-Reserves c.position.val p.position outcome side price quantity p.amount
          w.order.val p.locks (refl, refl, refl, refl, refl),
    )
