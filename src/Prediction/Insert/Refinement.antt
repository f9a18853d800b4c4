-- ===== src/Prediction/Insert/Refinement.antt =====
-- An insertion into a prediction book refines the sorted list of prices
-- (programs/tidebook/src/instructions/insert_prediction_order.rs).
use tidebook.Base.{
  ℕ, ◌≡◌, refl, List, [], ◌∷◌, Option, none, some, ok, bind_case, require_case, ok_or, arith,
}
use tidebook.Base.Int.{ℤ}
use tidebook.Errors.{program, invalid_prediction_price_level}
use tidebook.State.{
  Account, Runtime, OrderSide, PriceLevel, PredictionPosition, PredictionOutcome, PredictionOrder,
  PredictionPriceLevel, best_price,
}
use tidebook.Spot.Queue.{Store, put}
use tidebook.Spot.Ladder.{insert_price}
use tidebook.Spot.Insert
use tidebook.Spot.Insert.Links.{Place}
use tidebook.Spot.Insert.Refinement.{linked_levels-IsLadder}
use tidebook.Prediction.Orders.{validate_resting_order, lock_resting_funds}
use tidebook.Prediction.Book.{Bumps}
use tidebook.Spot.Queue.View.{view_store-at, opened-IsQueue}
use tidebook.Prediction.Book.View.{
  as_level, level_account, level_store, IsPredictionQueue, as_order,
}
use tidebook.Prediction.Book.Backing.{Reserves, lock_resting_funds-Reserves}
use tidebook.Prediction.Insert.{
  InsertPredictionOrder, Inserted, check_accounts, validate_neighbor, valid_place, price_of,
  insert_writes, handle_insert_prediction_order,
}
use tidebook.Prediction.Insert.Ladder.{
  as_neighbor, IsPredictionLadder, inserted_levels, valid_place-Place, written_view, best_after,
}

record Parts (rt : Runtime) (now : ℤ) (order_id : ℕ) (outcome : PredictionOutcome)
    (side : OrderSide) (price quantity : ℕ) (c : InsertPredictionOrder) (d : Inserted)
    : Type 0 where
  bumps : Bumps
  next_id : ℕ
  count : ℕ
  amount : ℕ
  position : PredictionPosition
  place :
      Place side price
        (best_price c.order_book.val outcome side)
        (as_neighbor c.better_level)
        (as_neighbor c.worse_level)
  locks : lock_resting_funds c.position.val outcome side price quantity ≡ ok (amount, position)
  written :
      d ≡ insert_writes c order_id outcome side price quantity amount next_id count bumps position

listed :
    (o : Option ℕ) (best : ℕ)
    → ok_or o (program invalid_prediction_price_level) ≡ ok best
    → o ≡ some best
listed none best e = absurd (ground arith)
listed (some b) best e = ground arith

insert-Parts :
    (rt : Runtime) (now : ℤ) (order_id : ℕ) (outcome : PredictionOutcome) (side : OrderSide)
    (price quantity : ℕ) (c : InsertPredictionOrder) (d : Inserted)
    → handle_insert_prediction_order rt now order_id outcome side price quantity c ≡ ok d
    → Parts rt now order_id outcome side price quantity c d
unfolding handle_insert_prediction_order
insert-Parts rt now order_id outcome side price quantity c d h =
    let book = c.order_book.val in
    let failure = program invalid_prediction_price_level in
    bind_case (check_accounts rt order_id outcome side price c) _ h λ bumps _ h₁.
      bind_case (validate_resting_order now c.market.val book order_id outcome side price quantity)
        _ h₁
        λ ids _ h₂. bind_case (ok_or (best_price book outcome side) failure) _ h₂ λ best found h₃.
          bind_case (validate_neighbor rt c.better_level c.market.key outcome side best) _ h₃
            λ _ _ h₄.
              bind_case (validate_neighbor rt c.worse_level c.market.key outcome side best) _ h₄
                λ _ _ h₅.
                  require_case (valid_place side price best c.better_level c.worse_level) failure _
                    h₅
                    λ fits h₆.
                      bind_case (lock_resting_funds c.position.val outcome side price quantity) _ h₆
                        λ locked locks h₇. record {
                          bumps = bumps;
                          next_id = ids.0;
                          count = ids.1;
                          amount = locked.0;
                          position = locked.1;
                          place =
                              rw (listed (best_price book outcome side) best found) (
                                valid_place-Place side price best c.better_level c.worse_level
                                  fits);
                          locks = locks;
                          written = ground arith;
                        }

stored_view :
    (st : Store PredictionPriceLevel) (o : Option (Account PredictionPriceLevel))
    → ((b : Account PredictionPriceLevel) → o ≡ some b → st b.val.price ≡ some b.val)
    → (b : Account PriceLevel) → as_neighbor o ≡ some b
    → level_store st b.val.price ≡ some b.val
stored_view st none f b e = absurd (ground arith)
stored_view st (some a) f b e =
    let same : b ≡ level_account a = ground arith in
    rw same (view_store-at as_level st a.val.price a.val (f a refl))

price_view :
    (o : Option (Account PredictionPriceLevel)) → price_of o ≡ Insert.price_of (as_neighbor o)
price_view none = refl
price_view (some a) = refl

-- An insertion into a prediction book refines the insertion into a sorted list of prices: where the
-- levels of the outcome and side on the ledger are linked as the list `ps` from the best price on, with
-- none besides, and the supplied neighbors are the stored ones, the levels after the instruction are
-- linked as `ps` with the price at its place, from the new best price on, with none besides. The new
-- level stands for the queue of the new order alone, whose lock is exactly its cost and has moved from
-- the free to the locked part of the trader's position, which keeps its claims.
pub insert_prediction_extends :
    (rt : Runtime) (now : ℤ) (order_id : ℕ) (outcome : PredictionOutcome) (side : OrderSide)
    (price quantity : ℕ) (c : InsertPredictionOrder) (d : Inserted)
    (levels : Store PredictionPriceLevel) (orders : Store PredictionOrder) (ps : List ℕ)
    → handle_insert_prediction_order rt now order_id outcome side price quantity c ≡ ok d
    → IsPredictionLadder side levels (best_price c.order_book.val outcome side) ps
    → ((b : Account PredictionPriceLevel)
        → c.better_level ≡ some b
        → levels b.val.price ≡ some b.val)
    → ((w : Account PredictionPriceLevel)
        → c.worse_level ≡ some w
        → levels w.val.price ≡ some w.val)
    → IsPredictionLadder side
        (inserted_levels d levels)
        (best_price d.order_book.val outcome side)
        (insert_price side price ps)
      × IsPredictionQueue (put d.order.key d.order.val orders) d.price_level (d.order.key ∷ [])
      × Reserves d.order.val c.position.val d.position.val
unfolding insert_writes
insert_prediction_extends rt now order_id outcome side price quantity c d levels orders ps h ladder
      bs ws =
    let p = insert-Parts rt now order_id outcome side price quantity c d h in
    let w =
      insert_writes c order_id outcome side price quantity p.amount p.next_id p.count p.bumps
        p.position in
    let new = w.price_level.val in
    rw p.written (
      rw
          (
            best_after c.order_book.val outcome side price p.next_id c.better_level,
            written_view price new c.better_level c.worse_level levels,
          )
          (linked_levels-IsLadder side price (as_level new)
            (best_price c.order_book.val outcome side) (as_neighbor c.better_level)
            (as_neighbor c.worse_level) (level_store levels) ps p.place
            (record {
              better_stored = stored_view levels c.better_level bs;
              worse_stored = stored_view levels c.worse_level ws;
              new_price = refl;
              new_better = price_view c.better_level;
              new_worse = price_view c.worse_level;
            })
            ladder),
      opened-IsQueue as_order orders c.order.key w.order.val (level_account w.price_level)
          (refl, refl, refl, refl, refl, refl, refl, refl),
      lock_resting_funds-Reserves c.position.val p.position outcome side price quantity p.amount
          w.order.val p.locks (refl, refl, refl, refl, refl),
    )
