-- ===== src/Prediction/Append/Enqueue.antt =====
-- Appending a prediction order joins the tail of the queue of its level
-- (programs/tidebook/src/instructions/append_prediction_order.rs).
use tidebook.Base.{ℕ, ok_or, ◌+◌, ◌≡◌, refl, List, [], ◌∷◌, ◌++◌, none, some, ok, bind_case, arith}
use tidebook.Base.Word.{checked_add, checked_add-ok}
use tidebook.Errors.{program, prediction_accounting_overflow}
use tidebook.Base.Int.{ℤ}
use tidebook.State.{
  Pubkey, Runtime, open_, OrderSide, PredictionPosition, PredictionOutcome, PredictionOrder,
}
use tidebook.Spot.Queue.{Store, put, length-snoc, distinct-snoc, IsQueue}
use tidebook.Spot.Append.Queue.{Joins, joined, IsLinked-joined}
use tidebook.Spot.Append.Effects.{nonempty, unused_lem}
use tidebook.Prediction.Orders.{validate_resting_order, lock_resting_funds}
use tidebook.Spot.Queue.View.{view_store-put-put, view_store-at, view_account}
use tidebook.Prediction.Book.View.{as_order, order_store, level_account, IsPredictionQueue}
use tidebook.Prediction.Book.Backing.{Reserves, lock_resting_funds-Reserves}
use tidebook.Prediction.Append.{
  AppendPredictionOrder, Appended, check_accounts, check_level, check_tail, check_ends,
  append_writes, handle_append_prediction_order,
}

-- The tests on the tail of the level.
record TailChecked (c : AppendPredictionOrder) : Type 0 where
  is_last : c.price_level.val.last_order ≡ some c.tail_order.key
  rests_here : c.tail_order.val.price_level ≡ c.price_level.key
  still_open : c.tail_order.val.status ≡ open_
  ends : c.tail_order.val.next_order ≡ none

check_tail-TailChecked :
    (order_id : ℕ) (outcome : PredictionOutcome) (side : OrderSide) (price : ℕ)
    (c : AppendPredictionOrder)
    → check_tail order_id outcome side price c ≡ ok tt
    → TailChecked c
unfolding check_tail
check_tail-TailChecked order_id outcome side price c h = ground arith

record Parts (rt : Runtime) (now : ℤ) (order_id : ℕ) (outcome : PredictionOutcome)
    (side : OrderSide) (price quantity : ℕ) (c : AppendPredictionOrder) (d : Appended)
    : Type 0 where
  bump : ℕ
  next_id : ℕ
  count : ℕ
  amount : ℕ
  position : PredictionPosition
  accepted :
      validate_resting_order now c.market.val c.order_book.val order_id outcome side price quantity
      ≡ ok (next_id, count)
  tail : TailChecked c
  locks : lock_resting_funds c.position.val outcome side price quantity ≡ ok (amount, position)
  written :
      d
      ≡ append_writes c order_id outcome side price quantity amount
          (c.price_level.val.total_remaining_quantity + quantity)
          (c.price_level.val.order_count + 1)
          next_id
          count
          bump
          position

append-Parts :
    (rt : Runtime) (now : ℤ) (order_id : ℕ) (outcome : PredictionOutcome) (side : OrderSide)
    (price quantity : ℕ) (c : AppendPredictionOrder) (d : Appended)
    → handle_append_prediction_order rt now order_id outcome side price quantity c ≡ ok d
    → Parts rt now order_id outcome side price quantity c d
unfolding handle_append_prediction_order
append-Parts rt now order_id outcome side price quantity c d h =
    let book = c.order_book.val in
    let overflow = program prediction_accounting_overflow in
    bind_case (check_accounts rt order_id outcome side price c) _ h λ bump _ h₁.
      bind_case (validate_resting_order now c.market.val book order_id outcome side price quantity)
        _ h₁
        λ ids accepted h₂.
          bind_case (check_level book c.price_level.val outcome side price) _ h₂ λ _ _ h₃.
            bind_case (check_tail order_id outcome side price c) _ h₃ λ _ tail h₄.
              bind_case (check_ends c) _ h₄ λ _ _ h₅.
                bind_case
                  (ok_or (checked_add c.price_level.val.total_remaining_quantity quantity) overflow)
                  _ h₅
                  λ total sum h₆.
                    bind_case (ok_or (checked_add c.price_level.val.order_count 1) overflow) _ h₆
                      λ level_count more h₇.
                        bind_case (lock_resting_funds c.position.val outcome side price quantity) _
                          h₇
                          λ locked locks h₈.
                            let total_is =
                              checked_add-ok c.price_level.val.total_remaining_quantity quantity
                                overflow sum in
                            let count_is =
                              checked_add-ok c.price_level.val.order_count 1 overflow more in
                            record {
                              bump = bump;
                              next_id = ids.0;
                              count = ids.1;
                              amount = locked.0;
                              position = locked.1;
                              accepted = accepted;
                              tail =
                                  check_tail-TailChecked order_id outcome side price c
                                    (ground arith);
                              locks = locks;
                              written = rw (← total_is.0, ← count_is.0) (ground arith);
                            }

writes-IsQueue :
    (st : Store PredictionOrder) (ks : List Pubkey) (c : AppendPredictionOrder) (quantity : ℕ)
    → TailChecked c
    → IsPredictionQueue st c.price_level ks
    → st c.tail_order.key ≡ some c.tail_order.val
    → st c.order.key ≡ none
    → (o : PredictionOrder)
    → (o.price_level ≡ c.price_level.key)
      × (o.status ≡ open_)
      × (o.previous_order ≡ some c.tail_order.key)
      × (o.next_order ≡ none)
      × (o.remaining_quantity ≡ quantity)
    → IsQueue
        (joined
          (order_store st)
          c.tail_order.key
          (as_order (record c.tail_order.val { next_order = some c.order.key }))
          c.order.key
          (as_order o))
        (level_account (record {
          key = c.price_level.key;
          val = record c.price_level.val {
            last_order = some c.order.key;
            total_remaining_quantity = c.price_level.val.total_remaining_quantity + quantity;
            order_count = c.price_level.val.order_count + 1;
          };
        }))
        (ks ++ (c.order.key ∷ []))
writes-IsQueue st ks c quantity t q stored fresh o (here, open_is, back, ends, amount) =
    let level = level_account c.price_level in
    let tail = view_account as_order c.tail_order in
    let (x, (xs, e)) = nonempty (order_store st) level ks c.tail_order.key q t.is_last in
    let unused : order_store st c.order.key ≡ none = rw fresh in
    let j : Joins (order_store st) level.key tail.key tail.val c.order.key (as_order o) = record {
      tail_stored = view_store-at as_order st tail.key c.tail_order.val stored;
      tail_ends = t.ends;
      is_new = unused;
      rests_here = here;
      still_open = open_is;
      back = back;
      ends = ends;
    } in
    record {
      linked =
          rw (e, ← amount)
            (IsLinked-joined (order_store st) level.key none level.val.first_order
              level.val.last_order level.val.total_remaining_quantity x xs tail.key tail.val
              c.order.key (as_order o) j (rw e at q.linked) t.is_last);
      counted = ground (arith, q.counted, length-snoc ks c.order.key);
      apart =
          distinct-snoc ks c.order.key q.apart
            (unused_lem (order_store st) level ks c.order.key q unused);
    }

-- An append to a prediction book is the enqueue of the FIFO queue of its level: where the level and
-- the orders on the ledger stand for the queue `ks`, the supplied tail is the stored one, and the new
-- address is unused, they stand for `ks` with the new order at its end afterwards, with the right
-- count and total. The new order's lock is exactly its cost and has moved from the free to the locked
-- part of the trader's position, which keeps its claims.
pub append_prediction_enqueues :
    (rt : Runtime) (now : ℤ) (order_id : ℕ) (outcome : PredictionOutcome) (side : OrderSide)
    (price quantity : ℕ) (c : AppendPredictionOrder) (d : Appended) (st : Store PredictionOrder)
    (ks : List Pubkey)
    → handle_append_prediction_order rt now order_id outcome side price quantity c ≡ ok d
    → IsPredictionQueue st c.price_level ks
    → st c.tail_order.key ≡ some c.tail_order.val
    → st d.order.key ≡ none
    → IsPredictionQueue
        (put d.order.key d.order.val (put d.tail_order.key d.tail_order.val st))
        d.price_level
        (ks ++ (d.order.key ∷ []))
      × Reserves d.order.val c.position.val d.position.val
append_prediction_enqueues rt now order_id outcome side price quantity c d st ks h q stored fresh =
    let p = append-Parts rt now order_id outcome side price quantity c d h in
    let e : d.order.key ≡ c.order.key = ground (arith, p.written) in
    let w =
      append_writes c order_id outcome side price quantity p.amount
        (c.price_level.val.total_remaining_quantity + quantity) (c.price_level.val.order_count + 1)
        p.next_id p.count p.bump p.position in
    rw p.written (
      rw (view_store-put-put as_order c.order.key c.tail_order.key w.order.val w.tail_order.val st)
          (writes-IsQueue st ks c quantity p.tail q stored (rw e at fresh) w.order.val
            (refl, refl, refl, refl, refl)),
      lock_resting_funds-Reserves c.position.val p.position outcome side price quantity p.amount
          w.order.val p.locks (refl, refl, refl, refl, refl),
    )
