-- ===== src/Prediction/Cancel/Unlink.antt =====
-- A cancellation takes a prediction order out of the queue of its level and gives its lock back
-- (programs/tidebook/src/instructions/cancel_prediction_order.rs).
use tidebook.Base.{
  ℕ, ◌+◌, ◌≡◌, refl, ◌⊎◌, List, [], Option, none, some, true, Bool-cases, inl, inr, ◌==◌, ok, arith,
}
use tidebook.State.{Pubkey, Account, Runtime, PredictionOrder, PredictionPriceLevel}
use tidebook.Spot.Match.Steps.{key_of}
use tidebook.Spot.Queue.{Store, put, mem}
use tidebook.Spot.Cancel.Remove.{remove, length-remove, empty}
use tidebook.Spot.Cancel.Neighbors.{Neighbors}
use tidebook.Spot.Cancel.Handler.{set_next as spot_set_next, set_previous as spot_set_previous}
use tidebook.Spot.Cancel.Unlinked.{unlinked-IsQueue}
use tidebook.Spot.Queue.View.{
  view_neighbor, put_neighbor, view_store-at, key_view, none_view, put_views, stored_view,
  links_view,
}
use tidebook.Prediction.Book.View.{as_order, order_store, level_account, IsPredictionQueue}
use tidebook.Prediction.Book.Backing.{IsExact}
use tidebook.Prediction.Cancel.{CancelPredictionOrder, Counters}
use tidebook.Prediction.Cancel.Handler.{
  Canceled, set_next, set_previous, level_after, order_after, cancel_writes,
  handle_cancel_prediction_order,
}
use tidebook.Prediction.Cancel.Parts.{Linked, Releases, cancel-Parts}

-- The orders of the ledger after the order and its neighbors, if there are any, are written.
abbrev pub canceled_store : Canceled → Store PredictionOrder → Store PredictionOrder
canceled_store d st =
    put_neighbor d.next_order (put_neighbor d.previous_order (put d.order.key d.order.val st))

next_view :
    (k : Option Pubkey) (o : Option (Account PredictionOrder))
    → view_neighbor as_order (set_next k o) ≡ spot_set_next k (view_neighbor as_order o)
next_view k none = refl
next_view k (some a) = refl

previous_view :
    (k : Option Pubkey) (o : Option (Account PredictionOrder))
    → view_neighbor as_order (set_previous k o) ≡ spot_set_previous k (view_neighbor as_order o)
previous_view k none = refl
previous_view k (some a) = refl

Linked-Neighbors :
    (st : Store PredictionOrder) (c : CancelPredictionOrder)
    → Linked c
    → st c.order.key ≡ some c.order.val
    → ((p : Account PredictionOrder) → c.previous_order ≡ some p → st p.key ≡ some p.val)
    → ((a : Account PredictionOrder) → c.next_order ≡ some a → st a.key ≡ some a.val)
    → Neighbors
        (order_store st)
        c.order.key
        (as_order c.order.val)
        (view_neighbor as_order c.previous_order)
        (view_neighbor as_order c.next_order)
Linked-Neighbors st c q stored ps ns = record {
  order_stored = view_store-at as_order st c.order.key c.order.val stored;
  previous_is = rw (key_view as_order c.previous_order) q.previous_is;
  next_is = rw (key_view as_order c.next_order) q.next_is;
  previous_stored = stored_view as_order st c.previous_order ps;
  previous_links = links_view as_order c.order.key c.previous_order q.previous_links;
  next_stored = stored_view as_order st c.next_order ns;
}

left-IsQueue :
    (st : Store PredictionOrder) (ks : List Pubkey) (c : CancelPredictionOrder) (n : Counters)
    → Linked c
    → IsPredictionQueue st c.price_level ks
    → mem c.order.key ks ≡ true
    → Neighbors
        (order_store st)
        c.order.key
        (as_order c.order.val)
        (view_neighbor as_order c.previous_order)
        (view_neighbor as_order c.next_order)
    → n.level_count + 1 ≡ c.price_level.val.order_count
    → n.total + c.order.val.remaining_quantity ≡ c.price_level.val.total_remaining_quantity
    → IsPredictionQueue
        (put_neighbor (set_previous (key_of c.previous_order) c.next_order) (
          put_neighbor
            (set_next (key_of c.next_order) c.previous_order)
            (put c.order.key (order_after c.order.val) st)))
        (record { key = c.price_level.key; val = level_after c n c.price_level.val })
        (remove c.order.key ks)
unfolding level_after
left-IsQueue st ks c n q queue m nb counted summed =
    let whole =
      unlinked-IsQueue (order_store st) ks (level_account c.price_level) c.order.key
        (as_order c.order.val) (as_order (order_after c.order.val))
        (view_neighbor as_order c.previous_order) (view_neighbor as_order c.next_order)
        n.level_count n.total nb queue m counted summed in
    rw
      (
        put_views as_order (set_previous (key_of c.previous_order) c.next_order)
            (set_next (key_of c.next_order) c.previous_order) c.order.key (order_after c.order.val)
            st,
        previous_view (key_of c.previous_order) c.next_order,
        next_view (key_of c.next_order) c.previous_order,
      )
      (rw
        (
          none_view as_order c.previous_order,
          none_view as_order c.next_order,
          key_view as_order c.previous_order,
          key_view as_order c.next_order,
        )
        at whole)

-- A cancellation takes a prediction order out of the FIFO queue of its level, from any place of it:
-- where the level and the orders on the ledger stand for the queue `ks`, which holds the order, and
-- the supplied accounts are the stored ones, a level that is still open stands for `ks` without the
-- order afterwards, with the right ends, count and total, and the level is closed only where no order
-- is left. The lock of the order, which is exactly the cost of its remainder, moves back from the
-- locked to the free part of the owner's bucket, and the position keeps its claims.
pub cancel_prediction_unlinks :
    (rt : Runtime) (order_id : ℕ) (c : CancelPredictionOrder) (d : Canceled)
    (st : Store PredictionOrder) (ks : List Pubkey)
    → handle_cancel_prediction_order rt order_id c ≡ ok d
    → IsPredictionQueue st c.price_level ks
    → mem c.order.key ks ≡ true
    → st c.order.key ≡ some c.order.val
    → ((p : Account PredictionOrder) → c.previous_order ≡ some p → st p.key ≡ some p.val)
    → ((a : Account PredictionOrder) → c.next_order ≡ some a → st a.key ≡ some a.val)
    → (((level : Account PredictionPriceLevel) × ((d.price_level ≡ some level)
            × IsPredictionQueue (canceled_store d st) level (remove c.order.key ks)))
        ⊎ ((d.price_level ≡ none) × (remove c.order.key ks ≡ [])))
      × IsExact c.order.val
      × Releases c.order.val.outcome c.order.val.side c.order.val.locked_collateral c.position.val
          d.position.val
unfolding cancel_writes
cancel_prediction_unlinks rt order_id c d st ks h queue m stored ps ns =
    let p = cancel-Parts rt order_id c d h in
    let n = p.counters in
    let nb = Linked-Neighbors st c p.linked stored ps ns in
    (
      elim (Bool-cases (n.level_count == 0)) [
        | inl closes ↦ inr (
          ground (arith, p.written),
          empty (remove c.order.key ks)
              (ground (arith, p.counted.orders, queue.counted, length-remove c.order.key ks m)),
        )
        | inr stays ↦ inl (
          record { key = c.price_level.key; val = level_after c n c.price_level.val },
          (
            ground (arith, p.written),
            rw p.written
                (left-IsQueue st ks c n p.linked queue m nb p.counted.orders p.counted.quantity),
          ),
        )
      ],
      p.linked.exact,
      rw p.written p.releases,
    )
