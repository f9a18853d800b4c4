-- ===== src/Spot/Cancel/Unlink.antt =====
-- A cancellation takes one order out of the queue of its level
-- (programs/tidebook/src/instructions/cancel_limit_order.rs).
use tidebook.Base.{
  ℕ, ◌≡◌, ◌⊎◌, List, [], Option, none, some, true, Bool-cases, inl, inr, ◌==◌, ok, arith,
}
use tidebook.State.{Pubkey, Account, Runtime, Order, PriceLevel}
use tidebook.Spot.Match.Steps.{key_of}
use tidebook.Spot.Queue.{Store, put, mem, IsQueue}
use tidebook.Spot.Cancel.{CancelLimitOrder, check_queue, check_previous}
use tidebook.Spot.Cancel.Handler.{
  Canceled, level_after, order_after, cancel_writes, handle_cancel_limit_order,
}
use tidebook.Spot.Cancel.Effects.{cancel-Parts}
use tidebook.Spot.Cancel.Remove.{remove, length-remove, empty}
use tidebook.Spot.Cancel.Neighbors.{Neighbors}
use tidebook.Spot.Cancel.Unlinked.{put_order, unlinked-IsQueue}

-- The orders of the ledger after the writes of a cancellation.
abbrev pub canceled_store : Canceled → Store Order → Store Order
canceled_store d st =
    put_order d.next_order (put_order d.previous_order (put d.order.key d.order.val st))

-- The tests on the queue, as facts.
record QueueChecked (c : CancelLimitOrder) : Type 0 where
  previous_is : c.order.val.previous_order ≡ key_of c.previous_order
  next_is : c.order.val.next_order ≡ key_of c.next_order
  previous_links :
      (p : Account Order) → c.previous_order ≡ some p → p.val.next_order ≡ some c.order.key

linked_previous :
    (level x : Pubkey) (o : Option (Account Order)) (p : Account Order)
    → check_previous level x o ≡ ok tt
    → o ≡ some p
    → p.val.next_order ≡ some x
unfolding check_previous
linked_previous level x none p h e = absurd (ground arith)
linked_previous level x (some a) p h e = ground arith

check_queue-QueueChecked : (c : CancelLimitOrder) → check_queue c ≡ ok tt → QueueChecked c
unfolding check_queue
check_queue-QueueChecked c h = record {
  previous_is = ground arith;
  next_is = ground arith;
  previous_links =
      λ p e. linked_previous c.price_level.key c.order.key c.previous_order p (ground arith) e;
}

linked-Neighbors :
    (st : Store Order) (c : CancelLimitOrder)
    → QueueChecked c
    → st c.order.key ≡ some c.order.val
    → ((p : Account Order) → c.previous_order ≡ some p → st p.key ≡ some p.val)
    → ((a : Account Order) → c.next_order ≡ some a → st a.key ≡ some a.val)
    → Neighbors st c.order.key c.order.val c.previous_order c.next_order
linked-Neighbors st c q stored ps ns = record {
  order_stored = stored;
  previous_is = q.previous_is;
  next_is = q.next_is;
  previous_stored = ps;
  previous_links = q.previous_links;
  next_stored = ns;
}

-- A cancellation takes the order out of the FIFO queue from any place of it: where the level and the
-- orders on the ledger stand for the queue `ks`, which holds the order, and the supplied accounts are
-- the stored ones, a level that is still open stands for `ks` without the order afterwards, with the
-- right ends, count and total; the level is closed only where no order is left.
pub cancel_unlinks :
    (rt : Runtime) (order_id : ℕ) (c : CancelLimitOrder) (d : Canceled) (st : Store Order)
    (ks : List Pubkey)
    → handle_cancel_limit_order rt order_id c ≡ ok d
    → IsQueue st c.price_level ks
    → mem c.order.key ks ≡ true
    → st c.order.key ≡ some c.order.val
    → ((p : Account Order) → c.previous_order ≡ some p → st p.key ≡ some p.val)
    → ((a : Account Order) → c.next_order ≡ some a → st a.key ≡ some a.val)
    → ((level : Account PriceLevel) × ((d.price_level ≡ some level)
          × IsQueue (canceled_store d st) level (remove c.order.key ks)))
      ⊎ ((d.price_level ≡ none) × (remove c.order.key ks ≡ []))
unfolding cancel_writes level_after
cancel_unlinks rt order_id c d st ks h queue m stored ps ns =
    let p = cancel-Parts rt order_id c d h in
    let n = p.counters in
    let q = check_queue-QueueChecked c p.queue in
    let nb = linked-Neighbors st c q stored ps ns in
    elim (Bool-cases (n.level_order_count == 0)) [
      | inl closes ↦ inr (
        ground (arith, p.written),
        empty (remove c.order.key ks)
            (ground (arith, p.counted.orders, queue.counted, length-remove c.order.key ks m)),
      )
      | inr stays ↦ inl (
        record { key = c.price_level.key; val = level_after c n },
        (
          ground (arith, p.written),
          rw p.written (
              unlinked-IsQueue st ks c.price_level c.order.key c.order.val (order_after c.order.val)
                c.previous_order c.next_order n.level_order_count n.level_quantity nb queue m
                p.counted.orders p.counted.total),
        ),
      )
    ]
