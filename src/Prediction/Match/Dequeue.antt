-- ===== src/Prediction/Match/Dequeue.antt =====
-- A prediction match serves the queue of a level from its head
-- (programs/tidebook/src/instructions/match_prediction_order.rs).
use tidebook.Base.{
  ℕ, ◌+◌, ◌≡◌, refl, sym, ◌∙◌, List, [], ◌∷◌, Option, none, some, true, false, Bool-cases, ◌⊎◌, inl,
  inr, ◌==◌, ok, arith,
}
use tidebook.Base.Int.{ℤ}
use tidebook.State.{
  Pubkey, Account, Runtime, OrderSide, open_, filled, PredictionOutcome, PredictionOrder,
  PredictionPriceLevel,
}
use tidebook.Spot.Queue.{Store, put, distinct, length}
use tidebook.Spot.Match.Queue.{IsLinked-partial, IsLinked-full}
use tidebook.Spot.Match.Dequeue.{head_first, single}
use tidebook.Spot.Queue.View.{view_store-put, view_store-put-put, view_store-at}
use tidebook.Prediction.Book.View.{as_order, order_store, level_account, IsPredictionQueue}
use tidebook.Prediction.Match.{MatchPredictionOrder, check_accounting}
use tidebook.Prediction.Match.Steps.{is_full, check_successor, check_next}
use tidebook.Prediction.Match.Handler.{
  Matched, order_after, level_after, match_writes, handle_match_prediction_order,
}
use tidebook.Prediction.Match.Parts.{Parts, match-Parts}

-- The orders of the ledger after the successor, if there is one, and the maker are written.
abbrev pub put_next :
    Option (Account PredictionOrder) → Store PredictionOrder → Store PredictionOrder
put_next none st = st
put_next (some x) st = put x.key x.val st

abbrev pub matched_store : Matched → Store PredictionOrder → Store PredictionOrder
matched_store d st = put d.maker_order.key d.maker_order.val (put_next d.next_order st)

succeeds :
    (rt : Runtime) (outcome : PredictionOutcome) (c : MatchPredictionOrder)
    (o : Option (Account PredictionOrder))
    → check_successor rt outcome c o ≡ ok tt
    → (x : Account PredictionOrder) × ((o ≡ some x) × (c.maker_order.val.next_order ≡ some x.key))
unfolding check_successor
succeeds rt outcome c none h = absurd (ground arith)
succeeds rt outcome c (some x) h = (x, (refl, ground arith))

module _ (rt : Runtime) (now : ℤ) (outcome : PredictionOutcome) (side : OrderSide)
    (limit_price quantity : ℕ) (c : MatchPredictionOrder) (d : Matched) (st : Store PredictionOrder)
    (ks : List Pubkey) (p : Parts rt now outcome side limit_price quantity c d)
    (q : IsPredictionQueue st c.price_level ks)
    (stored : st c.maker_order.key ≡ some c.maker_order.val)
    (next_stored : (x : Account PredictionOrder)
      → c.next_order ≡ some x
      → st x.key ≡ some x.val) where
  partial_serves :
      is_full p.next ≡ false
      → (d.maker_order.val.status ≡ open_)
        × ((level : Account PredictionPriceLevel) × ((d.price_level ≡ some level)
              × IsPredictionQueue (matched_store d st) level ks))
  unfolding match_writes order_after level_after check_next
  partial_serves part =
      let n = p.next in
      let o = c.maker_order.val in
      let l = c.price_level in
      let o' = record o { remaining_quantity = n.remaining; locked_collateral = p.new_backing } in
      let l' : Account PredictionPriceLevel = record {
        key = l.key;
        val = record l.val { total_remaining_quantity = n.level_quantity };
      } in
      let alone : c.next_order ≡ none = ground (arith, p.next_checked) in
      let after : d.maker_order ≡ record { key = c.maker_order.key; val = o' } =
        ground (arith, p.written) in
      let no_next : d.next_order ≡ none = ground (arith, p.written) in
      (
        ground (arith, p.written, p.maker.is_open_),
        (
          l',
          (
            ground (arith, p.written),
            rw (after, no_next, view_store-put as_order c.maker_order.key o' st)
                (record {
                  linked = rw p.maker.first (
                      IsLinked-partial (order_store st) l.key c.maker_order.key l.val.last_order
                        l.val.total_remaining_quantity n.level_quantity n.remaining p.new_backing
                        n.fill ks (as_order o) (rw p.maker.first at q.linked)
                        (view_store-at as_order st c.maker_order.key o stored) p.values.left
                        p.values.level_left);
                  counted = q.counted;
                  apart = q.apart;
                }),
          ),
        ),
      )

  full_serves :
      is_full p.next ≡ true
      → (c.price_level.val.order_count == 1) ≡ false
      → (rest : List Pubkey) → ks ≡ c.maker_order.key ∷ rest
      → (level : Account PredictionPriceLevel) × ((d.price_level ≡ some level)
          × IsPredictionQueue (matched_store d st) level rest)
  unfolding match_writes order_after level_after check_next check_accounting length distinct
  full_serves full more rest e =
      let n = p.next in
      let o = c.maker_order.val in
      let l = c.price_level in
      let (x, (supplied, named)) =
        succeeds rt outcome c c.next_order (ground (arith, p.next_checked)) in
      let x' = record x.val { previous_order = none } in
      let l' : Account PredictionPriceLevel = record { key = l.key; val = level_after c n l.val } in
      let after = order_after n p.new_backing o in
      let maker_is : d.maker_order ≡ record { key = c.maker_order.key; val = after } =
        ground (arith, p.written) in
      let next_is : d.next_order ≡ some (record { key = x.key; val = x' }) =
        ground (arith, p.written) in
      let first : l'.val.first_order ≡ some x.key = ground arith in
      let total : l'.val.total_remaining_quantity ≡ n.level_quantity = ground arith in
      let last : l'.val.last_order ≡ l.val.last_order = ground arith in
      let count : l'.val.order_count + 1 ≡ l.val.order_count = ground (arith, p.accounting) in
      (
        l',
        (
          ground (arith, p.written),
          rw (maker_is, next_is, view_store-put-put as_order c.maker_order.key x.key after x' st)
              (record {
                linked =
                    rw (first, total, last)
                      (IsLinked-full (order_store st) l.key c.maker_order.key x.key l.val.last_order
                        l.val.total_remaining_quantity n.level_quantity c.maker_order.key rest
                        (as_order o) (as_order after) (as_order x.val)
                        (rw (p.maker.first, e) at q.linked)
                        (view_store-at as_order st c.maker_order.key o stored) named
                        (view_store-at as_order st x.key x.val (next_stored x supplied))
                        (ground (arith, p.values.left, p.values.level_left)));
                counted = ground (arith, q.counted);
                apart = ground (arith, q.apart);
              }),
        ),
      )

-- A prediction match serves the FIFO queue of its level from the head: where the level and the orders
-- on the ledger stand for the queue `ks` and the supplied orders are the stored ones, the maker is the
-- first of `ks`. Either it stays open and the level stands for `ks` still, or it is filled, and the
-- level stands for the rest of `ks`, or it is closed and the rest is empty; count and total are right.
pub match_prediction_serves :
    (rt : Runtime) (now : ℤ) (outcome : PredictionOutcome) (side : OrderSide)
    (limit_price quantity : ℕ) (c : MatchPredictionOrder) (d : Matched) (st : Store PredictionOrder)
    (ks : List Pubkey)
    → handle_match_prediction_order rt now outcome side limit_price quantity c ≡ ok d
    → IsPredictionQueue st c.price_level ks
    → st c.maker_order.key ≡ some c.maker_order.val
    → ((x : Account PredictionOrder) → c.next_order ≡ some x → st x.key ≡ some x.val)
    → (rest : List Pubkey) × ((ks ≡ c.maker_order.key ∷ rest)
        × (((d.maker_order.val.status ≡ open_)
              × ((level : Account PredictionPriceLevel) × ((d.price_level ≡ some level)
                    × IsPredictionQueue (matched_store d st) level ks)))
            ⊎ ((d.maker_order.val.status ≡ filled)
                × (((level : Account PredictionPriceLevel) × ((d.price_level ≡ some level)
                        × IsPredictionQueue (matched_store d st) level rest))
                    ⊎ ((d.price_level ≡ none) × (rest ≡ []))))))
unfolding match_writes order_after
match_prediction_serves rt now outcome side limit_price quantity c d st ks h q stored next_stored =
    let p = match-Parts rt now outcome side limit_price quantity c d h in
    let (rest, e) =
      head_first (order_store st) (level_account c.price_level) ks c.maker_order.key q
        p.maker.first in
    (
      rest,
      (
        e,
        elim (Bool-cases (is_full p.next)) [
          | inr part ↦ inl (
              partial_serves rt now outcome side limit_price quantity c d st ks p q stored
                next_stored part)
          | inl full ↦ inr (
            ground (arith, p.written),
            elim (Bool-cases (c.price_level.val.order_count == 1)) [
              | inr more ↦ inl (
                  full_serves rt now outcome side limit_price quantity c d st ks p q stored
                    next_stored full more rest e)
              | inl one ↦ inr (
                ground (arith, p.written),
                single c.maker_order.key ks rest e (sym q.counted ∙ ground arith),
              )
            ],
          )
        ],
      ),
    )
