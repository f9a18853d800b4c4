-- ===== src/Shared/Match/Dequeue.antt =====
-- A match in a shared book serves the queue of a level from its head
-- (programs/tidebook/src/instructions/shared_match.rs).
use tidebook.Base.{
  ℕ, ◌≡◌, refl, List, [], ◌∷◌, none, some, true, false, Bool-cases, ◌⊎◌, inl, inr, ok, bind_case,
  arith,
}
use tidebook.Base.Int.{ℤ}
use tidebook.State.{
  Pubkey, Account, Runtime, OrderSide, open_, filled, SharedOutcome, SharedBook, SharedOrder, slot,
  SharedPriceLevel,
}
use tidebook.Spot.Queue.{Store, mem}
use tidebook.Spot.Queue.View.{view_store, view_store-put, view_store-at}
use tidebook.Spot.Match.Queue.{IsLinked-partial}
use tidebook.Spot.Match.Dequeue.{head_first}
use tidebook.Spot.Cancel.Remove.{remove}
use tidebook.Shared.Links.{check_level, check_order}
use tidebook.Shared.Queue.{as_order, level_account, IsSharedQueue}
use tidebook.Shared.Remove.Unlink.{removed_store, remove_order_unlinks}
use tidebook.Shared.Match.{MatchSharedOrder, check_maker, check_hints}
use tidebook.Shared.Match.Handler.{
  Matched, removal, kept, update_queue, order_after, handle_match_shared_order,
}
use tidebook.Shared.Match.Parts.{Parts, match-Parts}

record MakerChecked (c : MatchSharedOrder) : Type 0 where
  still_open : c.maker_order.val.status ≡ open_
  first : c.price_level.val.first_order ≡ some c.maker_order.key

check_order-open :
    (rt : Runtime) (o : Account SharedOrder) (book : Account SharedBook)
    → check_order rt o book ≡ ok tt
    → o.val.status ≡ open_
unfolding check_order
check_order-open rt o book h =
    bind_case (slot book.val o.val.outcome o.val.side) _ h λ _ _ h₁. ground arith

check_maker-MakerChecked :
    (rt : Runtime) (outcome : SharedOutcome) (slot : ℕ) (c : MatchSharedOrder)
    → check_maker rt outcome slot c ≡ ok tt
    → MakerChecked c
unfolding check_maker
check_maker-MakerChecked rt outcome slot c h =
    bind_case (check_order rt c.maker_order c.book) _ h λ _ order h₁.
      bind_case (check_level rt c.price_level c.book) _ h₁ λ _ _ h₂. record {
        still_open = check_order-open rt c.maker_order c.book (ground arith);
        first = ground arith;
      }

remove-head : (k : Pubkey) (ks : List Pubkey) → remove k (k ∷ ks) ≡ ks
unfolding remove
remove-head k ks = ground arith

mem-head : (k : Pubkey) (ks : List Pubkey) → mem k (k ∷ ks) ≡ true
unfolding mem
mem-head k ks = ground arith

module _ (rt : Runtime) (outcome : SharedOutcome) (side : OrderSide) (limit_price quantity : ℕ)
    (c : MatchSharedOrder) (d : Matched) (st : Store SharedOrder) (ks : List Pubkey)
    (p : Parts rt outcome side limit_price quantity c d) (q : IsSharedQueue st c.price_level ks)
    (stored : st c.maker_order.key ≡ some c.maker_order.val) where
  partial_serves :
      p.next.plan.maker_fully_filled ≡ false
      → (d.maker_order.val.status ≡ open_)
        × ((level : Account SharedPriceLevel) × ((d.queue.current ≡ some level)
              × IsSharedQueue
                  (removed_store d.queue d.maker_order.key d.maker_order.val st)
                  level
                  ks))
  unfolding update_queue order_after check_hints
  partial_serves part =
      let n = p.next in
      let o = c.maker_order.val in
      let l = c.price_level in
      let m = check_maker-MakerChecked rt outcome p.slot c p.maker in
      let o' = record o { remaining_quantity = n.remaining; locked_collateral = n.collateral } in
      let l' : Account SharedPriceLevel = record {
        key = l.key;
        val = record l.val { total_remaining_quantity = n.total };
      } in
      let alone : c.next_order ≡ none = ground (arith, p.hints) in
      let queue_is : p.queue ≡ kept n c = ground (arith, p.updated) in
      let order_is : order_after n o ≡ o' = ground arith in
      (
        ground (arith, p.written, m.still_open),
        (
          l',
          (
            rw (p.written, queue_is) refl,
            rw
                (
                  p.written,
                  queue_is,
                  order_is,
                  alone,
                  view_store-put as_order c.maker_order.key o' st,
                )
                (record {
                  linked = rw m.first (
                      IsLinked-partial (view_store as_order st) l.key c.maker_order.key
                        l.val.last_order l.val.total_remaining_quantity n.total n.remaining
                        n.collateral n.plan.fill.base_quantity ks (as_order o)
                        (rw m.first at q.linked)
                        (view_store-at as_order st c.maker_order.key o stored) p.values.left
                        p.values.summed);
                  counted = q.counted;
                  apart = q.apart;
                }),
          ),
        ),
      )

  full_serves :
      p.next.plan.maker_fully_filled ≡ true
      → ((x : Account SharedOrder) → c.next_order ≡ some x → st x.key ≡ some x.val)
      → (rest : List Pubkey) → ks ≡ c.maker_order.key ∷ rest
      → ((level : Account SharedPriceLevel) × ((d.queue.current ≡ some level)
            × IsSharedQueue
                (removed_store d.queue d.maker_order.key d.maker_order.val st)
                level
                rest))
        ⊎ ((d.queue.current ≡ none) × (rest ≡ []))
  unfolding update_queue
  full_serves full next_stored rest e =
      let k = c.maker_order.key in
      let whole =
        remove_order_unlinks st (k ∷ rest) (removal c) rt p.queue
          (order_after p.next c.maker_order.val) (ground (arith, p.updated)) (rw e at q)
          (mem-head k rest) stored (λ a absent. absurd (ground arith)) next_stored in
      rw p.written (rw (remove-head k rest) at whole)

-- A match in a shared book serves the FIFO queue of its level from the head: where the level and the
-- orders on the ledger stand for the queue `ks` and the supplied orders are the stored ones, the maker
-- is the first of `ks`. Either it stays open and the level stands for `ks` still, or it is filled, and
-- the level stands for the rest of `ks`, or it is closed and the rest is empty; count and total are
-- right.
pub match_shared_serves :
    (rt : Runtime) (now : ℤ) (outcome : SharedOutcome) (side : OrderSide) (limit_price quantity : ℕ)
    (c : MatchSharedOrder) (d : Matched) (st : Store SharedOrder) (ks : List Pubkey)
    → handle_match_shared_order rt now outcome side limit_price quantity c ≡ ok d
    → IsSharedQueue st c.price_level ks
    → st c.maker_order.key ≡ some c.maker_order.val
    → ((x : Account SharedOrder) → c.next_order ≡ some x → st x.key ≡ some x.val)
    → (rest : List Pubkey) × ((ks ≡ c.maker_order.key ∷ rest)
        × (((d.maker_order.val.status ≡ open_)
              × ((level : Account SharedPriceLevel) × ((d.queue.current ≡ some level)
                    × IsSharedQueue
                        (removed_store d.queue d.maker_order.key d.maker_order.val st)
                        level
                        ks)))
            ⊎ ((d.maker_order.val.status ≡ filled)
                × (((level : Account SharedPriceLevel) × ((d.queue.current ≡ some level)
                        × IsSharedQueue
                            (removed_store d.queue d.maker_order.key d.maker_order.val st)
                            level
                            rest))
                    ⊎ ((d.queue.current ≡ none) × (rest ≡ []))))))
unfolding order_after
match_shared_serves rt now outcome side limit_price quantity c d st ks h q stored next_stored =
    let p = match-Parts rt now outcome side limit_price quantity c d h in
    let m = check_maker-MakerChecked rt outcome p.slot c p.maker in
    let (rest, e) =
      head_first (view_store as_order st) (level_account c.price_level) ks c.maker_order.key q
        m.first in
    (
      rest,
      (
        e,
        elim (Bool-cases p.next.plan.maker_fully_filled) [
          | inr part ↦
              inl (partial_serves rt outcome side limit_price quantity c d st ks p q stored part)
          | inl full ↦ inr (
            ground (arith, p.written),
            full_serves rt outcome side limit_price quantity c d st ks p q stored full next_stored
                rest e,
          )
        ],
      ),
    )
