-- ===== src/Shared/Place/Enqueue.antt =====
-- A new shared order joins the tail of the queue at its price, or opens it
-- (programs/tidebook/src/instructions/shared_orders.rs).
use tidebook.Base.{
  ℕ, ok_or, ◌+◌, ◌≡◌, refl, List, [], ◌∷◌, ◌++◌, none, some, is_none, true, false, ok, bind_case,
  require_case, Bool-cases, inl, inr, arith,
}
use tidebook.Base.Word.{checked_add, checked_add-ok}
use tidebook.Base.Int.{ℤ}
use tidebook.Errors.{program, invalid_shared_book, invalid_shared_neighbor}
use tidebook.State.{
  Pubkey, Account, Runtime, open_, OrderSide, SharedOutcome, SharedOrder, SharedPriceLevel, best_at,
}
use tidebook.Spot.Queue.{Store, put, length-snoc, distinct-snoc}
use tidebook.Spot.Queue.View.{
  opened-IsQueue, view_store, view_account, put_neighbor, view_store-put, view_store-at,
}
use tidebook.Spot.Append.Queue.{Joins, IsLinked-joined}
use tidebook.Spot.Append.Effects.{nonempty, unused_lem}
use tidebook.Matching.Funding.{IsFunded}
use tidebook.Shared.Links.{check_order}
use tidebook.Shared.Queue.{as_order, level_account, IsSharedQueue}
use tidebook.Shared.Locks.{Locks}
use tidebook.Shared.Place.{
  PlaceSharedOrder, Placed, Place, is_new_level, check_joined, check_tail, join_level, open_level,
  find_place, check_adjacent, check_gap,
}
use tidebook.Shared.Place.Handler.{new_level, level_after, place_writes, handle_place_shared_order}
use tidebook.Shared.Place.Parts.{place-Parts, order_terms-IsFunded, lock_claims-Locks}

-- The tests on the tail of an existing level.
record TailChecked (c : PlaceSharedOrder) (quantity : ℕ) (p : Place) : Type 0 where
  tail : Account SharedOrder
  tail_is : c.tail ≡ some tail
  is_last : c.price_level.val.last_order ≡ some tail.key
  rests_here : tail.val.price_level ≡ c.price_level.key
  ends : tail.val.next_order ≡ none
  previous_is : p.previous ≡ some tail.key
  counted : p.level_count ≡ c.price_level.val.order_count + 1
  summed : p.level_total ≡ c.price_level.val.total_remaining_quantity + quantity

check_tail-links :
    (rt : Runtime) (outcome : SharedOutcome) (side : OrderSide) (price : ℕ) (c : PlaceSharedOrder)
    (tail : Account SharedOrder)
    → check_tail rt outcome side price c tail ≡ ok tt
    → (c.price_level.val.last_order ≡ some tail.key)
      × (tail.val.price_level ≡ c.price_level.key)
      × (tail.val.next_order ≡ none)
unfolding check_tail
check_tail-links rt outcome side price c tail h =
    bind_case (check_order rt tail c.book) _ h λ _ _ h₁. ground arith

join_level-TailChecked :
    (rt : Runtime) (outcome : SharedOutcome) (side : OrderSide) (price quantity i : ℕ)
    (c : PlaceSharedOrder) (p : Place)
    → join_level rt outcome side price quantity i c ≡ ok p
    → TailChecked c quantity p
unfolding join_level
join_level-TailChecked rt outcome side price quantity i c p h =
    let level = c.price_level.val in
    let overflow = program invalid_shared_book in
    bind_case (check_joined rt outcome side price i c) _ h λ _ _ h₁.
      bind_case (ok_or c.tail (program invalid_shared_neighbor)) _ h₁ λ tail found h₂.
        bind_case (check_tail rt outcome side price c tail) _ h₂ λ _ checked h₃.
          bind_case (ok_or (checked_add level.order_count 1) overflow) _ h₃ λ count more h₄.
            bind_case (ok_or (checked_add level.total_remaining_quantity quantity) overflow) _ h₄
              λ total sum h₅.
                let count_is = checked_add-ok level.order_count 1 overflow more in
                let total_is =
                  checked_add-ok level.total_remaining_quantity quantity overflow sum in
                let (is_last, rests_here, ends) =
                  check_tail-links rt outcome side price c tail (ground arith) in
                record {
                  tail = tail;
                  tail_is = ground arith;
                  is_last = is_last;
                  rests_here = rests_here;
                  ends = ends;
                  previous_is = ground arith;
                  counted = ground (arith, count_is);
                  summed = ground (arith, total_is);
                }

-- The orders of the ledger afterwards.
abbrev pub placed_store : Placed → Store SharedOrder → Store SharedOrder
placed_store d st = put d.order.key d.order.val (put_neighbor d.tail st)

module _ (st : Store SharedOrder) (ks : List Pubkey) (level : Account SharedPriceLevel)
    (tail : Account SharedOrder) (k : Pubkey) (o : SharedOrder) where
  joined-IsSharedQueue :
      (level.val.last_order ≡ some tail.key)
      → tail.val.next_order ≡ none
      → (o.price_level ≡ level.key)
        × (o.status ≡ open_)
        × (o.previous_order ≡ some tail.key)
        × (o.next_order ≡ none)
      → IsSharedQueue st level ks
      → st tail.key ≡ some tail.val
      → st k ≡ none
      → IsSharedQueue
          (put k o (put tail.key (record tail.val { next_order = some k }) st))
          (record level {
            val = record level.val {
              last_order = some k;
              order_count = level.val.order_count + 1;
              total_remaining_quantity = level.val.total_remaining_quantity + o.remaining_quantity;
            };
          })
          (ks ++ (k ∷ []))
  joined-IsSharedQueue is_last ends (here, open_is, back, last) q stored fresh =
      let v = view_store as_order st in
      let t = view_account as_order tail in
      let l = level_account level in
      let t' = record tail.val { next_order = some k } in
      let (x, (xs, e)) = nonempty v l ks tail.key q is_last in
      let unused : v k ≡ none = rw fresh in
      let j : Joins v l.key t.key t.val k (as_order o) = record {
        tail_stored = view_store-at as_order st tail.key tail.val stored;
        tail_ends = ends;
        is_new = unused;
        rests_here = here;
        still_open = open_is;
        back = back;
        ends = last;
      } in
      rw (view_store-put as_order k o (put tail.key t' st), view_store-put as_order tail.key t' st)
        (record {
          linked = rw e (
              IsLinked-joined v l.key none l.val.first_order l.val.last_order
                l.val.total_remaining_quantity x xs t.key t.val k (as_order o) j (rw e at q.linked)
                is_last);
          counted = ground (arith, q.counted, length-snoc ks k);
          apart = distinct-snoc ks k q.apart (unused_lem v l ks k q unused);
        })

open_level-place :
    (rt : Runtime) (outcome : SharedOutcome) (side : OrderSide) (price quantity i : ℕ)
    (c : PlaceSharedOrder) (p : Place)
    → open_level rt outcome side price quantity i c ≡ ok p
    → (p.previous ≡ none) × (c.tail ≡ none)
unfolding open_level
open_level-place rt outcome side price quantity i c p h =
    require_case (is_none c.tail) (program invalid_shared_neighbor) _ h λ alone h₁.
      bind_case (check_adjacent rt outcome side c c.better_level) _ h₁ λ _ _ h₂.
        bind_case (check_adjacent rt outcome side c c.worse_level) _ h₂ λ _ _ h₃.
          bind_case
            (check_gap side price (best_at c.book.val.best_prices i) c.better_level c.worse_level) _
            h₃ λ _ _ h₄. (ground arith, ground arith)

-- Placing a shared order is the enqueue of the FIFO queue at its price, in every market: where the
-- level and the orders on the ledger stand for the queue `ks`, which is empty where the level is new,
-- the supplied tail is the stored one, and the new address is unused, they stand for `ks` with the new
-- order at its end afterwards, with the right count and total. The lock of the order covers its cost
-- and has moved from the free to the locked part of the bucket behind its side; all that the trader
-- owns is owned still.
pub place_shared_enqueues :
    (rt : Runtime) (now : ℤ) (outcome : SharedOutcome) (side : OrderSide)
    (price quantity order_id : ℕ) (c : PlaceSharedOrder) (d : Placed) (st : Store SharedOrder)
    (ks : List Pubkey)
    → handle_place_shared_order rt now outcome side price quantity order_id c ≡ ok d
    → (is_new_level c.price_level.val ≡ true → ks ≡ [])
    → (is_new_level c.price_level.val ≡ false → IsSharedQueue st c.price_level ks)
    → ((t : Account SharedOrder) → c.tail ≡ some t → st t.key ≡ some t.val)
    → st d.order.key ≡ none
    → IsSharedQueue (placed_store d st) d.price_level (ks ++ (d.order.key ∷ []))
      × IsFunded side price quantity d.order.val.locked_collateral c.book.val.base_decimals
      × Locks c.book.val.kind outcome side d.order.val.locked_collateral c.claims d.claims
unfolding place_writes level_after find_place
place_shared_enqueues rt now outcome side price quantity order_id c d st ks h opens joins stored
      fresh =
    let p = place-Parts rt now outcome side price quantity order_id c d h in
    let key_is : d.order.key ≡ c.order.key = ground (arith, p.written) in
    (
      elim (Bool-cases (is_new_level c.price_level.val)) [
        | inl new ↦
            let (back, alone) =
              open_level-place rt outcome side price quantity p.slot c p.place
                (ground (arith, p.placed)) in
            rw (p.written, opens new, new, alone, back)
              (opened-IsQueue as_order st c.order.key _
                (level_account (record {
                  key = c.price_level.key;
                  val = new_level outcome side price quantity p.place p.bumps c;
                }))
                (refl, refl, refl, refl, refl, refl, refl, refl))
        | inr old ↦
            let t =
              join_level-TailChecked rt outcome side price quantity p.slot c p.place
                (ground (arith, p.placed)) in
            rw (p.written, old, t.tail_is, t.counted, t.summed)
              (joined-IsSharedQueue st ks c.price_level t.tail c.order.key _ t.is_last t.ends
                (refl, refl, t.previous_is, refl) (joins old) (stored t.tail t.tail_is)
                (rw key_is at fresh))
      ],
      rw p.written
          (order_terms-IsFunded c.book.val outcome side price quantity p.slot p.amount p.terms),
      rw p.written (lock_claims-Locks c.book.val outcome side p.amount c.claims p.claims p.locks),
    )
