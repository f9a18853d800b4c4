-- ===== src/Spot/Cancel/Unlinked.antt =====
-- The queue of a level after an order has left it, its neighbors linked to each other
-- (programs/tidebook/src/instructions/cancel_limit_order.rs).
use tidebook.Base.{
  ℕ, ◌+◌, ◌≡◌, refl, sym, ap, ◌∙◌, List, Option, none, some, is_none, true, false, ◌==◌, arith,
  if◌then◌else◌,
}
use tidebook.State.{Pubkey, Account, Order, PriceLevel}
use tidebook.Spot.Match.Steps.{key_of}
use tidebook.Spot.Queue.{Store, put, mem, IsQueue}
use tidebook.Spot.Cancel.Handler.{set_next, set_previous}
use tidebook.Spot.Cancel.Remove.{remove, length-remove, distinct-remove}
use tidebook.Spot.Cancel.Neighbors.{Neighbors, last_after, neighbors_apart, first_is}
use tidebook.Spot.Cancel.Queue.{Unlinks, IsLinked-remove}

-- The orders of the ledger after the order and its neighbors, if there are any, are written.
abbrev pub put_order : Option (Account Order) → Store Order → Store Order
put_order none st = st
put_order (some a) st = put a.key a.val st

store_after-Unlinks :
    (st : Store Order) (x : Pubkey) (o o' : Order) (previous next : Option (Account Order))
    → ((p n : Account Order) → previous ≡ some p → next ≡ some n → (p.key == n.key) ≡ false)
    → Unlinks st
        (put_order
          (set_previous o.previous_order next)
          (put_order (set_next o.next_order previous) (put x o' st)))
        x
        o
        previous
        next
unfolding put
store_after-Unlinks st x o o' none none f = record {
  at_previous = λ p e. absurd (ground arith);
  at_next = λ n e. absurd (ground arith);
  elsewhere = λ q ne np nn. ground arith;
}
store_after-Unlinks st x o o' (some p) none f = record {
  at_previous = λ v e. ground arith;
  at_next = λ n e. absurd (ground arith);
  elsewhere = λ q ne np nn. ground (arith, np p refl);
}
store_after-Unlinks st x o o' none (some n) f = record {
  at_previous = λ p e. absurd (ground arith);
  at_next = λ v e. ground arith;
  elsewhere = λ q ne np nn. ground (arith, nn n refl);
}
store_after-Unlinks st x o o' (some p) (some n) f = record {
  at_previous = λ v e. ground (arith, f p n refl refl);
  at_next = λ v e. ground arith;
  elsewhere = λ q ne np nn. ground (arith, np p refl, nn n refl);
}

-- The orders of the ledger after an order and its neighbors are written.
abbrev pub unlinked_store :
    (x : Pubkey) → Order → (previous next : Option (Account Order)) → Store Order → Store Order
unlinked_store x o' previous next st =
    put_order (set_previous (key_of previous) next)
      (put_order (set_next (key_of next) previous) (put x o' st))

-- The level without the order: a missing neighbor means that the order was its head or its tail.
abbrev pub unlinked_level :
    Account PriceLevel
    → (previous next : Option (Account Order)) → (count total : ℕ) → Account PriceLevel
unlinked_level level previous next count total = record level {
  val = record level.val {
    first_order = if is_none previous then key_of next else level.val.first_order;
    last_order = if is_none next then key_of previous else level.val.last_order;
    order_count = count;
    total_remaining_quantity = total;
  };
}

module _ (st : Store Order) (ks : List Pubkey) (level : Account PriceLevel) (x : Pubkey)
    (o o' : Order) (previous next : Option (Account Order)) where
  writes-Unlinks :
      Neighbors st x o previous next
      → IsQueue st level ks
      → mem x ks ≡ true
      → Unlinks st (unlinked_store x o' previous next st) x o previous next
  writes-Unlinks nb queue m =
      rw (sym nb.previous_is, sym nb.next_is)
        (store_after-Unlinks st x o o' previous next (λ p n e f.
          neighbors_apart st level.key x o previous next nb none level.val.first_order
            level.val.last_order level.val.total_remaining_quantity ks p.key n.key queue.linked m
            (λ k absent. absurd (ground arith)) queue.apart (nb.previous_is ∙ ap key_of e)
            (nb.next_is ∙ ap key_of f)))

  pub unlinked-IsQueue :
      (count total : ℕ)
      → Neighbors st x o previous next
      → IsQueue st level ks
      → mem x ks ≡ true
      → count + 1 ≡ level.val.order_count
      → total + o.remaining_quantity ≡ level.val.total_remaining_quantity
      → IsQueue
          (unlinked_store x o' previous next st)
          (unlinked_level level previous next count total)
          (remove x ks)
  unlinked-IsQueue count total nb queue m counted summed =
      let v = level.val in
      let un = writes-Unlinks nb queue m in
      let (left, (sum, chain)) =
        IsLinked-remove st (unlinked_store x o' previous next st) level.key x o previous next nb un
          none v.first_order v.last_order v.total_remaining_quantity ks queue.linked m
          (λ k absent. absurd (ground arith)) queue.apart in
      let left_is : left ≡ total = ground arith in
      let first =
        first_is st level.key x o previous next nb v.first_order v.last_order
          v.total_remaining_quantity ks queue.linked m in
      let last : last_after o v.last_order
          ≡ (if is_none next then key_of previous else v.last_order) =
        ground (arith, nb.next_is, nb.previous_is) in
      record {
        linked = rw (← first, ← last, ← left_is) chain;
        counted = ground (arith, queue.counted, length-remove x ks m);
        apart = distinct-remove x ks queue.apart;
      }
