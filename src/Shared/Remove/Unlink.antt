-- ===== src/Shared/Remove/Unlink.antt =====
-- A removal takes an order out of the queue of its level (`remove_order` of
-- programs/tidebook/src/shared_trading.rs).
use tidebook.Base.{
  ℕ, ◌+◌, ◌≡◌, refl, ◌⊎◌, List, [], Option, none, some, true, false, Bool-cases, inl, inr, ◌==◌, ok,
  bind_case, arith,
}
use tidebook.State.{Pubkey, Account, Runtime, SharedOrder, SharedPriceLevel}
use tidebook.Spot.Match.Steps.{key_of}
use tidebook.Spot.Queue.{Store, put, mem}
use tidebook.Spot.Queue.View.{
  view_store, view_neighbor, put_neighbor, view_store-at, key_view, none_view, put_views,
  stored_view, links_view,
}
use tidebook.Spot.Cancel.Remove.{remove, length-remove, empty}
use tidebook.Spot.Cancel.Neighbors.{Neighbors}
use tidebook.Spot.Cancel.Handler.{set_next as spot_set_next, set_previous as spot_set_previous}
use tidebook.Spot.Cancel.Unlinked.{unlinked-IsQueue}
use tidebook.Shared.Links.{check_order}
use tidebook.Shared.Queue.{as_order, level_account, IsSharedQueue}
use tidebook.Shared.Remove.{
  Removal, Removed, check_place, check_best, check_links, check_neighbor, Counters, next_counters,
  check_levels, set_next, set_previous, level_after, removal_writes, remove_order,
}

-- What the tests on the order and its neighbors establish.
pub record Linked (c : Removal) : Type 0 where
  pub previous_is : c.removed.val.previous_order ≡ key_of c.previous
  pub next_is : c.removed.val.next_order ≡ key_of c.next
  pub previous_links :
      (p : Account SharedOrder) → c.previous ≡ some p → p.val.next_order ≡ some c.removed.key

links_back :
    (rt : Runtime) (c : Removal) (o : Option (Account SharedOrder)) (p : Account SharedOrder)
    → check_neighbor rt true c o ≡ ok tt
    → o ≡ some p
    → p.val.next_order ≡ some c.removed.key
unfolding check_neighbor
links_back rt c none p h e = absurd (ground arith)
links_back rt c (some a) p h e = bind_case (check_order rt a c.book) _ h λ _ _ h₁. ground arith

links-Linked :
    (rt : Runtime) (c : Removal)
    → check_links c ≡ ok tt
    → check_neighbor rt true c c.previous ≡ ok tt
    → Linked c
unfolding check_links
links-Linked rt c k v = record {
  previous_is = ground arith;
  next_is = ground arith;
  previous_links = λ p e. links_back rt c c.previous p v e;
}

pub record Counted (c : Removal) (n : Counters) : Type 0 where
  pub orders : n.count + 1 ≡ c.current.val.order_count
  pub quantity : n.total + c.removed.val.remaining_quantity ≡ c.current.val.total_remaining_quantity
  pub open_orders : n.open_ + 1 ≡ c.book.val.open_order_count

next_counters-Counted : (c : Removal) (n : Counters) → next_counters c ≡ ok n → Counted c n
unfolding next_counters
next_counters-Counted c n h = ground arith

pub record Parts (rt : Runtime) (c : Removal) (r : Removed) : Type 0 where
  pub counters : Counters
  pub slot : ℕ
  pub placed : check_place rt c ≡ ok tt
  pub best : check_best c ≡ ok slot
  pub levels : check_levels rt c counters ≡ ok tt
  pub before : check_neighbor rt true c c.previous ≡ ok tt
  pub behind : check_neighbor rt false c c.next ≡ ok tt
  pub linked : Linked c
  pub counted : Counted c counters
  pub written : r ≡ removal_writes c counters slot

pub remove-Parts :
    (rt : Runtime) (c : Removal) (r : Removed) → remove_order rt c ≡ ok r → Parts rt c r
unfolding remove_order
remove-Parts rt c r h = bind_case (check_place rt c) _ h λ _ placed h₁.
    bind_case (check_best c) _ h₁ λ i best h₂. bind_case (check_links c) _ h₂ λ _ links h₃.
      bind_case (check_neighbor rt true c c.previous) _ h₃ λ _ before h₄.
        bind_case (check_neighbor rt false c c.next) _ h₄ λ _ behind h₅.
          bind_case (next_counters c) _ h₅ λ n counters h₆.
            bind_case (check_levels rt c n) _ h₆ λ _ levels h₇. record {
              counters = n;
              slot = i;
              placed = ground arith;
              best = best;
              levels = ground arith;
              before = ground arith;
              behind = ground arith;
              linked = links-Linked rt c (ground arith) (ground arith);
              counted = next_counters-Counted c n counters;
              written = ground arith;
            }

-- The orders of the ledger after the order, with the value that the caller gives it, and its
-- neighbors are written.
abbrev pub removed_store : Removed → Pubkey → SharedOrder → Store SharedOrder → Store SharedOrder
removed_store r k o st = put_neighbor r.next (put_neighbor r.previous (put k o st))

next_view :
    (k : Option Pubkey) (o : Option (Account SharedOrder))
    → view_neighbor as_order (set_next k o) ≡ spot_set_next k (view_neighbor as_order o)
next_view k none = refl
next_view k (some a) = refl

previous_view :
    (k : Option Pubkey) (o : Option (Account SharedOrder))
    → view_neighbor as_order (set_previous k o) ≡ spot_set_previous k (view_neighbor as_order o)
previous_view k none = refl
previous_view k (some a) = refl

module _ (st : Store SharedOrder) (ks : List Pubkey) (c : Removal) where
  Linked-Neighbors :
      Linked c
      → st c.removed.key ≡ some c.removed.val
      → ((p : Account SharedOrder) → c.previous ≡ some p → st p.key ≡ some p.val)
      → ((a : Account SharedOrder) → c.next ≡ some a → st a.key ≡ some a.val)
      → Neighbors
          (view_store as_order st)
          c.removed.key
          (as_order c.removed.val)
          (view_neighbor as_order c.previous)
          (view_neighbor as_order c.next)
  Linked-Neighbors q stored ps ns = record {
    order_stored = view_store-at as_order st c.removed.key c.removed.val stored;
    previous_is = rw (key_view as_order c.previous) q.previous_is;
    next_is = rw (key_view as_order c.next) q.next_is;
    previous_stored = stored_view as_order st c.previous ps;
    previous_links = links_view as_order c.removed.key c.previous q.previous_links;
    next_stored = stored_view as_order st c.next ns;
  }

  left-IsQueue :
      (n : Counters) (o' : SharedOrder)
      → Linked c
      → IsSharedQueue st c.current ks
      → mem c.removed.key ks ≡ true
      → Neighbors
          (view_store as_order st)
          c.removed.key
          (as_order c.removed.val)
          (view_neighbor as_order c.previous)
          (view_neighbor as_order c.next)
      → Counted c n
      → IsSharedQueue
          (put_neighbor
            (set_previous c.removed.val.previous_order c.next)
            (put_neighbor (set_next c.removed.val.next_order c.previous) (put c.removed.key o' st)))
          (record { key = c.current.key; val = level_after c n c.current.val })
          (remove c.removed.key ks)
  unfolding level_after
  left-IsQueue n o' q queue m nb counted =
      let whole =
        unlinked-IsQueue (view_store as_order st) ks (level_account c.current) c.removed.key
          (as_order c.removed.val) (as_order o') (view_neighbor as_order c.previous)
          (view_neighbor as_order c.next) n.count n.total nb queue m counted.orders
          counted.quantity in
      rw
        (
          put_views as_order (set_previous c.removed.val.previous_order c.next)
              (set_next c.removed.val.next_order c.previous) c.removed.key o' st,
          previous_view c.removed.val.previous_order c.next,
          next_view c.removed.val.next_order c.previous,
          q.previous_is,
          q.next_is,
        )
        (rw
          (
            none_view as_order c.previous,
            none_view as_order c.next,
            key_view as_order c.previous,
            key_view as_order c.next,
          )
          at whole)

  -- A removal that goes through takes the order out of the queue of its level, from any place of it; a
  -- level that is still open stands for the rest, and the level is closed only where nothing is left.
  pub remove_order_unlinks :
      (rt : Runtime) (r : Removed) (o' : SharedOrder)
      → remove_order rt c ≡ ok r
      → IsSharedQueue st c.current ks
      → mem c.removed.key ks ≡ true
      → st c.removed.key ≡ some c.removed.val
      → ((p : Account SharedOrder) → c.previous ≡ some p → st p.key ≡ some p.val)
      → ((a : Account SharedOrder) → c.next ≡ some a → st a.key ≡ some a.val)
      → ((level : Account SharedPriceLevel) × ((r.current ≡ some level)
            × IsSharedQueue (removed_store r c.removed.key o' st) level (remove c.removed.key ks)))
        ⊎ ((r.current ≡ none) × (remove c.removed.key ks ≡ []))
  unfolding removal_writes
  remove_order_unlinks rt r o' h queue m stored ps ns =
      let p = remove-Parts rt c r h in
      let n = p.counters in
      let nb = Linked-Neighbors p.linked stored ps ns in
      elim (Bool-cases (n.count == 0)) [
        | inl closes ↦ inr (
          ground (arith, p.written),
          empty (remove c.removed.key ks)
              (ground (arith, p.counted.orders, queue.counted, length-remove c.removed.key ks m)),
        )
        | inr stays ↦ inl (
          record { key = c.current.key; val = level_after c n c.current.val },
          (
            ground (arith, p.written),
            rw p.written (left-IsQueue n o' p.linked queue m nb p.counted),
          ),
        )
      ]
