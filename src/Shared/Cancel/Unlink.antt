-- ===== src/Shared/Cancel/Unlink.antt =====
-- A cancellation takes a shared order out of its queue and gives its lock back
-- (programs/tidebook/src/instructions/shared_orders.rs).
use tidebook.Base.{ℕ, ◌+◌, ◌≡◌, ◌⊎◌, List, [], none, some, true, ok, bind_case, arith}
use tidebook.State.{Pubkey, Account, Runtime, SharedOrder, SharedPriceLevel}
use tidebook.Spot.Queue.{Store, mem}
use tidebook.Spot.Cancel.Remove.{remove}
use tidebook.Shared.Rules.{check_trader}
use tidebook.Shared.Links.{Bucket, check_order, side_buckets, write_side_buckets}
use tidebook.Shared.Queue.{IsSharedQueue}
use tidebook.Shared.Locks.{Locks, released-Locks}
use tidebook.Shared.Remove.{Removed, remove_order}
use tidebook.Shared.Remove.Unlink.{removed_store, remove_order_unlinks}
use tidebook.Shared.Cancel.{
  CancelSharedOrder, Canceled, check_accounts, release, removal, order_after,
  handle_cancel_shared_order,
}

pub record Parts (rt : Runtime) (c : CancelSharedOrder) (d : Canceled) : Type 0 where
  pub removed : Removed
  pub checked : check_order rt c.order c.book ≡ ok tt
  pub removal_is : remove_order rt (removal c) ≡ ok removed
  lock :
      Locks c.book.val.kind c.order.val.outcome c.order.val.side c.order.val.locked_collateral
        d.claims c.claims
  removed_is : d.removed ≡ removed
  order_is : d.order ≡ record { key = c.order.key; val = order_after c.order.val }

release-moves :
    (b new : Bucket) (amount : ℕ)
    → release b amount ≡ ok new
    → (b.free + amount ≡ new.free) × (b.locked ≡ new.locked + amount)
unfolding release
release-moves b new amount h = ground arith

pub cancel-Parts :
    (rt : Runtime) (c : CancelSharedOrder) (d : Canceled)
    → handle_cancel_shared_order rt c ≡ ok d
    → Parts rt c d
unfolding handle_cancel_shared_order
cancel-Parts rt c d h =
    let o = c.order.val in
    let kind = c.book.val.kind in
    bind_case (check_accounts rt c) _ h λ _ _ h₁.
      bind_case (check_trader rt c.book.val c.owner c.claims) _ h₁ λ _ _ h₂.
        bind_case (check_order rt c.order c.book) _ h₂ λ _ checked h₃.
          bind_case (side_buckets kind o.outcome o.side c.claims) _ h₃ λ b bucket h₄.
            bind_case (release b o.locked_collateral) _ h₄ λ new released h₅.
              bind_case (remove_order rt (removal c)) _ h₅ λ r removed h₆.
                let (credited, unlocked) = release-moves b new o.locked_collateral released in
                let claims_are : d.claims ≡ write_side_buckets kind o.outcome o.side new c.claims =
                  ground arith in
                record {
                  removed = r;
                  checked = ground arith;
                  removal_is = removed;
                  lock = rw claims_are (
                      released-Locks kind o.outcome o.side o.locked_collateral b new c.claims bucket
                        credited unlocked);
                  removed_is = ground arith;
                  order_is = ground arith;
                }

-- A cancellation takes a shared order out of the FIFO queue of its level, from any place of it, in
-- every market: where the level and the orders on the ledger stand for the queue `ks`, which holds the
-- order, and the supplied accounts are the stored ones, a level that is still open stands for `ks`
-- without the order afterwards, and the level is closed only where no order is left. The lock of the
-- order is free again: putting it back on the claims after the cancellation gives the claims before,
-- and all that is owned of each asset is owned still.
pub cancel_shared_unlinks :
    (rt : Runtime) (c : CancelSharedOrder) (d : Canceled) (st : Store SharedOrder)
    (ks : List Pubkey)
    → handle_cancel_shared_order rt c ≡ ok d
    → IsSharedQueue st c.price_level ks
    → mem c.order.key ks ≡ true
    → st c.order.key ≡ some c.order.val
    → ((p : Account SharedOrder) → c.previous_order ≡ some p → st p.key ≡ some p.val)
    → ((a : Account SharedOrder) → c.next_order ≡ some a → st a.key ≡ some a.val)
    → (((level : Account SharedPriceLevel) × ((d.removed.current ≡ some level)
            × IsSharedQueue
                (removed_store d.removed d.order.key d.order.val st)
                level
                (remove c.order.key ks)))
        ⊎ ((d.removed.current ≡ none) × (remove c.order.key ks ≡ [])))
      × Locks c.book.val.kind c.order.val.outcome c.order.val.side c.order.val.locked_collateral
          d.claims c.claims
cancel_shared_unlinks rt c d st ks h queue m stored ps ns =
    let p = cancel-Parts rt c d h in
    (
      rw (p.removed_is, p.order_is)
          (remove_order_unlinks st ks (removal c) rt p.removed (order_after c.order.val)
            p.removal_is queue m stored ps ns),
      p.lock,
    )
