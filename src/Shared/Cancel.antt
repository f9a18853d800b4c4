-- ===== src/Shared/Cancel.antt =====
-- Canceling an order of a shared book (`handle_cancel_shared_order` of
-- programs/tidebook/src/instructions/shared_orders.rs).
pub mod Unlink
use tidebook.Base.{ℕ, [], ◌∷◌, Option, none, ◌==◌, Result, ok, ◌>>=◌, ◌>>◌, require, ok_or}
use tidebook.Base.Word.{checked_add, checked_sub}
use tidebook.Errors.{
  program, unauthorized_shared_order_owner, free_balance_overflow, locked_balance_underflow,
}
use tidebook.State.{
  Pubkey, Account, UncheckedAccount, Runtime, check_seeds, key_seed, shared_book_seed, canceled,
  SharedBook, SharedOrder, SharedPriceLevel,
}
use tidebook.Shared.Rules.{Claims, check_trader}
use tidebook.Shared.Links.{Bucket, check_order, side_buckets, write_side_buckets}
use tidebook.Shared.Remove.{Removal, Removed, remove_order}

pub record CancelSharedOrder : Type 0 where
  pub owner : Pubkey
  pub book : Account SharedBook
  pub claims : Claims
  pub order : Account SharedOrder
  pub price_level : Account SharedPriceLevel
  pub previous_order : Option (Account SharedOrder)
  pub next_order : Option (Account SharedOrder)
  pub better_level : Option (Account SharedPriceLevel)
  pub worse_level : Option (Account SharedPriceLevel)
  pub level_rent_recipient : Option UncheckedAccount

-- The accounts after the cancellation; what the removal has written is in `removed`.
pub record Canceled : Type 0 where
  pub removed : Removed
  pub claims : Claims
  pub order : Account SharedOrder

unfoldable pub check_accounts : Runtime → CancelSharedOrder → Result (Unit {0})
check_accounts rt c = do
  check_seeds rt (shared_book_seed ∷ key_seed c.book.val.market ∷ []) c.book.val.bump c.book.key
  require (c.order.val.owner == c.owner) (program unauthorized_shared_order_owner)

-- The bucket with the amount free again.
unfoldable pub release : Bucket → (amount : ℕ) → Result Bucket
unfolding checked_add checked_sub
release b amount = do
  new_free ← ok_or (checked_add b.free amount) (program free_balance_overflow)
  new_locked ← ok_or (checked_sub b.locked amount) (program locked_balance_underflow)
  ok (record { free = new_free; locked = new_locked })

abbrev pub removal : CancelSharedOrder → Removal
removal c = record {
  book = c.book;
  removed = c.order;
  current = c.price_level;
  previous = c.previous_order;
  next = c.next_order;
  better = c.better_level;
  worse = c.worse_level;
  recipient = c.level_rent_recipient;
}

-- The order as a history account, which keeps its remainder.
abbrev pub order_after : SharedOrder → SharedOrder
order_after o = record o {
  status = canceled;
  locked_collateral = 0;
  previous_order = none;
  next_order = none;
}

unfoldable pub handle_cancel_shared_order : Runtime → CancelSharedOrder → Result Canceled
handle_cancel_shared_order rt c = do
  let o = c.order.val
  let kind = c.book.val.kind
  check_accounts rt c
  check_trader rt c.book.val c.owner c.claims
  check_order rt c.order c.book
  bucket ← side_buckets kind o.outcome o.side c.claims
  released ← release bucket o.locked_collateral
  removed ← remove_order rt (removal c)
  ok (record {
    removed = removed;
    claims = write_side_buckets kind o.outcome o.side released c.claims;
    order = record { key = c.order.key; val = order_after o };
  })
