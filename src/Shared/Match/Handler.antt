-- ===== src/Shared/Match/Handler.antt =====
-- The writes of a match in a shared book and its handler
-- (programs/tidebook/src/instructions/shared_match.rs).
use tidebook.Base.{ℕ, none, some, Result, ok, ◌>>=◌, ◌>>◌, if◌then◌else◌}
use tidebook.Base.Int.{ℤ}
use tidebook.State.{Account, Runtime, OrderSide, filled, SharedOutcome, SharedOrder}
use tidebook.Shared.Rules.{Claims, trading_open, order_terms, check_trader}
use tidebook.Shared.Remove.{Removal, Removed, remove_order}
use tidebook.Shared.Match.{
  MatchSharedOrder, check_accounts, check_maker, Next, next_values, check_hints, settle_claims,
}

-- The accounts after the match; a level that it has closed is `none` in `queue`.
pub record Matched : Type 0 where
  pub queue : Removed
  pub maker_order : Account SharedOrder
  pub maker_claims : Claims
  pub taker_claims : Claims

abbrev pub removal : MatchSharedOrder → Removal
removal c = record {
  book = c.book;
  removed = c.maker_order;
  current = c.price_level;
  previous = none;
  next = c.next_order;
  better = none;
  worse = c.worse_level;
  recipient = c.level_rent_recipient;
}

-- The accounts of the book where the maker stays in its queue: only the level's total changes.
abbrev pub kept : Next → MatchSharedOrder → Removed
kept n c = record {
  book = c.book;
  current = some (record c.price_level {
    val = record c.price_level.val { total_remaining_quantity = n.total };
  });
  previous = none;
  next = c.next_order;
  better = none;
  worse = c.worse_level;
}

unfoldable pub update_queue : Runtime → Next → MatchSharedOrder → Result Removed
update_queue rt n c =
    if n.plan.maker_fully_filled then remove_order rt (removal c) else ok (kept n c)

unfoldable pub order_after : Next → SharedOrder → SharedOrder
order_after n o =
    if n.plan.maker_fully_filled
    then record o {
      remaining_quantity = n.remaining;
      locked_collateral = n.collateral;
      status = filled;
      previous_order = none;
      next_order = none;
    }
    else record o { remaining_quantity = n.remaining; locked_collateral = n.collateral }

abbrev pub set_accrued : (accrued : ℕ) → Removed → Removed
set_accrued accrued r = record r {
  book = record r.book { val = record r.book.val { accrued_quote_fees = accrued } };
}

unfoldable pub handle_match_shared_order :
    Runtime
    → (now : ℤ) → SharedOutcome
    → OrderSide
    → (limit_price quantity : ℕ) → MatchSharedOrder
    → Result Matched
handle_match_shared_order rt now outcome taker_side limit_price quantity c = do
  let book = c.book.val
  check_accounts rt c
  trading_open rt now book c.market
  (i, _) ← order_terms book outcome taker_side limit_price quantity
  check_maker rt outcome i c
  check_trader rt book c.maker_order.val.owner c.maker_claims
  check_trader rt book c.taker c.taker_claims
  n ← next_values taker_side limit_price quantity c
  check_hints n c
  settled ← settle_claims taker_side book.kind outcome n c.maker_claims c.taker_claims
  queue ← update_queue rt n c
  ok (record {
    queue = set_accrued n.accrued queue;
    maker_order = record { key = c.maker_order.key; val = order_after n c.maker_order.val };
    maker_claims = settled.maker;
    taker_claims = settled.taker;
  })
