-- ===== src/Spot/Placement/Collateral.antt =====
-- What a new order locks (programs/tidebook/src/instructions/append_limit_order.rs and
-- insert_limit_order.rs).
use tidebook.Base.{ℕ, ◌+◌, ◌≤◌, ◌<◌, ◌≡◌, ok, arith}
use tidebook.Base.Word.{u64_max}
use tidebook.State.{Market, OrderSide, bid, ask, TraderBalance}
use tidebook.Matching.Fill.{notional, quote_notional-cases}
use tidebook.Matching.Funding.{IsFunded}
use tidebook.Spot.Placement.{order_collateral, side_collateral, lock_balance}

-- What a ledger owns in one asset, and the part that is locked for one side.
abbrev pub base_total : TraderBalance → ℕ
base_total b = b.base_free + b.base_locked

abbrev pub quote_total : TraderBalance → ℕ
quote_total b = b.quote_free + b.quote_locked

abbrev pub locked_for : OrderSide → TraderBalance → ℕ
locked_for bid b = b.quote_locked
locked_for ask b = b.base_locked

-- The collateral of a new order funds the whole order, and its worth is positive.
pub order_collateral-IsFunded :
    (m : Market) (side : OrderSide) (price quantity locked : ℕ)
    → order_collateral m side price quantity ≡ ok locked
    → IsFunded side price quantity locked m.base_decimals
      × (0 < notional price quantity m.base_decimals)
unfolding order_collateral side_collateral
order_collateral-IsFunded m bid price quantity locked h =
    ground (arith, quote_notional-cases price quantity m.base_decimals)
order_collateral-IsFunded m ask price quantity locked h =
    ground (arith, quote_notional-cases price quantity m.base_decimals)

-- What a lock does to a ledger.
pub record Locks (side : OrderSide) (amount : ℕ) (b b' : TraderBalance) : Type 0 where
  pub base_kept : base_total b' ≡ base_total b
  pub quote_kept : quote_total b' ≡ quote_total b
  pub locked_more : locked_for side b' ≡ locked_for side b + amount
  pub locked_fits : locked_for side b' ≤ u64_max
  pub same_market : b'.market ≡ b.market
  pub same_owner : b'.owner ≡ b.owner

pub lock_balance-Locks :
    (side : OrderSide) (amount : ℕ) (b b' : TraderBalance)
    → lock_balance side amount b ≡ ok b'
    → Locks side amount b b'
unfolding lock_balance
lock_balance-Locks bid amount b b' h = ground arith
lock_balance-Locks ask amount b b' h = ground arith
