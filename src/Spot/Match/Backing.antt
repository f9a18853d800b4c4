-- ===== src/Spot/Match/Backing.antt =====
-- What a match does to the maker's lock and what the taker exchanges
-- (programs/tidebook/src/instructions/match_limit_order.rs).
use tidebook.Base.{ℕ, ◌+◌, ◌-◌, ◌≡◌, refl, true, false, Bool-cases, inl, inr, ◌⊎◌, ok, arith}
use tidebook.State.{Runtime, Order, OrderSide, bid, ask, side_eq, TraderBalance}
use tidebook.Matching.{SettlementPlan}
use tidebook.Matching.Fill.{notional-zero}
use tidebook.Matching.Plan.{Request, Planned, MakerAmounts, settle-Planned, maker_amounts}
use tidebook.Matching.Funding.{IsFunded, settle-IsFunded}
use tidebook.Spot.Placement.Collateral.{locked_for}
use tidebook.Spot.Match.Defs.{MatchLimitOrder}
use tidebook.Spot.Match.Steps.{Next, Balances, settle_balances}
use tidebook.Spot.Match.Writes.{Matched, order_after, match_writes}
use tidebook.Spot.Match.Handler.{handle_match_limit_order}
use tidebook.Spot.Match.Parts.{request, match-Parts}

-- The lock of an order is the part of its owner's ledger that stands behind it.
abbrev pub IsFundedOrder : Order → ℕ → Type 0
IsFundedOrder o decimals = IsFunded o.side o.price o.remaining_quantity o.locked_collateral decimals

maker_unlocks :
    (side maker_side : OrderSide) (n : Next) (taker maker : TraderBalance) (b : Balances)
    → side_eq side maker_side ≡ false
    → settle_balances side n taker maker ≡ ok b
    → locked_for maker_side b.maker + n.plan.maker_locked_debit ≡ locked_for maker_side maker
unfolding settle_balances
maker_unlocks bid ask n taker maker b opp h = ground arith
maker_unlocks ask bid n taker maker b opp h = ground arith
maker_unlocks bid bid n taker maker b opp h = absurd (ground arith)
maker_unlocks ask ask n taker maker b opp h = absurd (ground arith)

full_debit :
    (s : OrderSide) (r : Request) (p : SettlementPlan)
    → Planned r p
    → MakerAmounts s r p
    → p.maker_fully_filled ≡ true
    → p.maker_locked_debit ≡ r.maker_locked_collateral
full_debit bid r p k a full = ground (arith, a)
full_debit ask r p k a full = ground (arith, a, k.maker_flag)

IsFunded-zero : (s : OrderSide) (price decimals : ℕ) → IsFunded s price 0 0 decimals
IsFunded-zero bid price decimals = ground (arith, notional-zero price decimals)
IsFunded-zero ask price decimals = refl

after-IsFunded :
    (s : OrderSide) (n : Next) (o : Order) (decimals : ℕ)
    → o.side ≡ s
    → (n.plan.maker_fully_filled ≡ false
        → IsFunded s o.price n.order_remaining n.order_collateral decimals)
    → IsFundedOrder (order_after n o) decimals
unfolding order_after
after-IsFunded s n o decimals e part = go (Bool-cases n.plan.maker_fully_filled)
  where
    go :
        (n.plan.maker_fully_filled ≡ true) ⊎ (n.plan.maker_fully_filled ≡ false)
        → IsFundedOrder (order_after n o) decimals
    go (inl full) = rw full (IsFunded-zero o.side o.price decimals)
    go (inr f) = rw (f, e) (part f)

-- Where the maker's order is funded for its remainder before a match, it is funded for its remainder
-- after it, and the locked part of the maker's ledger has given up exactly what the lock of the
-- order has lost.
pub match_keeps_backing :
    (rt : Runtime) (side : OrderSide) (limit_price quantity : ℕ) (c : MatchLimitOrder) (d : Matched)
    → handle_match_limit_order rt side limit_price quantity c ≡ ok d
    → IsFundedOrder c.maker_order.val c.market.val.base_decimals
    → let o = c.maker_order.val in
      let o' = d.maker_order.val in
      (locked_for o.side d.maker_balance.val + o.locked_collateral
        ≡ locked_for o.side c.maker_balance.val + o'.locked_collateral)
      × IsFundedOrder o' c.market.val.base_decimals
unfolding match_writes order_after
match_keeps_backing rt side limit_price quantity c d h funded =
    let p = match-Parts rt side limit_price quantity c d h in
    let r = request c side limit_price quantity in
    let k = settle-Planned r p.next.plan p.values.planned in
    let a = maker_amounts r p.next.plan k in
    let u =
      maker_unlocks side c.maker_order.val.side p.next c.taker_balance.val c.maker_balance.val
        p.balances k.opposite p.settled in
    let left : p.next.order_remaining ≡ r.maker_remaining - p.next.plan.fill.base_quantity =
      ground (arith, p.values.order_left) in
    let locked : p.next.order_collateral
        ≡ r.maker_locked_collateral - p.next.plan.maker_locked_debit =
      ground (arith, p.values.order_locked) in
    let e : d.maker_order.val ≡ order_after p.next c.maker_order.val = ground (arith, p.written) in
    (
      elim (Bool-cases p.next.plan.maker_fully_filled) [
        | inl full ↦
            ground (arith, p.written, u, full_debit c.maker_order.val.side r p.next.plan k a full)
        | inr part ↦ ground (arith, p.written, u, p.values.order_locked)
      ],
      rw e (
          after-IsFunded c.maker_order.val.side p.next c.maker_order.val c.market.val.base_decimals
            refl λ part. rw (left, locked) (settle-IsFunded r p.next.plan p.values.planned funded)),
    )
