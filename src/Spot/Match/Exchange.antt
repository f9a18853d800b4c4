-- ===== src/Spot/Match/Exchange.antt =====
-- What the taker of a match pays and receives
-- (programs/tidebook/src/instructions/match_limit_order.rs).
use tidebook.Base.{ℕ, ◌+◌, ◌-◌, ◌≤◌, ◌<◌, ◌≡◌, ok, arith}
use tidebook.State.{Runtime, OrderSide, bid, ask, TraderBalance}
use tidebook.Fees.Bounds.{ceiling_fee, calculate_taker_fee-ok}
use tidebook.Matching.{SettlementPlan}
use tidebook.Matching.Fill.{notional}
use tidebook.Matching.Plan.{Request, Planned, settle-Planned, WithinLimit, settle-WithinLimit}
use tidebook.Spot.Match.Defs.{MatchLimitOrder}
use tidebook.Spot.Match.Steps.{Next, Balances, settle_balances}
use tidebook.Spot.Match.Writes.{Matched, order_after, match_writes}
use tidebook.Spot.Match.Handler.{handle_match_limit_order}
use tidebook.Spot.Match.Parts.{request, Parts, match-Parts}

-- The ledger of a taker, before and after it exchanges `base` for `quote` and pays `fee`.
abbrev pub Exchanges : OrderSide → (base quote fee : ℕ) → TraderBalance → TraderBalance → Type 0
Exchanges bid base quote fee t t' =
    (t'.base_free ≡ t.base_free + base)
    × (t'.quote_free + quote + fee ≡ t.quote_free)
    × (t'.base_locked ≡ t.base_locked)
    × (t'.quote_locked ≡ t.quote_locked)
Exchanges ask base quote fee t t' =
    (t'.base_free + base ≡ t.base_free)
    × (t'.quote_free + fee ≡ t.quote_free + quote)
    × (t'.base_locked ≡ t.base_locked)
    × (t'.quote_locked ≡ t.quote_locked)

settle_balances-Exchanges :
    (side : OrderSide) (n : Next) (t m : TraderBalance) (b : Balances)
    → settle_balances side n t m ≡ ok b
    → Exchanges side n.plan.fill.base_quantity n.plan.fill.quote_quantity n.taker_fee_quote t
        b.taker
unfolding settle_balances
settle_balances-Exchanges bid n t m b h = ground arith
settle_balances-Exchanges ask n t m b h = ground arith

traded :
    (rt : Runtime) (side : OrderSide) (limit_price quantity : ℕ) (c : MatchLimitOrder) (d : Matched)
    → (p : Parts rt side limit_price quantity c d)
    → c.maker_order.val.remaining_quantity - d.maker_order.val.remaining_quantity
      ≡ p.next.plan.fill.base_quantity
unfolding match_writes order_after
traded rt side limit_price quantity c d p =
    let k = settle-Planned (request c side limit_price quantity) p.next.plan p.values.planned in
    ground (arith, p.written, p.values.order_left, k.maker_flag)

fill_fits :
    (r : Request) (p : SettlementPlan) → Planned r p → p.fill.base_quantity ≤ r.taker_remaining
fill_fits r p k = ground (arith, k.filled)

-- The taker exchanges what the maker's order has lost, at most the quantity asked for, at the
-- maker's price within the taker's limit, and pays the rounded-up fee on top; nothing of the taker
-- is locked or unlocked.
pub match-Exchanges :
    (rt : Runtime) (side : OrderSide) (limit_price quantity : ℕ) (c : MatchLimitOrder) (d : Matched)
    → handle_match_limit_order rt side limit_price quantity c ≡ ok d
    → let o = c.maker_order.val in
      let decimals = c.market.val.base_decimals in
      let base = o.remaining_quantity - d.maker_order.val.remaining_quantity in
      let quote = notional o.price base decimals in
      let fee = ceiling_fee quote c.protocol_config.val.taker_fee_bps in
      (0 < base)
      × (base ≤ quantity)
      × WithinLimit side (notional limit_price base decimals) quote
      × Exchanges side base quote fee c.taker_balance.val d.taker_balance.val
unfolding match_writes
match-Exchanges rt side limit_price quantity c d h =
    let p = match-Parts rt side limit_price quantity c d h in
    let r = request c side limit_price quantity in
    let k = settle-Planned r p.next.plan p.values.planned in
    let e = traded rt side limit_price quantity c d p in
    let fill = p.next.plan.fill in
    let q : fill.quote_quantity ≡ notional r.maker_price fill.base_quantity r.base_decimals =
      ground (arith, k.filled) in
    let fee = (calculate_taker_fee-ok _ _ _ p.values.charged).1 in
    let taker : d.taker_balance.val ≡ p.balances.taker = ground (arith, p.written) in
    rw (taker, e, ← q, ← fee)
      (
        k.positive,
        fill_fits r p.next.plan k,
        settle-WithinLimit r p.next.plan p.values.planned,
        settle_balances-Exchanges side p.next c.taker_balance.val c.maker_balance.val p.balances
            p.settled,
      )
