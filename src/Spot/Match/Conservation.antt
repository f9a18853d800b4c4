-- ===== src/Spot/Match/Conservation.antt =====
-- What a match does to the claims on the vault
-- (programs/tidebook/src/instructions/match_limit_order.rs).
use tidebook.Base.{ℕ, ◌+◌, ◌≡◌, false, ok, arith}
use tidebook.State.{Runtime, OrderSide, bid, ask, side_eq, TraderBalance}
use tidebook.Matching.Plan.{MakerAmounts, settle-Planned, maker_amounts}
use tidebook.Spot.Placement.Collateral.{base_total, quote_total}
use tidebook.Spot.Match.Defs.{MatchLimitOrder}
use tidebook.Spot.Match.Steps.{Next, Balances, settle_balances}
use tidebook.Spot.Match.Writes.{Matched, match_writes}
use tidebook.Spot.Match.Handler.{handle_match_limit_order}
use tidebook.Spot.Match.Parts.{request, match-Parts}

-- What the two ledgers own together, in each asset, before and after.
record Settled (n : Next) (taker maker : TraderBalance) (b : Balances) : Type 0 where
  base_kept : base_total b.taker + base_total b.maker ≡ base_total taker + base_total maker
  quote_to_fees :
      quote_total b.taker + quote_total b.maker + n.taker_fee_quote
      ≡ quote_total taker + quote_total maker

settle_balances-Settled :
    (side maker_side : OrderSide) (n : Next) (r : _) (taker maker : TraderBalance) (b : Balances)
    → side_eq side maker_side ≡ false
    → MakerAmounts maker_side r n.plan
    → settle_balances side n taker maker ≡ ok b
    → Settled n taker maker b
unfolding settle_balances
settle_balances-Settled bid ask n r taker maker b opp a h = ground arith
settle_balances-Settled ask bid n r taker maker b opp a h = ground arith
settle_balances-Settled bid bid n r taker maker b opp a h = absurd (ground arith)
settle_balances-Settled ask ask n r taker maker b opp a h = absurd (ground arith)

-- A match that goes through makes and loses no token: the base atoms of both ledgers together stay
-- the same, and so do the quote atoms of both ledgers together with the market's accrued fees, which
-- grow by the fee of the taker.
pub match_conserves :
    (rt : Runtime) (side : OrderSide) (limit_price quantity : ℕ) (c : MatchLimitOrder) (d : Matched)
    → handle_match_limit_order rt side limit_price quantity c ≡ ok d
    → (base_total d.taker_balance.val + base_total d.maker_balance.val
        ≡ base_total c.taker_balance.val + base_total c.maker_balance.val)
      × (quote_total d.taker_balance.val
            + quote_total d.maker_balance.val
            + d.market_fees.val.accrued_quote_fees
          ≡ quote_total c.taker_balance.val
            + quote_total c.maker_balance.val
            + c.market_fees.val.accrued_quote_fees)
unfolding match_writes
match_conserves rt side limit_price quantity c d h =
    let p = match-Parts rt side limit_price quantity c d h in
    let r = request c side limit_price quantity in
    let k = settle-Planned r p.next.plan p.values.planned in
    let s =
      settle_balances-Settled side c.maker_order.val.side p.next r c.taker_balance.val
        c.maker_balance.val p.balances k.opposite (maker_amounts r p.next.plan k) p.settled in
    ground (arith, p.written, p.values.accrued, s.base_kept, s.quote_to_fees)
