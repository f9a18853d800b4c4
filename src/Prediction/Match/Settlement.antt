-- ===== src/Prediction/Match/Settlement.antt =====
-- What a prediction match moves between its two traders
-- (programs/tidebook/src/instructions/match_prediction_order.rs).
use tidebook.Base.{ℕ, ◌+◌, ◌*◌, ◌<◌, ◌≡◌, refl, true, min, ok, arith}
use tidebook.Base.Int.{ℤ}
use tidebook.State.{Runtime, OrderSide, bid, ask, PredictionPosition, PredictionOutcome}
use tidebook.Fees.{calculate_taker_fee}
use tidebook.Prediction.Orders.{opposite}
use tidebook.Prediction.Orders.Funds.{locked_of, cost_of}
use tidebook.Prediction.Book.Backing.{IsExact}
use tidebook.Prediction.Match.{MatchPredictionOrder, check_request, crosses, check_accounting}
use tidebook.Prediction.Match.Steps.{
  Next, contracts_free, contracts_locked, Positions, settle_positions, backing_debit,
}
use tidebook.Prediction.Match.Handler.{
  Matched, order_after, match_writes, handle_match_prediction_order,
}
use tidebook.Prediction.Match.Parts.{Values, match-Parts}

-- All that a position owns of collateral and of each outcome.
abbrev pub cash : PredictionPosition → ℕ
cash p = p.collateral_free + p.collateral_locked

abbrev pub contracts : PredictionOutcome → PredictionPosition → ℕ
contracts o p = contracts_free o p + contracts_locked o p

-- Contracts against cash, with the fee on the taker's side.
abbrev pub Exchanged :
    OrderSide
    → PredictionOutcome
    → (fill notional fee : ℕ) → (taker taker' maker maker' : PredictionPosition) → Type 0
Exchanged bid o fill notional fee t t' m m' =
    (t'.collateral_free + (notional + fee) ≡ t.collateral_free)
    × (contracts_free o t' ≡ contracts_free o t + fill)
    × (contracts_locked o m' + fill ≡ contracts_locked o m)
    × (m'.collateral_free ≡ m.collateral_free + notional)
Exchanged ask o fill notional fee t t' m m' =
    (t'.collateral_free + fee ≡ t.collateral_free + notional)
    × (contracts_free o t' + fill ≡ contracts_free o t)
    × (contracts_free o m' ≡ contracts_free o m + fill)
    × (m'.collateral_locked + notional ≡ m.collateral_locked)

record Settled (o : PredictionOutcome) (n : Next) (t t' m m' : PredictionPosition) : Type 0 where
  cash_kept : cash t' + cash m' + n.taker_fee ≡ cash t + cash m
  yes_kept :
      contracts PredictionOutcome.yes_ t' + contracts PredictionOutcome.yes_ m'
      ≡ contracts PredictionOutcome.yes_ t + contracts PredictionOutcome.yes_ m
  no_kept :
      contracts PredictionOutcome.no_ t' + contracts PredictionOutcome.no_ m'
      ≡ contracts PredictionOutcome.no_ t + contracts PredictionOutcome.no_ m

settle_positions-Settled :
    (side : OrderSide) (o : PredictionOutcome) (expected : ℕ) (n : Next) (t m : PredictionPosition)
    (p : Positions)
    → settle_positions side o expected n t m ≡ ok p
    → Settled o n t p.taker m p.maker
unfolding settle_positions
settle_positions-Settled bid PredictionOutcome.yes_ expected n t m p h = ground arith
settle_positions-Settled bid PredictionOutcome.no_ expected n t m p h = ground arith
settle_positions-Settled ask PredictionOutcome.yes_ expected n t m p h = ground arith
settle_positions-Settled ask PredictionOutcome.no_ expected n t m p h = ground arith

settle_positions-Exchanged :
    (side : OrderSide) (o : PredictionOutcome) (expected : ℕ) (n : Next) (t m : PredictionPosition)
    (p : Positions)
    → settle_positions side o expected n t m ≡ ok p
    → Exchanged side o n.fill n.notional n.taker_fee t p.taker m p.maker
unfolding settle_positions
settle_positions-Exchanged bid PredictionOutcome.yes_ expected n t m p h = ground arith
settle_positions-Exchanged bid PredictionOutcome.no_ expected n t m p h = ground arith
settle_positions-Exchanged ask PredictionOutcome.yes_ expected n t m p h = ground arith
settle_positions-Exchanged ask PredictionOutcome.no_ expected n t m p h = ground arith

-- The maker's locked bucket gives up what the lock of its order does.
settle_positions-lock :
    (side : OrderSide) (o : PredictionOutcome) (expected : ℕ) (n : Next) (t m : PredictionPosition)
    (p : Positions)
    → settle_positions side o expected n t m ≡ ok p
    → locked_of p.maker o (opposite side) + backing_debit (opposite side) n
      ≡ locked_of m o (opposite side)
unfolding settle_positions
settle_positions-lock bid PredictionOutcome.yes_ expected n t m p h = ground arith
settle_positions-lock bid PredictionOutcome.no_ expected n t m p h = ground arith
settle_positions-lock ask PredictionOutcome.yes_ expected n t m p h = ground arith
settle_positions-lock ask PredictionOutcome.no_ expected n t m p h = ground arith

-- A prediction match makes nothing and loses nothing: the cash of both positions together with the
-- accrued fees of the market, the YES contracts of both positions, and their NO contracts keep their
-- sums, and the supplies and the payout reserve of the market stay as they were.
pub match_prediction_conserves :
    (rt : Runtime) (now : ℤ) (outcome : PredictionOutcome) (side : OrderSide)
    (limit_price quantity : ℕ) (c : MatchPredictionOrder) (d : Matched)
    → handle_match_prediction_order rt now outcome side limit_price quantity c ≡ ok d
    → let t = c.taker_position.val in
      let m = c.maker_position.val in
      let t' = d.taker_position.val in
      let m' = d.maker_position.val in
      (cash t' + cash m' + d.market_fees.val.accrued_quote_fees
        ≡ cash t + cash m + c.market_fees.val.accrued_quote_fees)
      × (contracts PredictionOutcome.yes_ t' + contracts PredictionOutcome.yes_ m'
          ≡ contracts PredictionOutcome.yes_ t + contracts PredictionOutcome.yes_ m)
      × (contracts PredictionOutcome.no_ t' + contracts PredictionOutcome.no_ m'
          ≡ contracts PredictionOutcome.no_ t + contracts PredictionOutcome.no_ m)
      × (d.market.val.yes_supply ≡ c.market.val.yes_supply)
      × (d.market.val.no_supply ≡ c.market.val.no_supply)
      × (d.market.val.backing_reserve ≡ c.market.val.backing_reserve)
unfolding match_writes
match_prediction_conserves rt now outcome side limit_price quantity c d h =
    let p = match-Parts rt now outcome side limit_price quantity c d h in
    let s =
      settle_positions-Settled side outcome p.expected p.next c.taker_position.val
        c.maker_position.val p.positions p.settled in
    rw p.written
      (omega (arith, s.cash_kept, p.values.accrued), s.yes_kept, s.no_kept, refl, refl, refl)

fill_positive :
    (now : ℤ) (limit_price quantity : ℕ) (c : MatchPredictionOrder) (n : Next)
    → check_request now c.market.val limit_price quantity ≡ ok tt
    → check_accounting c ≡ ok tt
    → Values c quantity n
    → 0 < n.fill
unfolding check_request check_accounting
fill_positive now limit_price quantity c n r a v = ground (arith, v.fill_is)

-- A prediction match exchanges as much as both sides want, at the maker's price: the fill is positive,
-- the smaller of the request and the maker's remainder, and the price lies within the taker's limit.
-- The taker trades that many contracts of the outcome against their exact worth, one side out of the
-- maker's lock, and pays the fee on the worth, which is added to the market's accrued fees.
pub match_prediction-Exchanged :
    (rt : Runtime) (now : ℤ) (outcome : PredictionOutcome) (side : OrderSide)
    (limit_price quantity : ℕ) (c : MatchPredictionOrder) (d : Matched)
    → handle_match_prediction_order rt now outcome side limit_price quantity c ≡ ok d
    → let o = c.maker_order.val in
      let fill = min quantity o.remaining_quantity in
      (fee : ℕ) × ((calculate_taker_fee (o.price * fill) c.protocol_config.val.taker_fee_bps
          ≡ ok fee)
        × (d.market_fees.val.accrued_quote_fees ≡ c.market_fees.val.accrued_quote_fees + fee)
        × (0 < fill)
        × (crosses side limit_price o.price ≡ true)
        × (d.maker_order.val.remaining_quantity + fill ≡ o.remaining_quantity)
        × Exchanged side outcome fill
            (o.price * fill)
            fee
            c.taker_position.val
            d.taker_position.val
            c.maker_position.val
            d.maker_position.val)
unfolding match_writes order_after
match_prediction-Exchanged rt now outcome side limit_price quantity c d h =
    let p = match-Parts rt now outcome side limit_price quantity c d h in
    let n = p.next in
    let v = p.values in
    let positive = fill_positive now limit_price quantity c n p.request p.accounting v in
    let e =
      settle_positions-Exchanged side outcome p.expected n c.taker_position.val c.maker_position.val
        p.positions p.settled in
    (
      n.taker_fee,
      rw p.written (
        rw (← v.fill_is, ← v.notional_is) v.charged,
        v.accrued,
        rw (← v.fill_is) positive,
        p.maker.within_limit,
        rw (← v.fill_is) (ground (arith, v.left)),
        rw (← v.fill_is, ← v.notional_is) e,
      ),
    )

remainder-cost :
    (side : OrderSide) (n : Next) (price quantity backing : ℕ)
    → n.notional ≡ price * n.fill
    → n.remaining + n.fill ≡ quantity
    → backing + backing_debit side n ≡ cost_of side price quantity
    → backing ≡ cost_of side price n.remaining
remainder-cost bid n price quantity backing w l r = grind arith
remainder-cost ask n price quantity backing w l r = omega arith

-- A prediction match keeps its maker exactly backed: what the order has locked afterwards is exactly
-- the cost of its remainder, none after a full fill, and the locked part of the maker's bucket gives
-- up exactly what the lock of the order loses.
pub match_prediction_keeps_backing :
    (rt : Runtime) (now : ℤ) (outcome : PredictionOutcome) (side : OrderSide)
    (limit_price quantity : ℕ) (c : MatchPredictionOrder) (d : Matched)
    → handle_match_prediction_order rt now outcome side limit_price quantity c ≡ ok d
    → let o = c.maker_order.val in
      let o' = d.maker_order.val in
      IsExact o'
      × (locked_of d.maker_position.val outcome o.side + o.locked_collateral
          ≡ locked_of c.maker_position.val outcome o.side + o'.locked_collateral)
unfolding match_writes order_after
match_prediction_keeps_backing rt now outcome side limit_price quantity c d h =
    let p = match-Parts rt now outcome side limit_price quantity c d h in
    let n = p.next in
    let o = c.maker_order.val in
    let exact : p.new_backing ≡ cost_of o.side o.price n.remaining =
      remainder-cost o.side n o.price o.remaining_quantity p.new_backing p.values.notional_is
        p.values.left (ground (arith, p.released, p.exact)) in
    let lock =
      settle_positions-lock side outcome p.expected n c.taker_position.val c.maker_position.val
        p.positions p.settled in
    rw p.written (ground (arith, exact), rw p.maker.side_is (ground (arith, lock, p.released)))
