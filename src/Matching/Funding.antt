-- ===== src/Matching/Funding.antt =====
-- Backing of a resting order across fills (programs/tidebook/src/matching.rs): what is locked for an
-- order always covers what is left of it.
use tidebook.Base.{ℕ, ◌+◌, ◌-◌, ◌≤◌, ◌≡◌, min, true, false, ok, arith, ◌==◌, is_ok}
use tidebook.State.{OrderSide, bid, ask, side_eq}
use tidebook.Matching.{
  FillCalculation, SettlementPlan, prices_cross, calculate_fill, maker_debit, calculate_settlement,
}
use tidebook.Matching.Fill.{
  notional, notional_mono_quantity, notional-add-le, notional-zero, fill_of, calculate_fill-ok,
}
use tidebook.Matching.Plan.{Request, settle, Planned, MakerAmounts, settle-Planned, maker_amounts}

-- A resting ask locks exactly its remainder, a resting bid at least what its remainder would cost.
abbrev pub IsFunded : OrderSide → ℕ → ℕ → ℕ → ℕ → Type 0
IsFunded ask price remaining locked base_decimals = locked ≡ remaining
IsFunded bid price remaining locked base_decimals = notional price remaining base_decimals ≤ locked

abbrev pub IsFundedMaker : Request → Type 0
IsFundedMaker r =
    IsFunded r.maker_side r.maker_price r.maker_remaining r.maker_locked_collateral r.base_decimals

debit_of_funded :
    (s : OrderSide) (price t m locked d : ℕ)
    → IsFunded s price m locked d
    → is_ok (maker_debit s (fill_of price t m d) ((min t m) == m) m locked) ≡ true
unfolding maker_debit
debit_of_funded ask price t m locked d h = ground arith
debit_of_funded bid price t m locked d h =
    ground (arith, notional_mono_quantity price (min t m) m d)

-- A funded maker is never refused for its collateral: an opposite, crossing taker whose fill can be
-- computed always gets a plan.
pub settle_total_of_funded :
    (r : Request) (f : FillCalculation)
    → IsFundedMaker r
    → side_eq r.taker_side r.maker_side ≡ false
    → prices_cross r.taker_side r.taker_limit_price r.maker_price ≡ true
    → calculate_fill r.maker_price r.taker_remaining r.maker_remaining r.base_decimals ≡ ok f
    → is_ok (settle r) ≡ true
unfolding calculate_settlement
settle_total_of_funded r f funded opp cross e = ground (
  arith,
  calculate_fill-ok r.maker_price r.taker_remaining r.maker_remaining r.base_decimals {f = f} e,
  debit_of_funded r.maker_side r.maker_price r.taker_remaining r.maker_remaining
      r.maker_locked_collateral r.base_decimals funded,
)

notional-sub-le : (p b m d : ℕ) → b ≤ m → notional p (m - b) d + notional p b d ≤ notional p m d
notional-sub-le p b m d h =
    let e : (m - b) + b ≡ m = omega arith in rw e at (notional-add-le p (m - b) b d)

rest-IsFunded :
    (r : Request) (p : SettlementPlan) (s : OrderSide)
    → Planned r p
    → MakerAmounts s r p
    → IsFunded s r.maker_price r.maker_remaining r.maker_locked_collateral r.base_decimals
    → IsFunded s r.maker_price
        (r.maker_remaining - p.fill.base_quantity)
        (r.maker_locked_collateral - p.maker_locked_debit)
        r.base_decimals
rest-IsFunded r p ask k amounts funded = ground arith
rest-IsFunded r p bid k amounts funded = ground (
  arith,
  k.filled,
  k.maker_flag,
  notional-zero r.maker_price r.base_decimals,
  notional-sub-le r.maker_price p.fill.base_quantity r.maker_remaining r.base_decimals,
)

-- A fill leaves the maker funded: what stays locked covers what stays open.
pub settle-IsFunded :
    (r : Request) (p : SettlementPlan)
    → settle r ≡ ok p
    → IsFundedMaker r
    → IsFunded r.maker_side r.maker_price
        (r.maker_remaining - p.fill.base_quantity)
        (r.maker_locked_collateral - p.maker_locked_debit)
        r.base_decimals
settle-IsFunded r p h funded =
    let k = settle-Planned r p h in rest-IsFunded r p r.maker_side k (maker_amounts r p k) funded
