-- ===== src/Matching/Plan.antt =====
-- One settlement plan: `calculate_settlement` (programs/tidebook/src/matching.rs).
use tidebook.Base.{ℕ, ◌+◌, ◌≤◌, ◌<◌, ◌≡◌, ◌↔◌, ◌⊎◌, true, false, Result, ok, arith, ◌==◌}
use tidebook.State.{OrderSide, bid, ask, side_eq}
use tidebook.Matching.{SettlementPlan, prices_cross, maker_debit, calculate_settlement}
use tidebook.Matching.Fill.{notional, notional_mono, fill_of, calculate_fill-ok}

-- The arguments of `calculate_settlement`, in its order.
pub record Request : Type 0 where
  pub taker_side : OrderSide
  pub taker_limit_price : ℕ
  pub taker_remaining : ℕ
  pub maker_side : OrderSide
  pub maker_price : ℕ
  pub maker_remaining : ℕ
  pub maker_locked_collateral : ℕ
  pub base_decimals : ℕ

abbrev pub settle : Request → Result SettlementPlan
settle r =
    calculate_settlement r.taker_side r.taker_limit_price r.taker_remaining r.maker_side
      r.maker_price r.maker_remaining r.maker_locked_collateral r.base_decimals

-- What holds of every plan that is made.
pub record Planned (r : Request) (p : SettlementPlan) : Type 0 where
  pub opposite : side_eq r.taker_side r.maker_side ≡ false
  pub crosses : prices_cross r.taker_side r.taker_limit_price r.maker_price ≡ true
  pub filled : p.fill ≡ fill_of r.maker_price r.taker_remaining r.maker_remaining r.base_decimals
  pub positive : 0 < p.fill.base_quantity
  pub worth : 0 < p.fill.quote_quantity
  pub debited :
      maker_debit r.maker_side p.fill p.maker_fully_filled r.maker_remaining
        r.maker_locked_collateral
      ≡ ok (p.maker_locked_debit, p.maker_quote_refund)
  pub maker_flag : p.maker_fully_filled ≡ (p.fill.base_quantity == r.maker_remaining)
  pub taker_flag : p.taker_fully_filled ≡ (p.fill.base_quantity == r.taker_remaining)

pub settle-Planned : (r : Request) (p : SettlementPlan) → settle r ≡ ok p → Planned r p
unfolding calculate_settlement
settle-Planned r p h = ground (
  arith,
  calculate_fill-ok r.maker_price r.taker_remaining r.maker_remaining r.base_decimals {f = p.fill},
)

-- The maker's side of a plan, by the side on which the maker rests.
abbrev pub MakerAmounts : OrderSide → Request → SettlementPlan → Type 0
MakerAmounts ask r p =
    (r.maker_locked_collateral ≡ r.maker_remaining)
    × (p.maker_locked_debit ≡ p.fill.base_quantity)
    × (p.maker_quote_refund ≡ 0)
MakerAmounts bid r p =
    (p.maker_locked_debit ≡ p.fill.quote_quantity + p.maker_quote_refund)
    × (p.maker_locked_debit ≤ r.maker_locked_collateral)
    × (p.maker_fully_filled ≡ true → p.maker_locked_debit ≡ r.maker_locked_collateral)
    × (p.maker_fully_filled ≡ false → p.maker_quote_refund ≡ 0)

pub maker_amounts : (r : Request) (p : SettlementPlan) → Planned r p → MakerAmounts r.maker_side r p
unfolding maker_debit
maker_amounts r p k = go r.maker_side k.debited
  where
    go :
        (s : OrderSide)
        → maker_debit s p.fill p.maker_fully_filled r.maker_remaining r.maker_locked_collateral
          ≡ ok (p.maker_locked_debit, p.maker_quote_refund)
        → MakerAmounts s r p
    go ask e = ground (arith, e)
    go bid e = ground (arith, e)

-- Every plan exchanges the smaller remaining quantity, a positive one, at the maker's price rounded
-- down to whole quote atoms, and a positive amount of them. It debits a resting ask, whose lock is
-- its remainder, by the base quantity with no refund; it debits a resting bid by the quote amount
-- and the refund, within its lock, where a completed bid gives up its whole lock and a partly
-- filled one refunds nothing. A side is reported as filled exactly when the fill is its remainder,
-- and that holds of one side at least.
pub settle_amounts :
    (r : Request) (p : SettlementPlan)
    → settle r ≡ ok p
    → (p.fill ≡ fill_of r.maker_price r.taker_remaining r.maker_remaining r.base_decimals)
      × (0 < p.fill.base_quantity)
      × (0 < p.fill.quote_quantity)
      × MakerAmounts r.maker_side r p
      × ((p.maker_fully_filled ≡ true) ↔ (p.fill.base_quantity ≡ r.maker_remaining))
      × ((p.taker_fully_filled ≡ true) ↔ (p.fill.base_quantity ≡ r.taker_remaining))
      × ((p.maker_fully_filled ≡ true) ⊎ (p.taker_fully_filled ≡ true))
unfolding maker_debit
settle_amounts r p h =
    let k = settle-Planned r p h in
    (
      k.filled,
      k.positive,
      k.worth,
      maker_amounts r p k,
      ground (arith, k.maker_flag),
      ground (arith, k.taker_flag),
      ground (arith, k.filled, k.maker_flag, k.taker_flag),
    )

-- A price is within a limit: at most the limit's worth for a buyer, at least that for a seller.
abbrev pub WithinLimit : OrderSide → (at_limit quote : ℕ) → Type 0
WithinLimit bid at_limit quote = quote ≤ at_limit
WithinLimit ask at_limit quote = at_limit ≤ quote

crossing-WithinLimit :
    (s : OrderSide) (limit price base decimals : ℕ)
    → prices_cross s limit price ≡ true
    → WithinLimit s (notional limit base decimals) (notional price base decimals)
unfolding prices_cross
crossing-WithinLimit bid limit price base decimals h =
    ground (arith, notional_mono price limit base decimals)
crossing-WithinLimit ask limit price base decimals h =
    ground (arith, notional_mono limit price base decimals)

-- The limit price protects the taker: a buyer pays at most the limit's worth of the quantity that
-- is exchanged, and a seller receives at least that.
pub settle-WithinLimit :
    (r : Request) (p : SettlementPlan)
    → settle r ≡ ok p
    → WithinLimit r.taker_side
        (notional r.taker_limit_price p.fill.base_quantity r.base_decimals)
        p.fill.quote_quantity
settle-WithinLimit r p h =
    let k = settle-Planned r p h in
    let q : p.fill.quote_quantity ≡ notional r.maker_price p.fill.base_quantity r.base_decimals =
      ground (arith, k.filled) in
    rw q (
      crossing-WithinLimit r.taker_side r.taker_limit_price r.maker_price p.fill.base_quantity
        r.base_decimals k.crosses)
