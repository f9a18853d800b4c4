-- ===== src/Matching/Life.antt =====
-- The whole life of one resting order under repeated fills: each fill is planned by
-- `calculate_settlement` (programs/tidebook/src/matching.rs) and written back to the order the way
-- the matching instructions do.
use tidebook.Base.{ℕ, ◌+◌, ◌-◌, ◌≤◌, ◌≡◌, List, [], ◌∷◌, Result, ok, ◌>>=◌, bind_case, arith}
use tidebook.State.{OrderSide, bid, ask}
use tidebook.Matching.{SettlementPlan}
use tidebook.Matching.Fill.{notional, notional-add-le}
use tidebook.Matching.Plan.{Request, settle, settle-Planned, maker_amounts}

pub record Maker : Type 0 where
  pub price : ℕ
  pub remaining : ℕ
  pub locked : ℕ
  pub base_decimals : ℕ

-- A taker's limit price and remaining quantity.
pub record Taker : Type 0 where
  pub limit_price : ℕ
  pub quantity : ℕ

abbrev opposite : OrderSide → OrderSide
opposite bid = ask
opposite ask = bid

abbrev pub request : OrderSide → Maker → Taker → Request
request side m t = record {
  taker_side = opposite side;
  taker_limit_price = t.limit_price;
  taker_remaining = t.quantity;
  maker_side = side;
  maker_price = m.price;
  maker_remaining = m.remaining;
  maker_locked_collateral = m.locked;
  base_decimals = m.base_decimals;
}

-- What the order holds after a planned fill.
unfoldable pub after_fill : Maker → SettlementPlan → Maker
after_fill m p = record m {
  remaining = m.remaining - p.fill.base_quantity;
  locked = m.locked - p.maker_locked_debit;
}

-- The order at the end of a run of fills, with what it has traded, paid (or earned) and got back.
pub record Life : Type 0 where
  pub maker : Maker
  pub traded : ℕ
  pub quoted : ℕ
  pub refunded : ℕ

unfoldable pub fill_all : OrderSide → Maker → List Taker → Result Life
unfolding after_fill
fill_all side m [] = ok (record { maker = m; traded = 0; quoted = 0; refunded = 0 })
fill_all side m (t ∷ ts) = do
  p ← settle (request side m t)
  rest ← fill_all side (after_fill m p) ts
  ok (record rest {
    traded = p.fill.base_quantity + rest.traded;
    quoted = p.fill.quote_quantity + rest.quoted;
    refunded = p.maker_quote_refund + rest.refunded;
  })

-- What one fill does to a resting bid.
record BidStep (m m' : Maker) (base quote refund : ℕ) : Type 0 where
  left : m'.remaining + base ≡ m.remaining
  spent : m'.locked + quote + refund ≡ m.locked
  finished : m'.remaining ≡ 0 → m'.locked ≡ 0
  same_price : m'.price ≡ m.price
  same_scale : m'.base_decimals ≡ m.base_decimals
  worth : quote ≡ notional m.price base m.base_decimals

bid_step :
    (m : Maker) (t : Taker) (p : SettlementPlan)
    → settle (request bid m t) ≡ ok p
    → BidStep m (after_fill m p) p.fill.base_quantity p.fill.quote_quantity p.maker_quote_refund
unfolding after_fill
bid_step m t p h =
    let k = settle-Planned (request bid m t) p h in
    let a = maker_amounts (request bid m t) p k in ground (arith, k.filled, k.maker_flag, a)

-- Over a run of fills from a bid that is empty or unlocked together, nothing of the lock is lost:
-- it has gone to the counterparties, back to the maker as rounding refunds, or is still locked, and
-- a bid that is filled to the end has nothing locked any more. The quantity is accounted for in the
-- same way, and the maker never pays more than the worth of all that it bought.
pub bid_life :
    (m : Maker) (ts : List Taker) (life : Life)
    → fill_all bid m ts ≡ ok life
    → (m.remaining ≡ 0 → m.locked ≡ 0)
    → (life.maker.remaining + life.traded ≡ m.remaining)
      × (life.maker.locked + life.quoted + life.refunded ≡ m.locked)
      × (life.maker.remaining ≡ 0 → life.maker.locked ≡ 0)
      × (life.quoted ≤ notional m.price life.traded m.base_decimals)
unfolding fill_all
bid_life m [] life h empty = ground arith
bid_life m (t ∷ ts) life h empty = bind_case (settle (request bid m t)) _ h λ p planned more.
    bind_case (fill_all bid (after_fill m p) ts) _ more λ rest done end.
      let b = bid_step m t p planned in
      let (left, spent, finished, worth) = bid_life (after_fill m p) ts rest done b.finished in
      ground (arith, b, notional-add-le m.price p.fill.base_quantity rest.traded m.base_decimals)
