-- ===== src/Prediction/Book/Backing.antt =====
-- What an open prediction order has locked of its owner's position
-- (programs/tidebook/src/prediction_orders.rs).
use tidebook.Base.{ℕ, ◌+◌, ◌≡◌, ok}
use tidebook.State.{OrderSide, PredictionPosition, PredictionOutcome, PredictionOrder}
use tidebook.Prediction.Orders.{lock_resting_funds}
use tidebook.Prediction.Orders.Funds.{
  free_of, locked_of, cost_of, SameClaims, lock_resting_funds_lem,
}

-- The lock of an order is exactly what its remainder costs.
abbrev pub IsExact : PredictionOrder → Type 0
IsExact o = o.locked_collateral ≡ cost_of o.side o.price o.remaining_quantity

-- A new order: its lock is exact and has moved within the position, from the free to the locked part
-- of one bucket, and no claim has changed.
pub record Reserves (o : PredictionOrder) (p q : PredictionPosition) : Type 0 where
  pub exact : IsExact o
  pub debited : free_of q o.outcome o.side + o.locked_collateral ≡ free_of p o.outcome o.side
  pub locked : locked_of q o.outcome o.side ≡ locked_of p o.outcome o.side + o.locked_collateral
  pub claims : SameClaims p q

pub lock_resting_funds-Reserves :
    (p q : PredictionPosition) (outcome : PredictionOutcome) (side : OrderSide)
    (price quantity amount : ℕ) (o : PredictionOrder)
    → lock_resting_funds p outcome side price quantity ≡ ok (amount, q)
    → (o.outcome ≡ outcome)
      × (o.side ≡ side)
      × (o.price ≡ price)
      × (o.remaining_quantity ≡ quantity)
      × (o.locked_collateral ≡ amount)
    → Reserves o p q
lock_resting_funds-Reserves p q outcome side price quantity amount o h (a, b, c, d, e) =
    let (cost, out, in_, same) = lock_resting_funds_lem p q outcome side price quantity amount h in
    record {
      exact = rw (e, b, c, d) cost;
      debited = rw (a, b, e) out;
      locked = rw (a, b, e) in_;
      claims = same;
    }
