-- ===== src/Prediction/Orders/Funds.antt =====
-- What `lock_resting_funds` does to a position (programs/tidebook/src/prediction_orders.rs).
use tidebook.Base.{ℕ, ◌+◌, ◌*◌, ◌≤◌, ◌≡◌, ◌↔◌, true, ok, is_ok, arith}
use tidebook.Base.Word.{u64_max}
use tidebook.State.{OrderSide, bid, ask, PredictionPosition, PredictionOutcome}
use tidebook.Prediction.Orders.{lock_resting_funds}

-- The bucket that an order is funded from, as a view of the position.
abbrev pub free_of : PredictionPosition → PredictionOutcome → OrderSide → ℕ
free_of p outcome bid = p.collateral_free
free_of p PredictionOutcome.yes_ ask = p.yes_free
free_of p PredictionOutcome.no_ ask = p.no_free

abbrev pub locked_of : PredictionPosition → PredictionOutcome → OrderSide → ℕ
locked_of p outcome bid = p.collateral_locked
locked_of p PredictionOutcome.yes_ ask = p.yes_locked
locked_of p PredictionOutcome.no_ ask = p.no_locked

-- A bid locks its cost in collateral, an ask its contracts.
abbrev pub cost_of : OrderSide → ℕ → ℕ → ℕ
cost_of bid price quantity = price * quantity
cost_of ask price quantity = quantity

-- All that a position owns, bucket by bucket.
pub record SameClaims (p q : PredictionPosition) : Type 0 where
  pub collateral : q.collateral_free + q.collateral_locked ≡ p.collateral_free + p.collateral_locked
  pub yes_contracts : q.yes_free + q.yes_locked ≡ p.yes_free + p.yes_locked
  pub no_contracts : q.no_free + q.no_locked ≡ p.no_free + p.no_locked
  pub same_owner : q.owner ≡ p.owner
  pub same_market : q.market ≡ p.market

-- Placing an order moves its cost from the free to the locked part of one bucket: the amount
-- returned is a bid's price times its quantity or an ask's quantity, the bucket's free part falls
-- and its locked part rises by it, and every claim of the position keeps its total.
pub lock_resting_funds_lem :
    (p q : PredictionPosition) (outcome : PredictionOutcome) (side : OrderSide)
    (price quantity amount : ℕ)
    → lock_resting_funds p outcome side price quantity ≡ ok (amount, q)
    → (amount ≡ cost_of side price quantity)
      × (free_of q outcome side + amount ≡ free_of p outcome side)
      × (locked_of q outcome side ≡ locked_of p outcome side + amount)
      × SameClaims p q
unfolding lock_resting_funds
lock_resting_funds_lem p q outcome bid price quantity amount h = ground arith
lock_resting_funds_lem p q PredictionOutcome.yes_ ask price quantity amount h = ground arith
lock_resting_funds_lem p q PredictionOutcome.no_ ask price quantity amount h = ground arith

-- Funds are locked exactly when the bucket's free part covers the cost and its locked part does not
-- pass the largest `u64`: no other failure is left where the cost itself fits a `u64`.
pub lock_resting_funds_iff :
    (p : PredictionPosition) (outcome : PredictionOutcome) (side : OrderSide) (price quantity : ℕ)
    → cost_of side price quantity ≤ u64_max
    → (is_ok (lock_resting_funds p outcome side price quantity) ≡ true) ↔ (
        (cost_of side price quantity ≤ free_of p outcome side)
        × (locked_of p outcome side + cost_of side price quantity ≤ u64_max))
unfolding lock_resting_funds
lock_resting_funds_iff p outcome bid price quantity fits = ground arith
lock_resting_funds_iff p PredictionOutcome.yes_ ask price quantity fits = ground arith
lock_resting_funds_iff p PredictionOutcome.no_ ask price quantity fits = ground arith
