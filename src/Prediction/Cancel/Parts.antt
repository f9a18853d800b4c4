-- ===== src/Prediction/Cancel/Parts.antt =====
-- A cancellation of a prediction order that goes through, taken apart
-- (programs/tidebook/src/instructions/cancel_prediction_order.rs).
use tidebook.Base.{
  ℕ, ◌+◌, ◌≡◌, Option, none, some, true, false, ok, Result-cases, bind_case, inl, inr, arith,
}
use tidebook.State.{
  Account, Runtime, OrderSide, bid, ask, PredictionPosition, PredictionOutcome, PredictionOrder,
}
use tidebook.Spot.Match.Steps.{key_of}
use tidebook.Prediction.Orders.Funds.{free_of, locked_of, cost_of, SameClaims}
use tidebook.Prediction.Book.Backing.{IsExact}
use tidebook.Prediction.Cancel.{
  CancelPredictionOrder, check_accounts, expected_lock, check_order, check_links,
  validate_fifo_neighbor, check_best, Counters, next_counters, check_levels, release_position,
}
use tidebook.Prediction.Cancel.Handler.{Canceled, cancel_writes, handle_cancel_prediction_order}

expected_lock-cost :
    (o : PredictionOrder)
    → (lock : ℕ) → expected_lock o ≡ ok lock
    → lock ≡ cost_of o.side o.price o.remaining_quantity
unfolding expected_lock
expected_lock-cost o lock h = ground arith

-- What the tests on the order and its neighbors establish.
pub record Linked (c : CancelPredictionOrder) : Type 0 where
  pub exact : IsExact c.order.val
  pub previous_is : c.order.val.previous_order ≡ key_of c.previous_order
  pub next_is : c.order.val.next_order ≡ key_of c.next_order
  pub previous_links :
      (p : Account PredictionOrder)
      → c.previous_order ≡ some p
      → p.val.next_order ≡ some c.order.key

check_order-IsExact :
    (order_id : ℕ) (c : CancelPredictionOrder)
    → check_order order_id c ≡ ok tt
    → IsExact c.order.val
unfolding check_order
check_order-IsExact order_id c h = elim (Result-cases (expected_lock c.order.val)) [
  | inl (lock, e) ↦ ground (arith, expected_lock-cost c.order.val lock e)
  | inr (failure, e) ↦ absurd (ground arith)
]

links_back :
    (rt : Runtime) (o : Option (Account PredictionOrder)) (order p : Account PredictionOrder)
    → validate_fifo_neighbor rt o order true ≡ ok tt
    → o ≡ some p
    → p.val.next_order ≡ some order.key
unfolding validate_fifo_neighbor
links_back rt none order p h e = absurd (ground arith)
links_back rt (some a) order p h e = ground arith

links-Linked :
    (rt : Runtime) (order_id : ℕ) (c : CancelPredictionOrder)
    → check_order order_id c ≡ ok tt
    → check_links c ≡ ok tt
    → validate_fifo_neighbor rt c.previous_order c.order true ≡ ok tt
    → Linked c
unfolding check_links
links-Linked rt order_id c h k v = record {
  exact = check_order-IsExact order_id c h;
  previous_is = ground arith;
  next_is = ground arith;
  previous_links = λ p e. links_back rt c.previous_order c.order p v e;
}

-- The amount moves back from the locked to the free part of one bucket.
pub record Releases (outcome : PredictionOutcome) (side : OrderSide) (amount : ℕ)
    (p q : PredictionPosition) : Type 0 where
  pub credited : free_of q outcome side ≡ free_of p outcome side + amount
  pub unlocked : locked_of q outcome side + amount ≡ locked_of p outcome side
  pub claims : SameClaims p q

release_position-Releases :
    (p q : PredictionPosition) (outcome : PredictionOutcome) (side : OrderSide) (amount : ℕ)
    → release_position p outcome side amount ≡ ok q
    → Releases outcome side amount p q
unfolding release_position
release_position-Releases p q outcome bid amount h = ground arith
release_position-Releases p q PredictionOutcome.yes_ ask amount h = ground arith
release_position-Releases p q PredictionOutcome.no_ ask amount h = ground arith

pub record Counted (c : CancelPredictionOrder) (n : Counters) : Type 0 where
  pub orders : n.level_count + 1 ≡ c.price_level.val.order_count
  pub quantity :
      n.total + c.order.val.remaining_quantity ≡ c.price_level.val.total_remaining_quantity
  pub open_orders : n.market_count + 1 ≡ c.market.val.open_order_count

next_counters-Counted :
    (c : CancelPredictionOrder) (n : Counters) → next_counters c ≡ ok n → Counted c n
unfolding next_counters
next_counters-Counted c n h = ground arith

pub record Parts (rt : Runtime) (order_id : ℕ) (c : CancelPredictionOrder) (d : Canceled)
    : Type 0 where
  pub counters : Counters
  pub position : PredictionPosition
  pub best : ℕ
  pub linked : Linked c
  pub found : check_best c ≡ ok best
  pub counted : Counted c counters
  pub levels : check_levels rt c best counters ≡ ok tt
  pub releases :
      Releases c.order.val.outcome c.order.val.side c.order.val.locked_collateral c.position.val
        position
  pub written : d ≡ cancel_writes c position counters

pub cancel-Parts :
    (rt : Runtime) (order_id : ℕ) (c : CancelPredictionOrder) (d : Canceled)
    → handle_cancel_prediction_order rt order_id c ≡ ok d
    → Parts rt order_id c d
unfolding handle_cancel_prediction_order
cancel-Parts rt order_id c d h =
    let o = c.order.val in
    bind_case (check_accounts rt order_id c) _ h λ _ _ h₁.
      bind_case (check_order order_id c) _ h₁ λ _ order h₂.
        bind_case (check_links c) _ h₂ λ _ links h₃.
          bind_case (validate_fifo_neighbor rt c.previous_order c.order true) _ h₃ λ _ before h₄.
            bind_case (validate_fifo_neighbor rt c.next_order c.order false) _ h₄ λ _ _ h₅.
              bind_case (check_best c) _ h₅ λ best found h₆.
                bind_case (next_counters c) _ h₆ λ n counters h₇.
                  bind_case (check_levels rt c best n) _ h₇ λ _ levels h₈.
                    bind_case (release_position c.position.val o.outcome o.side o.locked_collateral)
                      _ h₈
                      λ position released h₉. record {
                        counters = n;
                        position = position;
                        best = best;
                        linked =
                            links-Linked rt order_id c (ground arith) (ground arith) (ground arith);
                        found = found;
                        counted = next_counters-Counted c n counters;
                        levels = ground arith;
                        releases =
                            release_position-Releases c.position.val position o.outcome o.side
                              o.locked_collateral released;
                        written = ground arith;
                      }
