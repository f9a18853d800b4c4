-- ===== src/Prediction/Orders/Terms.antt =====
-- The terms under which a prediction order may rest (programs/tidebook/src/prediction_orders.rs).
use tidebook.Base.{ℕ, ◌+◌, ◌%◌, ◌≤◌, ◌<◌, ◌≡◌, ◌↔◌, Option, none, some, ok, arith}
use tidebook.Base.Word.{u64_max}
use tidebook.Base.Int.{ℤ, ◌<ℤ◌}
use tidebook.State.{
  OrderSide, bid, ask, PredictionMarket, PredictionOrderBook, PredictionOutcome, PredictionStatus,
  best_price,
}
use tidebook.Prediction.Orders.{opposite, validate_resting_order, reject_crossing}

-- The price does not reach the opposite best price.
abbrev pub Apart : OrderSide → ℕ → Option ℕ → Type 0
Apart side price none = Unit
Apart bid price (some other) = price < other
Apart ask price (some other) = other < price

pub record Acceptable (now : ℤ) (market : PredictionMarket) (book : PredictionOrderBook)
    (order_id : ℕ) (outcome : PredictionOutcome) (side : OrderSide) (price quantity : ℕ)
    : Type 0 where
  pub status : market.status ≡ PredictionStatus.open_
  pub before_close : now <ℤ market.close_ts
  pub quantity_pos : 0 < quantity
  pub price_pos : 0 < price
  pub price_below : price < market.payout_per_contract
  pub tick_pos : 0 < market.price_tick
  pub on_tick : price % market.price_tick ≡ 0
  pub id_pos : 0 < order_id
  pub id_next : order_id ≡ book.next_order_id
  pub apart : Apart side price (best_price book outcome (opposite side))
  pub id_room : book.next_order_id + 1 ≤ u64_max
  pub count_room : market.open_order_count + 1 ≤ u64_max

reject_crossing_iff :
    (side : OrderSide) (price : ℕ) (best : Option ℕ)
    → (reject_crossing side price best ≡ ok tt) ↔ Apart side price best
unfolding reject_crossing
reject_crossing_iff side price none = ground arith
reject_crossing_iff bid price (some other) = ground arith
reject_crossing_iff ask price (some other) = ground arith

module _ (now : ℤ) (m : PredictionMarket) (b : PredictionOrderBook) (order_id : ℕ)
    (outcome : PredictionOutcome) (side : OrderSide) (price quantity : ℕ) where
  Acceptable-of_ok :
      {r : ℕ × ℕ}
      → validate_resting_order now m b order_id outcome side price quantity ≡ ok r
      → Acceptable now m b order_id outcome side price quantity
  unfolding validate_resting_order
  Acceptable-of_ok h =
      ground (arith, reject_crossing_iff side price (best_price b outcome (opposite side)))

  ok_of_Acceptable :
      Acceptable now m b order_id outcome side price quantity
      → validate_resting_order now m b order_id outcome side price quantity
        ≡ ok (b.next_order_id + 1, m.open_order_count + 1)
  unfolding validate_resting_order
  ok_of_Acceptable a =
      let no_cross =
        (reject_crossing_iff side price (best_price b outcome (opposite side))).1 a.apart in
      ground (arith, no_cross)

-- A prediction order is accepted exactly on acceptable terms: an open market before its close, a
-- positive quantity, a positive price below the payout on the tick grid and strictly apart from the
-- opposite best price of the same outcome, the book's next id, and room in both counters; the
-- counters it returns are the present ones plus one.
pub validate_resting_order_iff :
    (now : ℤ) (m : PredictionMarket) (b : PredictionOrderBook) (order_id : ℕ)
    (outcome : PredictionOutcome) (side : OrderSide) (price quantity : ℕ)
    → (validate_resting_order now m b order_id outcome side price quantity
        ≡ ok (b.next_order_id + 1, m.open_order_count + 1))
      ↔ Acceptable now m b order_id outcome side price quantity
unfolding validate_resting_order
validate_resting_order_iff now m b order_id outcome side price quantity = (
  Acceptable-of_ok now m b order_id outcome side price quantity,
  ok_of_Acceptable now m b order_id outcome side price quantity,
)
