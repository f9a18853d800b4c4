-- ===== src/Spot/Match/Parts.antt =====
-- A match that goes through, taken apart into the values that it has calculated, the tests that it
-- has passed and the writes (programs/tidebook/src/instructions/match_limit_order.rs).
use tidebook.Base.{ℕ, ◌+◌, ◌≡◌, true, false, ok, bind_case, arith}
use tidebook.State.{Runtime, OrderSide}
use tidebook.Fees.{calculate_taker_fee}
use tidebook.Matching.Plan.{Request, settle}
use tidebook.Spot.Placement.{check_positive, check_grid}
use tidebook.Spot.Match.Defs.{MatchLimitOrder, check_accounts}
use tidebook.Spot.Match.Steps.{Next, next_values, check_transition, Balances, settle_balances}
use tidebook.Spot.Match.Writes.{Matched, match_writes}
use tidebook.Spot.Match.Handler.{handle_match_limit_order}

-- The settlement that the handler asks for.
abbrev pub request : MatchLimitOrder → OrderSide → ℕ → ℕ → Request
request c taker_side limit_price quantity = record {
  taker_side = taker_side;
  taker_limit_price = limit_price;
  taker_remaining = quantity;
  maker_side = o.side;
  maker_price = o.price;
  maker_remaining = o.remaining_quantity;
  maker_locked_collateral = o.locked_collateral;
  base_decimals = m.base_decimals;
}
  where
    open c.maker_order use {val as o}
    open c.market use {val as m}

-- What the calculated values stand for.
pub record Values (c : MatchLimitOrder) (taker_side : OrderSide) (limit_price quantity : ℕ)
    (n : Next) : Type 0 where
  pub planned : settle (request c taker_side limit_price quantity) ≡ ok n.plan
  pub charged :
      calculate_taker_fee n.plan.fill.quote_quantity c.protocol_config.val.taker_fee_bps
      ≡ ok n.taker_fee_quote
  pub accrued : n.accrued_quote_fees ≡ c.market_fees.val.accrued_quote_fees + n.taker_fee_quote
  pub order_left :
      n.order_remaining + n.plan.fill.base_quantity ≡ c.maker_order.val.remaining_quantity
  pub order_locked :
      n.order_collateral + n.plan.maker_locked_debit ≡ c.maker_order.val.locked_collateral
  pub level_left :
      n.level_quantity + n.plan.fill.base_quantity
      ≡ c.maker_price_level.val.total_remaining_quantity
  pub level_count_full :
      n.plan.maker_fully_filled ≡ true
      → n.level_order_count + 1 ≡ c.maker_price_level.val.order_count
  pub level_count_part :
      n.plan.maker_fully_filled ≡ false → n.level_order_count ≡ c.maker_price_level.val.order_count
  pub open_count_full :
      n.plan.maker_fully_filled ≡ true → n.open_order_count + 1 ≡ c.market.val.open_order_count
  pub open_count_part :
      n.plan.maker_fully_filled ≡ false → n.open_order_count ≡ c.market.val.open_order_count

next_values-Values :
    (c : MatchLimitOrder) (taker_side : OrderSide) (limit_price quantity : ℕ) (n : Next)
    → next_values c taker_side limit_price quantity ≡ ok n
    → Values c taker_side limit_price quantity n
unfolding next_values
next_values-Values c taker_side limit_price quantity n h = ground arith

pub record Parts (rt : Runtime) (taker_side : OrderSide) (limit_price quantity : ℕ)
    (c : MatchLimitOrder) (d : Matched) : Type 0 where
  pub next : Next
  pub balances : Balances
  pub accounts : check_accounts rt c ≡ ok tt
  pub positive : check_positive limit_price quantity ≡ ok tt
  pub grid : check_grid c.market.val limit_price quantity ≡ ok tt
  pub values : Values c taker_side limit_price quantity next
  pub transition : check_transition rt c next ≡ ok tt
  pub settled :
      settle_balances taker_side next c.taker_balance.val c.maker_balance.val ≡ ok balances
  pub written : d ≡ match_writes c next balances

pub match-Parts :
    (rt : Runtime) (taker_side : OrderSide) (limit_price quantity : ℕ) (c : MatchLimitOrder)
    (d : Matched)
    → handle_match_limit_order rt taker_side limit_price quantity c ≡ ok d
    → Parts rt taker_side limit_price quantity c d
unfolding handle_match_limit_order
match-Parts rt taker_side limit_price quantity c d h =
    bind_case (check_accounts rt c) _ h λ _ accounts h₁.
      bind_case (check_positive limit_price quantity) _ h₁ λ _ positive h₂.
        bind_case (check_grid c.market.val limit_price quantity) _ h₂ λ _ grid h₃.
          bind_case (next_values c taker_side limit_price quantity) _ h₃ λ n calculated h₄.
            bind_case (check_transition rt c n) _ h₄ λ _ transition h₅.
              bind_case (settle_balances taker_side n c.taker_balance.val c.maker_balance.val) _ h₅
                λ b settled h₆. record {
                  next = n;
                  balances = b;
                  accounts = ground arith;
                  positive = ground arith;
                  grid = ground arith;
                  values = next_values-Values c taker_side limit_price quantity n calculated;
                  transition = ground arith;
                  settled = settled;
                  written = ground arith;
                }
