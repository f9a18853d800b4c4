-- ===== src/Shared/Match/Parts.antt =====
-- A match in a shared book that goes through, taken apart
-- (programs/tidebook/src/instructions/shared_match.rs).
use tidebook.Base.{ℕ, ◌+◌, ◌≡◌, ok, bind_case, arith}
use tidebook.Base.Int.{ℤ}
use tidebook.State.{Runtime, OrderSide, SharedOutcome}
use tidebook.Fees.{calculate_taker_fee}
use tidebook.Matching.Plan.{Request, settle}
use tidebook.Shared.Rules.{trading_open, order_terms, check_trader}
use tidebook.Shared.Remove.{Removed}
use tidebook.Shared.Match.{
  MatchSharedOrder, check_accounts, check_maker, Next, next_values, check_hints, Settled,
  settle_claims,
}
use tidebook.Shared.Match.Handler.{
  Matched, update_queue, order_after, set_accrued, handle_match_shared_order,
}

-- The settlement that the handler asks for.
abbrev pub request : MatchSharedOrder → OrderSide → (limit_price quantity : ℕ) → Request
request c taker_side limit_price quantity = record {
  taker_side = taker_side;
  taker_limit_price = limit_price;
  taker_remaining = quantity;
  maker_side = o.side;
  maker_price = o.price;
  maker_remaining = o.remaining_quantity;
  maker_locked_collateral = o.locked_collateral;
  base_decimals = b.base_decimals;
}
  where
    open c.maker_order use {val as o}
    open c.book use {val as b}

-- What the calculated values stand for.
pub record Values (c : MatchSharedOrder) (taker_side : OrderSide) (limit_price quantity : ℕ)
    (n : Next) : Type 0 where
  pub planned : settle (request c taker_side limit_price quantity) ≡ ok n.plan
  pub charged :
      calculate_taker_fee n.plan.fill.quote_quantity c.protocol_config.val.taker_fee_bps
      ≡ ok n.taker_fee
  pub accrued : n.accrued ≡ c.book.val.accrued_quote_fees + n.taker_fee
  pub left : n.remaining + n.plan.fill.base_quantity ≡ c.maker_order.val.remaining_quantity
  pub locked : n.collateral + n.plan.maker_locked_debit ≡ c.maker_order.val.locked_collateral
  pub summed : n.total + n.plan.fill.base_quantity ≡ c.price_level.val.total_remaining_quantity

next_values-Values :
    (taker_side : OrderSide) (limit_price quantity : ℕ) (c : MatchSharedOrder) (n : Next)
    → next_values taker_side limit_price quantity c ≡ ok n
    → Values c taker_side limit_price quantity n
unfolding next_values
next_values-Values taker_side limit_price quantity c n h = ground arith

pub record Parts (rt : Runtime) (outcome : SharedOutcome) (taker_side : OrderSide)
    (limit_price quantity : ℕ) (c : MatchSharedOrder) (d : Matched) : Type 0 where
  pub slot : ℕ
  pub next : Next
  pub claims : Settled
  pub queue : Removed
  pub maker : check_maker rt outcome slot c ≡ ok tt
  pub values : Values c taker_side limit_price quantity next
  pub hints : check_hints next c ≡ ok tt
  pub settled :
      settle_claims taker_side c.book.val.kind outcome next c.maker_claims c.taker_claims
      ≡ ok claims
  pub updated : update_queue rt next c ≡ ok queue
  pub written : d ≡ record {
    queue = set_accrued next.accrued queue;
    maker_order = record { key = c.maker_order.key; val = order_after next c.maker_order.val };
    maker_claims = claims.maker;
    taker_claims = claims.taker;
  }

pub match-Parts :
    (rt : Runtime) (now : ℤ) (outcome : SharedOutcome) (taker_side : OrderSide)
    (limit_price quantity : ℕ) (c : MatchSharedOrder) (d : Matched)
    → handle_match_shared_order rt now outcome taker_side limit_price quantity c ≡ ok d
    → Parts rt outcome taker_side limit_price quantity c d
unfolding handle_match_shared_order
match-Parts rt now outcome taker_side limit_price quantity c d h =
    let book = c.book.val in
    bind_case (check_accounts rt c) _ h λ _ _ h₁.
      bind_case (trading_open rt now book c.market) _ h₁ λ _ _ h₂.
        bind_case (order_terms book outcome taker_side limit_price quantity) _ h₂ λ terms _ h₃.
          bind_case (check_maker rt outcome terms.0 c) _ h₃ λ _ maker h₄.
            bind_case (check_trader rt book c.maker_order.val.owner c.maker_claims) _ h₄ λ _ _ h₅.
              bind_case (check_trader rt book c.taker c.taker_claims) _ h₅ λ _ _ h₆.
                bind_case (next_values taker_side limit_price quantity c) _ h₆ λ n calculated h₇.
                  bind_case (check_hints n c) _ h₇ λ _ hints h₈.
                    bind_case
                      (settle_claims taker_side book.kind outcome n c.maker_claims c.taker_claims) _
                      h₈
                      λ s settled h₉. bind_case (update_queue rt n c) _ h₉ λ q updated h₁₀. record {
                        slot = terms.0;
                        next = n;
                        claims = s;
                        queue = q;
                        maker = ground arith;
                        values = next_values-Values taker_side limit_price quantity c n calculated;
                        hints = ground arith;
                        settled = settled;
                        updated = updated;
                        written = ground arith;
                      }
