-- ===== src/Spot/Match/Partial.antt =====
-- A match that leaves its maker open (programs/tidebook/src/instructions/match_limit_order.rs).
use tidebook.Base.{ℕ, ◌-◌, ◌<◌, ◌≡◌, some, false, ok, arith}
use tidebook.State.{Runtime, OrderSide, open_}
use tidebook.Matching.Plan.{settle-Planned}
use tidebook.Spot.Match.Defs.{MatchLimitOrder}
use tidebook.Spot.Match.Steps.{Next}
use tidebook.Spot.Match.Writes.{Matched, order_after, level_after, market_after, match_writes}
use tidebook.Spot.Match.Handler.{handle_match_limit_order}
use tidebook.Spot.Match.Parts.{request, match-Parts}

pub open-IsPartial :
    (c : MatchLimitOrder) (n : Next)
    → (order_after n c.maker_order.val).status ≡ open_
    → n.plan.maker_fully_filled ≡ false
unfolding order_after
open-IsPartial c n s = ground arith

-- A match that leaves the maker open keeps its time priority: it leaves a positive remainder, all
-- else of the order but its lock unchanged, the level in place with only its total lowered by the
-- exchanged quantity, and the market record unchanged.
pub match_partial :
    (rt : Runtime) (side : OrderSide) (limit_price quantity : ℕ) (c : MatchLimitOrder) (d : Matched)
    → handle_match_limit_order rt side limit_price quantity c ≡ ok d
    → d.maker_order.val.status ≡ open_
    → let o = c.maker_order.val in
      let o' = d.maker_order.val in
      let level = c.maker_price_level in
      (0 < o'.remaining_quantity)
      × (o'.remaining_quantity < o.remaining_quantity)
      × (o' ≡ record o {
        remaining_quantity = o'.remaining_quantity;
        locked_collateral = o'.locked_collateral;
      })
      × (d.maker_price_level
          ≡ some (record level {
            val = record level.val {
              total_remaining_quantity =
                  level.val.total_remaining_quantity
                  - (o.remaining_quantity - o'.remaining_quantity);
            };
          }))
      × (d.market ≡ c.market)
unfolding match_writes order_after level_after market_after
match_partial rt side limit_price quantity c d h s =
    let p = match-Parts rt side limit_price quantity c d h in
    let r = request c side limit_price quantity in
    let k = settle-Planned r p.next.plan p.values.planned in
    let part = open-IsPartial c p.next (ground (arith, p.written)) in
    ground (arith, p.written, p.values.order_left, p.values.level_left, k.positive, k.maker_flag)
