-- ===== src/Spot/Match/Handler.antt =====
-- The handler of a match (`handle_match_limit_order` in
-- programs/tidebook/src/instructions/match_limit_order.rs).
use tidebook.Base.{ℕ, Result, ok, ◌>>=◌, ◌>>◌}
use tidebook.State.{Runtime, OrderSide}
use tidebook.Spot.Placement.{check_positive, check_grid}
use tidebook.Spot.Match.Defs.{MatchLimitOrder, check_accounts}
use tidebook.Spot.Match.Steps.{next_values, check_transition, settle_balances}
use tidebook.Spot.Match.Writes.{Matched, match_writes}

unfoldable pub handle_match_limit_order :
    Runtime → OrderSide → (limit_price quantity : ℕ) → MatchLimitOrder → Result Matched
handle_match_limit_order rt taker_side limit_price quantity c = do
  check_accounts rt c
  check_positive limit_price quantity
  check_grid c.market.val limit_price quantity
  n ← next_values c taker_side limit_price quantity
  check_transition rt c n
  balances ← settle_balances taker_side n c.taker_balance.val c.maker_balance.val
  ok (match_writes c n balances)
