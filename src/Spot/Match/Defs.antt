-- ===== src/Spot/Match/Defs.antt =====
-- The accounts of a match and their constraints (`MatchLimitOrder` in
-- programs/tidebook/src/instructions/match_limit_order.rs).
use tidebook.Base.{[], ◌∷◌, Option, some, not, ◌==◌, opt_eq, Result, ◌>>◌, require}
use tidebook.Errors.{
  program, market_not_active, market_fees_market_mismatch, market_fees_quote_mint_mismatch,
  order_market_mismatch, order_not_open, self_trade_not_allowed, order_price_level_mismatch,
  price_level_market_mismatch, price_level_side_mismatch, price_level_price_mismatch,
  maker_not_fifo_head, maker_not_at_best_price,
}
use tidebook.State.{
  Pubkey, Account, UncheckedAccount, Runtime, check_seeds, key_seed, le_bytes, market_seed,
  order_seed, price_level_seed, market_fees_seed, protocol_config_seed, Market, MarketFees,
  ProtocolConfig, Order, side_seed, side_eq, is_open, is_active, best_of, PriceLevel, TraderBalance,
}
use tidebook.Spot.Placement.{check_balance}

pub record MatchLimitOrder : Type 0 where
  pub taker : Pubkey
  pub market : Account Market
  pub protocol_config : Account ProtocolConfig
  pub market_fees : Account MarketFees
  pub maker_order : Account Order
  pub maker_price_level : Account PriceLevel
  pub next_order : Option (Account Order)
  pub worse_level : Option (Account PriceLevel)
  pub level_rent_recipient : Option UncheckedAccount
  pub maker_balance : Account TraderBalance
  pub taker_balance : Account TraderBalance

unfoldable pub check_market_accounts : Runtime → MatchLimitOrder → Result (Unit {0})
check_market_accounts rt c = do
  let m = c.market.val
  let fees = c.market_fees.val
  check_seeds rt (market_seed ∷ key_seed m.base_mint ∷ key_seed m.quote_mint ∷ []) m.bump
      c.market.key
  require (is_active m.status) (program market_not_active)
  check_seeds rt (protocol_config_seed ∷ []) c.protocol_config.val.bump c.protocol_config.key
  check_seeds rt (market_fees_seed ∷ key_seed c.market.key ∷ []) fees.bump c.market_fees.key
  require (fees.market == c.market.key) (program market_fees_market_mismatch)
  require (fees.quote_mint == m.quote_mint) (program market_fees_quote_mint_mismatch)

unfoldable pub check_maker_accounts : Runtime → MatchLimitOrder → Result (Unit {0})
check_maker_accounts rt c = do
  let o = c.maker_order.val
  let level = c.maker_price_level.val
  check_seeds rt (order_seed ∷ key_seed c.market.key ∷ le_bytes o.order_id ∷ []) o.bump
      c.maker_order.key
  require (o.market == c.market.key) (program order_market_mismatch)
  require (is_open o.status) (program order_not_open)
  require (not (o.owner == c.taker)) (program self_trade_not_allowed)
  check_seeds rt
      (price_level_seed ∷ key_seed c.market.key ∷ side_seed o.side ∷ le_bytes o.price ∷ [])
      level.bump c.maker_price_level.key
  require (o.price_level == c.maker_price_level.key) (program order_price_level_mismatch)
  require (level.market == c.market.key) (program price_level_market_mismatch)
  require (side_eq level.side o.side) (program price_level_side_mismatch)
  require (level.price == o.price) (program price_level_price_mismatch)
  require (opt_eq level.first_order (some c.maker_order.key)) (program maker_not_fifo_head)
  require (opt_eq (best_of o.side c.market.val) (some o.price)) (program maker_not_at_best_price)

unfoldable pub check_accounts : Runtime → MatchLimitOrder → Result (Unit {0})
check_accounts rt c = do
  check_market_accounts rt c
  check_maker_accounts rt c
  check_balance rt c.market.key c.maker_order.val.owner c.maker_balance
  check_balance rt c.market.key c.taker c.taker_balance
