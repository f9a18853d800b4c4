-- ===== src/State/Spot.antt =====
-- Spot market layouts (programs/tidebook/src/state.rs).
use tidebook.Base.{ℕ, Option, Bool, true, false, ltb}
use tidebook.State.Key.{Pubkey, Seed, bid_seed, ask_seed}

pub data MarketKind : Type 0 where
  spot prediction other : MarketKind

pub data MarketStatus : Type 0 where
  active paused : MarketStatus

pub data OrderSide : Type 0 where
  bid ask : OrderSide

pub data OrderStatus : Type 0 where
  open_ filled canceled : OrderStatus

pub data AdminStatus : Type 0 where
  active disabled : AdminStatus

pub record Market : Type 0 where
  pub authority : Pubkey
  pub base_mint : Pubkey
  pub quote_mint : Pubkey
  pub status : MarketStatus
  pub next_order_id : ℕ
  pub base_decimals : ℕ
  pub quote_decimals : ℕ
  pub price_tick_size : ℕ
  pub quantity_lot_size : ℕ
  pub best_bid : Option ℕ
  pub best_ask : Option ℕ
  pub open_order_count : ℕ
  pub bump : ℕ

pub record Order : Type 0 where
  pub owner : Pubkey
  pub market : Pubkey
  pub order_id : ℕ
  pub side : OrderSide
  pub price : ℕ
  pub price_level : Pubkey
  pub previous_order : Option Pubkey
  pub next_order : Option Pubkey
  pub quantity : ℕ
  pub remaining_quantity : ℕ
  pub locked_collateral : ℕ
  pub status : OrderStatus
  pub bump : ℕ

pub record ProtocolConfig : Type 0 where
  pub super_admin : Pubkey
  pub taker_fee_bps : ℕ
  pub bump : ℕ

pub record MarketFees : Type 0 where
  pub market : Pubkey
  pub quote_mint : Pubkey
  pub accrued_quote_fees : ℕ
  pub bump : ℕ

pub record AdminRecord : Type 0 where
  pub authority : Pubkey
  pub added_by : Pubkey
  pub status : AdminStatus
  pub bump : ℕ

pub record PriceLevel : Type 0 where
  pub market : Pubkey
  pub side : OrderSide
  pub price : ℕ
  pub better_price : Option ℕ
  pub worse_price : Option ℕ
  pub first_order : Option Pubkey
  pub last_order : Option Pubkey
  pub total_remaining_quantity : ℕ
  pub order_count : ℕ
  pub rent_payer : Pubkey
  pub bump : ℕ

pub record TraderBalance : Type 0 where
  pub market : Pubkey
  pub owner : Pubkey
  pub base_free : ℕ
  pub base_locked : ℕ
  pub quote_free : ℕ
  pub quote_locked : ℕ
  pub bump : ℕ

-- `OrderSide::seed`.
abbrev pub side_seed : OrderSide → Seed
side_seed bid = bid_seed
side_seed ask = ask_seed

-- The derived equality tests.
abbrev pub side_eq : OrderSide → OrderSide → Bool
side_eq bid bid = true
side_eq ask ask = true
side_eq _ _ = false

-- `market.best_bid` or `market.best_ask`, by side, and the write of either.
unfoldable pub best_of : OrderSide → Market → Option ℕ
best_of bid m = m.best_bid
best_of ask m = m.best_ask

unfoldable pub set_best : OrderSide → Option ℕ → Market → Market
set_best bid p m = record m { best_bid = p }
set_best ask p m = record m { best_ask = p }

-- `price > other` for bids, `price < other` for asks: the first price has the higher priority.
abbrev pub has_priority : OrderSide → ℕ → ℕ → Bool
has_priority bid a b = ltb b a
has_priority ask a b = ltb a b

abbrev pub is_open : OrderStatus → Bool
is_open open_ = true
is_open _ = false

abbrev pub is_active : MarketStatus → Bool
is_active MarketStatus.active = true
is_active paused = false
