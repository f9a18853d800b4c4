-- ===== src/State/Shared.antt =====
-- Layouts of the balances and the books that all markets share
-- (programs/tidebook/src/state/shared.rs).
use tidebook.Base.{
  ℕ, ◌+◌, ◌-◌, ◌%◌, Option, Bool, true, false, ◌==◌, Result, err, ok, ◌>>=◌, if◌then◌else◌,
}
use tidebook.Errors.{program, shared_market_kind_mismatch}
use tidebook.State.Key.{Pubkey, Seed, spot_seed, yes_seed, no_seed}
use tidebook.State.Spot.{MarketKind, OrderSide, bid, ask, OrderStatus}

pub record AssetBalance : Type 0 where
  pub owner : Pubkey
  pub mint : Pubkey
  pub free : ℕ
  pub locked : ℕ
  pub bump : ℕ

pub data SharedOutcome : Type 0 where
  spot_ yes_ no_ : SharedOutcome

-- `[Option<u64>; 4]`.
pub record BestPrices : Type 0 where
  pub first : Option ℕ
  pub second : Option ℕ
  pub third : Option ℕ
  pub fourth : Option ℕ

pub record SharedBook : Type 0 where
  pub market : Pubkey
  pub authority : Pubkey
  pub kind : MarketKind
  pub base_mint : Pubkey
  pub quote_mint : Pubkey
  pub base_decimals : ℕ
  pub quote_decimals : ℕ
  pub price_tick : ℕ
  pub quantity_lot : ℕ
  pub payout_per_contract : ℕ
  pub best_prices : BestPrices
  pub next_order_id : ℕ
  pub open_order_count : ℕ
  pub accrued_quote_fees : ℕ
  pub bump : ℕ

pub record SharedOrder : Type 0 where
  pub owner : Pubkey
  pub market : Pubkey
  pub book : Pubkey
  pub order_id : ℕ
  pub outcome : SharedOutcome
  pub side : OrderSide
  pub price : ℕ
  pub price_level : Pubkey
  pub previous_order : Option Pubkey
  pub next_order : Option Pubkey
  pub quantity : ℕ
  pub remaining_quantity : ℕ
  pub locked_collateral : ℕ
  pub status : OrderStatus
  pub bump : ℕ

pub record SharedPriceLevel : Type 0 where
  pub book : Pubkey
  pub market : Pubkey
  pub outcome : SharedOutcome
  pub side : OrderSide
  pub price : ℕ
  pub better_price : Option ℕ
  pub worse_price : Option ℕ
  pub first_order : Option Pubkey
  pub last_order : Option Pubkey
  pub total_remaining_quantity : ℕ
  pub order_count : ℕ
  pub rent_payer : Pubkey
  pub bump : ℕ

-- `SharedOutcome::seed` and the derived equality tests.
abbrev pub shared_outcome_seed : SharedOutcome → Seed
shared_outcome_seed SharedOutcome.spot_ = spot_seed
shared_outcome_seed SharedOutcome.yes_ = yes_seed
shared_outcome_seed SharedOutcome.no_ = no_seed

abbrev pub shared_outcome_eq : SharedOutcome → SharedOutcome → Bool
shared_outcome_eq SharedOutcome.spot_ SharedOutcome.spot_ = true
shared_outcome_eq SharedOutcome.yes_ SharedOutcome.yes_ = true
shared_outcome_eq SharedOutcome.no_ SharedOutcome.no_ = true
shared_outcome_eq _ _ = false

-- `SharedBook::slot`: the place of a list in `best_prices`, by kind and outcome, then by side.
unfoldable pub slot_group : MarketKind → SharedOutcome → Result ℕ
slot_group MarketKind.spot SharedOutcome.spot_ = ok 0
slot_group MarketKind.prediction SharedOutcome.yes_ = ok 0
slot_group MarketKind.prediction SharedOutcome.no_ = ok 2
slot_group _ _ = err (program shared_market_kind_mismatch)

abbrev pub side_index : OrderSide → ℕ
side_index bid = 0
side_index ask = 1

unfoldable pub slot : SharedBook → SharedOutcome → OrderSide → Result ℕ
unfolding slot_group
slot b outcome side = do group ← slot_group b.kind outcome; ok (group + side_index side)

-- `best_prices[slot]`, read and written, and `slot ^ 1`, the list on the other side.
unfoldable pub best_at : BestPrices → (slot : ℕ) → Option ℕ
best_at b i =
    if i == 0 then b.first else if i == 1 then b.second else if i == 2 then b.third else b.fourth

unfoldable pub set_best_at : BestPrices → (slot : ℕ) → Option ℕ → BestPrices
set_best_at b i p =
    if i == 0
    then record b { first = p }
    else if i == 1
    then record b { second = p }
    else if i == 2
    then record b { third = p }
    else record b { fourth = p }

abbrev pub opposite_slot : ℕ → ℕ
opposite_slot i = if i % 2 == 0 then i + 1 else i - 1
