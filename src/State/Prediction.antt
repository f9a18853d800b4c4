-- ===== src/State/Prediction.antt =====
-- Prediction market layouts (programs/tidebook/src/state/prediction.rs and state/prediction_book.rs).
-- Hashes are numbers, zero standing for the all-zero hash; text is the list of its bytes.
use tidebook.Base.{ℕ, Option, List, Bool, true, false}
use tidebook.Base.Int.{ℤ}
use tidebook.State.Key.{Pubkey, Seed, yes_seed, no_seed}
use tidebook.State.Spot.{OrderSide, OrderStatus, bid, ask}

pub data PredictionOutcome : Type 0 where
  yes_ no_ : PredictionOutcome

pub data PredictionResolution : Type 0 where
  yes_ no_ invalid : PredictionResolution

pub data PredictionStatus : Type 0 where
  draft open_ frozen proposed resolved : PredictionStatus

pub data PredictionResolutionPhase : Type 0 where
  primary fallback : PredictionResolutionPhase

pub record PredictionFallback : Type 0 where
  pub resolver : Pubkey
  pub available_ts : ℤ
  pub deadline_ts : Option ℤ

pub record PredictionProposal : Type 0 where
  pub outcome : PredictionResolution
  pub proposed_at : ℤ
  pub evidence_uri : List ℕ
  pub evidence_hash : ℕ

pub record PredictionMarket : Type 0 where
  pub market_id : ℕ
  pub authority : Pubkey
  pub resolver : Pubkey
  pub fallback : Option PredictionFallback
  pub collateral_mint : Pubkey
  pub collateral_vault : Pubkey
  pub metadata : Pubkey
  pub question_hash : ℕ
  pub rules_hash : ℕ
  pub rules_uri : List ℕ
  pub close_ts : ℤ
  pub earliest_resolution_ts : Option ℤ
  pub resolution_delay_seconds : ℕ
  pub resolution_phase : PredictionResolutionPhase
  pub status : PredictionStatus
  pub proposal : Option PredictionProposal
  pub final_outcome : Option PredictionResolution
  pub payout_per_contract : ℕ
  pub price_tick : ℕ
  pub yes_supply : ℕ
  pub no_supply : ℕ
  pub backing_reserve : ℕ
  pub open_order_count : ℕ
  pub bump : ℕ

pub record PredictionPosition : Type 0 where
  pub market : Pubkey
  pub owner : Pubkey
  pub collateral_free : ℕ
  pub collateral_locked : ℕ
  pub yes_free : ℕ
  pub yes_locked : ℕ
  pub no_free : ℕ
  pub no_locked : ℕ
  pub bump : ℕ

pub record PredictionOrderBook : Type 0 where
  pub market : Pubkey
  pub next_order_id : ℕ
  pub yes_best_bid : Option ℕ
  pub yes_best_ask : Option ℕ
  pub no_best_bid : Option ℕ
  pub no_best_ask : Option ℕ
  pub bump : ℕ

pub record PredictionPriceLevel : Type 0 where
  pub market : Pubkey
  pub outcome : PredictionOutcome
  pub side : OrderSide
  pub price : ℕ
  pub better_price : Option ℕ
  pub worse_price : Option ℕ
  pub first_order : Option Pubkey
  pub last_order : Option Pubkey
  pub total_remaining_quantity : ℕ
  pub order_count : ℕ
  pub rent_payer : Pubkey
  pub bump : ℕ

pub record PredictionOrder : Type 0 where
  pub owner : Pubkey
  pub market : Pubkey
  pub order_id : ℕ
  pub outcome : PredictionOutcome
  pub side : OrderSide
  pub price : ℕ
  pub price_level : Pubkey
  pub previous_order : Option Pubkey
  pub next_order : Option Pubkey
  pub quantity : ℕ
  pub remaining_quantity : ℕ
  pub locked_collateral : ℕ
  pub status : OrderStatus
  pub bump : ℕ

-- `PredictionOutcome::seed`.
abbrev pub outcome_seed : PredictionOutcome → Seed
outcome_seed PredictionOutcome.yes_ = yes_seed
outcome_seed PredictionOutcome.no_ = no_seed

abbrev pub outcome_eq : PredictionOutcome → PredictionOutcome → Bool
outcome_eq PredictionOutcome.yes_ PredictionOutcome.yes_ = true
outcome_eq PredictionOutcome.no_ PredictionOutcome.no_ = true
outcome_eq _ _ = false

abbrev pub status_is_open : PredictionStatus → Bool
status_is_open PredictionStatus.open_ = true
status_is_open _ = false

-- `PredictionOrderBook::best_price`.
unfoldable pub best_price : PredictionOrderBook → PredictionOutcome → OrderSide → Option ℕ
best_price b PredictionOutcome.yes_ bid = b.yes_best_bid
best_price b PredictionOutcome.yes_ ask = b.yes_best_ask
best_price b PredictionOutcome.no_ bid = b.no_best_bid
best_price b PredictionOutcome.no_ ask = b.no_best_ask

-- `PredictionOrderBook::set_best_price`.
unfoldable pub set_best_price :
    PredictionOrderBook → PredictionOutcome → OrderSide → Option ℕ → PredictionOrderBook
set_best_price b PredictionOutcome.yes_ bid p = record b { yes_best_bid = p }
set_best_price b PredictionOutcome.yes_ ask p = record b { yes_best_ask = p }
set_best_price b PredictionOutcome.no_ bid p = record b { no_best_bid = p }
set_best_price b PredictionOutcome.no_ ask p = record b { no_best_ask = p }
