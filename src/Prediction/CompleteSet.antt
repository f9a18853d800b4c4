-- ===== src/Prediction/CompleteSet.antt =====
-- Complete sets of YES and NO (programs/tidebook/src/instructions/prediction_complete_set.rs): a pair
-- is minted against its full payout and burned for it. A handler returns the changed accounts.
pub mod Backing
pub mod Inverse
use tidebook.Base.{
  ℕ, [], ◌∷◌, Bool, true, false, ◌&&◌, ltb, ◌==◌, Result, ok, ◌>>=◌, ◌>>◌, require, ok_or,
}
use tidebook.Base.Word.{checked_add, checked_sub, checked_mul}
use tidebook.Base.Int.{ℤ, ltb_ℤ}
use tidebook.Errors.{
  program, prediction_split_unavailable, prediction_merge_unavailable,
  invalid_prediction_contract_quantity, prediction_accounting_overflow, insufficient_free_balance,
  insufficient_prediction_positions, free_balance_overflow, prediction_backing_underflow,
  prediction_position_market_mismatch, prediction_position_owner_mismatch,
}
use tidebook.State.{
  Pubkey, Account, Runtime, check_seeds, key_seed, prediction_market_seed, prediction_position_seed,
  PredictionMarket, PredictionPosition, PredictionStatus, status_is_open,
}

pub record PredictionCompleteSet : Type 0 where
  pub owner : Pubkey
  pub market : Account PredictionMarket
  pub position : Account PredictionPosition

-- The account constraints of `PredictionCompleteSet`.
unfoldable pub check_accounts : Runtime → PredictionCompleteSet → Result (Unit {0})
check_accounts rt c = do
  check_seeds rt (prediction_market_seed ∷ key_seed c.market.val.market_id ∷ []) c.market.val.bump
      c.market.key
  check_seeds rt (prediction_position_seed ∷ key_seed c.market.key ∷ key_seed c.owner ∷ [])
      c.position.val.bump c.position.key
  require (c.position.val.market == c.market.key) (program prediction_position_market_mismatch)
  require (c.position.val.owner == c.owner) (program prediction_position_owner_mismatch)

-- The writes that split and merge share.
abbrev pub commit :
    PredictionCompleteSet
    → (free yes_free no_free yes_supply no_supply reserve : ℕ) → PredictionCompleteSet
commit c free yes_free no_free yes_supply no_supply reserve = record c {
  market = record market {
    val = record m { yes_supply = yes_supply; no_supply = no_supply; backing_reserve = reserve };
  };
  position = record position {
    val = record p { collateral_free = free; yes_free = yes_free; no_free = no_free };
  };
}
  where
    open c use {market, position}
    open c.market use {val as m}
    open c.position use {val as p}

unfoldable pub split_accounts : ℕ → PredictionCompleteSet → Result PredictionCompleteSet
unfolding checked_mul checked_add checked_sub
split_accounts quantity c = do
  let m = c.market.val
  let p = c.position.val
  cost ← ok_or (checked_mul quantity m.payout_per_contract) (program prediction_accounting_overflow)
  free ← ok_or (checked_sub p.collateral_free cost) (program insufficient_free_balance)
  y ← ok_or (checked_add p.yes_free quantity) (program prediction_accounting_overflow)
  n ← ok_or (checked_add p.no_free quantity) (program prediction_accounting_overflow)
  yes_supply ← ok_or (checked_add m.yes_supply quantity) (program prediction_accounting_overflow)
  no_supply ← ok_or (checked_add m.no_supply quantity) (program prediction_accounting_overflow)
  reserve ← ok_or (checked_add m.backing_reserve cost) (program prediction_accounting_overflow)
  ok (commit c free y n yes_supply no_supply reserve)

unfoldable pub handle_split_prediction_complete_set :
    Runtime → (now : ℤ) → ℕ → PredictionCompleteSet → Result PredictionCompleteSet
handle_split_prediction_complete_set rt now quantity c = do
  check_accounts rt c
  require (status_is_open c.market.val.status && ltb_ℤ now c.market.val.close_ts)
      (program prediction_split_unavailable)
  require (ltb 0 quantity) (program invalid_prediction_contract_quantity)
  split_accounts quantity c

-- `matches!(status, Open | Frozen | Proposed)`.
abbrev pub can_merge : PredictionStatus → Bool
can_merge PredictionStatus.open_ = true
can_merge PredictionStatus.frozen = true
can_merge PredictionStatus.proposed = true
can_merge _ = false

unfoldable pub merge_accounts : ℕ → PredictionCompleteSet → Result PredictionCompleteSet
unfolding checked_mul checked_add checked_sub
merge_accounts quantity c = do
  let m = c.market.val
  let p = c.position.val
  refund ←
      ok_or (checked_mul quantity m.payout_per_contract) (program prediction_accounting_overflow)
  y ← ok_or (checked_sub p.yes_free quantity) (program insufficient_prediction_positions)
  n ← ok_or (checked_sub p.no_free quantity) (program insufficient_prediction_positions)
  free ← ok_or (checked_add p.collateral_free refund) (program free_balance_overflow)
  yes_supply ← ok_or (checked_sub m.yes_supply quantity) (program prediction_backing_underflow)
  no_supply ← ok_or (checked_sub m.no_supply quantity) (program prediction_backing_underflow)
  reserve ← ok_or (checked_sub m.backing_reserve refund) (program prediction_backing_underflow)
  ok (commit c free y n yes_supply no_supply reserve)

unfoldable pub handle_merge_prediction_complete_set :
    Runtime → ℕ → PredictionCompleteSet → Result PredictionCompleteSet
handle_merge_prediction_complete_set rt quantity c = do
  check_accounts rt c
  require (can_merge c.market.val.status) (program prediction_merge_unavailable)
  require (ltb 0 quantity) (program invalid_prediction_contract_quantity)
  merge_accounts quantity c
