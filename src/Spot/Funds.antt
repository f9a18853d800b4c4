-- ===== src/Spot/Funds.antt =====
-- Moving tokens between a trader and a market vault (programs/tidebook/src/instructions/deposit.rs and
-- withdraw.rs). The token program is a parameter.
pub mod Solvency
use tidebook.Base.{
  ℕ, [], ◌∷◌, ◌==◌, ltb, leb, Result, ok, err, ◌>>=◌, ◌>>◌, require, ok_or, if◌then◌else◌,
}
use tidebook.Base.Word.{checked_add, checked_sub}
use tidebook.Errors.{
  program, anchor, constraint_seeds, constraint_token_mint, constraint_token_owner,
  invalid_deposit_amount, invalid_deposit_mint, trader_balance_owner_mismatch,
  free_balance_overflow, insufficient_deposit_funds, invalid_withdrawal_amount,
  invalid_withdrawal_mint, insufficient_free_balance, invalid_withdrawal_destination_owner,
  insufficient_vault_funds,
}
use tidebook.State.{
  Pubkey, Account, UncheckedAccount, Runtime, vault_seed, vault_authority_seed, key_seed, Market,
  TraderBalance,
}
use tidebook.Spot.Placement.{check_balance}

pub record Mint : Type 0 where
  pub decimals : ℕ

pub record TokenAccount : Type 0 where
  pub mint : Pubkey
  pub owner : Pubkey
  pub amount : ℕ

-- `transfer_checked` of the token program: mint, source, destination, authority, amount and decimals.
-- It returns the source and the destination as they are afterwards.
abbrev pub TransferChecked : Type 0
TransferChecked =
    Account Mint
    → Account TokenAccount
    → Account TokenAccount
    → Pubkey
    → ℕ
    → ℕ
    → Result (Account TokenAccount × Account TokenAccount)

-- The accounts of a deposit and of a withdrawal; `token_account` is the one of the trader.
pub record Transfer : Type 0 where
  pub owner : Pubkey
  pub market : Account Market
  pub trader_balance : Account TraderBalance
  pub mint : Account Mint
  pub token_account : Account TokenAccount
  pub vault_authority : UncheckedAccount
  pub market_vault : Account TokenAccount

-- What a transfer writes.
pub record Transferred : Type 0 where
  pub trader_balance : Account TraderBalance
  pub token_account : Account TokenAccount
  pub market_vault : Account TokenAccount

-- The canonical authority and the canonical vault of the mint.
unfoldable pub check_vault : Runtime → Transfer → Result (Unit {0})
check_vault rt c = do
  require
      ((rt.find_program_address (vault_authority_seed ∷ key_seed c.market.key ∷ [])).0
        == c.vault_authority.key)
      (anchor constraint_seeds)
  require
      ((rt.find_program_address (vault_seed ∷ key_seed c.market.key ∷ key_seed c.mint.key ∷ [])).0
        == c.market_vault.key)
      (anchor constraint_seeds)
  require (c.market_vault.val.mint == c.mint.key) (anchor constraint_token_mint)
  require (c.market_vault.val.owner == c.vault_authority.key) (anchor constraint_token_owner)

unfoldable pub check_deposit : Runtime → Transfer → Result (Unit {0})
check_deposit rt c = do
  check_balance rt c.market.key c.owner c.trader_balance
  require (c.token_account.val.owner == c.owner) (program trader_balance_owner_mismatch)
  require (c.token_account.val.mint == c.mint.key) (program invalid_deposit_mint)
  check_vault rt c

unfoldable pub check_withdraw : Runtime → Transfer → Result (Unit {0})
check_withdraw rt c = do
  check_balance rt c.market.key c.owner c.trader_balance
  require (c.token_account.val.owner == c.owner) (program invalid_withdrawal_destination_owner)
  require (c.token_account.val.mint == c.mint.key) (program invalid_withdrawal_mint)
  check_vault rt c

-- The free amount of the mint's asset after a deposit, and after a withdrawal.
unfoldable pub deposited : Market → Pubkey → ℕ → TraderBalance → Result ℕ
unfolding checked_add
deposited m mint amount b =
    if mint == m.base_mint
    then ok_or (checked_add b.base_free amount) (program free_balance_overflow)
    else if mint == m.quote_mint
    then ok_or (checked_add b.quote_free amount) (program free_balance_overflow)
    else err (program invalid_deposit_mint)

unfoldable pub withdrawn : Market → Pubkey → ℕ → TraderBalance → Result ℕ
unfolding checked_sub
withdrawn m mint amount b =
    if mint == m.base_mint
    then ok_or (checked_sub b.base_free amount) (program insufficient_free_balance)
    else if mint == m.quote_mint
    then ok_or (checked_sub b.quote_free amount) (program insufficient_free_balance)
    else err (program invalid_withdrawal_mint)

unfoldable pub set_free : Market → Pubkey → ℕ → TraderBalance → TraderBalance
set_free m mint free b =
    if mint == m.base_mint then record b { base_free = free } else record b { quote_free = free }

unfoldable pub handle_deposit : Runtime → TransferChecked → ℕ → Transfer → Result Transferred
handle_deposit rt transfer_checked amount c = do
  let ledger = c.trader_balance
  check_deposit rt c
  require (ltb 0 amount) (program invalid_deposit_amount)
  require (leb amount c.token_account.val.amount) (program insufficient_deposit_funds)
  free ← deposited c.market.val c.mint.key amount ledger.val
  moved ← transfer_checked c.mint c.token_account c.market_vault c.owner amount c.mint.val.decimals
  ok (record {
    trader_balance = record {
      key = ledger.key;
      val = set_free c.market.val c.mint.key free ledger.val;
    };
    token_account = moved.0;
    market_vault = moved.1;
  })

unfoldable pub handle_withdraw : Runtime → TransferChecked → ℕ → Transfer → Result Transferred
handle_withdraw rt transfer_checked amount c = do
  let ledger = c.trader_balance
  check_withdraw rt c
  require (ltb 0 amount) (program invalid_withdrawal_amount)
  free ← withdrawn c.market.val c.mint.key amount ledger.val
  require (leb amount c.market_vault.val.amount) (program insufficient_vault_funds)
  moved ←
      transfer_checked c.mint c.market_vault c.token_account c.vault_authority.key amount
        c.mint.val.decimals
  ok (record {
    trader_balance = record {
      key = ledger.key;
      val = set_free c.market.val c.mint.key free ledger.val;
    };
    token_account = moved.1;
    market_vault = moved.0;
  })
