-- ===== src/Spot/Tests/Funding.antt =====
-- A seller deposits base tokens and takes them back
-- (programs/tidebook/src/instructions/deposit.rs and withdraw.rs).
use tidebook.Base.{[], ◌∷◌, ℕ, ◌+◌, ◌-◌, ◌≡◌, refl, ok, err, leb, arith, if◌then◌else◌}
use tidebook.Base.Word.{checked_add, checked_sub}
use tidebook.Errors.{anchor, token_transfer_failed}
use tidebook.Sample.{address, hashing}
use tidebook.State.{Account, vault_seed, vault_authority_seed, key_seed}
use tidebook.Spot.Funds.{
  TokenAccount, TransferChecked, Transfer, Transferred, check_vault, check_deposit, check_withdraw,
  deposited, withdrawn, set_free, handle_deposit, handle_withdraw,
}
use tidebook.Spot.Funds.Solvency.{Moves, Solvent, deposit-Solvent, withdraw-Solvent}
use tidebook.Spot.Tests.Data.{market_key, market, ledger}

abbrev with_amount : ℕ → Account TokenAccount → Account TokenAccount
with_amount n a = record a { val = record a.val { amount = n } }

-- A token program that moves the amount where the source has it.
abbrev bank : TransferChecked
bank mint source destination authority amount decimals =
    if leb amount source.val.amount
    then ok (
      with_amount (source.val.amount - amount) source,
      with_amount (destination.val.amount + amount) destination,
    )
    else err (anchor token_transfer_failed)

bank-Moves : Moves bank
bank-Moves mint source destination source' destination' authority amount decimals apart h = record {
  debited = ground arith;
  credited = ground arith;
}

abbrev wallet : ℕ → Account TokenAccount
wallet n = record { key = 41; val = record { mint = 11; owner = 21; amount = n } }

abbrev vault_authority : ℕ
vault_authority = address (vault_authority_seed ∷ key_seed market_key ∷ [])

abbrev vault : ℕ → Account TokenAccount
vault n = record {
  key = address (vault_seed ∷ key_seed market_key ∷ key_seed 11 ∷ []);
  val = record { mint = 11; owner = vault_authority; amount = n };
}

-- The seller with so much in the wallet, free in the ledger, and in the vault.
abbrev seller : (tokens free custody : ℕ) → Transfer
seller tokens free custody = record {
  owner = 21;
  market = market;
  trader_balance = ledger 21 free 40 0 0;
  mint = record { key = 11; val = record { decimals = 2 } };
  token_account = wallet tokens;
  vault_authority = record { key = vault_authority };
  market_vault = vault custody;
}

abbrev after : (tokens free custody : ℕ) → Transferred
after tokens free custody = record {
  trader_balance = ledger 21 free 40 0 0;
  token_account = wallet tokens;
  market_vault = vault custody;
}

deposit_is : handle_deposit hashing bank 30 (seller 100 5 65) ≡ ok (after 70 35 95)
unfolding handle_deposit check_deposit check_vault deposited set_free checked_add
deposit_is = refl

withdraw_is : handle_withdraw hashing bank 30 (seller 70 35 95) ≡ ok (after 100 5 65)
unfolding handle_withdraw check_withdraw check_vault withdrawn set_free checked_sub
withdraw_is = refl

deposit-Solvent_example : Solvent (seller 100 5 65) (after 70 35 95)
deposit-Solvent_example =
    deposit-Solvent hashing bank 30 (seller 100 5 65) (after 70 35 95) deposit_is bank-Moves refl

withdraw-Solvent_example : Solvent (seller 70 35 95) (after 100 5 65)
withdraw-Solvent_example =
    withdraw-Solvent hashing bank 30 (seller 70 35 95) (after 100 5 65) withdraw_is bank-Moves refl
