-- ===== src/Spot/Funds/Solvency.antt =====
-- Deposits, withdrawals and the tokens behind the ledgers
-- (programs/tidebook/src/instructions/deposit.rs and withdraw.rs).
use tidebook.Base.{
  ℕ, ◌+◌, ◌≡◌, sym, false, ◌==◌, ltb, leb, ok, require, bind_case, arith, if◌then◌else◌,
}
use tidebook.Errors.{
  program, invalid_deposit_amount, insufficient_deposit_funds, invalid_withdrawal_amount,
  insufficient_vault_funds,
}
use tidebook.State.{Pubkey, Account, Runtime, Market, TraderBalance}
use tidebook.Spot.Placement.Collateral.{base_total, quote_total}
use tidebook.Spot.Funds.{
  Mint, TokenAccount, TransferChecked, Transfer, Transferred, check_deposit, check_withdraw,
  deposited, withdrawn, set_free, handle_deposit, handle_withdraw,
}

-- The documented effect of a token transfer between two accounts.
pub record Moved (amount : ℕ) (source destination source' destination' : Account TokenAccount)
    : Type 0 where
  pub debited : source'.val.amount + amount ≡ source.val.amount
  pub credited : destination'.val.amount ≡ destination.val.amount + amount

abbrev pub Moves : TransferChecked → Type 0
Moves transfer_checked =
    (mint : Account Mint) (source destination source' destination' : Account TokenAccount)
    (authority : Pubkey) (amount decimals : ℕ)
    → (source.key == destination.key) ≡ false
    → transfer_checked mint source destination authority amount decimals
      ≡ ok (source', destination')
    → Moved amount source destination source' destination'

-- What a ledger claims of the tokens of a mint.
abbrev pub claim : Market → Pubkey → TraderBalance → ℕ
claim m k b =
    if k == m.base_mint then base_total b else if k == m.quote_mint then quote_total b else 0

abbrev pub share : Pubkey → Pubkey → ℕ → ℕ
share k mint amount = if k == mint then amount else 0

-- The ledger of a deposit against the one before it: the claim on the mint's asset grows by the
-- amount, no other does, and what is locked stays.
pub record Grows (m : Market) (mint : Pubkey) (amount : ℕ) (b b' : TraderBalance) : Type 0 where
  pub claims : (k : Pubkey) → claim m k b' ≡ claim m k b + share k mint amount
  pub base_lock : b'.base_locked ≡ b.base_locked
  pub quote_lock : b'.quote_locked ≡ b.quote_locked

deposited-Grows :
    (m : Market) (mint : Pubkey) (amount free : ℕ) (b : TraderBalance)
    → deposited m mint amount b ≡ ok free
    → Grows m mint amount b (set_free m mint free b)
unfolding deposited set_free
deposited-Grows m mint amount free b h = record {
  claims = λ k. ground arith;
  base_lock = ground arith;
  quote_lock = ground arith;
}

withdrawn-Grows :
    (m : Market) (mint : Pubkey) (amount free : ℕ) (b : TraderBalance)
    → withdrawn m mint amount b ≡ ok free
    → Grows m mint amount (set_free m mint free b) b
unfolding withdrawn set_free
withdrawn-Grows m mint amount free b h = record {
  claims = λ k. ground arith;
  base_lock = ground arith;
  quote_lock = ground arith;
}

-- A deposit that goes through, taken apart.
record Deposited (rt : Runtime) (token : TransferChecked) (amount : ℕ) (c : Transfer)
    (d : Transferred) : Type 0 where
  free : ℕ
  computed : deposited c.market.val c.mint.key amount c.trader_balance.val ≡ ok free
  moved :
      token c.mint c.token_account c.market_vault c.owner amount c.mint.val.decimals
      ≡ ok (d.token_account, d.market_vault)
  written : d.trader_balance.val ≡ set_free c.market.val c.mint.key free c.trader_balance.val

deposit-Deposited :
    (rt : Runtime) (token : TransferChecked) (amount : ℕ) (c : Transfer) (d : Transferred)
    → handle_deposit rt token amount c ≡ ok d
    → Deposited rt token amount c d
unfolding handle_deposit
deposit-Deposited rt token amount c d h = bind_case (check_deposit rt c) _ h λ _ _ h₁.
    bind_case (require (ltb 0 amount) (program invalid_deposit_amount)) _ h₁ λ _ _ h₂.
      bind_case
        (require (leb amount c.token_account.val.amount) (program insufficient_deposit_funds)) _ h₂
        λ _ _ h₃.
          bind_case (deposited c.market.val c.mint.key amount c.trader_balance.val) _ h₃
            λ free computed h₄.
              bind_case
                (token c.mint c.token_account c.market_vault c.owner amount c.mint.val.decimals) _
                h₄
                λ moved transfer h₅. record {
                  free = free;
                  computed = computed;
                  moved = ground arith;
                  written = ground arith;
                }

record Withdrawn (rt : Runtime) (token : TransferChecked) (amount : ℕ) (c : Transfer)
    (d : Transferred) : Type 0 where
  free : ℕ
  computed : withdrawn c.market.val c.mint.key amount c.trader_balance.val ≡ ok free
  moved :
      token c.mint c.market_vault c.token_account c.vault_authority.key amount c.mint.val.decimals
      ≡ ok (d.market_vault, d.token_account)
  written : d.trader_balance.val ≡ set_free c.market.val c.mint.key free c.trader_balance.val

withdraw-Withdrawn :
    (rt : Runtime) (token : TransferChecked) (amount : ℕ) (c : Transfer) (d : Transferred)
    → handle_withdraw rt token amount c ≡ ok d
    → Withdrawn rt token amount c d
unfolding handle_withdraw
withdraw-Withdrawn rt token amount c d h = bind_case (check_withdraw rt c) _ h λ _ _ h₁.
    bind_case (require (ltb 0 amount) (program invalid_withdrawal_amount)) _ h₁ λ _ _ h₂.
      bind_case (withdrawn c.market.val c.mint.key amount c.trader_balance.val) _ h₂
        λ free computed h₃.
          bind_case
            (require (leb amount c.market_vault.val.amount) (program insufficient_vault_funds)) _ h₃
            λ _ _ h₄.
              bind_case
                (token c.mint c.market_vault c.token_account c.vault_authority.key amount
                  c.mint.val.decimals)
                _ h₄
                λ moved transfer h₅. record {
                  free = free;
                  computed = computed;
                  moved = ground arith;
                  written = ground arith;
                }

-- The tokens and the claims of a transfer, before and after: the vault backs the claim on the mint's
-- asset with the same surplus, the trader's wallet and claim have the same sum, no other claim
-- changes, and neither does a lock.
pub record Solvent (c : Transfer) (d : Transferred) : Type 0 where
  pub backed :
      d.market_vault.val.amount + claim c.market.val c.mint.key c.trader_balance.val
      ≡ c.market_vault.val.amount + claim c.market.val c.mint.key d.trader_balance.val
  pub owned :
      d.token_account.val.amount + claim c.market.val c.mint.key d.trader_balance.val
      ≡ c.token_account.val.amount + claim c.market.val c.mint.key c.trader_balance.val
  pub others :
      (k : Pubkey)
      → (k == c.mint.key) ≡ false
      → claim c.market.val k d.trader_balance.val ≡ claim c.market.val k c.trader_balance.val
  pub base_lock : d.trader_balance.val.base_locked ≡ c.trader_balance.val.base_locked
  pub quote_lock : d.trader_balance.val.quote_locked ≡ c.trader_balance.val.quote_locked

-- A deposit leaves the vault's surplus over the claims as it was: with a token program that moves
-- exactly the amount and a source that is not the vault, the vault and the trader's claim grow
-- equally, what the trader has in the wallet and in the ledger together is kept, and neither the
-- claim on another asset nor a lock changes.
pub deposit-Solvent :
    (rt : Runtime) (token : TransferChecked) (amount : ℕ) (c : Transfer) (d : Transferred)
    → handle_deposit rt token amount c ≡ ok d
    → Moves token
    → (c.token_account.key == c.market_vault.key) ≡ false
    → Solvent c d
deposit-Solvent rt token amount c d h moves apart =
    let p = deposit-Deposited rt token amount c d h in
    let g : Grows c.market.val c.mint.key amount c.trader_balance.val d.trader_balance.val =
      rw p.written
        (deposited-Grows c.market.val c.mint.key amount p.free c.trader_balance.val p.computed) in
    let t =
      moves c.mint c.token_account c.market_vault d.token_account d.market_vault c.owner amount
        c.mint.val.decimals apart p.moved in
    record {
      backed = ground (arith, g.claims c.mint.key, t.credited);
      owned = ground (arith, g.claims c.mint.key, t.debited);
      others = λ k differs. ground (arith, g.claims k);
      base_lock = g.base_lock;
      quote_lock = g.quote_lock;
    }

-- A withdrawal leaves the vault's surplus over the claims as it was: with a token program that moves
-- exactly the amount and a destination that is not the vault, the vault and the trader's claim shrink
-- equally, what the trader has in the wallet and in the ledger together is kept, and neither the
-- claim on another asset nor a lock changes.
pub withdraw-Solvent :
    (rt : Runtime) (token : TransferChecked) (amount : ℕ) (c : Transfer) (d : Transferred)
    → handle_withdraw rt token amount c ≡ ok d
    → Moves token
    → (c.market_vault.key == c.token_account.key) ≡ false
    → Solvent c d
withdraw-Solvent rt token amount c d h moves apart =
    let p = withdraw-Withdrawn rt token amount c d h in
    let g : Grows c.market.val c.mint.key amount d.trader_balance.val c.trader_balance.val =
      rw p.written
        (withdrawn-Grows c.market.val c.mint.key amount p.free c.trader_balance.val p.computed) in
    let t =
      moves c.mint c.market_vault c.token_account d.market_vault d.token_account
        c.vault_authority.key amount c.mint.val.decimals apart p.moved in
    record {
      backed = ground (arith, g.claims c.mint.key, t.debited);
      owned = ground (arith, g.claims c.mint.key, t.credited);
      others = λ k differs. ground (arith, g.claims k);
      base_lock = sym g.base_lock;
      quote_lock = sym g.quote_lock;
    }
