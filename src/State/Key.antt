-- ===== src/State/Key.antt =====
-- Addresses, program-owned accounts, and the seeds from which the runtime derives an address.
use tidebook.Base.{ℕ, List, Option, some, opt_eq, Bool, not, ◌==◌, Result, ok, ◌>>◌, require}
use tidebook.Errors.{anchor, constraint_seeds, account_already_in_use}

abbrev pub Pubkey : Type 0
Pubkey = ℕ

-- `Account<'info, T>`: the address with the deserialized value.
pub record Account (A : Type 0) : Type 0 where
  pub key : Pubkey
  pub val : A

-- `UncheckedAccount`, of which the program reads the address only.
pub record UncheckedAccount : Type 0 where
  pub key : Pubkey

-- One seed of a derived address: a namespace, the 32 bytes of a key, or `u64::to_le_bytes`.
pub data Seed : Type 0 where
  market_seed order_seed price_level_seed trader_balance_seed market_fees_seed : Seed
  protocol_config_seed prediction_market_seed prediction_position_seed : Seed
  prediction_book_seed prediction_level_seed prediction_order_seed admin_seed : Seed
  bid_seed ask_seed yes_seed no_seed vault_seed vault_authority_seed : Seed
  shared_book_seed shared_level_seed shared_order_seed asset_balance_seed spot_seed : Seed
  key_seed : Pubkey → Seed
  le_bytes : ℕ → Seed

-- The Solana runtime under the program's own id: the address that seeds and a bump give, if they
-- give one, and the canonical address with its bump (`create_program_address` and
-- `find_program_address` of `Pubkey`).
pub record Runtime : Type 0 where
  pub create_program_address : List Seed → ℕ → Option Pubkey
  pub find_program_address : List Seed → Pubkey × ℕ

-- Anchor's `seeds = […], bump = bump` on an account at `key`.
abbrev pub check_seeds : Runtime → List Seed → ℕ → Pubkey → Result (Unit {0})
check_seeds rt seeds bump key =
    require (opt_eq (rt.create_program_address seeds bump) (some key)) (anchor constraint_seeds)

-- An account that an instruction creates by `init`: its address, and whether it is in use already.
pub record NewAccount : Type 0 where
  pub key : Pubkey
  pub in_use : Bool

-- Anchor's `init, seeds = […], bump`: the account stands at the canonical address and is unused. The
-- bump is returned.
abbrev pub check_init : Runtime → List Seed → NewAccount → Result ℕ
check_init rt seeds a = do
  require ((rt.find_program_address seeds).0 == a.key) (anchor constraint_seeds)
  require (not a.in_use) (anchor account_already_in_use)
  ok (rt.find_program_address seeds).1
