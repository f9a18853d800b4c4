-- ===== src/Sample.antt =====
-- A concrete runtime for the tests: it derives an address by hashing the seeds.
use tidebook.Base.{ℕ, ◌+◌, ◌*◌, ◌%◌, List, [], ◌∷◌, some}
use tidebook.State.{
  Pubkey, Seed, Runtime, market_seed, order_seed, price_level_seed, trader_balance_seed,
  market_fees_seed, protocol_config_seed, prediction_market_seed, prediction_position_seed,
  prediction_book_seed, prediction_level_seed, prediction_order_seed, admin_seed, bid_seed,
  ask_seed, yes_seed, no_seed, vault_seed, vault_authority_seed, shared_book_seed,
  shared_level_seed, shared_order_seed, asset_balance_seed, spot_seed, key_seed, le_bytes,
}

abbrev seed_code : Seed → ℕ
seed_code market_seed = 1
seed_code order_seed = 2
seed_code price_level_seed = 3
seed_code trader_balance_seed = 4
seed_code market_fees_seed = 5
seed_code protocol_config_seed = 6
seed_code prediction_market_seed = 7
seed_code prediction_position_seed = 8
seed_code prediction_book_seed = 9
seed_code prediction_level_seed = 10
seed_code prediction_order_seed = 11
seed_code admin_seed = 12
seed_code bid_seed = 13
seed_code ask_seed = 14
seed_code yes_seed = 15
seed_code no_seed = 16
seed_code vault_seed = 17
seed_code vault_authority_seed = 18
seed_code shared_book_seed = 19
seed_code shared_level_seed = 20
seed_code shared_order_seed = 21
seed_code asset_balance_seed = 22
seed_code spot_seed = 23
seed_code (key_seed k) = 24 + 2 * k
seed_code (le_bytes n) = 25 + 2 * n

abbrev pub address : List Seed → Pubkey
address [] = 7
address (s ∷ ss) = (seed_code s + 1_009 * address ss) % 1_000_003

abbrev pub hashing : Runtime
hashing = record {
  create_program_address = λ seeds bump. some (address seeds);
  find_program_address = λ seeds. (address seeds, 255);
}
