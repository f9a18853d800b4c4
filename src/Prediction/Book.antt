-- ===== src/Prediction/Book.antt =====
-- What the instructions on the prediction order books share (programs/tidebook/src/instructions/
-- place_prediction_order.rs, append_, insert_, cancel_ and match_prediction_order.rs; pda.rs): the
-- accounts of a trader, the addresses of levels and orders, and the accounts that they create.
pub mod View
pub mod Backing
use tidebook.Base.{ℕ, List, [], ◌∷◌, Option, none, some, Bool, leb, ◌==◌, Result, ◌>>◌, require}
use tidebook.Errors.{
  program, prediction_position_market_mismatch, prediction_position_owner_mismatch,
  prediction_book_market_mismatch,
}
use tidebook.State.{
  Pubkey, Seed, Account, Runtime, check_seeds, key_seed, le_bytes, prediction_market_seed,
  prediction_position_seed, prediction_book_seed, prediction_level_seed, prediction_order_seed,
  OrderSide, bid, ask, open_, side_seed, PredictionMarket, PredictionPosition, PredictionOutcome,
  PredictionOrderBook, PredictionPriceLevel, PredictionOrder, outcome_seed,
}

-- The account constraints of the market, of a trader's position and of the root of the books.
abbrev pub check_market : Runtime → Account PredictionMarket → Result (Unit {0})
check_market rt market =
    check_seeds rt (prediction_market_seed ∷ key_seed market.val.market_id ∷ []) market.val.bump
      market.key

abbrev pub check_position :
    Runtime → (market owner : Pubkey) → Account PredictionPosition → Result (Unit {0})
check_position rt market owner position = do
  check_seeds rt (prediction_position_seed ∷ key_seed market ∷ key_seed owner ∷ [])
      position.val.bump position.key
  require (position.val.market == market) (program prediction_position_market_mismatch)
  require (position.val.owner == owner) (program prediction_position_owner_mismatch)

abbrev pub check_book : Runtime → Pubkey → Account PredictionOrderBook → Result (Unit {0})
check_book rt market book = do
  check_seeds rt (prediction_book_seed ∷ key_seed market ∷ []) book.val.bump book.key
  require (book.val.market == market) (program prediction_book_market_mismatch)

abbrev pub check_trader :
    Runtime
    → (owner : Pubkey) → Account PredictionMarket
    → Account PredictionPosition
    → Account PredictionOrderBook
    → Result (Unit {0})
check_trader rt owner market position book = do
  check_market rt market
  check_position rt market.key owner position
  check_book rt market.key book

-- The bumps of the two accounts that a new level needs.
pub record Bumps : Type 0 where
  pub order : ℕ
  pub price_level : ℕ

-- `best >= price` for bids, `best <= price` for asks.
abbrev pub not_better : OrderSide → (best price : ℕ) → Bool
not_better bid best price = leb price best
not_better ask best price = leb best price

-- The seeds of a price level and of an order, and the canonical addresses with their bumps
-- (`derive_prediction_price_level_pda` and `derive_prediction_order_pda`).
abbrev pub level_seeds : Pubkey → PredictionOutcome → OrderSide → ℕ → List Seed
level_seeds market outcome side price =
    prediction_level_seed
    ∷ key_seed market
    ∷ outcome_seed outcome
    ∷ side_seed side
    ∷ le_bytes price
    ∷ []

abbrev pub order_seeds : Pubkey → ℕ → List Seed
order_seeds market order_id = prediction_order_seed ∷ key_seed market ∷ le_bytes order_id ∷ []

abbrev pub derive_prediction_price_level_pda :
    Runtime → Pubkey → PredictionOutcome → OrderSide → ℕ → Pubkey × ℕ
derive_prediction_price_level_pda rt market outcome side price =
    rt.find_program_address (level_seeds market outcome side price)

abbrev pub derive_prediction_order_pda : Runtime → Pubkey → ℕ → Pubkey × ℕ
derive_prediction_order_pda rt market order_id =
    rt.find_program_address (order_seeds market order_id)

-- The address of the level at an optional price.
abbrev pub level_key : Runtime → Pubkey → PredictionOutcome → OrderSide → Option ℕ → Option Pubkey
level_key rt market outcome side none = none
level_key rt market outcome side (some price) =
    some (derive_prediction_price_level_pda rt market outcome side price).0

-- The order and the level that an instruction creates.
abbrev pub new_order :
    (owner market : Pubkey)
    → (order_id : ℕ) → PredictionOutcome
    → OrderSide
    → (price : ℕ) → (price_level : Pubkey) → (previous : Option Pubkey) → (quantity locked bump : ℕ)
    → PredictionOrder
new_order owner market order_id outcome side price price_level previous quantity locked bump =
    record {
      owner = owner;
      market = market;
      order_id = order_id;
      outcome = outcome;
      side = side;
      price = price;
      price_level = price_level;
      previous_order = previous;
      next_order = none;
      quantity = quantity;
      remaining_quantity = quantity;
      locked_collateral = locked;
      status = open_;
      bump = bump;
    }

abbrev pub new_level :
    (market : Pubkey)
    → PredictionOutcome
    → OrderSide
    → (price : ℕ) → (better worse : Option ℕ) → (order : Pubkey) → (quantity : ℕ)
    → (rent_payer : Pubkey) → (bump : ℕ) → PredictionPriceLevel
new_level market outcome side price better worse order quantity rent_payer bump = record {
  market = market;
  outcome = outcome;
  side = side;
  price = price;
  better_price = better;
  worse_price = worse;
  first_order = some order;
  last_order = some order;
  total_remaining_quantity = quantity;
  order_count = 1;
  rent_payer = rent_payer;
  bump = bump;
}
