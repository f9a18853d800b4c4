-- ===== src/Shared/Rules.antt =====
-- The rules that all shared books follow (programs/tidebook/src/shared_trading.rs).
use tidebook.Base.{
  ℕ, ◌/◌, [], ◌∷◌, Option, some, is_none, Bool, true, false, ◌&&◌, ltb, ◌==◌, opt_eq,
  is_multiple_of, Result, err, ok, ◌>>=◌, ◌>>◌, require, ok_or, if◌then◌else◌,
}
use tidebook.Base.Word.{
  checked_pow, checked_ilog10, checked_pow_u128, checked_mul_u128, try_from_u64,
}
use tidebook.Base.Int.{ℤ, ltb_ℤ}
use tidebook.Errors.{
  program, anchor, account_discriminator_mismatch, shared_market_kind_mismatch, market_not_active,
  prediction_order_unavailable, invalid_prediction_payout, invalid_shared_book, price_not_on_tick,
  quantity_not_on_lot, invalid_prediction_order_price, order_notional_too_small,
  order_notional_overflow, invalid_asset_balance,
}
use tidebook.State.{
  Pubkey, Account, Runtime, key_seed, market_seed, prediction_market_seed, prediction_position_seed,
  asset_balance_seed, MarketKind, OrderSide, bid, ask, is_active, Market, PredictionMarket,
  PredictionPosition, status_is_open, AssetBalance, SharedOutcome, SharedBook, slot,
}

-- `AccountInfo` of the underlying market: the data that its discriminator announces, or none of both.
pub data MarketInfo : Type 0 where
  spot_info : Account Market → MarketInfo
  prediction_info : Account PredictionMarket → MarketInfo
  other_info : (key : Pubkey) (owned : Bool) → MarketInfo

abbrev pub info_key : MarketInfo → Pubkey
info_key (spot_info m) = m.key
info_key (prediction_info m) = m.key
info_key (other_info key owned) = key

abbrev pub info_is_owned : MarketInfo → Bool
info_is_owned (other_info key owned) = owned
info_is_owned _ = true

pub record SharedTerms : Type 0 where
  pub authority : Pubkey
  pub kind : MarketKind
  pub base_mint : Pubkey
  pub quote_mint : Pubkey
  pub base_decimals : ℕ
  pub quote_decimals : ℕ
  pub tick : ℕ
  pub lot : ℕ
  pub payout : ℕ

unfoldable pub spot_terms : Runtime → MarketInfo → (trading : Bool) → Result SharedTerms
spot_terms rt (spot_info market) trading = do
  let value = market.val
  require
      ((rt.find_program_address
          (market_seed ∷ key_seed value.base_mint ∷ key_seed value.quote_mint ∷ [])).0
        == market.key)
      (program shared_market_kind_mismatch)
  require (if trading then is_active value.status else true) (program market_not_active)
  ok (record {
    authority = value.authority;
    kind = MarketKind.spot;
    base_mint = value.base_mint;
    quote_mint = value.quote_mint;
    base_decimals = value.base_decimals;
    quote_decimals = value.quote_decimals;
    tick = value.price_tick_size;
    lot = value.quantity_lot_size;
    payout = 0;
  })
spot_terms rt _ trading = err (anchor account_discriminator_mismatch)

unfoldable pub prediction_terms :
    Runtime → (now : ℤ) → MarketInfo → (trading : Bool) → Result SharedTerms
unfolding checked_ilog10 checked_pow
prediction_terms rt now (prediction_info market) trading = do
  let value = market.val
  require
      ((rt.find_program_address (prediction_market_seed ∷ key_seed value.market_id ∷ [])).0
        == market.key)
      (program shared_market_kind_mismatch)
  require (if trading then status_is_open value.status && ltb_ℤ now value.close_ts else true)
      (program prediction_order_unavailable)
  precision ← ok_or (checked_ilog10 value.payout_per_contract) (program invalid_prediction_payout)
  require (opt_eq (checked_pow 10 precision) (some value.payout_per_contract))
      (program invalid_prediction_payout)
  ok (record {
    authority = value.authority;
    kind = MarketKind.prediction;
    base_mint = 0;
    quote_mint = value.collateral_mint;
    base_decimals = 0;
    quote_decimals = precision;
    tick = value.price_tick;
    lot = 1;
    payout = value.payout_per_contract;
  })
prediction_terms rt now _ trading = err (anchor account_discriminator_mismatch)

unfoldable pub terms_of_kind :
    Runtime → (now : ℤ) → MarketInfo → MarketKind → (trading : Bool) → Result SharedTerms
terms_of_kind rt now info MarketKind.spot trading = spot_terms rt info trading
terms_of_kind rt now info MarketKind.prediction trading = prediction_terms rt now info trading
terms_of_kind rt now info MarketKind.other trading = err (program shared_market_kind_mismatch)

unfoldable pub terms :
    Runtime → (now : ℤ) → MarketInfo → MarketKind → (trading : Bool) → Result SharedTerms
terms rt now info kind trading = do
  require (info_is_owned info) (program shared_market_kind_mismatch)
  terms_of_kind rt now info kind trading

unfoldable pub trading_open : Runtime → (now : ℤ) → SharedBook → MarketInfo → Result (Unit {0})
trading_open rt now book market = do
  require (book.market == info_key market) (program invalid_shared_book)
  value ← terms rt now market book.kind true
  require
      (book.authority == value.authority
        && (book.base_mint == value.base_mint
            && (book.quote_mint == value.quote_mint
                && (book.base_decimals == value.base_decimals
                    && (book.quote_decimals == value.quote_decimals
                        && (book.price_tick == value.tick
                            && (book.quantity_lot == value.lot
                                && book.payout_per_contract == value.payout)))))))
      (program invalid_shared_book)

-- `floor(price * base_atoms / 10^base_decimals)`.
unfoldable pub quote_amount : SharedBook → (price quantity : ℕ) → Result ℕ
unfolding checked_pow_u128 checked_mul_u128 try_from_u64
quote_amount book price quantity = do
  scale ← ok_or (checked_pow_u128 10 book.base_decimals) (program order_notional_overflow)
  product ← ok_or (checked_mul_u128 price quantity) (program order_notional_overflow)
  ok_or (try_from_u64 (product / scale)) (program order_notional_overflow)

abbrev pub is_prediction : MarketKind → Bool
is_prediction MarketKind.prediction = true
is_prediction _ = false

-- What a new order locks: a bid its cost, an ask its quantity.
abbrev pub side_amount : OrderSide → (notional quantity : ℕ) → ℕ
side_amount bid notional quantity = notional
side_amount ask notional quantity = quantity

-- Price and quantity are on the book's grid, a prediction price below the payout.
unfoldable pub check_units : SharedBook → (price quantity : ℕ) → Result (Unit {0})
check_units book price quantity = do
  require (ltb 0 price && (ltb 0 book.price_tick && is_multiple_of price book.price_tick))
      (program price_not_on_tick)
  require (ltb 0 quantity && (ltb 0 book.quantity_lot && is_multiple_of quantity book.quantity_lot))
      (program quantity_not_on_lot)
  require (if is_prediction book.kind then ltb price book.payout_per_contract else true)
      (program invalid_prediction_order_price)

-- The place of the order's list and the collateral that the order needs.
unfoldable pub order_terms :
    SharedBook → SharedOutcome → OrderSide → (price quantity : ℕ) → Result (ℕ × ℕ)
order_terms book outcome side price quantity = do
  i ← slot book outcome side
  check_units book price quantity
  notional ← quote_amount book price quantity
  require (ltb 0 notional) (program order_notional_too_small)
  ok (i, side_amount side notional quantity)

unfoldable pub check_asset :
    Runtime → Account AssetBalance → (owner mint : Pubkey) → Result (Unit {0})
check_asset rt account owner mint = do
  require (account.val.owner == owner && account.val.mint == mint) (program invalid_asset_balance)
  require
      (account.key
        == (rt.find_program_address (asset_balance_seed ∷ key_seed owner ∷ key_seed mint ∷ [])).0)
      (program invalid_asset_balance)

-- The claims of one trader that an instruction is given.
pub record Claims : Type 0 where
  pub base : Option (Account AssetBalance)
  pub quote : Account AssetBalance
  pub position : Option (Account PredictionPosition)

unfoldable pub check_spot_claims : Runtime → SharedBook → Pubkey → Claims → Result (Unit {0})
check_spot_claims rt book owner c = do
  base ← ok_or c.base (program invalid_asset_balance)
  check_asset rt base owner book.base_mint
  require (is_none c.position) (program invalid_asset_balance)

unfoldable pub check_prediction_claims : Runtime → SharedBook → Pubkey → Claims → Result (Unit {0})
check_prediction_claims rt book owner c = do
  require (is_none c.base) (program invalid_asset_balance)
  p ← ok_or c.position (program invalid_asset_balance)
  require (p.val.owner == owner && p.val.market == book.market) (program invalid_asset_balance)
  require
      (p.key
        == (rt.find_program_address
            (prediction_position_seed ∷ key_seed book.market ∷ key_seed owner ∷ [])).0)
      (program invalid_asset_balance)

abbrev pub is_spot : MarketKind → Bool
is_spot MarketKind.spot = true
is_spot _ = false

unfoldable pub check_trader : Runtime → SharedBook → Pubkey → Claims → Result (Unit {0})
check_trader rt book owner c = do
  check_asset rt c.quote owner book.quote_mint
  (if is_spot book.kind
      then check_spot_claims rt book owner c
      else check_prediction_claims rt book owner c)
