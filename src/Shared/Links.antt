-- ===== src/Shared/Links.antt =====
-- The addresses of shared levels and orders, the tests on an existing one, and the buckets that back
-- an order (programs/tidebook/src/shared_trading.rs).
use tidebook.Base.{
  ℕ, [], ◌∷◌, Option, none, some, is_some, Bool, ◌&&◌, ltb, leb, ◌==◌, Result, err, ok, ◌>>=◌, ◌>>◌,
  require, ok_or,
}
use tidebook.Base.Word.{checked_add, checked_sub}
use tidebook.Errors.{
  program, shared_market_kind_mismatch, invalid_asset_balance, insufficient_free_balance,
  locked_balance_overflow, invalid_shared_neighbor,
}
use tidebook.State.{
  Pubkey, Account, Runtime, key_seed, le_bytes, shared_level_seed, shared_order_seed, MarketKind,
  OrderSide, bid, ask, side_seed, is_open, PredictionPosition, AssetBalance, SharedOutcome,
  SharedBook, SharedOrder, SharedPriceLevel, shared_outcome_seed, slot,
}
use tidebook.Shared.Rules.{Claims, quote_amount}

pub record Bucket : Type 0 where
  pub free : ℕ
  pub locked : ℕ

abbrev pub asset_bucket : AssetBalance → Bucket
asset_bucket a = record { free = a.free; locked = a.locked }

abbrev pub yes_bucket : PredictionPosition → Bucket
yes_bucket p = record { free = p.yes_free; locked = p.yes_locked }

abbrev pub no_bucket : PredictionPosition → Bucket
no_bucket p = record { free = p.no_free; locked = p.no_locked }

-- The bucket that kind and outcome choose, and the write of it.
unfoldable pub base_buckets : MarketKind → SharedOutcome → Claims → Result Bucket
base_buckets MarketKind.spot SharedOutcome.spot_ c = do
  value ← ok_or c.base (program invalid_asset_balance)
  ok (asset_bucket value.val)
base_buckets MarketKind.prediction SharedOutcome.yes_ c = do
  value ← ok_or c.position (program invalid_asset_balance)
  ok (yes_bucket value.val)
base_buckets MarketKind.prediction SharedOutcome.no_ c = do
  value ← ok_or c.position (program invalid_asset_balance)
  ok (no_bucket value.val)
base_buckets _ _ c = err (program shared_market_kind_mismatch)

abbrev pub write_asset : Bucket → Account AssetBalance → Account AssetBalance
write_asset b a = record a { val = record a.val { free = b.free; locked = b.locked } }

abbrev pub write_base : Bucket → Option (Account AssetBalance) → Option (Account AssetBalance)
write_base b none = none
write_base b (some a) = some (write_asset b a)

abbrev pub write_yes :
    Bucket → Option (Account PredictionPosition) → Option (Account PredictionPosition)
write_yes b none = none
write_yes b (some p) =
    some (record p { val = record p.val { yes_free = b.free; yes_locked = b.locked } })

abbrev pub write_no :
    Bucket → Option (Account PredictionPosition) → Option (Account PredictionPosition)
write_no b none = none
write_no b (some p) =
    some (record p { val = record p.val { no_free = b.free; no_locked = b.locked } })

unfoldable pub write_base_buckets : MarketKind → SharedOutcome → Bucket → Claims → Claims
write_base_buckets MarketKind.spot SharedOutcome.spot_ b c = record c { base = write_base b c.base }
write_base_buckets MarketKind.prediction SharedOutcome.yes_ b c = record c {
  position = write_yes b c.position;
}
write_base_buckets MarketKind.prediction SharedOutcome.no_ b c = record c {
  position = write_no b c.position;
}
write_base_buckets _ _ b c = c

-- The bucket behind an order of a side: the cash of the quote mint, or the asset that is sold.
unfoldable pub side_buckets : MarketKind → SharedOutcome → OrderSide → Claims → Result Bucket
side_buckets kind outcome bid c = ok (asset_bucket c.quote.val)
side_buckets kind outcome ask c = base_buckets kind outcome c

unfoldable pub write_side_buckets :
    MarketKind → SharedOutcome → OrderSide → Bucket → Claims → Claims
write_side_buckets kind outcome bid b c = record c { quote = write_asset b c.quote }
write_side_buckets kind outcome ask b c = write_base_buckets kind outcome b c

unfoldable pub lock : Bucket → (amount : ℕ) → Result Bucket
unfolding checked_add checked_sub
lock b amount = do
  new_free ← ok_or (checked_sub b.free amount) (program insufficient_free_balance)
  new_locked ← ok_or (checked_add b.locked amount) (program locked_balance_overflow)
  ok (record { free = new_free; locked = new_locked })

abbrev pub level_key : Runtime → (book : Pubkey) → SharedOutcome → OrderSide → (price : ℕ) → Pubkey
level_key rt book outcome side price =
    (rt.find_program_address (
      shared_level_seed
      ∷ key_seed book
      ∷ shared_outcome_seed outcome
      ∷ side_seed side
      ∷ le_bytes price
      ∷ [])).0

abbrev pub order_key : Runtime → (book : Pubkey) → (id : ℕ) → Pubkey
order_key rt book id =
    (rt.find_program_address (shared_order_seed ∷ key_seed book ∷ le_bytes id ∷ [])).0

unfoldable pub check_level :
    Runtime → Account SharedPriceLevel → Account SharedBook → Result (Unit {0})
check_level rt level book = do
  let value = level.val
  i ← slot book.val value.outcome value.side
  require
      (value.book == book.key
        && (value.market == book.val.market
            && (ltb 0 value.price
                && (ltb 0 value.order_count
                    && (ltb 0 value.total_remaining_quantity
                        && (is_some value.first_order && is_some value.last_order))))))
      (program invalid_shared_neighbor)
  require (level.key == level_key rt book.key value.outcome value.side value.price)
      (program invalid_shared_neighbor)

-- What an order must lock at least: a bid the cost of its remainder, an ask the remainder itself.
unfoldable pub minimum : SharedBook → SharedOrder → Result ℕ
minimum book o = elim o.side [
  | bid ↦ quote_amount book o.price o.remaining_quantity
  | ask ↦ ok o.remaining_quantity
]

abbrev pub covers : OrderSide → (locked least : ℕ) → Bool
covers bid locked least = leb least locked
covers ask locked least = locked == least

unfoldable pub check_order : Runtime → Account SharedOrder → Account SharedBook → Result (Unit {0})
check_order rt order book = do
  let value = order.val
  i ← slot book.val value.outcome value.side
  require
      (value.book == book.key
        && (value.market == book.val.market
            && (ltb 0 value.order_id
                && (ltb value.order_id book.val.next_order_id
                    && (is_open value.status
                        && (ltb 0 value.remaining_quantity
                            && (leb value.remaining_quantity value.quantity
                                && (ltb 0 value.price && ltb 0 value.locked_collateral))))))))
      (program invalid_shared_neighbor)
  require (order.key == order_key rt book.key value.order_id) (program invalid_shared_neighbor)
  require (value.price_level == level_key rt book.key value.outcome value.side value.price)
      (program invalid_shared_neighbor)
  least ← minimum book.val value
  require (covers value.side value.locked_collateral least) (program invalid_shared_neighbor)
