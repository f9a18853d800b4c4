-- ===== src/Shared/Place/Handler.antt =====
-- The lock and the writes of a new shared order, and its handler
-- (programs/tidebook/src/instructions/shared_orders.rs).
use tidebook.Base.{
  ℕ, Option, none, some, is_none, ◌&&◌, ltb, ◌==◌, Result, ok, ◌>>=◌, ◌>>◌, require, ok_or,
  if◌then◌else◌,
}
use tidebook.Base.Word.{checked_add}
use tidebook.Base.Int.{ℤ}
use tidebook.Errors.{
  program, invalid_order_id, invalid_price, order_id_overflow, invalid_shared_book,
}
use tidebook.State.{
  Pubkey, Account, Runtime, OrderSide, open_, SharedOutcome, SharedBook, SharedOrder,
  SharedPriceLevel, best_at, set_best_at, opposite_slot,
}
use tidebook.Prediction.Book.{Bumps}
use tidebook.Shared.Rules.{Claims, trading_open, order_terms, check_trader}
use tidebook.Shared.Links.{lock, side_buckets, write_side_buckets}
use tidebook.Shared.Place.{
  PlaceSharedOrder, Placed, check_accounts, stays_apart, Place, is_new_level, find_place,
}

-- The collateral moves within the bucket behind the side.
unfoldable pub lock_claims :
    SharedBook → SharedOutcome → OrderSide → (amount : ℕ) → Claims → Result Claims
lock_claims book outcome side amount c = do
  bucket ← side_buckets book.kind outcome side c
  locked ← lock bucket amount
  ok (write_side_buckets book.kind outcome side locked c)

abbrev pub new_level :
    SharedOutcome
    → OrderSide
    → (price quantity : ℕ) → Place
    → Bumps
    → PlaceSharedOrder
    → SharedPriceLevel
new_level outcome side price quantity p bumps c = record {
  book = c.book.key;
  market = c.book.val.market;
  outcome = outcome;
  side = side;
  price = price;
  better_price = p.better_price;
  worse_price = p.worse_price;
  first_order = some c.order.key;
  last_order = some c.order.key;
  total_remaining_quantity = quantity;
  order_count = 1;
  rent_payer = c.owner;
  bump = bumps.price_level;
}

unfoldable pub level_after :
    SharedOutcome
    → OrderSide
    → (price quantity : ℕ) → Place
    → Bumps
    → PlaceSharedOrder
    → SharedPriceLevel
level_after outcome side price quantity p bumps c =
    if is_new_level c.price_level.val
    then new_level outcome side price quantity p bumps c
    else record level {
      last_order = some c.order.key;
      order_count = p.level_count;
      total_remaining_quantity = p.level_total;
    }
  where
    open c.price_level use {val as level}

abbrev pub link_next : Pubkey → Option (Account SharedOrder) → Option (Account SharedOrder)
link_next key none = none
link_next key (some t) = some (record t { val = record t.val { next_order = some key } })

abbrev pub link_worse :
    (price : ℕ) → Option (Account SharedPriceLevel) → Option (Account SharedPriceLevel)
link_worse price none = none
link_worse price (some b) = some (record b { val = record b.val { worse_price = some price } })

abbrev pub link_better :
    (price : ℕ) → Option (Account SharedPriceLevel) → Option (Account SharedPriceLevel)
link_better price none = none
link_better price (some w) = some (record w { val = record w.val { better_price = some price } })

unfoldable pub book_after : (price slot next_id next_count : ℕ) → PlaceSharedOrder → SharedBook
book_after price i next_id next_count c = record book {
  best_prices =
      if is_new_level c.price_level.val && is_none c.better_level
      then set_best_at book.best_prices i (some price)
      else book.best_prices;
  next_order_id = next_id;
  open_order_count = next_count;
}
  where
    open c.book use {val as book}

abbrev pub new_order :
    SharedOutcome
    → OrderSide
    → (price quantity order_id amount : ℕ) → Place
    → Bumps
    → PlaceSharedOrder
    → SharedOrder
new_order outcome side price quantity order_id amount p bumps c = record {
  owner = c.owner;
  market = c.book.val.market;
  book = c.book.key;
  order_id = order_id;
  outcome = outcome;
  side = side;
  price = price;
  price_level = c.price_level.key;
  previous_order = p.previous;
  next_order = none;
  quantity = quantity;
  remaining_quantity = quantity;
  locked_collateral = amount;
  status = open_;
  bump = bumps.order;
}

unfoldable pub place_writes :
    SharedOutcome
    → OrderSide
    → (price quantity order_id amount slot next_id next_count : ℕ) → Place
    → Bumps
    → Claims
    → PlaceSharedOrder
    → Placed
place_writes outcome side price quantity order_id amount i next_id next_count p bumps claims c =
    record {
      claims = claims;
      price_level = record {
        key = c.price_level.key;
        val = level_after outcome side price quantity p bumps c;
      };
      better_level =
          if is_new_level c.price_level.val
          then link_worse price c.better_level
          else c.better_level;
      worse_level =
          if is_new_level c.price_level.val then link_better price c.worse_level else c.worse_level;
      tail = if is_new_level c.price_level.val then c.tail else link_next c.order.key c.tail;
      order = record {
        key = c.order.key;
        val = new_order outcome side price quantity order_id amount p bumps c;
      };
      book = record { key = c.book.key; val = book_after price i next_id next_count c };
    }

unfoldable pub handle_place_shared_order :
    Runtime
    → (now : ℤ) → SharedOutcome
    → OrderSide
    → (price quantity order_id : ℕ) → PlaceSharedOrder
    → Result Placed
unfolding checked_add
handle_place_shared_order rt now outcome side price quantity order_id c = do
  let book = c.book.val
  bumps ← check_accounts rt outcome side price order_id c
  trading_open rt now book c.market
  check_trader rt book c.owner c.claims
  (i, amount) ← order_terms book outcome side price quantity
  require (ltb 0 order_id && order_id == book.next_order_id) (program invalid_order_id)
  require (stays_apart side price (best_at book.best_prices (opposite_slot i)))
      (program invalid_price)
  next_id ← ok_or (checked_add order_id 1) (program order_id_overflow)
  next_count ← ok_or (checked_add book.open_order_count 1) (program invalid_shared_book)
  p ← find_place rt outcome side price quantity i c
  claims ← lock_claims book outcome side amount c.claims
  ok (
      place_writes outcome side price quantity order_id amount i next_id next_count p bumps claims
        c)
