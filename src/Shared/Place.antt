-- ===== src/Shared/Place.antt =====
-- Placing an order in a shared book, at an existing price or a new one
-- (`handle_place_shared_order` of programs/tidebook/src/instructions/shared_orders.rs).
pub mod Handler
pub mod Parts
pub mod Enqueue
use tidebook.Base.{
  ℕ, [], ◌∷◌, Option, none, some, is_none, is_some, Bool, true, not, ◌&&◌, ltb, ◌==◌, bool_eq,
  opt_eq, Result, ok, ◌>>=◌, ◌>>◌, require, ok_or, if◌then◌else◌,
}
use tidebook.Base.Word.{checked_add}
use tidebook.Base.Int.{ℤ}
use tidebook.Errors.{
  program, anchor, constraint_seeds, constraint_owner, invalid_order_id, invalid_price,
  order_id_overflow, invalid_shared_book, invalid_shared_neighbor,
}
use tidebook.State.{
  Pubkey, Account, NewAccount, Runtime, check_seeds, check_init, key_seed, le_bytes,
  shared_book_seed, shared_level_seed, shared_order_seed, OrderSide, side_seed, side_eq, open_,
  has_priority, SharedOutcome, SharedBook, SharedOrder, SharedPriceLevel, shared_outcome_eq,
  shared_outcome_seed, best_at, set_best_at, opposite_slot,
}
use tidebook.Prediction.Book.{not_better, Bumps}
use tidebook.Shared.Rules.{
  MarketInfo, info_key, info_is_owned, Claims, trading_open, order_terms, check_trader,
}
use tidebook.Shared.Links.{check_level, check_order, lock, side_buckets, write_side_buckets}

-- The level is the account as `init_if_needed` leaves it: all zeros where it was created.
pub record PlaceSharedOrder : Type 0 where
  pub owner : Pubkey
  pub market : MarketInfo
  pub book : Account SharedBook
  pub claims : Claims
  pub order : NewAccount
  pub price_level : Account SharedPriceLevel
  pub tail : Option (Account SharedOrder)
  pub better_level : Option (Account SharedPriceLevel)
  pub worse_level : Option (Account SharedPriceLevel)

pub record Placed : Type 0 where
  pub book : Account SharedBook
  pub claims : Claims
  pub order : Account SharedOrder
  pub price_level : Account SharedPriceLevel
  pub tail : Option (Account SharedOrder)
  pub better_level : Option (Account SharedPriceLevel)
  pub worse_level : Option (Account SharedPriceLevel)

abbrev pub check_book : Runtime → MarketInfo → Account SharedBook → Result (Unit {0})
check_book rt market book = do
  require (info_is_owned market) (anchor constraint_owner)
  check_seeds rt (shared_book_seed ∷ key_seed (info_key market) ∷ []) book.val.bump book.key
  require (book.val.market == info_key market) (program invalid_shared_book)

unfoldable pub check_accounts :
    Runtime → SharedOutcome → OrderSide → (price order_id : ℕ) → PlaceSharedOrder → Result Bumps
check_accounts rt outcome side price order_id c = do
  check_book rt c.market c.book
  order ← check_init rt (shared_order_seed ∷ key_seed c.book.key ∷ le_bytes order_id ∷ []) c.order
  let (expected, price_level) = rt.find_program_address (
      shared_level_seed
      ∷ key_seed c.book.key
      ∷ shared_outcome_seed outcome
      ∷ side_seed side
      ∷ le_bytes price
      ∷ [])
  require (expected == c.price_level.key) (anchor constraint_seeds)
  ok (record { order = order; price_level = price_level })

-- The new order may not reach the best price of the other side.
abbrev pub stays_apart : OrderSide → (price : ℕ) → (opposite : Option ℕ) → Bool
stays_apart side price none = true
stays_apart side price (some opposite) = has_priority side opposite price

-- Where the order goes.
pub record Place : Type 0 where
  pub previous : Option Pubkey
  pub better_price : Option ℕ
  pub worse_price : Option ℕ
  pub level_count : ℕ
  pub level_total : ℕ

abbrev pub is_new_level : SharedPriceLevel → Bool
is_new_level level = level.market == 0 && level.order_count == 0

abbrev pub price_of : Option (Account SharedPriceLevel) → Option ℕ
price_of none = none
price_of (some l) = some l.val.price

-- An existing level of the list, no worse than the best one.
unfoldable pub check_joined :
    Runtime → SharedOutcome → OrderSide → (price slot : ℕ) → PlaceSharedOrder → Result (Unit {0})
check_joined rt outcome side price i c = do
  let level = c.price_level.val
  check_level rt c.price_level c.book
  require
      (shared_outcome_eq level.outcome outcome
        && (side_eq level.side side
            && (level.price == price && (is_none c.better_level && is_none c.worse_level))))
      (program invalid_shared_neighbor)
  best ← ok_or (best_at c.book.val.best_prices i) (program invalid_shared_book)
  require (bool_eq (is_none level.better_price) (best == price) && not_better side best price)
      (program invalid_shared_neighbor)

-- The last order of its queue.
unfoldable pub check_tail :
    Runtime
    → SharedOutcome
    → OrderSide
    → (price : ℕ) → PlaceSharedOrder
    → Account SharedOrder
    → Result (Unit {0})
check_tail rt outcome side price c tail = do
  let level = c.price_level.val
  check_order rt tail c.book
  require
      (opt_eq level.last_order (some tail.key)
        && (tail.val.price_level == c.price_level.key
            && (shared_outcome_eq tail.val.outcome outcome
                && (side_eq tail.val.side side
                    && (tail.val.price == price && is_none tail.val.next_order)))))
      (program invalid_shared_neighbor)
  require
      (if level.order_count == 1
        then opt_eq level.first_order (some tail.key)
          && (is_none tail.val.previous_order
              && level.total_remaining_quantity == tail.val.remaining_quantity)
        else not (opt_eq level.first_order (some tail.key))
          && (is_some tail.val.previous_order
              && ltb tail.val.remaining_quantity level.total_remaining_quantity))
      (program invalid_shared_neighbor)

unfoldable pub join_level :
    Runtime
    → SharedOutcome
    → OrderSide
    → (price quantity slot : ℕ) → PlaceSharedOrder
    → Result Place
unfolding checked_add
join_level rt outcome side price quantity i c = do
  let level = c.price_level.val
  check_joined rt outcome side price i c
  tail ← ok_or c.tail (program invalid_shared_neighbor)
  check_tail rt outcome side price c tail
  level_count ← ok_or (checked_add level.order_count 1) (program invalid_shared_book)
  level_total ←
      ok_or (checked_add level.total_remaining_quantity quantity) (program invalid_shared_book)
  ok (record {
    previous = some tail.key;
    better_price = level.better_price;
    worse_price = level.worse_price;
    level_count = level_count;
    level_total = level_total;
  })

unfoldable pub check_adjacent :
    Runtime
    → SharedOutcome
    → OrderSide
    → PlaceSharedOrder
    → Option (Account SharedPriceLevel)
    → Result (Unit {0})
check_adjacent rt outcome side c none = ok tt
check_adjacent rt outcome side c (some value) = do
  check_level rt value c.book
  require (shared_outcome_eq value.val.outcome outcome && side_eq value.val.side side)
      (program invalid_shared_neighbor)

-- The better neighbor is in the list and comes right before the worse one; without one, the worse
-- neighbor is the best level.
unfoldable pub check_better :
    OrderSide
    → (price best : ℕ) → (better worse : Option (Account SharedPriceLevel)) → Result (Unit {0})
check_better side price best (some value) worse = do
  require (has_priority side value.val.price price && not_better side best value.val.price)
      (program invalid_shared_neighbor)
  require (opt_eq value.val.worse_price (price_of worse)) (program invalid_shared_neighbor)
  require (bool_eq (is_none value.val.better_price) (value.val.price == best))
      (program invalid_shared_neighbor)
check_better side price best none worse = do
  value ← ok_or worse (program invalid_shared_neighbor)
  require (value.val.price == best && is_none value.val.better_price)
      (program invalid_shared_neighbor)

unfoldable pub check_worse :
    OrderSide → (price : ℕ) → (better worse : Option (Account SharedPriceLevel)) → Result (Unit {0})
check_worse side price better none = ok tt
check_worse side price better (some value) =
    require
      (opt_eq value.val.better_price (price_of better) && has_priority side price value.val.price)
      (program invalid_shared_neighbor)

unfoldable pub check_gap :
    OrderSide
    → (price : ℕ) → (best : Option ℕ) → (better worse : Option (Account SharedPriceLevel))
    → Result (Unit {0})
check_gap side price (some best) better worse = do
  check_better side price best better worse
  check_worse side price better worse
check_gap side price none better worse =
    require (is_none better && is_none worse) (program invalid_shared_neighbor)

-- A new level between its neighbors.
unfoldable pub open_level :
    Runtime
    → SharedOutcome
    → OrderSide
    → (price quantity slot : ℕ) → PlaceSharedOrder
    → Result Place
open_level rt outcome side price quantity i c = do
  require (is_none c.tail) (program invalid_shared_neighbor)
  check_adjacent rt outcome side c c.better_level
  check_adjacent rt outcome side c c.worse_level
  check_gap side price (best_at c.book.val.best_prices i) c.better_level c.worse_level
  ok (record {
    previous = none;
    better_price = price_of c.better_level;
    worse_price = price_of c.worse_level;
    level_count = 1;
    level_total = quantity;
  })

unfoldable pub find_place :
    Runtime
    → SharedOutcome
    → OrderSide
    → (price quantity slot : ℕ) → PlaceSharedOrder
    → Result Place
find_place rt outcome side price quantity i c =
    if is_new_level c.price_level.val
    then open_level rt outcome side price quantity i c
    else join_level rt outcome side price quantity i c
