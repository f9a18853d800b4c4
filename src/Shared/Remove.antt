-- ===== src/Shared/Remove.antt =====
-- Taking an open order out of a shared book (`remove_order` of
-- programs/tidebook/src/shared_trading.rs).
pub mod Unlink
pub mod Ladder
pub mod Neighbors
pub mod Closing
use tidebook.Base.{
  ℕ, Option, none, some, is_none, is_some, Bool, true, false, ◌&&◌, ◌||◌, not, ltb, ◌==◌, bool_eq,
  opt_eq, Result, ok, ◌>>=◌, ◌>>◌, require, ok_or, if◌then◌else◌,
}
use tidebook.Base.Word.{checked_sub}
use tidebook.Errors.{program, invalid_shared_book, invalid_shared_neighbor}
use tidebook.State.{
  Pubkey, Account, UncheckedAccount, Runtime, OrderSide, side_eq, has_priority, SharedOutcome,
  SharedBook, SharedOrder, SharedPriceLevel, shared_outcome_eq, slot, best_at, set_best_at,
}
use tidebook.Spot.Match.Steps.{key_of}
use tidebook.Prediction.Book.{not_better}
use tidebook.Shared.Links.{level_key, check_level, check_order}

-- The accounts of a removal.
pub record Removal : Type 0 where
  pub book : Account SharedBook
  pub removed : Account SharedOrder
  pub current : Account SharedPriceLevel
  pub previous : Option (Account SharedOrder)
  pub next : Option (Account SharedOrder)
  pub better : Option (Account SharedPriceLevel)
  pub worse : Option (Account SharedPriceLevel)
  pub recipient : Option UncheckedAccount

-- The same after it; a level that it has closed is `none`.
pub record Removed : Type 0 where
  pub book : Account SharedBook
  pub current : Option (Account SharedPriceLevel)
  pub previous : Option (Account SharedOrder)
  pub next : Option (Account SharedOrder)
  pub better : Option (Account SharedPriceLevel)
  pub worse : Option (Account SharedPriceLevel)

-- The order rests in the level.
unfoldable pub check_place : Runtime → Removal → Result (Unit {0})
check_place rt c = do
  let o = c.removed.val
  let level = c.current.val
  check_order rt c.removed c.book
  check_level rt c.current c.book
  require
      (o.price_level == c.current.key
        && (o.price == level.price
            && (shared_outcome_eq o.outcome level.outcome && side_eq o.side level.side)))
      (program invalid_shared_neighbor)

-- The level stands in its list, and the best price of the list is returned with its place.
unfoldable pub check_best : Removal → Result ℕ
check_best c = do
  let level = c.current.val
  i ← slot c.book.val c.removed.val.outcome c.removed.val.side
  best ← ok_or (best_at c.book.val.best_prices i) (program invalid_shared_book)
  require
      (bool_eq (best == level.price) (is_none level.better_price)
        && not_better c.removed.val.side best level.price)
      (program invalid_shared_neighbor)
  ok i

-- The supplied neighbors are the ones that the order names, and the ends of the level agree.
unfoldable pub check_links : Removal → Result (Unit {0})
check_links c = do
  let o = c.removed.val
  let level = c.current.val
  require (opt_eq (key_of c.previous) o.previous_order && opt_eq (key_of c.next) o.next_order)
      (program invalid_shared_neighbor)
  require
      (bool_eq (opt_eq level.first_order (some c.removed.key)) (is_none o.previous_order)
        && bool_eq (opt_eq level.last_order (some c.removed.key)) (is_none o.next_order))
      (program invalid_shared_neighbor)

-- The last tests on a neighbor, by the side that it is on.
abbrev pub links_to : (previous : Bool) → (neighbor order : Account SharedOrder) → Bool
links_to true n o = opt_eq n.val.next_order (some o.key) && ltb n.val.order_id o.val.order_id
links_to false n o = opt_eq n.val.previous_order (some o.key) && ltb o.val.order_id n.val.order_id

unfoldable pub check_neighbor :
    Runtime → (previous : Bool) → Removal → Option (Account SharedOrder) → Result (Unit {0})
check_neighbor rt previous c none = ok tt
check_neighbor rt previous c (some value) = do
  let o = c.removed.val
  check_order rt value c.book
  require
      (not (value.key == c.removed.key)
        && (value.val.price_level == c.current.key
            && (shared_outcome_eq value.val.outcome o.outcome
                && (side_eq value.val.side o.side
                    && (value.val.price == o.price && links_to previous value c.removed)))))
      (program invalid_shared_neighbor)

-- The counters without the order.
pub record Counters : Type 0 where
  pub count : ℕ
  pub total : ℕ
  pub open_ : ℕ

unfoldable pub next_counters : Removal → Result Counters
unfolding checked_sub
next_counters c = do
  let level = c.current.val
  count ← ok_or (checked_sub level.order_count 1) (program invalid_shared_book)
  total ←
      ok_or (checked_sub level.total_remaining_quantity c.removed.val.remaining_quantity)
        (program invalid_shared_book)
  open_count ← ok_or (checked_sub c.book.val.open_order_count 1) (program invalid_shared_book)
  ok (record { count = count; total = total; open_ = open_count })

abbrev pub key_at : Runtime → (book : Pubkey) → SharedOutcome → OrderSide → Option ℕ → Option Pubkey
key_at rt book outcome side none = none
key_at rt book outcome side (some price) = some (level_key rt book outcome side price)

-- The last tests on a neighboring level, by the side that it is on.
abbrev pub borders :
    (better : Bool) → (side : OrderSide) → (neighbor level : SharedPriceLevel) → Bool
borders true side n l = opt_eq n.worse_price (some l.price) && has_priority side n.price l.price
borders false side n l = opt_eq n.better_price (some l.price) && has_priority side l.price n.price

unfoldable pub check_border :
    Runtime → (better : Bool) → Removal → Option (Account SharedPriceLevel) → Result (Unit {0})
check_border rt better c none = ok tt
check_border rt better c (some value) = do
  let o = c.removed.val
  check_level rt value c.book
  require
      (shared_outcome_eq value.val.outcome o.outcome
        && (side_eq value.val.side o.side && borders better o.side value.val c.current.val))
      (program invalid_shared_neighbor)

-- The order was the only one of its level, which is closed.
unfoldable pub check_closing : Runtime → Removal → Counters → Result (Unit {0})
check_closing rt c n = do
  let o = c.removed.val
  let level = c.current.val
  require (is_none c.previous && (is_none c.next && n.total == 0)) (program invalid_shared_neighbor)
  require
      (opt_eq (key_of c.better) (key_at rt c.book.key o.outcome o.side level.better_price)
        && opt_eq (key_of c.worse) (key_at rt c.book.key o.outcome o.side level.worse_price))
      (program invalid_shared_neighbor)
  check_border rt true c c.better
  check_border rt false c c.worse
  rent ← ok_or c.recipient (program invalid_shared_neighbor)
  require (rent.key == level.rent_payer) (program invalid_shared_neighbor)

-- The level keeps other orders.
unfoldable pub check_stays : Removal → Counters → Result (Unit {0})
check_stays c n =
    require
      (ltb 0 n.total
        && ((is_some c.previous || is_some c.next)
            && (is_none c.better && (is_none c.worse && is_none c.recipient))))
      (program invalid_shared_neighbor)

unfoldable pub check_levels : Runtime → Removal → Counters → Result (Unit {0})
check_levels rt c n = if n.count == 0 then check_closing rt c n else check_stays c n

abbrev pub set_next : Option Pubkey → Option (Account SharedOrder) → Option (Account SharedOrder)
set_next k none = none
set_next k (some p) = some (record p { val = record p.val { next_order = k } })

abbrev pub set_previous :
    Option Pubkey → Option (Account SharedOrder) → Option (Account SharedOrder)
set_previous k none = none
set_previous k (some n) = some (record n { val = record n.val { previous_order = k } })

abbrev pub set_worse :
    Option ℕ → Option (Account SharedPriceLevel) → Option (Account SharedPriceLevel)
set_worse p none = none
set_worse p (some b) = some (record b { val = record b.val { worse_price = p } })

abbrev pub set_better :
    Option ℕ → Option (Account SharedPriceLevel) → Option (Account SharedPriceLevel)
set_better p none = none
set_better p (some w) = some (record w { val = record w.val { better_price = p } })

-- The level: a missing neighbor means that the order was its head or its tail.
unfoldable pub level_after : Removal → Counters → SharedPriceLevel → SharedPriceLevel
level_after c n level = record level {
  first_order = if is_none c.previous then c.removed.val.next_order else level.first_order;
  last_order = if is_none c.next then c.removed.val.previous_order else level.last_order;
  order_count = n.count;
  total_remaining_quantity = n.total;
}

-- The root: the head of the list moves where the level that leaves was the best.
unfoldable pub book_after : Removal → Counters → (slot : ℕ) → SharedBook → SharedBook
book_after c n i book = record book {
  best_prices =
      if n.count == 0 && is_none c.better
      then set_best_at book.best_prices i c.current.val.worse_price
      else book.best_prices;
  open_order_count = n.open_;
}

unfoldable pub removal_writes : Removal → Counters → (slot : ℕ) → Removed
removal_writes c n i = record {
  book = record { key = c.book.key; val = book_after c n i c.book.val };
  previous = set_next c.removed.val.next_order c.previous;
  next = set_previous c.removed.val.previous_order c.next;
  current =
      if n.count == 0
      then none
      else some (record { key = c.current.key; val = level_after c n c.current.val });
  better = if n.count == 0 then set_worse c.current.val.worse_price c.better else c.better;
  worse = if n.count == 0 then set_better c.current.val.better_price c.worse else c.worse;
}

unfoldable pub remove_order : Runtime → Removal → Result Removed
remove_order rt c = do
  check_place rt c
  i ← check_best c
  check_links c
  check_neighbor rt true c c.previous
  check_neighbor rt false c c.next
  n ← next_counters c
  check_levels rt c n
  ok (removal_writes c n i)
