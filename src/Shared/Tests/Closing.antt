-- ===== src/Shared/Tests/Closing.antt =====
-- The only bid at 2 leaves a book in which a level at 1 is next
-- (programs/tidebook/src/shared_trading.rs).
use tidebook.Base.{ℕ, ◌≡◌, refl, [], ◌∷◌, none, some, true, ok, arith}
use tidebook.Base.Word.{checked_sub, checked_pow_u128, checked_mul_u128, try_from_u64}
use tidebook.Sample.{hashing}
use tidebook.State.{
  Account, bid, SharedBook, SharedOrder, SharedPriceLevel, slot_group, slot, best_at, set_best_at,
}
use tidebook.Spot.Queue.{Store, put}
use tidebook.Spot.Cancel.Remove.{remove}
use tidebook.Spot.Ladder as Ladder
use tidebook.Spot.Ladder.{IsChain}
use tidebook.Spot.Queue.View.{view_store}
use tidebook.Shared.Rules.{quote_amount}
use tidebook.Shared.Links.{check_level, minimum, check_order}
use tidebook.Shared.Queue.{as_level}
use tidebook.Shared.Remove.{
  Removal, Removed, check_place, check_best, check_links, check_neighbor, next_counters,
  check_border, check_closing, check_levels, level_after, book_after, removal_writes, remove_order,
}
use tidebook.Shared.Remove.Ladder.{IsSharedLadder, removed_levels}
use tidebook.Shared.Remove.Closing.{remove_order_closes}
use tidebook.Shared.Tests.Data.{book, order_key, level_key, first, level}

abbrev root : Account SharedBook
root = record book {
  val = record book.val {
    best_prices = record { first = some 2; second = none; third = none; fourth = none };
    next_order_id = 4;
    open_order_count = 3;
  };
}

abbrev only : Account SharedOrder
only = record {
  key = order_key 3;
  val = record first.val {
    order_id = 3;
    price = 2;
    price_level = level_key 2;
    next_order = none;
    locked_collateral = 3;
  };
}

abbrev top : Account SharedPriceLevel
top = record {
  key = level_key 2;
  val = record level.val {
    price = 2;
    worse_price = some 1;
    first_order = some (order_key 3);
    last_order = some (order_key 3);
    total_remaining_quantity = 15;
    order_count = 1;
  };
}

abbrev under : Account SharedPriceLevel
under = record level { val = record level.val { better_price = some 2 } }

abbrev leaving : Removal
leaving = record {
  book = root;
  removed = only;
  current = top;
  previous = none;
  next = none;
  better = none;
  worse = some under;
  recipient = some (record { key = 21 });
}

abbrev left : Removed
left = record {
  book = record root {
    val = record root.val {
      best_prices = record { first = some 1; second = none; third = none; fourth = none };
      open_order_count = 2;
    };
  };
  current = none;
  previous = none;
  next = none;
  better = none;
  worse = some level;
}

left_is : remove_order hashing leaving ≡ ok left
unfolding remove_order check_place check_order slot slot_group minimum quote_amount checked_pow_u128
    checked_mul_u128 try_from_u64 check_level check_best best_at check_links check_neighbor
    next_counters checked_sub check_levels check_closing check_border removal_writes level_after
    book_after set_best_at
left_is = refl

abbrev levels : Store SharedPriceLevel
levels = put 2 top.val (put 1 under.val (λ _. none))

levels_complete :
    (q : ℕ) (l : _) → view_store as_level levels q ≡ some l → Ladder.mem q (2 ∷ 1 ∷ []) ≡ true
unfolding put Ladder.mem
levels_complete q l e = ground arith

levels-IsLadder : IsSharedLadder bid levels (some 2) (2 ∷ 1 ∷ [])
unfolding IsChain put
levels-IsLadder = record {
  chain = (
    refl,
    (
      as_level top.val,
      (
        record { stored = refl; priced = refl; back = refl; sorted = λ b e. absurd (ground arith) },
        (
          refl,
          (
            as_level under.val,
            (
              record { stored = refl; priced = refl; back = refl; sorted = λ b e. ground arith },
              refl,
            ),
          ),
        ),
      ),
    ),
  );
  complete = levels_complete;
}

remove_order_closes_example : IsSharedLadder bid (removed_levels left 2 levels) (some 1) (1 ∷ [])
unfolding put remove slot slot_group best_at
remove_order_closes_example =
    remove_order_closes hashing leaving left levels (2 ∷ 1 ∷ []) 0 left_is refl refl levels-IsLadder
      refl (λ b e. absurd (ground arith)) (λ w e. ground arith)
