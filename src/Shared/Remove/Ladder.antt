-- ===== src/Shared/Remove/Ladder.antt =====
-- The levels of a shared list and what they hold after one is closed (`remove_order` of
-- programs/tidebook/src/shared_trading.rs).
use tidebook.Base.{ℕ, ◌≡◌, refl, List, Option, none, some, true, ◌==◌, arith, if◌then◌else◌}
use tidebook.State.{Account, OrderSide, has_priority, SharedPriceLevel}
use tidebook.Spot.Queue.{Store, put}
use tidebook.Spot.Queue.View.{view_store, view_account, view_neighbor}
use tidebook.Spot.Ladder.{IsLadder, has_priority_trans, has_priority-ne, has_priority-ne_sym}
use tidebook.Spot.Ladder.Borders.{Dropped}
use tidebook.Shared.Queue.{as_level}
use tidebook.Shared.Remove.{Removed, set_worse, set_better}

-- The levels of one list, by price, and what they stand for.
abbrev pub IsSharedLadder : OrderSide → Store SharedPriceLevel → (best : Option ℕ) → List ℕ → Type 0
IsSharedLadder side st best ps = IsLadder side (view_store as_level st) best ps

-- The levels after one is closed and its neighbors are written.
unfoldable pub erase : ℕ → Store SharedPriceLevel → Store SharedPriceLevel
erase x st q = if q == x then none else st q

abbrev pub put_level :
    Option (Account SharedPriceLevel) → Store SharedPriceLevel → Store SharedPriceLevel
put_level none st = st
put_level (some a) st = put a.val.price a.val st

abbrev pub removed_levels : Removed → (price : ℕ) → Store SharedPriceLevel → Store SharedPriceLevel
removed_levels r price st = put_level r.worse (put_level r.better (erase price st))

pub written-Dropped :
    (side : OrderSide) (st : Store SharedPriceLevel) (x : ℕ) (l : SharedPriceLevel)
    (better worse : Option (Account SharedPriceLevel))
    → ((b : Account SharedPriceLevel) → better ≡ some b → has_priority side b.val.price x ≡ true)
    → ((w : Account SharedPriceLevel) → worse ≡ some w → has_priority side x w.val.price ≡ true)
    → Dropped x
        (as_level l)
        (view_neighbor as_level better)
        (view_neighbor as_level worse)
        (view_store as_level st)
        (view_store as_level (
          put_level
            (set_better l.better_price worse)
            (put_level (set_worse l.worse_price better) (erase x st))))
unfolding put erase
written-Dropped side st x l none none f g = record {
  gone = ground arith;
  at_better = λ b e. absurd (ground arith);
  at_worse = λ w e. absurd (ground arith);
  elsewhere = λ q ne nb nw. ground arith;
}
written-Dropped side st x l (some b) none f g = record {
  gone = ground (arith, has_priority-ne_sym side b.val.price x (f b refl));
  at_better = λ v e. ground arith;
  at_worse = λ w e. absurd (ground arith);
  elsewhere = λ q ne nb nw. ground (arith, nb (view_account as_level b) refl);
}
written-Dropped side st x l none (some w) f g = record {
  gone = ground (arith, has_priority-ne side x w.val.price (g w refl));
  at_better = λ b e. absurd (ground arith);
  at_worse = λ v e. ground arith;
  elsewhere = λ q ne nb nw. ground (arith, nw (view_account as_level w) refl);
}
written-Dropped side st x l (some b) (some w) f g =
    let first = f b refl in
    let last = g w refl in
    let apart =
      has_priority-ne side b.val.price w.val.price
        (has_priority_trans side b.val.price x w.val.price first last) in
    record {
      gone = ground (
        arith,
        has_priority-ne side x w.val.price last,
        has_priority-ne_sym side b.val.price x first,
      );
      at_better = λ v e. ground (arith, apart);
      at_worse = λ v e. ground arith;
      elsewhere = λ q ne nb nw.
          ground (arith, nb (view_account as_level b) refl, nw (view_account as_level w) refl);
    }
