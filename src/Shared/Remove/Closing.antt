-- ===== src/Shared/Remove/Closing.antt =====
-- A removal that closes a level takes its price out of the list of prices (`remove_order` of
-- programs/tidebook/src/shared_trading.rs).
use tidebook.Base.{
  ℕ, ◌≡◌, ◌∙◌, refl, sym, List, Option, none, some, is_none, opt_eq, true, false, ◌==◌, Bool-cases,
  inl, inr, ok, ok_or, bind_case, arith,
}
use tidebook.State.{
  Account, Runtime, has_priority, PriceLevel, BestPrices, SharedPriceLevel, slot, best_at,
  set_best_at,
}
use tidebook.Errors.{program, invalid_shared_book}
use tidebook.Spot.Queue.{Store}
use tidebook.Spot.Queue.View.{view_store, view_account, view_neighbor, view_store-at}
use tidebook.Spot.Cancel.Remove.{remove}
use tidebook.Spot.Insert.{price_of}
use tidebook.Spot.Ladder.Borders.{Bordered, better-named}
use tidebook.Spot.Ladder.Remove.{IsLadder-drops}
use tidebook.Shared.Queue.{as_level}
use tidebook.Shared.Remove.Unlink.{remove-Parts}
use tidebook.Shared.Remove.{
  Removal, Removed, check_best, check_levels, set_worse, set_better, book_after, removal_writes,
  remove_order,
}
use tidebook.Shared.Remove.Neighbors.{Closes, check_closing-Closes}
use tidebook.Shared.Remove.Ladder.{
  IsSharedLadder, erase, put_level, removed_levels, written-Dropped,
}

-- The best price of the list is the level's exactly where the level has no better one.
check_best-first :
    (c : Removal) (i j : ℕ)
    → slot c.book.val c.removed.val.outcome c.removed.val.side ≡ ok i
    → check_best c ≡ ok j
    → (i ≡ j)
      × (opt_eq (best_at c.book.val.best_prices i) (some c.current.val.price)
          ≡ is_none c.current.val.better_price)
unfolding check_best
check_best-first c i j s h =
    bind_case (slot c.book.val c.removed.val.outcome c.removed.val.side) _ h λ k at h₁.
      let same : i ≡ k = ground arith in
      bind_case (ok_or (best_at c.book.val.best_prices k) (program invalid_shared_book)) _ h₁
        λ best found h₂. rw same (ground arith, ground arith)

best_at-set_best_at : (b : BestPrices) (i : ℕ) (p : Option ℕ) → best_at (set_best_at b i p) i ≡ p
unfolding best_at set_best_at
best_at-set_best_at b i p = ground arith

named_view :
    (better : Option (Account SharedPriceLevel)) (p : Option ℕ)
    → p ≡ price_of (view_neighbor as_level better)
    → is_none p ≡ is_none better
named_view none p e = ground arith
named_view (some b) p e = ground arith

module _ (c : Removal) (st : Store SharedPriceLevel) (k : Closes c)
    (stored : st c.current.val.price ≡ some c.current.val)
    (better_stored : (b : Account SharedPriceLevel)
      → c.better ≡ some b
      → st b.val.price ≡ some b.val)
    (worse_stored : (w : Account SharedPriceLevel)
      → c.worse ≡ some w
      → st w.val.price ≡ some w.val) where
  neighbor_view :
      (P : PriceLevel → Type 0) (o : Option (Account SharedPriceLevel))
      → ((a : Account SharedPriceLevel) → o ≡ some a → P (as_level a.val))
      → (a : Account PriceLevel) → view_neighbor as_level o ≡ some a
      → P a.val
  neighbor_view P none f a e = absurd (ground arith)
  neighbor_view P (some b) f a e =
      let same : view_account as_level b ≡ a = ground arith in rw (sym same) (f b refl)

  none_back : (o : Option (Account SharedPriceLevel)) → view_neighbor as_level o ≡ none → o ≡ none
  none_back none e = refl
  none_back (some a) e = absurd (ground arith)

  Closes-Bordered :
      Bordered c.removed.val.side
        (view_store as_level st)
        c.current.val.price
        (as_level c.current.val)
        (view_neighbor as_level c.better)
        (view_neighbor as_level c.worse)
  Closes-Bordered =
      let x = c.current.val.price in
      let side = c.removed.val.side in
      record {
        stored = view_store-at as_level st x c.current.val stored;
        better_stored =
            neighbor_view (λ v. view_store as_level st v.price ≡ some v) c.better
              (λ b e. view_store-at as_level st b.val.price b.val (better_stored b e));
        worse_stored =
            neighbor_view (λ v. view_store as_level st v.price ≡ some v) c.worse
              (λ w e. view_store-at as_level st w.val.price w.val (worse_stored w e));
        better_points =
            neighbor_view (λ v. v.worse_price ≡ some x) c.better (λ b e. (k.better_points b e).0);
        worse_points =
            neighbor_view (λ v. v.better_price ≡ some x) c.worse (λ w e. (k.worse_points w e).0);
        better_ahead =
            neighbor_view (λ v. has_priority side v.price x ≡ true) c.better
              (λ b e. (k.better_points b e).1);
        worse_behind =
            neighbor_view (λ v. has_priority side x v.price ≡ true) c.worse
              (λ w e. (k.worse_points w e).1);
        no_better = λ e. k.no_better (none_back c.better e);
        no_worse = λ e. k.no_worse (none_back c.worse e);
      }

-- A removal that closes the level takes its price out of the sorted list of prices: where the levels
-- of the list on the ledger are linked as `ps` from the best price on, with none besides, and the
-- supplied levels are the stored ones, the levels afterwards are linked as `ps` without the price, from
-- the best price that the book then records on, with none besides.
pub remove_order_closes :
    (rt : Runtime) (c : Removal) (r : Removed) (st : Store SharedPriceLevel) (ps : List ℕ) (i : ℕ)
    → remove_order rt c ≡ ok r
    → r.current ≡ none
    → slot c.book.val c.removed.val.outcome c.removed.val.side ≡ ok i
    → IsSharedLadder c.removed.val.side st (best_at c.book.val.best_prices i) ps
    → st c.current.val.price ≡ some c.current.val
    → ((b : Account SharedPriceLevel) → c.better ≡ some b → st b.val.price ≡ some b.val)
    → ((w : Account SharedPriceLevel) → c.worse ≡ some w → st w.val.price ≡ some w.val)
    → IsSharedLadder c.removed.val.side
        (removed_levels r c.current.val.price st)
        (best_at r.book.val.best_prices i)
        (remove c.current.val.price ps)
unfolding removal_writes book_after check_levels
remove_order_closes rt c r st ps i h closed slot_is ladder stored bs ws =
    let p = remove-Parts rt c r h in
    let n = p.counters in
    let x = c.current.val.price in
    let l = c.current.val in
    let side = c.removed.val.side in
    let empties : (n.count == 0) ≡ true = ground (arith, p.written) in
    let k = check_closing-Closes rt c n (rw empties at p.levels) in
    let (at, first) = check_best-first c i p.slot slot_is p.best in
    let bd = Closes-Bordered c st k stored bs ws in
    let better = view_neighbor as_level c.better in
    let worse = view_neighbor as_level c.worse in
    let named = named_view c.better l.better_price (
      better-named side (view_store as_level st) x (as_level l) (best_at c.book.val.best_prices i)
        ps ladder better worse bd) in
    let whole =
      IsLadder-drops side (view_store as_level st) x (as_level l) (best_at c.book.val.best_prices i)
        ps ladder
        (view_store as_level (
          put_level (set_better l.better_price c.worse)
            (put_level (set_worse l.worse_price c.better) (erase x st))))
        better worse bd
        (written-Dropped side st x l c.better c.worse (λ b e. (k.better_points b e).1)
          (λ w e. (k.worse_points w e).1)) in
    elim (Bool-cases (is_none c.better)) [
      | inl head ↦
          let top : opt_eq (best_at c.book.val.best_prices i) (some x) ≡ true =
            first ∙ named ∙ head in
          rw
            (
              p.written,
              empties,
              head,
              sym at,
              best_at-set_best_at c.book.val.best_prices i l.worse_price,
            )
            (rw top at whole)
      | inr under ↦
          let deep : opt_eq (best_at c.book.val.best_prices i) (some x) ≡ false =
            first ∙ named ∙ under in
          rw (p.written, empties, under) (rw deep at whole)
    ]
