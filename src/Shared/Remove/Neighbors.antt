-- ===== src/Shared/Remove/Neighbors.antt =====
-- What the tests on the neighbors of a level that is closed establish (`remove_order` of
-- programs/tidebook/src/shared_trading.rs).
use tidebook.Base.{
  require_case, ◌&&◌, ℕ, ◌≡◌, refl, sym, Option, none, some, is_none, opt_eq, true, false, ◌==◌, ok,
  bind_case, arith,
}
use tidebook.State.{Account, Runtime, has_priority, SharedPriceLevel}
use tidebook.Errors.{program, invalid_shared_neighbor}
use tidebook.Spot.Match.Steps.{key_of}
use tidebook.Shared.Links.{check_level}
use tidebook.Shared.Remove.{Removal, Counters, check_border, check_closing, key_at}

pub record Closes (c : Removal) : Type 0 where
  pub better_points :
      (b : Account SharedPriceLevel)
      → c.better ≡ some b
      → (b.val.worse_price ≡ some c.current.val.price)
        × (has_priority c.removed.val.side b.val.price c.current.val.price ≡ true)
  pub worse_points :
      (w : Account SharedPriceLevel)
      → c.worse ≡ some w
      → (w.val.better_price ≡ some c.current.val.price)
        × (has_priority c.removed.val.side c.current.val.price w.val.price ≡ true)
  pub no_better : c.better ≡ none → c.current.val.better_price ≡ none
  pub no_worse : c.worse ≡ none → c.current.val.worse_price ≡ none

better_borders :
    (rt : Runtime) (c : Removal) (o : Option (Account SharedPriceLevel))
    → check_border rt true c o ≡ ok tt
    → (b : Account SharedPriceLevel) → o ≡ some b
    → (b.val.worse_price ≡ some c.current.val.price)
      × (has_priority c.removed.val.side b.val.price c.current.val.price ≡ true)
unfolding check_border
better_borders rt c none h b e = absurd (ground arith)
better_borders rt c (some a) h b e =
    let same : a ≡ b = ground arith in
    bind_case (check_level rt a c.book) _ h λ _ _ h₁. rw (sym same) (ground arith, ground arith)

worse_borders :
    (rt : Runtime) (c : Removal) (o : Option (Account SharedPriceLevel))
    → check_border rt false c o ≡ ok tt
    → (w : Account SharedPriceLevel) → o ≡ some w
    → (w.val.better_price ≡ some c.current.val.price)
      × (has_priority c.removed.val.side c.current.val.price w.val.price ≡ true)
unfolding check_border
worse_borders rt c none h w e = absurd (ground arith)
worse_borders rt c (some a) h w e =
    let same : a ≡ w = ground arith in
    bind_case (check_level rt a c.book) _ h λ _ _ h₁. rw (sym same) (ground arith, ground arith)

key_at-none :
    (rt : Runtime) (c : Removal) (o : Option (Account SharedPriceLevel)) (p : Option ℕ)
    → opt_eq (key_of o) (key_at rt c.book.key c.removed.val.outcome c.removed.val.side p) ≡ true
    → o ≡ none
    → p ≡ none
key_at-none rt c none none h e = refl
key_at-none rt c none (some p) h e = absurd (ground arith)
key_at-none rt c (some a) p h e = absurd (ground arith)

pub check_closing-Closes :
    (rt : Runtime) (c : Removal) (n : Counters) → check_closing rt c n ≡ ok tt → Closes c
unfolding check_closing
check_closing-Closes rt c n h =
    let o = c.removed.val in
    let level = c.current.val in
    let failure = program invalid_shared_neighbor in
    let at = key_at rt c.book.key o.outcome o.side in
    require_case (is_none c.previous && (is_none c.next && n.total == 0)) failure _ h λ _ h₁.
      require_case
        (opt_eq (key_of c.better) (at level.better_price)
          && opt_eq (key_of c.worse) (at level.worse_price))
        failure _ h₁
        λ keys h₂. bind_case (check_border rt true c c.better) _ h₂ λ _ above h₃.
          bind_case (check_border rt false c c.worse) _ h₃ λ _ below h₄. record {
            better_points = better_borders rt c c.better (ground arith);
            worse_points = worse_borders rt c c.worse (ground arith);
            no_better = key_at-none rt c c.better level.better_price (ground arith);
            no_worse = key_at-none rt c c.worse level.worse_price (ground arith);
          }
