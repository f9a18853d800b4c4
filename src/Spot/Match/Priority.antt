-- ===== src/Spot/Match/Priority.antt =====
-- What a match does to the queue of a price level and to the list of levels
-- (programs/tidebook/src/instructions/match_limit_order.rs).
use tidebook.Base.{
  ℕ, ◌+◌, ◌<◌, ◌≡◌, refl, ◌∙◌, sym, ◌⊎◌, none, some, Option-cases, inl, inr, true, false,
  Bool-cases, ◌==◌, ok, arith,
}
use tidebook.State.{Account, Runtime, Order, OrderSide, open_, filled, best_of, PriceLevel}
use tidebook.Matching.Plan.{settle-Planned}
use tidebook.Spot.Match.Defs.{MatchLimitOrder, check_maker_accounts, check_accounts}
use tidebook.Spot.Match.Steps.{Next, check_filled, check_transition}
use tidebook.Spot.Match.Transition.{
  removal-Alone, clear_better-cases, removal-best, promoted_best, successor-Succeeds, successor,
}
use tidebook.Spot.Match.Writes.{
  Matched, order_after, level_after, market_after, clear_better, match_writes,
}
use tidebook.Spot.Match.Handler.{handle_match_limit_order}
use tidebook.Spot.Match.Parts.{request, Parts, match-Parts}

-- An order is the head of the queue of a level.
pub record IsHead (x : Account Order) (level : Account PriceLevel) : Type 0 where
  pub pointed_at : level.val.first_order ≡ some x.key
  pub no_predecessor : x.val.previous_order ≡ none
  pub rests_here : x.val.price_level ≡ level.key
  pub still_open : x.val.status ≡ open_

pub maker-IsOpen :
    (rt : Runtime) (c : MatchLimitOrder)
    → check_accounts rt c ≡ ok tt
    → c.maker_order.val.status ≡ open_
unfolding check_accounts check_maker_accounts
maker-IsOpen rt c h = ground arith

-- The maker is out of the book: nothing is left, locked or linked, and one open order fewer counts.
pub record Completed (c : MatchLimitOrder) (d : Matched) : Type 0 where
  pub nothing_left : d.maker_order.val.remaining_quantity ≡ 0
  pub nothing_locked : d.maker_order.val.locked_collateral ≡ 0
  pub no_predecessor : d.maker_order.val.previous_order ≡ none
  pub no_successor : d.maker_order.val.next_order ≡ none
  pub marked : d.maker_order.val.status ≡ filled
  pub one_fewer : d.market.val.open_order_count + 1 ≡ c.market.val.open_order_count

-- The successor of the maker is the head of the level, which keeps its other orders.
pub record Promoted (c : MatchLimitOrder) (d : Matched) (x : Account Order)
    (level : Account PriceLevel) : Type 0 where
  pub same_level : level.key ≡ c.maker_price_level.key
  pub was_next : c.maker_order.val.next_order ≡ some x.key
  pub supplied :
      (y : Account Order) × ((c.next_order ≡ some y)
        × (x ≡ record y { val = record y.val { previous_order = none } }))
  pub written_order : d.next_order ≡ some x
  pub written_level : d.maker_price_level ≡ some level
  pub head : IsHead x level
  pub one_fewer : level.val.order_count + 1 ≡ c.maker_price_level.val.order_count
  pub quantity_left : 0 < level.val.total_remaining_quantity
  pub same_tail : level.val.last_order ≡ c.maker_price_level.val.last_order
  pub total :
      level.val.total_remaining_quantity + c.maker_order.val.remaining_quantity
      ≡ c.maker_price_level.val.total_remaining_quantity
  pub same_best : best_of c.maker_order.val.side d.market.val ≡ some level.val.price

-- The level is gone and the next level, if there is one, is the best of its side.
pub record Removed (c : MatchLimitOrder) (d : Matched) : Type 0 where
  pub level_closed : d.maker_price_level ≡ none
  pub was_alone : c.maker_order.val.next_order ≡ none
  pub was_last : c.maker_price_level.val.order_count ≡ 1
  pub was_emptied :
      c.maker_price_level.val.total_remaining_quantity ≡ c.maker_order.val.remaining_quantity
  pub new_best : best_of c.maker_order.val.side d.market.val ≡ c.maker_price_level.val.worse_price
  pub new_head :
      (w : Account PriceLevel)
      → d.worse_level ≡ some w
      → (w.val.better_price ≡ none) × (c.maker_price_level.val.worse_price ≡ some w.val.price)
  pub last_level : d.worse_level ≡ none → best_of c.maker_order.val.side d.market.val ≡ none

pub filled-IsFull :
    (c : MatchLimitOrder) (n : Next)
    → c.maker_order.val.status ≡ open_
    → (order_after n c.maker_order.val).status ≡ filled
    → n.plan.maker_fully_filled ≡ true
unfolding order_after
filled-IsFull c n o s = ground arith

maker-IsBest :
    (rt : Runtime) (c : MatchLimitOrder)
    → check_accounts rt c ≡ ok tt
    → best_of c.maker_order.val.side c.market.val ≡ some c.maker_price_level.val.price
unfolding check_accounts check_maker_accounts
maker-IsBest rt c h = ground arith

Parts-Completed :
    (rt : Runtime) (side : OrderSide) (limit_price quantity : ℕ) (c : MatchLimitOrder) (d : Matched)
    → (p : Parts rt side limit_price quantity c d) → p.next.plan.maker_fully_filled ≡ true
    → Completed c d
unfolding match_writes order_after market_after
Parts-Completed rt side limit_price quantity c d p full = record {
  nothing_left = ground (arith, p.written);
  nothing_locked = ground (arith, p.written);
  no_predecessor = ground (arith, p.written);
  no_successor = ground (arith, p.written);
  marked = ground (arith, p.written);
  one_fewer = ground (arith, p.written, p.values.open_count_full);
}

Parts-Removed :
    (rt : Runtime) (side : OrderSide) (limit_price quantity : ℕ) (c : MatchLimitOrder) (d : Matched)
    → (p : Parts rt side limit_price quantity c d) → p.next.plan.maker_fully_filled ≡ true
    → p.next.level_order_count ≡ 0
    → Removed c d
unfolding match_writes check_transition check_filled
Parts-Removed rt side limit_price quantity c d p full gone =
    let n = p.next in
    let a = removal-Alone rt c n (ground (arith, p.transition)) in
    let k = settle-Planned (request c side limit_price quantity) n.plan p.values.planned in
    let best : best_of c.maker_order.val.side d.market.val ≡ c.maker_price_level.val.worse_price =
      ground (arith, p.written, removal-best c n full gone) in
    let (heads, ends) =
      clear_better-cases c.worse_level c.maker_price_level.val.worse_price a.worse_is
        a.worse_none in
    let w : d.worse_level ≡ clear_better c.worse_level = ground (arith, p.written) in
    record {
      level_closed = ground (arith, p.written);
      was_alone = a.alone;
      was_last = ground (arith, p.values.level_count_full);
      was_emptied =
          ground (arith, a.emptied, p.values.level_left, p.values.order_left, k.maker_flag);
      new_best = best;
      new_head = λ v e. heads v (sym w ∙ e);
      last_level = λ e. best ∙ ends (sym w ∙ e);
    }

Parts-Promoted :
    (rt : Runtime) (side : OrderSide) (limit_price quantity : ℕ) (c : MatchLimitOrder) (d : Matched)
    → (p : Parts rt side limit_price quantity c d) → p.next.plan.maker_fully_filled ≡ true
    → (p.next.level_order_count == 0) ≡ false
    → (x : Account Order) → c.next_order ≡ some x
    → Promoted c d
        (record x { val = record x.val { previous_order = none } })
        (record c.maker_price_level {
          val = level_after p.next c.next_order c.maker_price_level.val;
        })
unfolding match_writes check_transition check_filled level_after
Parts-Promoted rt side limit_price quantity c d p full stays x e =
    let n = p.next in
    let s = successor-Succeeds c n x (ground (arith, p.transition)) in
    let k = settle-Planned (request c side limit_price quantity) n.plan p.values.planned in
    record {
      same_level = refl;
      was_next = ground (arith, p.transition);
      supplied = (x, (e, refl));
      written_order = ground (arith, p.written);
      written_level = ground (arith, p.written);
      head = record {
        pointed_at = ground arith;
        no_predecessor = refl;
        rests_here = s.rests_here;
        still_open = s.is_open_;
      };
      one_fewer = ground (arith, p.values.level_count_full);
      quantity_left = ground (arith, s.total_left);
      same_tail = ground arith;
      total = ground (arith, p.values.level_left, k.maker_flag);
      same_best =
          ground (arith, p.written, promoted_best c n full stays, maker-IsBest rt c p.accounts);
    }

-- A match that completes its maker takes it out of the book, with one open order fewer. Then either
-- the successor in the queue is the head of the level, which stays the best one with a positive
-- total and one order fewer, or the maker was alone, the level is closed, and the worse level that
-- it pointed at is the best of its side with no better one, or the side is empty.
pub match-Completed :
    (rt : Runtime) (side : OrderSide) (limit_price quantity : ℕ) (c : MatchLimitOrder) (d : Matched)
    → handle_match_limit_order rt side limit_price quantity c ≡ ok d
    → d.maker_order.val.status ≡ filled
    → Completed c d
      × (((x : Account Order) × ((level : Account PriceLevel) × Promoted c d x level))
          ⊎ Removed c d)
unfolding match_writes
match-Completed rt side limit_price quantity c d h s =
    let p = match-Parts rt side limit_price quantity c d h in
    let n = p.next in
    let full = filled-IsFull c n (maker-IsOpen rt c p.accounts) (ground (arith, p.written)) in
    (
      Parts-Completed rt side limit_price quantity c d p full,
      elim (Bool-cases (n.level_order_count == 0)) [
        | inl e ↦ inr (Parts-Removed rt side limit_price quantity c d p full (ground arith))
        | inr e ↦ elim (Option-cases c.next_order) [
          | inl f ↦ absurd (successor rt c n p.transition full e f)
          | inr (x, f) ↦ inl (_, (_, Parts-Promoted rt side limit_price quantity c d p full e x f))
        ]
      ],
    )
