-- ===== src/Spot/Match/Transition.antt =====
-- What the tests and writes of a full fill say of the order's successor and of the worse level
-- (programs/tidebook/src/instructions/match_limit_order.rs).
use tidebook.Base.{ℕ, ◌<◌, ◌≡◌, refl, ◌≢◌, Option, none, some, true, false, ◌==◌, ok, arith}
use tidebook.State.{
  Account, Runtime, Market, Order, OrderSide, open_, bid, ask, best_of, set_best, PriceLevel,
}
use tidebook.Spot.Match.Defs.{MatchLimitOrder}
use tidebook.Spot.Match.Steps.{
  Next, check_worse, check_removal, check_successor, check_filled, check_transition,
}
use tidebook.Spot.Match.Writes.{market_after, clear_better}

best_of-set_best : (s : OrderSide) (p : Option ℕ) (m : Market) → best_of s (set_best s p m) ≡ p
unfolding best_of set_best
best_of-set_best bid p m = refl
best_of-set_best ask p m = refl

best_of-count :
    (s : OrderSide) (n : ℕ) (m : Market)
    → best_of s (record m { open_order_count = n }) ≡ best_of s m
unfolding best_of
best_of-count bid n m = refl
best_of-count ask n m = refl

-- The tests of a removal, as facts.
pub record Alone (c : MatchLimitOrder) (n : Next) : Type 0 where
  pub alone : c.maker_order.val.next_order ≡ none
  pub emptied : n.level_quantity ≡ 0
  pub worse_is :
      (w : Account PriceLevel)
      → c.worse_level ≡ some w
      → c.maker_price_level.val.worse_price ≡ some w.val.price
  pub worse_none : c.worse_level ≡ none → c.maker_price_level.val.worse_price ≡ none

worse_of :
    (rt : Runtime) (c : MatchLimitOrder) (n : Next) (p : Option ℕ) (w : Option (Account PriceLevel))
    → check_removal rt c n ≡ ok tt
    → c.maker_price_level.val.worse_price ≡ p
    → c.worse_level ≡ w
    → ((v : Account PriceLevel) → w ≡ some v → p ≡ some v.val.price) × (w ≡ none → p ≡ none)
unfolding check_removal check_worse
worse_of rt c n none none h e k = ground arith
worse_of rt c n none (some w) h e k = ground arith
worse_of rt c n (some p) none h e k = ground arith
worse_of rt c n (some p) (some w) h e k = ground arith

pub removal-Alone :
    (rt : Runtime) (c : MatchLimitOrder) (n : Next) → check_removal rt c n ≡ ok tt → Alone c n
unfolding check_removal
removal-Alone rt c n h =
    let (is, lacks) =
      worse_of rt c n c.maker_price_level.val.worse_price c.worse_level h refl refl in
    record { alone = ground arith; emptied = ground arith; worse_is = is; worse_none = lacks }

pub clear_better-cases :
    (o : Option (Account PriceLevel)) (p : Option ℕ)
    → ((v : Account PriceLevel) → o ≡ some v → p ≡ some v.val.price)
    → (o ≡ none → p ≡ none)
    → ((w : Account PriceLevel)
        → clear_better o ≡ some w
        → (w.val.better_price ≡ none) × (p ≡ some w.val.price))
      × (clear_better o ≡ none → p ≡ none)
clear_better-cases none p f g = (λ w e. absurd (ground arith), λ _. g refl)
clear_better-cases (some v) p f g = (λ w e. ground (arith, f v refl), λ e. absurd (ground arith))

pub removal-best :
    (c : MatchLimitOrder) (n : Next)
    → n.plan.maker_fully_filled ≡ true
    → n.level_order_count ≡ 0
    → best_of c.maker_order.val.side (market_after c n) ≡ c.maker_price_level.val.worse_price
unfolding market_after
removal-best c n full gone =
    let side = c.maker_order.val.side in
    let worse = c.maker_price_level.val.worse_price in
    ground (
      arith,
      best_of-set_best side worse c.market.val,
      best_of-count side n.open_order_count (set_best side worse c.market.val),
    )

-- The tests of a succession, as facts.
pub record Succeeds (c : MatchLimitOrder) (n : Next) (x : Account Order) : Type 0 where
  pub is_open_ : x.val.status ≡ open_
  pub rests_here : x.val.price_level ≡ c.maker_price_level.key
  pub total_left : 0 < n.level_quantity

pub successor-Succeeds :
    (c : MatchLimitOrder) (n : Next) (x : Account Order)
    → check_successor c n (some x) ≡ ok tt
    → Succeeds c n x
unfolding check_successor
successor-Succeeds c n x h = record {
  is_open_ = ground arith;
  rests_here = ground arith;
  total_left = ground arith;
}

some_successor : (c : MatchLimitOrder) (n : Next) → ¬ (check_successor c n none ≡ ok tt)
unfolding check_successor
some_successor c n h = ground arith

pub successor :
    (rt : Runtime) (c : MatchLimitOrder) (n : Next)
    → check_transition rt c n ≡ ok tt
    → n.plan.maker_fully_filled ≡ true
    → (n.level_order_count == 0) ≡ false
    → c.next_order ≢ none
unfolding check_transition check_filled
successor rt c n h full stays e = some_successor c n (ground arith)

pub promoted_best :
    (c : MatchLimitOrder) (n : Next)
    → n.plan.maker_fully_filled ≡ true
    → (n.level_order_count == 0) ≡ false
    → best_of c.maker_order.val.side (market_after c n)
      ≡ best_of c.maker_order.val.side c.market.val
unfolding market_after
promoted_best c n full stays =
    ground (arith, best_of-count c.maker_order.val.side n.open_order_count c.market.val)
