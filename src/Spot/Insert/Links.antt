-- ===== src/Spot/Insert/Links.antt =====
-- Where a new price level goes in the list of levels
-- (programs/tidebook/src/instructions/insert_limit_order.rs).
use tidebook.Base.{ℕ, ◌+◌, ◌≡◌, refl, Option, none, some, true, ok, bind_case, arith}
use tidebook.State.{
  Pubkey, Account, Runtime, OrderSide, best_of, has_priority, PriceLevel, TraderBalance,
}
use tidebook.Matching.Funding.{IsFunded}
use tidebook.Spot.Placement.{check_positive, check_grid, order_collateral, lock_balance}
use tidebook.Spot.Placement.Collateral.{order_collateral-IsFunded, Locks, lock_balance-Locks}
use tidebook.Spot.Insert.{
  InsertLimitOrder, Inserted, Bumps, check_accounts, check_neighbors, price_of, insert_writes,
  handle_insert_limit_order,
}

-- The new level stands between two adjacent levels, or at an end of the list.
pub record Place (side : OrderSide) (price : ℕ) (best : Option ℕ)
    (better worse : Option (Account PriceLevel)) : Type 0 where
  pub after_better :
      (b : Account PriceLevel)
      → better ≡ some b
      → (has_priority side b.val.price price ≡ true) × (b.val.worse_price ≡ price_of worse)
  pub before_worse :
      (w : Account PriceLevel)
      → worse ≡ some w
      → (has_priority side price w.val.price ≡ true) × (w.val.better_price ≡ price_of better)
  pub at_head : better ≡ none → best ≡ price_of worse

pub check_neighbors-Place :
    (rt : Runtime) (market : Pubkey) (side : OrderSide) (price : ℕ) (best : Option ℕ)
    (better worse : Option (Account PriceLevel))
    → check_neighbors rt market side price best better worse ≡ ok tt
    → Place side price best better worse
unfolding check_neighbors
check_neighbors-Place rt market side price none none none h = record {
  after_better = λ b e. absurd (ground arith);
  before_worse = λ w e. absurd (ground arith);
  at_head = λ _. refl;
}
check_neighbors-Place rt market side price (some best) none (some worse) h = record {
  after_better = λ b e. absurd (ground arith);
  before_worse = λ w e. ground arith;
  at_head = λ _. ground arith;
}
check_neighbors-Place rt market side price (some best) (some better) (some worse) h = record {
  after_better = λ b e. ground arith;
  before_worse = λ w e. ground arith;
  at_head = λ e. absurd (ground arith);
}
check_neighbors-Place rt market side price (some best) (some better) none h = record {
  after_better = λ b e. ground arith;
  before_worse = λ w e. absurd (ground arith);
  at_head = λ e. absurd (ground arith);
}
check_neighbors-Place rt market side price none (some better) worse h = absurd (ground arith)
check_neighbors-Place rt market side price none none (some worse) h = absurd (ground arith)
check_neighbors-Place rt market side price (some best) none none h = absurd (ground arith)

-- An insertion that goes through, taken apart.
pub record Parts (rt : Runtime) (side : OrderSide) (price quantity : ℕ) (c : InsertLimitOrder)
    (d : Inserted) : Type 0 where
  pub bumps : Bumps
  pub locked : ℕ
  pub balance : TraderBalance
  pub next_order_id : ℕ
  pub count : ℕ
  pub place : Place side price (best_of side c.market.val) c.better_level c.worse_level
  pub collateral : order_collateral c.market.val side price quantity ≡ ok locked
  pub locks : lock_balance side locked c.trader_balance.val ≡ ok balance
  pub next_order_id_is : next_order_id ≡ c.market.val.next_order_id + 1
  pub count_is : count ≡ c.market.val.open_order_count + 1
  pub written : d ≡ insert_writes c side price quantity locked bumps balance next_order_id count

pub insert-Parts :
    (rt : Runtime) (side : OrderSide) (price quantity : ℕ) (c : InsertLimitOrder) (d : Inserted)
    → handle_insert_limit_order rt side price quantity c ≡ ok d
    → Parts rt side price quantity c d
unfolding handle_insert_limit_order
insert-Parts rt side price quantity c d h =
    let best = best_of side c.market.val in
    bind_case (check_accounts rt side price c) _ h λ bumps _ h₁.
      bind_case (check_positive price quantity) _ h₁ λ _ _ h₂.
        bind_case (check_grid c.market.val price quantity) _ h₂ λ _ _ h₃.
          bind_case (check_neighbors rt c.market.key side price best c.better_level c.worse_level) _
            h₃
            λ _ near h₄.
              bind_case (order_collateral c.market.val side price quantity) _ h₄
                λ locked collateral h₅.
                  bind_case (lock_balance side locked c.trader_balance.val) _ h₅ λ balance locks h₆.
                    record {
                      bumps = bumps;
                      locked = locked;
                      balance = balance;
                      next_order_id = c.market.val.next_order_id + 1;
                      count = c.market.val.open_order_count + 1;
                      place =
                          check_neighbors-Place rt c.market.key side price best c.better_level
                            c.worse_level (ground (arith, near));
                      collateral = collateral;
                      locks = locks;
                      next_order_id_is = refl;
                      count_is = refl;
                      written = ground arith;
                    }

-- An insertion locks the funds of the whole new order in the trader's ledger, moving them from the
-- free to the locked part, and opens a level that holds this one order as its head and its tail.
pub insert_funds :
    (rt : Runtime) (side : OrderSide) (price quantity : ℕ) (c : InsertLimitOrder) (d : Inserted)
    → handle_insert_limit_order rt side price quantity c ≡ ok d
    → let o = d.order.val in
      let level = d.price_level.val in
      Locks side o.locked_collateral c.trader_balance.val d.trader_balance.val
      × IsFunded side price o.remaining_quantity o.locked_collateral c.market.val.base_decimals
      × (o.remaining_quantity ≡ quantity)
      × (level.total_remaining_quantity ≡ quantity)
      × (level.first_order ≡ some d.order.key)
      × (level.last_order ≡ some d.order.key)
      × (o.price_level ≡ d.price_level.key)
      × (d.market.val.next_order_id ≡ o.order_id + 1)
unfolding insert_writes
insert_funds rt side price quantity c d h =
    let p = insert-Parts rt side price quantity c d h in
    rw p.written (
      lock_balance-Locks side p.locked c.trader_balance.val p.balance p.locks,
      (order_collateral-IsFunded c.market.val side price quantity p.locked p.collateral).0,
      refl,
      refl,
      refl,
      refl,
      refl,
      p.next_order_id_is,
    )
