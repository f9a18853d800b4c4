-- ===== src/Spot/Append/Effects.antt =====
-- What an append does to the level's queue and to the trader's ledger
-- (programs/tidebook/src/instructions/append_limit_order.rs).
use tidebook.Base.{
  Bool-cases, inl, inr, false, ℕ, ◌+◌, ◌≡◌, refl, List, [], ◌∷◌, ◌++◌, none, some, ok, bind_case,
  arith,
}
use tidebook.State.{
  Pubkey, Account, Runtime, Market, Order, open_, OrderSide, PriceLevel, TraderBalance,
}
use tidebook.Matching.Funding.{IsFunded}
use tidebook.Spot.Placement.{check_positive, check_grid, order_collateral, lock_balance}
use tidebook.Spot.Placement.Collateral.{order_collateral-IsFunded, Locks, lock_balance-Locks}
use tidebook.Spot.Queue.{Store, IsLinked, length-snoc, mem, distinct-snoc, IsLinked-stored, IsQueue}
use tidebook.Spot.Append.{
  AppendLimitOrder, Appended, check_accounts, Counters, next_counters, append_writes,
  handle_append_limit_order,
}
use tidebook.Spot.Append.Queue.{Joins, joined, IsLinked-joined}

-- The tests on the tail of the level.
record TailChecked (c : AppendLimitOrder) : Type 0 where
  is_last : c.price_level.val.last_order ≡ some c.previous_order.key
  rests_here : c.previous_order.val.price_level ≡ c.price_level.key
  still_open : c.previous_order.val.status ≡ open_
  ends : c.previous_order.val.next_order ≡ none

check_accounts-TailChecked :
    (rt : Runtime) (side : OrderSide) (price : ℕ) (c : AppendLimitOrder) (bump : ℕ)
    → check_accounts rt side price c ≡ ok bump
    → TailChecked c
unfolding check_accounts
check_accounts-TailChecked rt side price c bump h = ground arith

record Counted (m : Market) (level : PriceLevel) (quantity : ℕ) (n : Counters) : Type 0 where
  next_id : n.next_order_id ≡ m.next_order_id + 1
  open_orders : n.open_order_count ≡ m.open_order_count + 1
  total : n.level_quantity ≡ level.total_remaining_quantity + quantity
  orders : n.level_count ≡ level.order_count + 1

next_counters-Counted :
    (m : Market) (level : PriceLevel) (quantity : ℕ) (n : Counters)
    → next_counters m level quantity ≡ ok n
    → Counted m level quantity n
unfolding next_counters
next_counters-Counted m level quantity n h = ground arith

record Parts (rt : Runtime) (side : OrderSide) (price quantity : ℕ) (c : AppendLimitOrder)
    (d : Appended) : Type 0 where
  bump : ℕ
  locked : ℕ
  balance : TraderBalance
  counters : Counters
  tail : TailChecked c
  collateral : order_collateral c.market.val side price quantity ≡ ok locked
  locks : lock_balance side locked c.trader_balance.val ≡ ok balance
  counted : Counted c.market.val c.price_level.val quantity counters
  written : d ≡ append_writes c side price quantity locked bump balance counters

append-Parts :
    (rt : Runtime) (side : OrderSide) (price quantity : ℕ) (c : AppendLimitOrder) (d : Appended)
    → handle_append_limit_order rt side price quantity c ≡ ok d
    → Parts rt side price quantity c d
unfolding handle_append_limit_order
append-Parts rt side price quantity c d h =
    bind_case (check_accounts rt side price c) _ h λ bump checked h₁.
      bind_case (check_positive price quantity) _ h₁ λ _ _ h₂.
        bind_case (check_grid c.market.val price quantity) _ h₂ λ _ _ h₃.
          bind_case (order_collateral c.market.val side price quantity) _ h₃ λ locked collateral h₄.
            bind_case (lock_balance side locked c.trader_balance.val) _ h₄ λ balance locks h₅.
              bind_case (next_counters c.market.val c.price_level.val quantity) _ h₅
                λ n counters h₆. record {
                  bump = bump;
                  locked = locked;
                  balance = balance;
                  counters = n;
                  tail = check_accounts-TailChecked rt side price c bump checked;
                  collateral = collateral;
                  locks = locks;
                  counted =
                      next_counters-Counted c.market.val c.price_level.val quantity n counters;
                  written = ground arith;
                }

pub nonempty :
    (st : Store Order) (level : Account PriceLevel) (ks : List Pubkey) (k : Pubkey)
    → IsQueue st level ks
    → level.val.last_order ≡ some k
    → (x : Pubkey) × ((xs : List Pubkey) × (ks ≡ x ∷ xs))
unfolding IsLinked
nonempty st level [] k q h = absurd (ground (arith, q.linked))
nonempty st level (x ∷ xs) k q h = (x, (xs, refl))

pub unused_lem :
    (st : Store Order) (level : Account PriceLevel) (ks : List Pubkey) (k : Pubkey)
    → IsQueue st level ks
    → st k ≡ none
    → mem k ks ≡ false
unused_lem st level ks k q e = elim (Bool-cases (mem k ks)) [
  | inl stands ↦ absurd (IsLinked-stored st level.key none _ _ _ ks k q.linked stands e)
  | inr absent ↦ absent
]

writes-IsQueue :
    (st : Store Order) (ks : List Pubkey) (c : AppendLimitOrder) (side : OrderSide)
    (price quantity locked bump : ℕ) (balance : TraderBalance) (n : Counters)
    → TailChecked c
    → Counted c.market.val c.price_level.val quantity n
    → IsQueue st c.price_level ks
    → st c.previous_order.key ≡ some c.previous_order.val
    → st c.order.key ≡ none
    → let d = append_writes c side price quantity locked bump balance n in
      IsQueue
        (joined st d.previous_order.key d.previous_order.val d.order.key d.order.val)
        d.price_level
        (ks ++ (d.order.key ∷ []))
writes-IsQueue st ks c side price quantity locked bump balance n t counted q stored fresh =
    let d = append_writes c side price quantity locked bump balance n in
    let (x, (xs, e)) = nonempty st c.price_level ks c.previous_order.key q t.is_last in
    let j : Joins st c.price_level.key c.previous_order.key c.previous_order.val c.order.key
        d.order.val =
      record {
        tail_stored = stored;
        tail_ends = t.ends;
        is_new = fresh;
        rests_here = refl;
        still_open = refl;
        back = refl;
        ends = refl;
      } in
    record {
      linked =
          rw (counted.total, e)
            (IsLinked-joined st c.price_level.key none c.price_level.val.first_order
              c.price_level.val.last_order c.price_level.val.total_remaining_quantity x xs
              c.previous_order.key c.previous_order.val c.order.key d.order.val j (rw e at q.linked)
              t.is_last);
      counted = ground (arith, counted.orders, q.counted, length-snoc ks c.order.key);
      apart =
          distinct-snoc ks c.order.key q.apart (unused_lem st c.price_level ks c.order.key q fresh);
    }

-- An append is the enqueue of the FIFO queue: where the level and the orders on the ledger stand for
-- the queue `ks`, the supplied tail is the stored one, and the new address is unused, the level and
-- the orders after the instruction stand for `ks` with the new order at its end, with the right
-- count and total.
pub append_enqueues :
    (rt : Runtime) (side : OrderSide) (price quantity : ℕ) (c : AppendLimitOrder) (d : Appended)
    (st : Store Order) (ks : List Pubkey)
    → handle_append_limit_order rt side price quantity c ≡ ok d
    → IsQueue st c.price_level ks
    → st c.previous_order.key ≡ some c.previous_order.val
    → st d.order.key ≡ none
    → IsQueue
        (joined st d.previous_order.key d.previous_order.val d.order.key d.order.val)
        d.price_level
        (ks ++ (d.order.key ∷ []))
append_enqueues rt side price quantity c d st ks h q stored fresh =
    let p = append-Parts rt side price quantity c d h in
    let e : d.order.key ≡ c.order.key = ground (arith, p.written) in
    rw p.written (
      writes-IsQueue st ks c side price quantity p.locked p.bump p.balance p.counters p.tail
        p.counted q stored (rw e at fresh))

-- An append locks the funds of the whole new order in the trader's ledger, moving them from the free
-- to the locked part.
pub append_funds :
    (rt : Runtime) (side : OrderSide) (price quantity : ℕ) (c : AppendLimitOrder) (d : Appended)
    → handle_append_limit_order rt side price quantity c ≡ ok d
    → let o = d.order.val in
      Locks side o.locked_collateral c.trader_balance.val d.trader_balance.val
      × IsFunded side price o.remaining_quantity o.locked_collateral c.market.val.base_decimals
      × (o.remaining_quantity ≡ quantity)
      × (d.market.val.next_order_id ≡ o.order_id + 1)
      × (d.market.val.open_order_count ≡ c.market.val.open_order_count + 1)
append_funds rt side price quantity c d h =
    let p = append-Parts rt side price quantity c d h in
    rw p.written (
      lock_balance-Locks side p.locked c.trader_balance.val p.balance p.locks,
      (order_collateral-IsFunded c.market.val side price quantity p.locked p.collateral).0,
      refl,
      p.counted.next_id,
      p.counted.open_orders,
    )
