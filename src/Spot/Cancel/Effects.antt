-- ===== src/Spot/Cancel/Effects.antt =====
-- What a cancellation gives back
-- (programs/tidebook/src/instructions/cancel_limit_order.rs).
use tidebook.Base.{
  ap, sym, ◌∙◌, Bool, is_none, ◌&&◌, if◌then◌else◌, ℕ, ◌+◌, ◌≡◌, refl, Option, none, true, false,
  ◌==◌, ok, bind_case, arith,
}
use tidebook.State.{
  Account, Runtime, Market, OrderSide, bid, ask, canceled, MarketStatus, set_best, best_of,
  PriceLevel, TraderBalance,
}
use tidebook.Spot.Placement.Collateral.{base_total, quote_total, locked_for}
use tidebook.Spot.Match.Steps.{check_worse}
use tidebook.Spot.Cancel.{
  CancelLimitOrder, check_accounts, check_queue, release_balance, Counters, next_counters,
  check_levels, check_better, check_removal,
}
use tidebook.Spot.Cancel.Handler.{
  Canceled, level_after, market_after, cancel_writes, handle_cancel_limit_order,
}

-- What a release does to a ledger.
pub record Releases (side : OrderSide) (amount : ℕ) (b b' : TraderBalance) : Type 0 where
  pub base_kept : base_total b' ≡ base_total b
  pub quote_kept : quote_total b' ≡ quote_total b
  pub locked_less : locked_for side b' + amount ≡ locked_for side b
  pub same_market : b'.market ≡ b.market
  pub same_owner : b'.owner ≡ b.owner

release_balance-Releases :
    (side : OrderSide) (amount : ℕ) (b b' : TraderBalance)
    → release_balance side amount b ≡ ok b'
    → Releases side amount b b'
unfolding release_balance
release_balance-Releases bid amount b b' h = ground arith
release_balance-Releases ask amount b b' h = ground arith

pub record Counted (m : Market) (level : PriceLevel) (remaining : ℕ) (n : Counters) : Type 0 where
  pub open_orders : n.open_order_count + 1 ≡ m.open_order_count
  pub orders : n.level_order_count + 1 ≡ level.order_count
  pub total : n.level_quantity + remaining ≡ level.total_remaining_quantity

next_counters-Counted :
    (m : Market) (level : PriceLevel) (remaining : ℕ) (n : Counters)
    → next_counters m level remaining ≡ ok n
    → Counted m level remaining n
unfolding next_counters
next_counters-Counted m level remaining n h = ground arith

-- A cancellation that goes through, taken apart.
pub record Parts (rt : Runtime) (order_id : ℕ) (c : CancelLimitOrder) (d : Canceled) : Type 0 where
  pub balance : TraderBalance
  pub counters : Counters
  pub accounts : check_accounts rt order_id c ≡ ok tt
  pub queue : check_queue c ≡ ok tt
  pub released :
      release_balance c.order.val.side c.order.val.locked_collateral c.trader_balance.val
      ≡ ok balance
  pub counted : Counted c.market.val c.price_level.val c.order.val.remaining_quantity counters
  pub counters_ok :
      next_counters c.market.val c.price_level.val c.order.val.remaining_quantity ≡ ok counters
  pub levels : check_levels rt c counters ≡ ok tt
  pub better :
      check_better c.better_level c.price_level.val.better_price c.market.key c.order.val.side
        c.price_level.val.price
      ≡ ok tt
  pub worse :
      check_worse c.worse_level c.price_level.val.worse_price c.market.key c.order.val.side
        c.price_level.val.price
      ≡ ok tt
  pub written : d ≡ cancel_writes c balance counters

pub cancel-Parts :
    (rt : Runtime) (order_id : ℕ) (c : CancelLimitOrder) (d : Canceled)
    → handle_cancel_limit_order rt order_id c ≡ ok d
    → Parts rt order_id c d
unfolding handle_cancel_limit_order
cancel-Parts rt order_id c d h =
    let o = c.order.val in
    let level = c.price_level.val in
    bind_case (check_accounts rt order_id c) _ h λ _ accounts h₁.
      bind_case (check_queue c) _ h₁ λ _ queue h₂.
        bind_case (release_balance o.side o.locked_collateral c.trader_balance.val) _ h₂
          λ balance released h₃.
            bind_case (next_counters c.market.val level o.remaining_quantity) _ h₃ λ n counters h₄.
              bind_case (check_levels rt c n) _ h₄ λ _ levels h₅.
                bind_case
                  (check_better c.better_level level.better_price c.market.key o.side level.price) _
                  h₅
                  λ _ better h₆.
                    bind_case
                      (check_worse c.worse_level level.worse_price c.market.key o.side level.price)
                      _ h₆
                      λ _ worse h₇. record {
                        balance = balance;
                        counters = n;
                        accounts = ground arith;
                        queue = ground arith;
                        released = released;
                        counted =
                            next_counters-Counted c.market.val level o.remaining_quantity n
                              counters;
                        counters_ok = counters;
                        levels = ground arith;
                        better = ground arith;
                        worse = ground arith;
                        written = ground arith;
                      }

-- A cancellation moves the whole lock of the order back to the free part of the owner's ledger, with
-- both assets kept, and leaves an order that is canceled, holds nothing and is linked to nothing;
-- the market has one open order fewer.
pub cancel_refunds :
    (rt : Runtime) (order_id : ℕ) (c : CancelLimitOrder) (d : Canceled)
    → handle_cancel_limit_order rt order_id c ≡ ok d
    → Releases c.order.val.side c.order.val.locked_collateral c.trader_balance.val
        d.trader_balance.val
      × (d.order.val.status ≡ canceled)
      × (d.order.val.locked_collateral ≡ 0)
      × (d.order.val.remaining_quantity ≡ 0)
      × (d.order.val.previous_order ≡ none)
      × (d.order.val.next_order ≡ none)
      × (d.market.val.open_order_count + 1 ≡ c.market.val.open_order_count)
unfolding cancel_writes market_after
cancel_refunds rt order_id c d h =
    let p = cancel-Parts rt order_id c d h in
    rw p.written (
      release_balance-Releases c.order.val.side c.order.val.locked_collateral c.trader_balance.val
          p.balance p.released,
      refl,
      refl,
      refl,
      refl,
      refl,
      p.counted.open_orders,
    )

abbrev with_status : MarketStatus → Account Market → Account Market
with_status s m = record m { val = record m.val { status = s } }

abbrev under : MarketStatus → Canceled → Canceled
under s d = record d { market = with_status s d.market }

best_of-status :
    (side : OrderSide) (s : MarketStatus) (m : Market)
    → best_of side (record m { status = s }) ≡ best_of side m
unfolding best_of
best_of-status bid s m = refl
best_of-status ask s m = refl

market-status :
    (f : Bool) (side : OrderSide) (p : Option ℕ) (k : ℕ) (s : MarketStatus) (m : Market)
    → record (if f then set_best side p (record m { status = s }) else record m { status = s }) {
      open_order_count = k;
    }
      ≡ record (if f then set_best side p m else m) { open_order_count = k; status = s }
unfolding set_best
market-status true bid p k s m = refl
market-status true ask p k s m = refl
market-status false side p k s m = refl

module _ (rt : Runtime) (order_id : ℕ) (c : CancelLimitOrder) (s : MarketStatus) where
  abbrev moved : CancelLimitOrder
  moved = record c { market = with_status s c.market }

  accounts_same : check_accounts rt order_id moved ≡ check_accounts rt order_id c
  unfolding check_accounts
  accounts_same = refl

  queue_same : check_queue moved ≡ check_queue c
  unfolding check_queue
  queue_same = refl

  counters_same :
      next_counters moved.market.val c.price_level.val c.order.val.remaining_quantity
      ≡ next_counters c.market.val c.price_level.val c.order.val.remaining_quantity
  unfolding next_counters
  counters_same = refl

  levels_same : (n : Counters) → check_levels rt moved n ≡ check_levels rt c n
  unfolding check_levels check_removal
  levels_same n = rw (best_of-status c.order.val.side s c.market.val) refl

  writes_same :
      (b : TraderBalance) (n : Counters)
      → cancel_writes moved b n
        ≡ (let d = cancel_writes c b n in record d { market = with_status s d.market })
  unfolding cancel_writes market_after level_after
  writes_same b n =
      ap (λ m. record (cancel_writes c b n) { market = record { key = c.market.key; val = m } })
        (market-status (n.level_order_count == 0 && is_none c.better_level) c.order.val.side
          c.price_level.val.worse_price n.open_order_count s c.market.val)

-- An owner keeps the way out of a paused market: a cancellation that goes through goes through
-- under every status of the market, with the same result but for the status.
pub cancel_any_status :
    (rt : Runtime) (order_id : ℕ) (c : CancelLimitOrder) (d : Canceled) (s : MarketStatus)
    → handle_cancel_limit_order rt order_id c ≡ ok d
    → handle_cancel_limit_order rt order_id (record c { market = with_status s c.market })
      ≡ ok (record d { market = with_status s d.market })
unfolding handle_cancel_limit_order
cancel_any_status rt order_id c d s h =
    let p = cancel-Parts rt order_id c d h in
    let same = writes_same rt order_id c s p.balance p.counters in
    rw
      (
        accounts_same rt order_id c s ∙ p.accounts,
        queue_same rt order_id c s ∙ p.queue,
        p.released,
        counters_same rt order_id c s ∙ p.counters_ok,
        levels_same rt order_id c s p.counters ∙ p.levels,
        p.better,
        p.worse,
      )
      (ap ok (same ∙ ap (under s) (sym p.written)))
