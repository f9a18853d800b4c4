-- ===== src/Spot/Match/Dequeue.antt =====
-- A match serves the queue of a level from its head
-- (programs/tidebook/src/instructions/match_limit_order.rs).
use tidebook.Base.{
  ℕ, ◌≡◌, refl, sym, ◌∙◌, List, [], ◌∷◌, Option, none, some, inl, inr, ◌⊎◌, ok, arith,
}
use tidebook.State.{Pubkey, Account, Runtime, Order, OrderSide, open_, filled, PriceLevel}
use tidebook.Spot.Queue.{distinct, Store, put, IsLinked, length, IsQueue}
use tidebook.Spot.Match.Defs.{MatchLimitOrder, check_maker_accounts, check_accounts}
use tidebook.Spot.Match.Steps.{check_partial, check_transition}
use tidebook.Spot.Match.Writes.{Matched, order_after, level_after, match_writes}
use tidebook.Spot.Match.Handler.{handle_match_limit_order}
use tidebook.Spot.Match.Parts.{match-Parts}
use tidebook.Spot.Match.Queue.{IsLinked-partial, IsLinked-full}
use tidebook.Spot.Match.Partial.{open-IsPartial}
use tidebook.Spot.Match.Priority.{filled-IsFull, maker-IsOpen, Promoted, match-Completed}

-- The orders of the ledger after the successor, if there is one, and the maker are written.
abbrev pub put_next : Option (Account Order) → Store Order → Store Order
put_next none st = st
put_next (some x) st = put x.key x.val st

abbrev pub matched_store : Matched → Store Order → Store Order
matched_store d st = put d.maker_order.key d.maker_order.val (put_next d.next_order st)

maker_IsHead :
    (rt : Runtime) (c : MatchLimitOrder)
    → check_accounts rt c ≡ ok tt
    → c.maker_price_level.val.first_order ≡ some c.maker_order.key
unfolding check_accounts check_maker_accounts
maker_IsHead rt c h = ground arith

pub head_first :
    (st : Store Order) (level : Account PriceLevel) (ks : List Pubkey) (m : Pubkey)
    → IsQueue st level ks
    → level.val.first_order ≡ some m
    → (rest : List Pubkey) × (ks ≡ m ∷ rest)
unfolding IsLinked
head_first st level [] m q h = absurd (ground (arith, q.linked))
head_first st level (k ∷ ks) m q h = (ks, ground (arith, q.linked))

pub single : (m : Pubkey) (ks rest : List Pubkey) → ks ≡ m ∷ rest → length ks ≡ 1 → rest ≡ []
unfolding length
single m ks [] e l = refl
single m ks (k ∷ rest) e l = absurd (ground arith)

-- A match that leaves its maker open leaves the queue as it was: where the level and the orders on
-- the ledger stand for the queue `ks`, they stand for the same queue after the match, with the
-- total less by what was exchanged.
pub match_keeps_IsQueue :
    (rt : Runtime) (side : OrderSide) (limit_price quantity : ℕ) (c : MatchLimitOrder) (d : Matched)
    (st : Store Order) (ks : List Pubkey)
    → handle_match_limit_order rt side limit_price quantity c ≡ ok d
    → IsQueue st c.maker_price_level ks
    → st c.maker_order.key ≡ some c.maker_order.val
    → d.maker_order.val.status ≡ open_
    → (level : Account PriceLevel) × ((d.maker_price_level ≡ some level)
        × IsQueue (matched_store d st) level ks)
unfolding match_writes order_after level_after check_transition check_partial
match_keeps_IsQueue rt side limit_price quantity c d st ks h q stored s =
    let p = match-Parts rt side limit_price quantity c d h in
    let n = p.next in
    let part = open-IsPartial c n (ground (arith, p.written)) in
    let o' : Account Order = record {
      key = c.maker_order.key;
      val = record c.maker_order.val {
        remaining_quantity = n.order_remaining;
        locked_collateral = n.order_collateral;
      };
    } in
    let level : Account PriceLevel = record {
      key = c.maker_price_level.key;
      val = record c.maker_price_level.val { total_remaining_quantity = n.level_quantity };
    } in
    let order_is : d.maker_order ≡ o' = ground (arith, p.written) in
    let no_next : d.next_order ≡ none = ground (arith, p.written, p.transition) in
    let first = maker_IsHead rt c p.accounts in
    (
      level,
      (
        ground (arith, p.written),
        rw (order_is, no_next)
            (record {
              linked = rw first (
                  IsLinked-partial st c.maker_price_level.key c.maker_order.key
                    c.maker_price_level.val.last_order
                    c.maker_price_level.val.total_remaining_quantity n.level_quantity
                    n.order_remaining n.order_collateral n.plan.fill.base_quantity ks
                    c.maker_order.val (rw first at q.linked) stored p.values.order_left
                    p.values.level_left);
              counted = q.counted;
              apart = q.apart;
            }),
      ),
    )

Promoted-IsQueue :
    (c : MatchLimitOrder) (d : Matched) (st : Store Order) (rest : List Pubkey) (x : Account Order)
    (level : Account PriceLevel)
    → Promoted c d x level
    → IsQueue st c.maker_price_level (c.maker_order.key ∷ rest)
    → c.maker_price_level.val.first_order ≡ some c.maker_order.key
    → st c.maker_order.key ≡ some c.maker_order.val
    → ((y : Account Order) → c.next_order ≡ some y → st y.key ≡ some y.val)
    → d.maker_order.key ≡ c.maker_order.key
    → IsQueue (matched_store d st) level rest
unfolding length distinct
Promoted-IsQueue c d st rest x level p q first stored next_stored same =
    let (y, (supplied, e)) = p.supplied in
    let successor : x.key ≡ y.key = ground arith in
    let linked =
      IsLinked-full st c.maker_price_level.key c.maker_order.key y.key
        c.maker_price_level.val.last_order c.maker_price_level.val.total_remaining_quantity
        level.val.total_remaining_quantity c.maker_order.key rest c.maker_order.val
        d.maker_order.val y.val (rw first at q.linked) stored (rw successor at p.was_next)
        (next_stored y supplied) p.total in
    record {
      linked = rw (p.written_order, same, p.same_level, p.head.pointed_at, p.same_tail, e) linked;
      counted = ground (arith, p.one_fewer, q.counted);
      apart = ground (arith, q.apart);
    }

-- A match that completes its maker is the dequeue of the FIFO queue: where the level and the orders
-- on the ledger stand for the queue `ks`, its first order is the maker, and after the match a level
-- that is still open stands for the rest of it, with the right count and total; the level is closed
-- only where the rest is empty.
pub match_dequeues :
    (rt : Runtime) (side : OrderSide) (limit_price quantity : ℕ) (c : MatchLimitOrder) (d : Matched)
    (st : Store Order) (ks : List Pubkey)
    → handle_match_limit_order rt side limit_price quantity c ≡ ok d
    → IsQueue st c.maker_price_level ks
    → st c.maker_order.key ≡ some c.maker_order.val
    → ((x : Account Order) → c.next_order ≡ some x → st x.key ≡ some x.val)
    → d.maker_order.val.status ≡ filled
    → (rest : List Pubkey) × ((ks ≡ c.maker_order.key ∷ rest)
        × (((level : Account PriceLevel) × ((d.maker_price_level ≡ some level)
                × IsQueue (matched_store d st) level rest))
            ⊎ ((d.maker_price_level ≡ none) × (rest ≡ []))))
unfolding match_writes
match_dequeues rt side limit_price quantity c d st ks h q stored next_stored s =
    let p = match-Parts rt side limit_price quantity c d h in
    let n = p.next in
    let full = filled-IsFull c n (maker-IsOpen rt c p.accounts) (ground (arith, p.written)) in
    let first = maker_IsHead rt c p.accounts in
    let (rest, e) = head_first st c.maker_price_level ks c.maker_order.key q first in
    (
      rest,
      (
        e,
        elim (match-Completed rt side limit_price quantity c d h s).1 [
          | inl (x, (level, promoted)) ↦ inl (
            level,
            (
              promoted.written_level,
              Promoted-IsQueue c d st rest x level promoted (rw e at q) first stored next_stored
                  (ground (arith, p.written)),
            ),
          )
          | inr removed ↦ inr (
            removed.level_closed,
            single c.maker_order.key ks rest e (sym q.counted ∙ removed.was_last),
          )
        ],
      ),
    )
