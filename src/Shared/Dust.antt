-- ===== src/Shared/Dust.antt =====
-- An open shared order that has nothing locked (`order` of programs/tidebook/src/shared_trading.rs asks
-- for a positive lock, instructions/shared_match.rs may leave none with a remainder).
use tidebook.Base.{
  ℕ, ◌≡◌, ◌∙◌, refl, sym, Option, none, some, Bool, false, ◌⊎◌, inl, inr, ok, is_ok, Result-cases,
  bind_case, arith,
}
use tidebook.Base.Int.{ℤ}
use tidebook.State.{
  Pubkey, Account, Runtime, OrderSide, SharedOutcome, SharedBook, SharedOrder, slot,
}
use tidebook.Spot.Queue.{Store}
use tidebook.Spot.Match.Steps.{key_of}
use tidebook.Shared.Links.{check_order}
use tidebook.Shared.Remove.{Removal, check_neighbor}
use tidebook.Shared.Remove.Unlink.{remove-Parts}
use tidebook.Shared.Cancel.{CancelSharedOrder, removal, handle_cancel_shared_order}
use tidebook.Shared.Cancel.Unlink.{cancel-Parts}
use tidebook.Shared.Match.{MatchSharedOrder, check_maker}
use tidebook.Shared.Match.Handler.{handle_match_shared_order}
use tidebook.Shared.Match.Parts.{match-Parts}

check_order_fails :
    {P : Type 0}
    → (rt : Runtime) (o : Account SharedOrder) (book : Account SharedBook)
    → o.val.locked_collateral ≡ 0
    → check_order rt o book ≡ ok tt
    → P
unfolding check_order
check_order_fails rt o book none_locked h =
    bind_case (slot book.val o.val.outcome o.val.side) _ h λ _ _ h₁. absurd (ground arith)

neighbor_fails :
    {P : Type 0}
    → (rt : Runtime) (previous : Bool) (c : Removal) (n : Option (Account SharedOrder))
      (o : Account SharedOrder)
    → n ≡ some o
    → o.val.locked_collateral ≡ 0
    → check_neighbor rt previous c n ≡ ok tt
    → P
unfolding check_neighbor
neighbor_fails rt previous c none o e none_locked h = absurd (ground arith)
neighbor_fails rt previous c (some a) o e none_locked h =
    bind_case (check_order rt a c.book) _ h
      λ _ order h₁. check_order_fails rt a c.book (ground arith) (ground arith)

maker_fails :
    {P : Type 0}
    → (rt : Runtime) (outcome : SharedOutcome) (i : ℕ) (m : MatchSharedOrder)
    → m.maker_order.val.locked_collateral ≡ 0
    → check_maker rt outcome i m ≡ ok tt
    → P
unfolding check_maker
maker_fails rt outcome i m none_locked h =
    bind_case (check_order rt m.maker_order m.book) _ h
      λ _ order h₁. check_order_fails rt m.maker_order m.book none_locked (ground arith)

-- An account read from the ledger at the address of an order that has nothing locked has nothing
-- locked.
read_unlocked :
    (st : Store SharedOrder) (k : Pubkey) (o : SharedOrder) (a : Account SharedOrder)
    → st k ≡ some o
    → o.locked_collateral ≡ 0
    → st a.key ≡ some a.val
    → a.key ≡ k
    → a.val.locked_collateral ≡ 0
read_unlocked st k o a stored none_locked read same =
    let here : st k ≡ some a.val = rw same at read in
    let equal : o ≡ a.val = ground (arith, stored, here) in rw equal at none_locked

named_neighbor_fails :
    {P : Type 0}
    → (rt : Runtime) (previous : Bool) (c : Removal) (n : Option (Account SharedOrder))
      (st : Store SharedOrder) (k : Pubkey) (o : SharedOrder)
    → st k ≡ some o
    → o.locked_collateral ≡ 0
    → ((a : Account SharedOrder) → n ≡ some a → st a.key ≡ some a.val)
    → key_of n ≡ some k
    → check_neighbor rt previous c n ≡ ok tt
    → P
named_neighbor_fails rt previous c none st k o stored none_locked read named h =
    absurd (ground arith)
named_neighbor_fails rt previous c (some a) st k o stored none_locked read named h =
    neighbor_fails rt previous c (some a) a refl
      (read_unlocked st k o a stored none_locked (read a refl) (ground arith)) h

-- An order that has nothing locked is stuck, whatever remains of it: where the order accounts that a
-- call supplies are the ones on the ledger, no call cancels it, no call matches against it, and no call
-- cancels the order before or behind it in the queue either, that is, an order that names it as its
-- next or its previous one.
pub unlocked_order_is_stuck :
    (rt : Runtime) (now : ℤ) (outcome : SharedOutcome) (side : OrderSide) (limit_price quantity : ℕ)
    (st : Store SharedOrder) (k : Pubkey) (o : SharedOrder) (c : CancelSharedOrder)
    (m : MatchSharedOrder)
    → st k ≡ some o
    → o.locked_collateral ≡ 0
    → st c.order.key ≡ some c.order.val
    → ((a : Account SharedOrder) → c.previous_order ≡ some a → st a.key ≡ some a.val)
    → ((a : Account SharedOrder) → c.next_order ≡ some a → st a.key ≡ some a.val)
    → (c.order.key ≡ k)
      ⊎ ((c.order.val.previous_order ≡ some k) ⊎ (c.order.val.next_order ≡ some k))
    → st m.maker_order.key ≡ some m.maker_order.val
    → m.maker_order.key ≡ k
    → (is_ok (handle_cancel_shared_order rt c) ≡ false)
      × (is_ok (handle_match_shared_order rt now outcome side limit_price quantity m) ≡ false)
unlocked_order_is_stuck rt now outcome side limit_price quantity st k o c m stored none_locked read
      before_read behind_read about maker_read maker =
    (
      elim (Result-cases (handle_cancel_shared_order rt c)) [
        | inr (failure, e) ↦ rw e refl
        | inl (d, e) ↦
            let p = cancel-Parts rt c d e in
            let r = remove-Parts rt (removal c) p.removed p.removal_is in
            elim about [
              | inl itself ↦
                  check_order_fails rt c.order c.book
                    (read_unlocked st k o c.order stored none_locked read itself) p.checked
              | inr (inl before) ↦
                  named_neighbor_fails rt _ (removal c) c.previous_order st k o stored none_locked
                    before_read (sym r.linked.previous_is ∙ before) r.before
              | inr (inr behind) ↦
                  named_neighbor_fails rt _ (removal c) c.next_order st k o stored none_locked
                    behind_read (sym r.linked.next_is ∙ behind) r.behind
            ]
      ],
      elim (Result-cases (handle_match_shared_order rt now outcome side limit_price quantity m)) [
        | inr (failure, e) ↦ rw e refl
        | inl (d, e) ↦
            let p = match-Parts rt now outcome side limit_price quantity m d e in
            maker_fails rt outcome p.slot m
              (read_unlocked st k o m.maker_order stored none_locked maker_read maker) p.maker
      ],
    )
