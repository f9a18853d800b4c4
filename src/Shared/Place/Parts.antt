-- ===== src/Shared/Place/Parts.antt =====
-- A new shared order that goes through, taken apart
-- (programs/tidebook/src/instructions/shared_orders.rs).
use tidebook.Base.{ℕ, ◌+◌, ◌≡◌, ok_or, ltb, ◌==◌, ◌&&◌, true, ok, bind_case, require_case, arith}
use tidebook.Base.Word.{checked_add, checked_add-ok}
use tidebook.Base.Int.{ℤ}
use tidebook.Errors.{
  program, invalid_order_id, invalid_price, order_id_overflow, invalid_shared_book,
}
use tidebook.State.{
  Runtime, OrderSide, bid, ask, SharedBook, SharedOutcome, slot, best_at, opposite_slot,
}
use tidebook.Matching.Fill.{notional}
use tidebook.Matching.Funding.{IsFunded}
use tidebook.Prediction.Book.{Bumps}
use tidebook.Shared.Rules.{
  Claims, trading_open, quote_amount, side_amount, check_units, order_terms, check_trader,
}
use tidebook.Shared.Links.{lock, side_buckets, write_side_buckets}
use tidebook.Shared.Locks.{Locks, written-Locks}
use tidebook.Shared.Place.{PlaceSharedOrder, Placed, check_accounts, stays_apart, Place, find_place}
use tidebook.Shared.Place.Handler.{lock_claims, place_writes, handle_place_shared_order}

pub record Parts (rt : Runtime) (outcome : SharedOutcome) (side : OrderSide)
    (price quantity order_id : ℕ) (c : PlaceSharedOrder) (d : Placed) : Type 0 where
  pub bumps : Bumps
  pub slot : ℕ
  pub amount : ℕ
  pub next_count : ℕ
  pub place : Place
  pub claims : Claims
  pub terms : order_terms c.book.val outcome side price quantity ≡ ok (slot, amount)
  pub id_is : order_id ≡ c.book.val.next_order_id
  pub apart : stays_apart side price (best_at c.book.val.best_prices (opposite_slot slot)) ≡ true
  pub counted : next_count ≡ c.book.val.open_order_count + 1
  pub placed : find_place rt outcome side price quantity slot c ≡ ok place
  pub locks : lock_claims c.book.val outcome side amount c.claims ≡ ok claims
  pub written :
      d
      ≡ place_writes outcome side price quantity order_id amount slot
          (order_id + 1)
          next_count
          place
          bumps
          claims
          c

pub place-Parts :
    (rt : Runtime) (now : ℤ) (outcome : SharedOutcome) (side : OrderSide)
    (price quantity order_id : ℕ) (c : PlaceSharedOrder) (d : Placed)
    → handle_place_shared_order rt now outcome side price quantity order_id c ≡ ok d
    → Parts rt outcome side price quantity order_id c d
unfolding handle_place_shared_order
place-Parts rt now outcome side price quantity order_id c d h =
    let book = c.book.val in
    bind_case (check_accounts rt outcome side price order_id c) _ h λ bumps _ h₁.
      bind_case (trading_open rt now book c.market) _ h₁ λ _ _ h₂.
        bind_case (check_trader rt book c.owner c.claims) _ h₂ λ _ _ h₃.
          bind_case (order_terms book outcome side price quantity) _ h₃ λ terms terms_are h₄.
            require_case (ltb 0 order_id && order_id == book.next_order_id)
              (program invalid_order_id) _ h₄
              λ id_is h₅.
                require_case
                  (stays_apart side price (best_at book.best_prices (opposite_slot terms.0)))
                  (program invalid_price) _ h₅
                  λ apart h₆.
                    bind_case (ok_or (checked_add order_id 1) (program order_id_overflow)) _ h₆
                      λ next_id next h₇.
                        bind_case
                          (ok_or (checked_add book.open_order_count 1)
                            (program invalid_shared_book))
                          _ h₇
                          λ count counted h₈.
                            bind_case (find_place rt outcome side price quantity terms.0 c) _ h₈
                              λ place placed h₉.
                                bind_case (lock_claims book outcome side terms.1 c.claims) _ h₉
                                  λ claims locks h₁₀.
                                    let next_is =
                                      checked_add-ok order_id 1 (program order_id_overflow) next in
                                    let count_is =
                                      checked_add-ok book.open_order_count 1
                                        (program invalid_shared_book) counted in
                                    record {
                                      bumps = bumps;
                                      slot = terms.0;
                                      amount = terms.1;
                                      next_count = count;
                                      place = place;
                                      claims = claims;
                                      terms = terms_are;
                                      id_is = ground arith;
                                      apart = apart;
                                      counted = count_is.0;
                                      placed = placed;
                                      locks = locks;
                                      written = rw (← next_is.0) (ground arith);
                                    }

quote_amount-notional :
    (b : SharedBook) (price quantity n : ℕ)
    → quote_amount b price quantity ≡ ok n
    → n ≡ notional price quantity b.base_decimals
unfolding quote_amount notional
quote_amount-notional b price quantity n h = ground arith

side-IsFunded :
    (side : OrderSide) (price quantity decimals n : ℕ)
    → n ≡ notional price quantity decimals
    → IsFunded side price quantity (side_amount side n quantity) decimals
side-IsFunded bid price quantity decimals n e = ground arith
side-IsFunded ask price quantity decimals n e = ground arith

-- The collateral funds the whole order.
pub order_terms-IsFunded :
    (b : SharedBook) (outcome : SharedOutcome) (side : OrderSide) (price quantity i amount : ℕ)
    → order_terms b outcome side price quantity ≡ ok (i, amount)
    → IsFunded side price quantity amount b.base_decimals
unfolding order_terms
order_terms-IsFunded b outcome side price quantity i amount h =
    bind_case (slot b outcome side) _ h λ _ _ h₁.
      bind_case (check_units b price quantity) _ h₁ λ _ _ h₂.
        bind_case (quote_amount b price quantity) _ h₂ λ n found h₃.
          let amount_is : amount ≡ side_amount side n quantity = ground arith in
          rw amount_is (
            side-IsFunded side price quantity b.base_decimals n
              (quote_amount-notional b price quantity n found))

pub lock_claims-Locks :
    (b : SharedBook) (outcome : SharedOutcome) (side : OrderSide) (amount : ℕ) (c c' : Claims)
    → lock_claims b outcome side amount c ≡ ok c'
    → Locks b.kind outcome side amount c c'
unfolding lock_claims lock
lock_claims-Locks b outcome side amount c c' h =
    bind_case (side_buckets b.kind outcome side c) _ h λ bucket found h₁.
      bind_case (lock bucket amount) _ h₁ λ new moved h₂.
        let e : c' ≡ write_side_buckets b.kind outcome side new c = ground arith in
        rw e (
          written-Locks b.kind outcome side amount bucket new c found (ground arith) (ground arith))
