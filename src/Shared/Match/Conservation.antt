-- ===== src/Shared/Match/Conservation.antt =====
-- What a match in a shared book moves between its two traders
-- (programs/tidebook/src/instructions/shared_match.rs).
use tidebook.Base.{ℕ, ◌+◌, ◌-◌, ◌≡◌, false, ok, bind_case, Bool-cases, inl, inr, arith}
use tidebook.Base.Int.{ℤ}
use tidebook.State.{
  Runtime, MarketKind, OrderSide, bid, ask, side_eq, SharedOutcome, shared_outcome_eq,
}
use tidebook.Matching.Plan.{Request, MakerAmounts, settle-Planned, maker_amounts}
use tidebook.Shared.Rules.{Claims}
use tidebook.Shared.Links.{Bucket, base_buckets, write_base_buckets}
use tidebook.Shared.Claims.{
  cash, held, base_buckets-held, write_base_buckets-apart, write_base_buckets-cash, same_outcome,
  base_buckets-set_cash, held-set_cash,
}
use tidebook.Shared.Match.{MatchSharedOrder, Next, Settled, set_cash, settle_buckets, settle_claims}
use tidebook.Shared.Match.Handler.{Matched, handle_match_shared_order}
use tidebook.Shared.Match.Parts.{request, match-Parts}

-- A bucket and an amount of cash of each trader are written.
record Moved (kind : MarketKind) (o : SharedOutcome) (n : Next) (mb tb : Bucket)
    (maker taker : Claims) (s : Settled) : Type 0 where
  maker_bucket : Bucket
  taker_bucket : Bucket
  maker_free : ℕ
  maker_locked : ℕ
  taker_free : ℕ
  maker_is :
      s.maker ≡ write_base_buckets kind o maker_bucket (set_cash maker_free maker_locked maker)
  taker_is :
      s.taker
      ≡ write_base_buckets kind o taker_bucket (set_cash taker_free taker.quote.val.locked taker)
  base_kept :
      (maker_bucket.free + maker_bucket.locked) + (taker_bucket.free + taker_bucket.locked)
      ≡ (mb.free + mb.locked) + (tb.free + tb.locked)
  cash_kept :
      (maker_free + maker_locked) + (taker_free + taker.quote.val.locked) + n.taker_fee
      ≡ cash maker + cash taker

settle_buckets-Moved :
    (side maker_side : OrderSide) (kind : MarketKind) (o : SharedOutcome) (n : Next) (r : Request)
    (mb tb : Bucket) (maker taker : Claims) (s : Settled)
    → side_eq side maker_side ≡ false
    → MakerAmounts maker_side r n.plan
    → settle_buckets side kind o n mb tb maker taker ≡ ok s
    → Moved kind o n mb tb maker taker s
unfolding settle_buckets
settle_buckets-Moved bid ask kind o n r mb tb maker taker s opp a h = record {
  maker_bucket = record mb { locked = mb.locked - n.plan.maker_locked_debit };
  taker_bucket = record tb { free = tb.free + n.plan.fill.base_quantity };
  maker_free = maker.quote.val.free + n.plan.fill.quote_quantity;
  maker_locked = maker.quote.val.locked;
  taker_free = taker.quote.val.free - (n.plan.fill.quote_quantity + n.taker_fee);
  maker_is = ground arith;
  taker_is = ground arith;
  base_kept = ground arith;
  cash_kept = ground arith;
}
settle_buckets-Moved ask bid kind o n r mb tb maker taker s opp a h = record {
  maker_bucket = record mb { free = mb.free + n.plan.fill.base_quantity };
  taker_bucket = record tb { free = tb.free - n.plan.fill.base_quantity };
  maker_free = maker.quote.val.free + n.plan.maker_quote_refund;
  maker_locked = maker.quote.val.locked - n.plan.maker_locked_debit;
  taker_free = taker.quote.val.free + (n.plan.fill.quote_quantity - n.taker_fee);
  maker_is = ground arith;
  taker_is = ground arith;
  base_kept = ground arith;
  cash_kept = ground arith;
}
settle_buckets-Moved bid bid kind o n r mb tb maker taker s opp a h = absurd (ground arith)
settle_buckets-Moved ask ask kind o n r mb tb maker taker s opp a h = absurd (ground arith)

module _ (kind : MarketKind) (o : SharedOutcome) (n : Next) (mb tb : Bucket) (maker taker : Claims)
    (s : Settled) (mb_is : base_buckets kind o maker ≡ ok mb)
    (tb_is : base_buckets kind o taker ≡ ok tb) (m : Moved kind o n mb tb maker taker s) where
  written_held :
      (f l : ℕ) (b new : Bucket) (c : Claims)
      → base_buckets kind o c ≡ ok b
      → held o (write_base_buckets kind o new (set_cash f l c)) ≡ new.free + new.locked
  written_held f l b new c h =
      (base_buckets-held kind o b new (set_cash f l c)
        (rw (base_buckets-set_cash kind o f l c) h)).1

  selected_kept : held o s.maker + held o s.taker ≡ held o maker + held o taker
  selected_kept =
      let lm = m.maker_locked in
      rw
        (
          m.maker_is,
          m.taker_is,
          written_held m.maker_free lm mb m.maker_bucket maker mb_is,
          written_held m.taker_free taker.quote.val.locked tb m.taker_bucket taker tb_is,
          (base_buckets-held kind o mb mb maker mb_is).0,
          (base_buckets-held kind o tb tb taker tb_is).0,
        )
        m.base_kept

  apart_kept :
      (a : SharedOutcome)
      → shared_outcome_eq a o ≡ false
      → held a s.maker + held a s.taker ≡ held a maker + held a taker
  apart_kept a h =
      rw (m.maker_is, m.taker_is)
        (ground (
          arith,
          write_base_buckets-apart kind o a m.maker_bucket
              (set_cash m.maker_free m.maker_locked maker) h,
          write_base_buckets-apart kind o a m.taker_bucket
              (set_cash m.taker_free taker.quote.val.locked taker) h,
          held-set_cash a m.maker_free m.maker_locked maker,
          held-set_cash a m.taker_free taker.quote.val.locked taker,
        ))

  held_kept : (a : SharedOutcome) → held a s.maker + held a s.taker ≡ held a maker + held a taker
  held_kept a = elim (Bool-cases (shared_outcome_eq a o)) [
    | inl same ↦ rw (same_outcome a o same) selected_kept
    | inr differs ↦ apart_kept a differs
  ]

  cash_to_fees : cash s.maker + cash s.taker + n.taker_fee ≡ cash maker + cash taker
  cash_to_fees =
      rw
        (
          m.maker_is,
          m.taker_is,
          write_base_buckets-cash kind o m.maker_bucket
              (set_cash m.maker_free m.maker_locked maker),
          write_base_buckets-cash kind o m.taker_bucket
              (set_cash m.taker_free taker.quote.val.locked taker),
        )
        m.cash_kept

settle_claims-kept :
    (side maker_side : OrderSide) (kind : MarketKind) (o : SharedOutcome) (n : Next) (r : Request)
    (maker taker : Claims) (s : Settled)
    → side_eq side maker_side ≡ false
    → MakerAmounts maker_side r n.plan
    → settle_claims side kind o n maker taker ≡ ok s
    → (cash s.maker + cash s.taker + n.taker_fee ≡ cash maker + cash taker)
      × ((a : SharedOutcome) → held a s.maker + held a s.taker ≡ held a maker + held a taker)
unfolding settle_claims
settle_claims-kept side maker_side kind o n r maker taker s opp a h =
    bind_case (base_buckets kind o maker) _ h λ mb mb_is h₁.
      bind_case (base_buckets kind o taker) _ h₁ λ tb tb_is h₂.
        let m = settle_buckets-Moved side maker_side kind o n r mb tb maker taker s opp a h₂ in
        (
          cash_to_fees kind o n mb tb maker taker s mb_is tb_is m,
          held_kept kind o n mb tb maker taker s mb_is tb_is m,
        )

-- A match in a shared book makes nothing and loses nothing, in a spot market and in a prediction
-- market: the cash of the quote mint of both traders together with the accrued fees of the book, and
-- whatever both own of the base asset and of each outcome, free and locked, keep their sums.
pub match_shared_conserves :
    (rt : Runtime) (now : ℤ) (outcome : SharedOutcome) (side : OrderSide) (limit_price quantity : ℕ)
    (c : MatchSharedOrder) (d : Matched)
    → handle_match_shared_order rt now outcome side limit_price quantity c ≡ ok d
    → (cash d.maker_claims + cash d.taker_claims + d.queue.book.val.accrued_quote_fees
        ≡ cash c.maker_claims + cash c.taker_claims + c.book.val.accrued_quote_fees)
      × ((a : SharedOutcome)
          → held a d.maker_claims + held a d.taker_claims
            ≡ held a c.maker_claims + held a c.taker_claims)
match_shared_conserves rt now outcome side limit_price quantity c d h =
    let p = match-Parts rt now outcome side limit_price quantity c d h in
    let r = request c side limit_price quantity in
    let k = settle-Planned r p.next.plan p.values.planned in
    let (cash_kept, held_kept) =
      settle_claims-kept side c.maker_order.val.side c.book.val.kind outcome p.next r c.maker_claims
        c.taker_claims p.claims k.opposite (maker_amounts r p.next.plan k) p.settled in
    rw p.written (ground (arith, p.values.accrued, cash_kept), held_kept)
