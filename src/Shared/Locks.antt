-- ===== src/Shared/Locks.antt =====
-- The lock of an order within the claims of its owner (programs/tidebook/src/shared_trading.rs).
use tidebook.Base.{ℕ, ◌+◌, ◌≡◌, refl, ok, Bool-cases, inl, inr, arith}
use tidebook.State.{MarketKind, OrderSide, bid, ask, SharedOutcome, shared_outcome_eq}
use tidebook.Shared.Rules.{Claims}
use tidebook.Shared.Links.{
  Bucket, base_buckets, write_base_buckets, side_buckets, write_side_buckets,
}
use tidebook.Shared.Claims.{
  cash, held, base_buckets-held, write_base_buckets-apart, write_base_buckets-cash, same_outcome,
  held-set_cash,
}

-- An amount has moved from the free to the locked part of the bucket behind a side, and everything
-- that is owned is owned still.
pub record Locks (kind : MarketKind) (o : SharedOutcome) (side : OrderSide) (amount : ℕ)
    (c c' : Claims) : Type 0 where
  pub before : Bucket
  pub after : Bucket
  pub before_is : side_buckets kind o side c ≡ ok before
  pub after_is : side_buckets kind o side c' ≡ ok after
  pub debited : after.free + amount ≡ before.free
  pub locked : after.locked ≡ before.locked + amount
  pub cash_kept : cash c' ≡ cash c
  pub held_kept : (a : SharedOutcome) → held a c' ≡ held a c

base_written :
    (kind : MarketKind) (o : SharedOutcome) (b new : Bucket) (c : Claims)
    → base_buckets kind o c ≡ ok b
    → base_buckets kind o (write_base_buckets kind o new c) ≡ ok new
unfolding base_buckets write_base_buckets
base_written kind o b new c h = ground arith

side_written :
    (kind : MarketKind) (o : SharedOutcome) (side : OrderSide) (b new : Bucket) (c : Claims)
    → side_buckets kind o side c ≡ ok b
    → side_buckets kind o side (write_side_buckets kind o side new c) ≡ ok new
unfolding side_buckets write_side_buckets
side_written kind o bid b new c h = refl
side_written kind o ask b new c h = base_written kind o b new c h

base_kept :
    (kind : MarketKind) (o a : SharedOutcome) (b new : Bucket) (c : Claims)
    → base_buckets kind o c ≡ ok b
    → new.free + new.locked ≡ b.free + b.locked
    → held a (write_base_buckets kind o new c) ≡ held a c
base_kept kind o a b new c h e = elim (Bool-cases (shared_outcome_eq a o)) [
  | inl same ↦
      let (was, is) = base_buckets-held kind o b new c h in rw (same_outcome a o same, was, is) e
  | inr differs ↦ write_base_buckets-apart kind o a new c differs
]

side_cash :
    (kind : MarketKind) (o : SharedOutcome) (side : OrderSide) (b new : Bucket) (c : Claims)
    → side_buckets kind o side c ≡ ok b
    → new.free + new.locked ≡ b.free + b.locked
    → cash (write_side_buckets kind o side new c) ≡ cash c
unfolding side_buckets write_side_buckets
side_cash kind o bid b new c h e = ground arith
side_cash kind o ask b new c h e = write_base_buckets-cash kind o new c

side_held :
    (kind : MarketKind) (o : SharedOutcome) (side : OrderSide) (a : SharedOutcome) (b new : Bucket)
    (c : Claims)
    → side_buckets kind o side c ≡ ok b
    → new.free + new.locked ≡ b.free + b.locked
    → held a (write_side_buckets kind o side new c) ≡ held a c
unfolding side_buckets write_side_buckets held
side_held kind o bid a b new c h e = held-set_cash a new.free new.locked c
side_held kind o ask a b new c h e = base_kept kind o a b new c h e

module _ (kind : MarketKind) (o : SharedOutcome) (side : OrderSide) (amount : ℕ) (b new : Bucket)
    (c : Claims) (h : side_buckets kind o side c ≡ ok b) where
  pub written-Locks :
      new.free + amount ≡ b.free
      → new.locked ≡ b.locked + amount
      → Locks kind o side amount c (write_side_buckets kind o side new c)
  written-Locks debited locked =
      let e : new.free + new.locked ≡ b.free + b.locked = omega arith in
      record {
        before = b;
        after = new;
        before_is = h;
        after_is = side_written kind o side b new c h;
        debited = debited;
        locked = locked;
        cash_kept = side_cash kind o side b new c h e;
        held_kept = λ a. side_held kind o side a b new c h e;
      }

  -- The same the other way: what is written is the claims before the lock.
  pub released-Locks :
      b.free + amount ≡ new.free
      → b.locked ≡ new.locked + amount
      → Locks kind o side amount (write_side_buckets kind o side new c) c
  released-Locks debited locked =
      let e : new.free + new.locked ≡ b.free + b.locked = omega arith in
      record {
        before = new;
        after = b;
        before_is = side_written kind o side b new c h;
        after_is = h;
        debited = debited;
        locked = locked;
        cash_kept = ground (arith, side_cash kind o side b new c h e);
        held_kept = λ a. ground (arith, side_held kind o side a b new c h e);
      }
