-- ===== src/Shared/Claims.antt =====
-- What a trader owns in shared books (programs/tidebook/src/shared_trading.rs): cash of the quote mint,
-- and the base asset or the outcome contracts.
use tidebook.Base.{ℕ, ◌+◌, ◌≡◌, Option, none, some, true, false, ok, arith}
use tidebook.State.{
  Account, MarketKind, PredictionPosition, AssetBalance, SharedOutcome, shared_outcome_eq,
}
use tidebook.Shared.Rules.{Claims}
use tidebook.Shared.Match.{set_cash}
use tidebook.Shared.Links.{Bucket, base_buckets, write_base_buckets}

abbrev pub cash : Claims → ℕ
cash c = c.quote.val.free + c.quote.val.locked

abbrev asset_total : Option (Account AssetBalance) → ℕ
asset_total none = 0
asset_total (some a) = a.val.free + a.val.locked

abbrev yes_total : Option (Account PredictionPosition) → ℕ
yes_total none = 0
yes_total (some p) = p.val.yes_free + p.val.yes_locked

abbrev no_total : Option (Account PredictionPosition) → ℕ
no_total none = 0
no_total (some p) = p.val.no_free + p.val.no_locked

-- All that is owned of what the outcome names, free and locked.
unfoldable pub held : SharedOutcome → Claims → ℕ
held SharedOutcome.spot_ c = asset_total c.base
held SharedOutcome.yes_ c = yes_total c.position
held SharedOutcome.no_ c = no_total c.position

spot_held :
    (b new : Bucket) (c : Claims)
    → base_buckets MarketKind.spot SharedOutcome.spot_ c ≡ ok b
    → (held SharedOutcome.spot_ c ≡ b.free + b.locked)
      × (held SharedOutcome.spot_ (write_base_buckets MarketKind.spot SharedOutcome.spot_ new c)
          ≡ new.free + new.locked)
unfolding base_buckets write_base_buckets held
spot_held b new c h = ground arith

yes_held :
    (b new : Bucket) (c : Claims)
    → base_buckets MarketKind.prediction SharedOutcome.yes_ c ≡ ok b
    → (held SharedOutcome.yes_ c ≡ b.free + b.locked)
      × (held SharedOutcome.yes_ (write_base_buckets MarketKind.prediction SharedOutcome.yes_ new c)
          ≡ new.free + new.locked)
unfolding base_buckets write_base_buckets held
yes_held b new c h = ground arith

no_held :
    (b new : Bucket) (c : Claims)
    → base_buckets MarketKind.prediction SharedOutcome.no_ c ≡ ok b
    → (held SharedOutcome.no_ c ≡ b.free + b.locked)
      × (held SharedOutcome.no_ (write_base_buckets MarketKind.prediction SharedOutcome.no_ new c)
          ≡ new.free + new.locked)
unfolding base_buckets write_base_buckets held
no_held b new c h = ground arith

-- The chosen bucket is what is owned, and the write of it replaces this.
pub base_buckets-held :
    (kind : MarketKind) (o : SharedOutcome) (b new : Bucket) (c : Claims)
    → base_buckets kind o c ≡ ok b
    → (held o c ≡ b.free + b.locked)
      × (held o (write_base_buckets kind o new c) ≡ new.free + new.locked)
unfolding base_buckets
base_buckets-held MarketKind.spot SharedOutcome.spot_ b new c h = spot_held b new c h
base_buckets-held MarketKind.prediction SharedOutcome.yes_ b new c h = yes_held b new c h
base_buckets-held MarketKind.prediction SharedOutcome.no_ b new c h = no_held b new c h
base_buckets-held MarketKind.spot SharedOutcome.yes_ b new c h = absurd (ground arith)
base_buckets-held MarketKind.spot SharedOutcome.no_ b new c h = absurd (ground arith)
base_buckets-held MarketKind.prediction SharedOutcome.spot_ b new c h = absurd (ground arith)
base_buckets-held MarketKind.other SharedOutcome.spot_ b new c h = absurd (ground arith)
base_buckets-held MarketKind.other SharedOutcome.yes_ b new c h = absurd (ground arith)
base_buckets-held MarketKind.other SharedOutcome.no_ b new c h = absurd (ground arith)

-- No other claim changes.
pub write_base_buckets-apart :
    (kind : MarketKind) (o a : SharedOutcome) (new : Bucket) (c : Claims)
    → shared_outcome_eq a o ≡ false
    → held a (write_base_buckets kind o new c) ≡ held a c
unfolding write_base_buckets held
write_base_buckets-apart kind o a new c h = ground arith

pub write_base_buckets-cash :
    (kind : MarketKind) (o : SharedOutcome) (new : Bucket) (c : Claims)
    → cash (write_base_buckets kind o new c) ≡ cash c
unfolding write_base_buckets
write_base_buckets-cash kind o new c = ground arith

pub same_outcome : (a o : SharedOutcome) → shared_outcome_eq a o ≡ true → a ≡ o
same_outcome a o h = ground arith

pub base_buckets-set_cash :
    (kind : MarketKind) (o : SharedOutcome) (f l : ℕ) (c : Claims)
    → base_buckets kind o (set_cash f l c) ≡ base_buckets kind o c
unfolding base_buckets
base_buckets-set_cash kind o f l c = ground arith

pub held-set_cash : (a : SharedOutcome) (f l : ℕ) (c : Claims) → held a (set_cash f l c) ≡ held a c
unfolding held
held-set_cash a f l c = ground arith
