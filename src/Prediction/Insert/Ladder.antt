-- ===== src/Prediction/Insert/Ladder.antt =====
-- A new price level of a prediction book goes into the list of levels where its price belongs
-- (programs/tidebook/src/instructions/insert_prediction_order.rs and place_prediction_order.rs).
use tidebook.Base.{ℕ, ◌≡◌, refl, ap, ◌∙◌, List, Option, none, some, true, arith}
use tidebook.State.{
  Account, OrderSide, bid, ask, PriceLevel, PredictionOutcome, PredictionOrderBook,
  PredictionPriceLevel, best_price, set_best_price,
}
use tidebook.Spot.Queue.{Store, put}
use tidebook.Spot.Ladder.{IsLadder}
use tidebook.Spot.Insert.Links.{Place}
use tidebook.Spot.Insert.Refinement.{linked_levels, head_after}
use tidebook.Spot.Queue.View.{view_store-put}
use tidebook.Prediction.Book.View.{as_level, level_account, level_store}
use tidebook.Prediction.Insert.{Inserted, valid_place, link_worse, link_better, book_after}

abbrev pub as_neighbor : Option (Account PredictionPriceLevel) → Option (Account PriceLevel)
as_neighbor none = none
as_neighbor (some a) = some (level_account a)

-- The levels of one outcome and side, linked in one list from the best price on.
abbrev pub IsPredictionLadder : OrderSide → Store PredictionPriceLevel → Option ℕ → List ℕ → Type 0
IsPredictionLadder side st best ps = IsLadder side (level_store st) best ps

-- The level accounts of the ledger after a supplied neighbor, if there is one, is written.
abbrev pub put_level :
    Option (Account PredictionPriceLevel) → Store PredictionPriceLevel → Store PredictionPriceLevel
put_level none st = st
put_level (some a) st = put a.val.price a.val st

abbrev pub inserted_levels : Inserted → Store PredictionPriceLevel → Store PredictionPriceLevel
inserted_levels d st =
    put d.price_level.val.price d.price_level.val
      (put_level d.better_level (put_level d.worse_level st))

pub valid_place-Place :
    (side : OrderSide) (price best : ℕ) (better worse : Option (Account PredictionPriceLevel))
    → valid_place side price best better worse ≡ true
    → Place side price (some best) (as_neighbor better) (as_neighbor worse)
unfolding valid_place
valid_place-Place side price best none none h = absurd (ground arith)
valid_place-Place side price best none (some w) h = record {
  after_better = λ b e. absurd (ground arith);
  before_worse = λ v e. ground arith;
  at_head = λ _. ground arith;
}
valid_place-Place side price best (some b) none h = record {
  after_better = λ v e. ground arith;
  before_worse = λ w e. absurd (ground arith);
  at_head = λ e. absurd (ground arith);
}
valid_place-Place side price best (some b) (some w) h = record {
  after_better = λ v e. ground arith;
  before_worse = λ v e. ground arith;
  at_head = λ e. absurd (ground arith);
}

pub first_Place : (side : OrderSide) (price : ℕ) → Place side price none none none
first_Place side price = record {
  after_better = λ b e. absurd (ground arith);
  before_worse = λ w e. absurd (ground arith);
  at_head = λ _. refl;
}

-- The written levels, seen as spot levels.
pub written_view :
    (price : ℕ) (new : PredictionPriceLevel) (better worse : Option (Account PredictionPriceLevel))
    (st : Store PredictionPriceLevel)
    → level_store (
        put price new
          (put_level (link_worse price better) (put_level (link_better price worse) st)))
      ≡ linked_levels price (as_level new) (as_neighbor better) (as_neighbor worse) (level_store st)
written_view price new none none st = view_store-put as_level price new st
written_view price new none (some w) st =
    view_store-put as_level price new (put_level (link_better price (some w)) st)
    ∙ ap (put price (as_level new))
        (view_store-put as_level w.val.price (record w.val { better_price = some price }) st)
written_view price new (some b) none st =
    view_store-put as_level price new (put_level (link_worse price (some b)) st)
    ∙ ap (put price (as_level new))
        (view_store-put as_level b.val.price (record b.val { worse_price = some price }) st)
written_view price new (some b) (some w) st =
    view_store-put as_level price new
      (put_level (link_worse price (some b)) (put_level (link_better price (some w)) st))
    ∙ ap (put price (as_level new)) (
        view_store-put as_level b.val.price (record b.val { worse_price = some price })
          (put_level (link_better price (some w)) st)
        ∙ ap (put b.val.price (as_level (record b.val { worse_price = some price })))
            (view_store-put as_level w.val.price (record w.val { better_price = some price }) st))

pub best_after :
    (book : PredictionOrderBook) (outcome : PredictionOutcome) (side : OrderSide)
    (price next_id : ℕ) (better : Option (Account PredictionPriceLevel))
    → best_price (book_after book outcome side price better next_id) outcome side
      ≡ head_after price (best_price book outcome side) (as_neighbor better)
unfolding best_price set_best_price book_after
best_after book PredictionOutcome.yes_ bid price next_id none = refl
best_after book PredictionOutcome.yes_ ask price next_id none = refl
best_after book PredictionOutcome.no_ bid price next_id none = refl
best_after book PredictionOutcome.no_ ask price next_id none = refl
best_after book PredictionOutcome.yes_ bid price next_id (some b) = refl
best_after book PredictionOutcome.yes_ ask price next_id (some b) = refl
best_after book PredictionOutcome.no_ bid price next_id (some b) = refl
best_after book PredictionOutcome.no_ ask price next_id (some b) = refl
