-- ===== src/Prediction/Tests/Funds.antt =====
-- Splits, merges and resting orders of one trader
-- (programs/tidebook/src/instructions/prediction_complete_set.rs and prediction_orders.rs).
use tidebook.Base.{◌+◌, ◌≡◌, refl, ◌↔◌, ok, arith}
use tidebook.Base.Word.{checked_add, checked_sub, checked_mul}
use tidebook.Base.Int.{pos}
use tidebook.Sample.{hashing}
use tidebook.State.{bid, PredictionOutcome}
use tidebook.Prediction.Orders.{validate_resting_order}
use tidebook.Prediction.Orders.Terms.{Acceptable, validate_resting_order_iff}
use tidebook.Prediction.CompleteSet.{
  PredictionCompleteSet, check_accounts, split_accounts, handle_split_prediction_complete_set,
  handle_merge_prediction_complete_set,
}
use tidebook.Prediction.CompleteSet.Backing.{IsBacked, Exchanged, split-IsBacked}
use tidebook.Prediction.CompleteSet.Inverse.{InRange, merge-split}
use tidebook.Prediction.Tests.Data.{market, position, book}

abbrev before : PredictionCompleteSet
before = record { owner = 22; market = market; position = position }

-- Two pairs are paired off 2,000 of the trader's cash.
abbrev paired : PredictionCompleteSet
paired = record {
  owner = 22;
  market = record market {
    val = record market.val { yes_supply = 5; no_supply = 5; backing_reserve = 5_000 };
  };
  position = record position {
    val = record position.val { collateral_free = 3_000; yes_free = 4; no_free = 5 };
  };
}

paired_is : handle_split_prediction_complete_set hashing (pos 99) 2 before ≡ ok paired
unfolding handle_split_prediction_complete_set check_accounts split_accounts checked_mul checked_add
    checked_sub
paired_is = refl

before-IsBacked : IsBacked before.market.val
before-IsBacked = record { pairs = refl; reserved = refl }

before-InRange : InRange before
before-InRange = record {
  free = omega arith;
  yes_free = omega arith;
  no_free = omega arith;
  yes_supply = omega arith;
  no_supply = omega arith;
  reserve = omega arith;
}

split-IsBacked_example :
    IsBacked paired.market.val
    × Exchanged before paired
    × (paired.position.val.yes_free ≡ 2 + 2)
    × (paired.position.val.no_free ≡ 3 + 2)
split-IsBacked_example = split-IsBacked hashing (pos 99) 2 before paired paired_is before-IsBacked

merge-split_example : handle_merge_prediction_complete_set hashing 2 paired ≡ ok before
merge-split_example = merge-split hashing (pos 99) 2 before paired before-InRange paired_is

-- A bid for 3 YES at 420 locks 1,260, and an ask of 2 YES at 430 its two contracts.
validate_resting_order_iff_example :
    (validate_resting_order (pos 99) market.val book 9 PredictionOutcome.yes_ bid 420 3
      ≡ ok (10, 5))
    ↔ Acceptable (pos 99) market.val book 9 PredictionOutcome.yes_ bid 420 3
validate_resting_order_iff_example =
    validate_resting_order_iff (pos 99) market.val book 9 PredictionOutcome.yes_ bid 420 3
