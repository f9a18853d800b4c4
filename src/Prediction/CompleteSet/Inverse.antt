-- ===== src/Prediction/CompleteSet/Inverse.antt =====
-- Splitting and merging undo one another
-- (programs/tidebook/src/instructions/prediction_complete_set.rs).
use tidebook.Base.{ℕ, ◌+◌, ◌-◌, ◌*◌, ◌≤◌, ◌≡◌, ok, arith}
use tidebook.Base.Word.{u64_max}
use tidebook.Base.Int.{ℤ, ◌<ℤ◌}
use tidebook.State.{Runtime, PredictionStatus}
use tidebook.Prediction.CompleteSet.{
  PredictionCompleteSet, commit, check_accounts, split_accounts, merge_accounts,
  handle_split_prediction_complete_set, handle_merge_prediction_complete_set,
}
use tidebook.Prediction.CompleteSet.Backing.{split_of_handler, merge_of_handler}

-- Every amount that the two instructions touch fits a `u64`.
pub record InRange (c : PredictionCompleteSet) : Type 0 where
  pub free : c.position.val.collateral_free ≤ u64_max
  pub yes_free : c.position.val.yes_free ≤ u64_max
  pub no_free : c.position.val.no_free ≤ u64_max
  pub yes_supply : c.market.val.yes_supply ≤ u64_max
  pub no_supply : c.market.val.no_supply ≤ u64_max
  pub reserve : c.market.val.backing_reserve ≤ u64_max

-- The accounts after a split and after a merge, in closed form.
abbrev split_result : ℕ → PredictionCompleteSet → PredictionCompleteSet
split_result q c =
    commit c (p.collateral_free - q * m.payout_per_contract) (p.yes_free + q) (p.no_free + q)
      (m.yes_supply + q) (m.no_supply + q) (m.backing_reserve + q * m.payout_per_contract)
  where
    open c.market use {val as m}
    open c.position use {val as p}

abbrev merge_result : ℕ → PredictionCompleteSet → PredictionCompleteSet
merge_result q c =
    commit c (p.collateral_free + q * m.payout_per_contract) (p.yes_free - q) (p.no_free - q)
      (m.yes_supply - q) (m.no_supply - q) (m.backing_reserve - q * m.payout_per_contract)
  where
    open c.market use {val as m}
    open c.position use {val as p}

module _ (q : ℕ) (c d : PredictionCompleteSet) where
  split_closed :
      split_accounts q c ≡ ok d
      → (d ≡ split_result q c)
        × (q * c.market.val.payout_per_contract ≤ u64_max)
        × (q * c.market.val.payout_per_contract ≤ c.position.val.collateral_free)
  unfolding split_accounts
  split_closed h = ground arith

  merge_closed :
      merge_accounts q c ≡ ok d
      → (d ≡ merge_result q c)
        × (q * c.market.val.payout_per_contract ≤ u64_max)
        × (q ≤ c.position.val.yes_free)
        × (q ≤ c.position.val.no_free)
        × (q ≤ c.market.val.yes_supply)
        × (q ≤ c.market.val.no_supply)
        × (q * c.market.val.payout_per_contract ≤ c.market.val.backing_reserve)
  unfolding merge_accounts
  merge_closed h = ground arith

merge_of_split :
    (q : ℕ) (c : PredictionCompleteSet)
    → InRange c
    → q * c.market.val.payout_per_contract ≤ u64_max
    → q * c.market.val.payout_per_contract ≤ c.position.val.collateral_free
    → merge_accounts q (split_result q c) ≡ ok c
unfolding merge_accounts
merge_of_split q c r fits covered = ground arith

split_of_merge :
    (q : ℕ) (c : PredictionCompleteSet)
    → InRange c
    → q * c.market.val.payout_per_contract ≤ u64_max
    → q ≤ c.position.val.yes_free
    → q ≤ c.position.val.no_free
    → q ≤ c.market.val.yes_supply
    → q ≤ c.market.val.no_supply
    → q * c.market.val.payout_per_contract ≤ c.market.val.backing_reserve
    → split_accounts q (merge_result q c) ≡ ok c
unfolding split_accounts
split_of_merge q c r fits y n ys ns reserve = ground arith

merge_accounts-split :
    (q : ℕ) (c d : PredictionCompleteSet)
    → InRange c
    → split_accounts q c ≡ ok d
    → merge_accounts q d ≡ ok c
merge_accounts-split q c d r h =
    let (e, fits, covered) = split_closed q c d h in rw e (merge_of_split q c r fits covered)

split_accounts-merge :
    (q : ℕ) (c d : PredictionCompleteSet)
    → InRange c
    → merge_accounts q c ≡ ok d
    → split_accounts q d ≡ ok c
split_accounts-merge q c d r h =
    let (e, fits, y, n, ys, ns, reserve) = merge_closed q c d h in
    rw e (split_of_merge q c r fits y n ys ns reserve)

accounts_kept_by_split :
    (rt : Runtime) (q : ℕ) (c d : PredictionCompleteSet)
    → split_accounts q c ≡ ok d
    → (check_accounts rt d ≡ check_accounts rt c) × (d.market.val.status ≡ c.market.val.status)
unfolding split_accounts check_accounts
accounts_kept_by_split rt q c d h = ground arith

accounts_kept_by_merge :
    (rt : Runtime) (q : ℕ) (c d : PredictionCompleteSet)
    → merge_accounts q c ≡ ok d
    → (check_accounts rt d ≡ check_accounts rt c)
      × (d.market.val.status ≡ c.market.val.status)
      × (d.market.val.close_ts ≡ c.market.val.close_ts)
unfolding merge_accounts check_accounts
accounts_kept_by_merge rt q c d h = ground arith

-- Merging what was just split succeeds and gives back every account as it was.
pub merge-split :
    (rt : Runtime) (now : ℤ) (q : ℕ) (c d : PredictionCompleteSet)
    → InRange c
    → handle_split_prediction_complete_set rt now q c ≡ ok d
    → handle_merge_prediction_complete_set rt q d ≡ ok c
unfolding handle_split_prediction_complete_set handle_merge_prediction_complete_set
merge-split rt now q c d r h =
    let s = split_of_handler rt now q c d h in
    ground (arith, accounts_kept_by_split rt q c d s, merge_accounts-split q c d r s)

-- Splitting what was just merged gives back every account too, while the market still trades.
pub split-merge :
    (rt : Runtime) (now : ℤ) (q : ℕ) (c d : PredictionCompleteSet)
    → InRange c
    → c.market.val.status ≡ PredictionStatus.open_
    → now <ℤ c.market.val.close_ts
    → handle_merge_prediction_complete_set rt q c ≡ ok d
    → handle_split_prediction_complete_set rt now q d ≡ ok c
unfolding handle_split_prediction_complete_set handle_merge_prediction_complete_set
split-merge rt now q c d r opened before h =
    let s = merge_of_handler rt now q c d h in
    ground (arith, accounts_kept_by_merge rt q c d s, split_accounts-merge q c d r s)
