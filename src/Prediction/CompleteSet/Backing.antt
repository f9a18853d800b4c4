-- ===== src/Prediction/CompleteSet/Backing.antt =====
-- The reserve of a market under splitting and merging
-- (programs/tidebook/src/instructions/prediction_complete_set.rs).
use native.Mathlib.Nat.{add-mul, mul-le-mul, le_refl}
use tidebook.Base.{ℕ, ◌+◌, ◌*◌, ◌≤◌, ◌≡◌, ◌↔◌, true, ok, is_ok, arith}
use tidebook.Base.Word.{u64_max}
use tidebook.Base.Int.{ℤ, pos}
use tidebook.State.{Runtime, PredictionMarket}
use tidebook.Prediction.CompleteSet.{
  PredictionCompleteSet, split_accounts, merge_accounts, handle_split_prediction_complete_set,
  handle_merge_prediction_complete_set,
}

-- One collateral payout is reserved for every outstanding pair.
pub record IsBacked (m : PredictionMarket) : Type 0 where
  pub pairs : m.yes_supply ≡ m.no_supply
  pub reserved : m.backing_reserve ≡ m.yes_supply * m.payout_per_contract

-- What a split or a merge moves: cash against the reserve, and the same number of contracts of both
-- outcomes between the owner and the supply; all else stays.
pub record Exchanged (c d : PredictionCompleteSet) : Type 0 where
  pub cash :
      d.position.val.collateral_free + d.market.val.backing_reserve
      ≡ c.position.val.collateral_free + c.market.val.backing_reserve
  pub yes_issued :
      d.market.val.yes_supply + c.position.val.yes_free
      ≡ c.market.val.yes_supply + d.position.val.yes_free
  pub no_issued :
      d.market.val.no_supply + c.position.val.no_free
      ≡ c.market.val.no_supply + d.position.val.no_free
  pub cash_locked : d.position.val.collateral_locked ≡ c.position.val.collateral_locked
  pub yes_locked : d.position.val.yes_locked ≡ c.position.val.yes_locked
  pub no_locked : d.position.val.no_locked ≡ c.position.val.no_locked
  pub same_status : d.market.val.status ≡ c.market.val.status
  pub same_payout : d.market.val.payout_per_contract ≡ c.market.val.payout_per_contract

split_accounts-Exchanged :
    (q : ℕ) (c d : PredictionCompleteSet)
    → split_accounts q c ≡ ok d
    → Exchanged c d
      × (d.market.val.yes_supply ≡ c.market.val.yes_supply + q)
      × (d.market.val.no_supply ≡ c.market.val.no_supply + q)
      × (d.market.val.backing_reserve
          ≡ c.market.val.backing_reserve + q * c.market.val.payout_per_contract)
unfolding split_accounts
split_accounts-Exchanged q c d h = ground arith

merge_accounts-Exchanged :
    (q : ℕ) (c d : PredictionCompleteSet)
    → merge_accounts q c ≡ ok d
    → Exchanged c d
      × (d.market.val.yes_supply + q ≡ c.market.val.yes_supply)
      × (d.market.val.no_supply + q ≡ c.market.val.no_supply)
      × (d.market.val.backing_reserve + q * c.market.val.payout_per_contract
          ≡ c.market.val.backing_reserve)
unfolding merge_accounts
merge_accounts-Exchanged q c d h = ground arith

scaled : (x y q p r : ℕ) → x ≡ y + q → p ≡ r → x * p ≡ y * r + q * r
scaled x y q p r e f = rw (e, f) (add-mul y q r)

module _ (c d : PredictionCompleteSet) (q : ℕ) where
  IsBacked-up :
      Exchanged c d
        × (d.market.val.yes_supply ≡ c.market.val.yes_supply + q)
        × (d.market.val.no_supply ≡ c.market.val.no_supply + q)
        × (d.market.val.backing_reserve
            ≡ c.market.val.backing_reserve + q * c.market.val.payout_per_contract)
      → IsBacked c.market.val
      → IsBacked d.market.val
  IsBacked-up k backed = ground (
    arith,
    k,
    scaled d.market.val.yes_supply c.market.val.yes_supply q d.market.val.payout_per_contract
        c.market.val.payout_per_contract,
  )

  IsBacked-down :
      Exchanged c d
        × (d.market.val.yes_supply + q ≡ c.market.val.yes_supply)
        × (d.market.val.no_supply + q ≡ c.market.val.no_supply)
        × (d.market.val.backing_reserve + q * c.market.val.payout_per_contract
            ≡ c.market.val.backing_reserve)
      → IsBacked c.market.val
      → IsBacked d.market.val
  IsBacked-down k backed = ground (
    arith,
    k,
    scaled c.market.val.yes_supply d.market.val.yes_supply q c.market.val.payout_per_contract
        d.market.val.payout_per_contract,
  )

mul-le-mul-of : (a b p : ℕ) → a ≤ b → a * p ≤ b * p
mul-le-mul-of a b p h = mul-le-mul h (le_refl p)

module _ (rt : Runtime) (now : ℤ) (q : ℕ) (c d : PredictionCompleteSet) where
  pub split_of_handler :
      handle_split_prediction_complete_set rt now q c ≡ ok d → split_accounts q c ≡ ok d
  unfolding handle_split_prediction_complete_set
  split_of_handler h = ground arith

  pub merge_of_handler :
      handle_merge_prediction_complete_set rt q c ≡ ok d → merge_accounts q c ≡ ok d
  unfolding handle_merge_prediction_complete_set
  merge_of_handler h = ground arith

-- Splitting keeps one payout in reserve for every pair of contracts, and every unit of cash and
-- every contract is accounted for: cash leaves the owner's free collateral for the reserve, equal
-- numbers of both outcomes are issued to the owner, and locked claims and the status stay.
pub split-IsBacked :
    (rt : Runtime) (now : ℤ) (q : ℕ) (c d : PredictionCompleteSet)
    → handle_split_prediction_complete_set rt now q c ≡ ok d
    → IsBacked c.market.val
    → IsBacked d.market.val
      × Exchanged c d
      × (d.position.val.yes_free ≡ c.position.val.yes_free + q)
      × (d.position.val.no_free ≡ c.position.val.no_free + q)
split-IsBacked rt now q c d h backed =
    let k = split_accounts-Exchanged q c d (split_of_handler rt now q c d h) in
    (IsBacked-up c d q k backed, k.0, omega (arith, k.0), omega (arith, k.0))

-- Merging keeps one payout in reserve for every pair too: equal numbers of both outcomes go from the
-- owner back to the market, their payout from the reserve to the free collateral, and locked claims
-- and the status stay.
pub merge-IsBacked :
    (rt : Runtime) (q : ℕ) (c d : PredictionCompleteSet)
    → handle_merge_prediction_complete_set rt q c ≡ ok d
    → IsBacked c.market.val
    → IsBacked d.market.val
      × Exchanged c d
      × (d.position.val.yes_free + q ≡ c.position.val.yes_free)
      × (d.position.val.no_free + q ≡ c.position.val.no_free)
merge-IsBacked rt q c d h backed =
    let k = merge_accounts-Exchanged q c d (merge_of_handler rt (pos 0) q c d h) in
    (IsBacked-down c d q k backed, k.0, omega (arith, k.0), omega (arith, k.0))

-- In a backed market that has issued at least what the owner holds free, a merge never fails for
-- the backing: it goes through exactly when both free legs and the range of the owner's cash allow.
pub merge_accounts_iff :
    (q : ℕ) (c : PredictionCompleteSet)
    → IsBacked c.market.val
    → c.position.val.yes_free ≤ c.market.val.yes_supply
    → c.position.val.no_free ≤ c.market.val.no_supply
    → c.market.val.backing_reserve ≤ u64_max
    → (is_ok (merge_accounts q c) ≡ true) ↔ (
        (q ≤ c.position.val.yes_free)
        × (q ≤ c.position.val.no_free)
        × (c.position.val.collateral_free + q * c.market.val.payout_per_contract ≤ u64_max))
unfolding merge_accounts
merge_accounts_iff q c backed y n top =
    ground (arith, mul-le-mul-of q c.market.val.yes_supply c.market.val.payout_per_contract)
