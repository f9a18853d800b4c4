-- ===== src/Prediction/Resolution/Lifecycle.antt =====
-- What holds of a prediction market through any history of resolution calls
-- (programs/tidebook/src/instructions/prediction_resolution.rs).
use tidebook.Base.{
  ℕ, ◌≤◌, ◌≡◌, refl, ◌∙◌, ◌↔◌, List, [], ◌∷◌, Option, none, some, true, is_some, ok, arith,
  Result-cases, inl, inr,
}
use tidebook.State.{
  Account, Runtime, PredictionMarket, PredictionProposal, PredictionResolution, PredictionStatus,
}
use tidebook.Prediction.Resolution.{is_undecided}
use tidebook.Prediction.Resolution.Calls.{Call, execute, after, run}
use tidebook.Prediction.Resolution.Moves.{
  Moves, first_proposal, new_evidence, early_close, cutoff, fall_back, finalize, time_out,
}
use tidebook.Prediction.Resolution.Rules.{execute-Moves}

-- The final outcome that the stored proposal allows: its own, or `Invalid` without one.
abbrev pub allowed_outcome : Option PredictionProposal → PredictionResolution
allowed_outcome none = PredictionResolution.invalid
allowed_outcome (some p) = p.outcome

-- The stored fields of a market agree with its status.
pub record IsCoherent (m : PredictionMarket) : Type 0 where
  pub decided : (m.status ≡ PredictionStatus.resolved) ↔ (is_some m.final_outcome ≡ true)
  pub draft_empty : m.status ≡ PredictionStatus.draft → m.proposal ≡ none
  pub undecided_empty : is_undecided m.status ≡ true → m.proposal ≡ none
  pub proposed_full : m.status ≡ PredictionStatus.proposed → is_some m.proposal ≡ true
  pub justified :
      {o : PredictionResolution} → m.final_outcome ≡ some o → o ≡ allowed_outcome m.proposal

-- The order in which a market lives through its states.
abbrev pub stage : PredictionStatus → ℕ
stage PredictionStatus.draft = 0
stage PredictionStatus.open_ = 1
stage PredictionStatus.frozen = 2
stage PredictionStatus.proposed = 3
stage PredictionStatus.resolved = 4

-- What resolution leaves alone: all but the status, the phase, the proposal and the final outcome.
pub record SameTerms (m m' : PredictionMarket) : Type 0 where
  pub market_id : m'.market_id ≡ m.market_id
  pub authority : m'.authority ≡ m.authority
  pub resolver : m'.resolver ≡ m.resolver
  pub fallback : m'.fallback ≡ m.fallback
  pub collateral_mint : m'.collateral_mint ≡ m.collateral_mint
  pub collateral_vault : m'.collateral_vault ≡ m.collateral_vault
  pub metadata : m'.metadata ≡ m.metadata
  pub question_hash : m'.question_hash ≡ m.question_hash
  pub rules_hash : m'.rules_hash ≡ m.rules_hash
  pub rules_uri : m'.rules_uri ≡ m.rules_uri
  pub close_ts : m'.close_ts ≡ m.close_ts
  pub earliest_resolution_ts : m'.earliest_resolution_ts ≡ m.earliest_resolution_ts
  pub resolution_delay_seconds : m'.resolution_delay_seconds ≡ m.resolution_delay_seconds
  pub payout_per_contract : m'.payout_per_contract ≡ m.payout_per_contract
  pub price_tick : m'.price_tick ≡ m.price_tick
  pub yes_supply : m'.yes_supply ≡ m.yes_supply
  pub no_supply : m'.no_supply ≡ m.no_supply
  pub backing_reserve : m'.backing_reserve ≡ m.backing_reserve
  pub open_order_count : m'.open_order_count ≡ m.open_order_count
  pub bump : m'.bump ≡ m.bump

Moves-IsCoherent :
    {rt : Runtime} {x : Call} {m m' : PredictionMarket}
    → Moves rt x m m'
    → IsCoherent m
    → IsCoherent m'
Moves-IsCoherent (first_proposal s now o uri hash c n u e t r) k = ground (arith, k)
Moves-IsCoherent (new_evidence s now o uri hash p c n g e b t r) k = ground (arith, k)
Moves-IsCoherent (early_close s c ad au g r) k = ground (arith, k)
Moves-IsCoherent (cutoff now c n g t r) k = ground (arith, k)
Moves-IsCoherent (fall_back now f c n u e ph fb av r) k = ground (arith, k)
Moves-IsCoherent (finalize now p c n g e l r) k = ground (arith, k)
Moves-IsCoherent (time_out now end f c n u e fb d l r) k = ground (arith, k)

Moves-stage :
    {rt : Runtime} {x : Call} {m m' : PredictionMarket}
    → Moves rt x m m'
    → stage m.status ≤ stage m'.status
Moves-stage (first_proposal s now o uri hash c n u e t r) = ground arith
Moves-stage (new_evidence s now o uri hash p c n g e b t r) = ground arith
Moves-stage (early_close s c ad au g r) = ground arith
Moves-stage (cutoff now c n g t r) = ground arith
Moves-stage (fall_back now f c n u e ph fb av r) = ground arith
Moves-stage (finalize now p c n g e l r) = ground arith
Moves-stage (time_out now end f c n u e fb d l r) = ground arith

Moves-SameTerms :
    {rt : Runtime} {x : Call} {m m' : PredictionMarket} → Moves rt x m m' → SameTerms m m'
Moves-SameTerms (first_proposal s now o uri hash c n u e t r) = ground arith
Moves-SameTerms (new_evidence s now o uri hash p c n g e b t r) = ground arith
Moves-SameTerms (early_close s c ad au g r) = ground arith
Moves-SameTerms (cutoff now c n g t r) = ground arith
Moves-SameTerms (fall_back now f c n u e ph fb av r) = ground arith
Moves-SameTerms (finalize now p c n g e l r) = ground arith
Moves-SameTerms (time_out now end f c n u e fb d l r) = ground arith

SameTerms-trans : {m n o : PredictionMarket} → SameTerms m n → SameTerms n o → SameTerms m o
SameTerms-trans h k = ground arith

SameTerms-refl : (m : PredictionMarket) → SameTerms m m
SameTerms-refl m = ground arith

-- A resolved market makes no move.
not-Moves-resolved :
    {rt : Runtime} {x : Call} {m m' : PredictionMarket}
    → IsCoherent m
    → m.status ≡ PredictionStatus.resolved
    → Moves rt x m m'
    → ⊥
not-Moves-resolved k st (first_proposal s now o uri hash c n u e t r) = ground (arith, k)
not-Moves-resolved k st (new_evidence s now o uri hash p c n g e b t r) = ground (arith, k)
not-Moves-resolved k st (early_close s c ad au g r) = ground (arith, k)
not-Moves-resolved k st (cutoff now c n g t r) = ground (arith, k)
not-Moves-resolved k st (fall_back now f c n u e ph fb av r) = ground (arith, k)
not-Moves-resolved k st (finalize now p c n g e l r) = ground (arith, k)
not-Moves-resolved k st (time_out now end f c n u e fb d l r) = ground (arith, k)

-- A proposal fixes the phase: the move out of the primary phase needs a market without one.
Moves-phase :
    {rt : Runtime} {x : Call} {m m' : PredictionMarket}
    → IsCoherent m
    → 3 ≤ stage m.status
    → Moves rt x m m'
    → m'.resolution_phase ≡ m.resolution_phase
Moves-phase k st (first_proposal s now o uri hash c n u e t r) = ground arith
Moves-phase k st (new_evidence s now o uri hash p c n g e b t r) = ground arith
Moves-phase k st (early_close s c ad au g r) = ground arith
Moves-phase k st (cutoff now c n g t r) = ground arith
Moves-phase k st (fall_back now f c n u e ph fb av r) = ground arith
Moves-phase k st (finalize now p c n g e l r) = ground arith
Moves-phase k st (time_out now end f c n u e fb d l r) = ground arith

module _ (rt : Runtime) where
  -- One call, whether it goes through or not.
  after_cases {ℓ} :
      (P : Account PredictionMarket → Type ℓ) (a : Account PredictionMarket) (c : Call)
      → P a
      → ((m' : PredictionMarket) → execute rt a c ≡ ok m' → P (record a { val = m' }))
      → P (after a (execute rt a c))
  after_cases P a c kept moved = elim (Result-cases (execute rt a c)) [
    | inl (m', e) ↦ rw e (moved m' e)
    | inr (x, e) ↦ rw e kept
  ]

  after-IsCoherent :
      (a : Account PredictionMarket) (c : Call)
      → IsCoherent a.val
      → IsCoherent (after a (execute rt a c)).val
        × (stage a.val.status ≤ stage (after a (execute rt a c)).val.status)
        × SameTerms a.val (after a (execute rt a c)).val
  after-IsCoherent a c k =
      after_cases
        (λ b. IsCoherent b.val × (stage a.val.status ≤ stage b.val.status) × SameTerms a.val b.val)
        a c (k, omega arith, SameTerms-refl a.val)
        λ m' e.
          let v = execute-Moves rt a c m' e in
          (Moves-IsCoherent v k, Moves-stage v, Moves-SameTerms v)

  -- Through any history of resolution calls, those that fail included, a market stays coherent: it
  -- has a final outcome exactly when it is resolved, a stored proposal exactly fits its status, and
  -- the final outcome is the proposal's own or `Invalid` without one. It never goes back to an
  -- earlier stage, and nothing else about it changes: its terms (question, rules, resolvers, times,
  -- payout and tick), addresses, supplies, reserve and open orders.
  pub run-IsCoherent :
      (a : Account PredictionMarket) (cs : List Call)
      → IsCoherent a.val
      → IsCoherent (run rt a cs).val
        × (stage a.val.status ≤ stage (run rt a cs).val.status)
        × SameTerms a.val (run rt a cs).val
  unfolding run
  run-IsCoherent a [] k = (k, omega arith, SameTerms-refl a.val)
  run-IsCoherent a (c ∷ cs) k =
      let (k', up, same) = after-IsCoherent a c k in
      let (k'', up', same') = run-IsCoherent (after a (execute rt a c)) cs k' in
      (k'', omega arith, SameTerms-trans same same')

  -- Resolution is final: no history of calls changes a resolved market in any way.
  pub run-resolved :
      (a : Account PredictionMarket) (cs : List Call)
      → IsCoherent a.val
      → a.val.status ≡ PredictionStatus.resolved
      → run rt a cs ≡ a
  unfolding run
  run-resolved a [] k s = refl
  run-resolved a (c ∷ cs) k s = elim (Result-cases (execute rt a c)) [
    | inl (m', e) ↦ absurd (not-Moves-resolved k s (execute-Moves rt a c m' e))
    | inr (x, e) ↦ rw e (run-resolved a cs k s)
  ]

  -- Once a market is proposed or resolved its phase stays: a fallback never displaces the resolver
  -- who has proposed.
  pub run_proposed_phase :
      (a : Account PredictionMarket) (cs : List Call)
      → IsCoherent a.val
      → 3 ≤ stage a.val.status
      → (run rt a cs).val.resolution_phase ≡ a.val.resolution_phase
  unfolding run
  run_proposed_phase a [] k s = refl
  run_proposed_phase a (c ∷ cs) k s =
      let (k', up, same) = after-IsCoherent a c k in
      run_proposed_phase (after a (execute rt a c)) cs k' (omega arith)
      ∙ after_cases (λ b. b.val.resolution_phase ≡ a.val.resolution_phase) a c refl
          (λ m' e. Moves-phase k s (execute-Moves rt a c m' e))
