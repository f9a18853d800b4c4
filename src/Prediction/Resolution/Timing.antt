-- ===== src/Prediction/Resolution/Timing.antt =====
-- Who may propose when, and when a proposal becomes final
-- (programs/tidebook/src/instructions/prediction_resolution.rs).
use tidebook.Base.{ℕ, ◌≡◌, List, [], some, is_some, true, Bool, ok, arith, inl, inr}
use tidebook.Base.Int.{ℤ, pos, ◌+ℤ◌, ◌≤ℤ◌, ◌<ℤ◌}
use tidebook.State.{
  Account, Runtime, AdminStatus, PredictionMarket, PredictionFallback, PredictionProposal,
  PredictionResolution, PredictionResolutionPhase, PredictionStatus,
}
use tidebook.Prediction.Resolution.{
  ResolvePrediction, check_resolver, primary_resolver, fallback_resolver, expected_resolver,
  resolver_window, handle_propose_prediction,
}
use tidebook.Prediction.Resolution.Calls.{Signer, Call, advance, execute, run}
use tidebook.Prediction.Resolution.Proposal.{propose-Proposed}
use tidebook.Prediction.Resolution.Rules.{execute-Moves}
use tidebook.Prediction.Resolution.Waiting.{
  IsSince, AllSince, Waits, Waits-Moves, not-Moves-Decided, run-Waits,
}

-- A proposal or a correction that goes through starts the whole delay anew: whatever calls follow it,
-- none of them executed at an earlier time, the call that gives the market its final outcome is the
-- permissionless finalization (action 2), no earlier than the published delay after the proposal, and
-- the outcome is the one of the proposal that stands then, which is this one where nothing has come
-- in between.
pub finalize_after_propose :
    (rt : Runtime) (now : ℤ) (outcome : PredictionResolution) (uri : List ℕ) (hash : ℕ)
    (corrects : Bool) (c : ResolvePrediction) (m' m'' : PredictionMarket) (between : List Call)
    (x : Call)
    → handle_propose_prediction rt now outcome uri hash corrects c ≡ ok m'
    → AllSince now between
    → IsSince now x
    → execute rt (run rt (record { key = c.market.key; val = m' }) between) x ≡ ok m''
    → is_some m''.final_outcome ≡ true
    → (later : ℤ) × ((x ≡ advance later 2)
        × (now +ℤ pos c.market.val.resolution_delay_seconds ≤ℤ later)
        × (m''.status ≡ PredictionStatus.resolved)
        × ((p : PredictionProposal) × (((run rt
                  (record { key = c.market.key; val = m' })
                  between).val.proposal
                ≡ some p)
              × (m''.final_outcome ≡ some p.outcome)))
        × (between ≡ [] → m''.final_outcome ≡ some outcome))
unfolding run
finalize_after_propose rt now outcome uri hash corrects c m' m'' between x h since last k final =
    let s : Signer = record { key = c.resolver; admin_record = c.admin_record } in
    let t = propose-Proposed rt s now outcome uri hash corrects c.market m' h in
    let delay = c.market.val.resolution_delay_seconds in
    let p : PredictionProposal = record {
      outcome = outcome;
      proposed_at = now;
      evidence_uri = uri;
      evidence_hash = hash;
    } in
    let is : m'.proposal ≡ some p = ground (arith, t.result) in
    let start : Account PredictionMarket = record { key = c.market.key; val = m' } in
    let w : Waits now delay m' = record {
      delayed = ground (arith, t.result);
      unresolved = ground (arith, t.result, t.unresolved);
      proposed = ground (arith, t.result);
      stands = (p, (is, omega arith));
    } in
    let v = execute-Moves rt (run rt start between) x m'' k in
    elim (run-Waits rt now delay start between w since) [
      | inr d ↦ absurd (not-Moves-Decided d v)
      | inl w' ↦ elim (Waits-Moves now delay w' v last) [
        | inl w'' ↦ absurd (ground (arith, w''.unresolved))
        | inr e ↦ (
          e.later,
          (
            e.called,
            e.waited,
            e.resolved,
            (e.proposal, (e.stood, e.outcome)),
            λ nil. ground (arith, rw nil at e.stood, is, e.outcome),
          ),
        )
      ]
    ]

-- Who proposes is the published resolver of the current phase, as an active administrator, after
-- trading has closed, and within the phase's window: the primary resolver before the fallback
-- becomes available, the fallback resolver from then on and before its deadline.
pub propose_window :
    (rt : Runtime) (now : ℤ) (outcome : PredictionResolution) (uri : List ℕ) (hash : ℕ)
    (corrects : Bool) (c : ResolvePrediction) (m' : PredictionMarket) (f : PredictionFallback)
    → handle_propose_prediction rt now outcome uri hash corrects c ≡ ok m'
    → c.market.val.fallback ≡ some f
    → (c.market.val.close_ts ≤ℤ now)
      × (c.admin_record.val.status ≡ AdminStatus.active)
      × (c.market.val.resolution_phase ≡ PredictionResolutionPhase.primary
          → (now <ℤ f.available_ts) × (c.resolver ≡ c.market.val.resolver))
      × (c.market.val.resolution_phase ≡ PredictionResolutionPhase.fallback
          → (f.available_ts ≤ℤ now)
            × (c.resolver ≡ f.resolver)
            × ((end : ℤ) → f.deadline_ts ≡ some end → now <ℤ end))
unfolding handle_propose_prediction resolver_window expected_resolver primary_resolver
    fallback_resolver check_resolver
propose_window rt now outcome uri hash corrects c m' f h e = ground arith
