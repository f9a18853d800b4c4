-- ===== src/Prediction/Resolution.antt =====
-- Resolution of a prediction market (programs/tidebook/src/instructions/prediction_resolution.rs). The
-- market is the only account that the handlers write, and they return it; `now` is the chain's clock.
pub mod Evidence
pub mod Calls
pub mod Schedule
pub mod Proposal
pub mod Moves
pub mod Rules
pub mod Lifecycle
pub mod Waiting
pub mod Timing
use tidebook.Base.{
  ℕ, [], ◌∷◌, Option, none, some, Bool, true, false, ◌&&◌, ◌==◌, is_none, is_some, Result, ok, err,
  ◌>>=◌, ◌>>◌, require, ok_or, if◌then◌else◌, List,
}
use tidebook.Base.Int.{ℤ, ltb_ℤ, leb_ℤ, try_from_i64, checked_add_i64}
use tidebook.Errors.{
  program, unauthorized_admin, admin_disabled, prediction_resolution_unavailable,
  prediction_fallback_unavailable, prediction_proposal_unavailable, prediction_timestamp_overflow,
  unauthorized_prediction_resolver, unauthorized_prediction_authority, invalid_prediction_evidence,
}
use tidebook.State.{
  Pubkey, Account, Runtime, check_seeds, key_seed, admin_seed, prediction_market_seed, AdminRecord,
  AdminStatus, PredictionMarket, PredictionFallback, PredictionProposal, PredictionResolution,
  PredictionResolutionPhase, PredictionStatus, status_is_open,
}
use Evidence.{evidence_is_valid}

pub record ResolvePrediction : Type 0 where
  pub resolver : Pubkey
  pub market : Account PredictionMarket
  pub admin_record : Account AdminRecord

abbrev pub admin_is_active : AdminStatus → Bool
admin_is_active AdminStatus.active = true
admin_is_active AdminStatus.disabled = false

abbrev pub check_market : Runtime → Account PredictionMarket → Result (Unit {0})
check_market rt market =
    check_seeds rt (prediction_market_seed ∷ key_seed market.val.market_id ∷ []) market.val.bump
      market.key

-- The account constraints of `ResolvePrediction`; those of `AdvancePrediction` are `check_market`.
unfoldable pub check_resolver : Runtime → ResolvePrediction → Result (Unit {0})
check_resolver rt c = do
  check_market rt c.market
  check_seeds rt (admin_seed ∷ key_seed c.resolver ∷ []) c.admin_record.val.bump c.admin_record.key
  require (c.admin_record.val.authority == c.resolver) (program unauthorized_admin)
  require (admin_is_active c.admin_record.val.status) (program admin_disabled)

-- `f.deadline_ts.is_none_or(|end| now < end)`.
abbrev pub before_deadline : ℤ → Option ℤ → Bool
before_deadline now none = true
before_deadline now (some end) = ltb_ℤ now end

abbrev pub unwrap_or : Option ℤ → ℤ → ℤ
unwrap_or none d = d
unwrap_or (some t) d = t

-- The resolver of the current phase, within its window.
unfoldable pub primary_resolver : PredictionMarket → ℤ → Option PredictionFallback → Result Pubkey
primary_resolver m now none = ok m.resolver
primary_resolver m now (some f) = do
  require (ltb_ℤ now f.available_ts) (program prediction_fallback_unavailable)
  ok m.resolver

unfoldable pub fallback_resolver : ℤ → Option PredictionFallback → Result Pubkey
fallback_resolver now none = err (program prediction_fallback_unavailable)
fallback_resolver now (some f) = do
  require (leb_ℤ f.available_ts now && before_deadline now f.deadline_ts)
      (program prediction_fallback_unavailable)
  ok f.resolver

unfoldable pub expected_resolver : PredictionMarket → ℤ → PredictionResolutionPhase → Result Pubkey
expected_resolver m now PredictionResolutionPhase.primary = primary_resolver m now m.fallback
expected_resolver m now PredictionResolutionPhase.fallback = fallback_resolver now m.fallback

unfoldable pub resolver_window : PredictionMarket → Pubkey → ℤ → Result (Unit {0})
resolver_window m signer now = do
  require (leb_ℤ m.close_ts now && leb_ℤ (unwrap_or m.earliest_resolution_ts m.close_ts) now)
      (program prediction_resolution_unavailable)
  expected ← expected_resolver m now m.resolution_phase
  require (expected == signer) (program unauthorized_prediction_resolver)

unfoldable pub maturity : PredictionMarket → Result ℤ
maturity m = do
  proposal ← ok_or m.proposal (program prediction_proposal_unavailable)
  delay ← ok_or (try_from_i64 m.resolution_delay_seconds) (program prediction_timestamp_overflow)
  ok_or (checked_add_i64 proposal.proposed_at delay) (program prediction_timestamp_overflow)

abbrev pub status_is_proposed : PredictionStatus → Bool
status_is_proposed PredictionStatus.proposed = true
status_is_proposed _ = false

-- `matches!(status, Open | Frozen)`.
abbrev pub is_undecided : PredictionStatus → Bool
is_undecided PredictionStatus.open_ = true
is_undecided PredictionStatus.frozen = true
is_undecided _ = false

-- The lifecycle test of a first proposal and of a correction; `&&` reads the maturity only if the
-- market is proposed.
unfoldable pub check_proposable : PredictionMarket → ℤ → Bool → Result (Unit {0})
check_proposable m now true = do
  require (status_is_proposed m.status) (program prediction_proposal_unavailable)
  end ← maturity m
  require (ltb_ℤ now end) (program prediction_proposal_unavailable)
check_proposable m now false =
    require (is_undecided m.status && is_none m.proposal) (program prediction_proposal_unavailable)

abbrev pub with_proposal :
    PredictionMarket → PredictionResolution → ℤ → List ℕ → ℕ → PredictionMarket
with_proposal m outcome now evidence_uri evidence_hash = record m {
  proposal = some (record {
    outcome = outcome;
    proposed_at = now;
    evidence_uri = evidence_uri;
    evidence_hash = evidence_hash;
  });
}

unfoldable pub handle_propose_prediction :
    Runtime
    → (now : ℤ) → PredictionResolution
    → List ℕ
    → ℕ
    → Bool
    → ResolvePrediction
    → Result PredictionMarket
handle_propose_prediction rt now outcome evidence_uri evidence_hash correction c = do
  let m = c.market.val
  check_resolver rt c
  resolver_window m c.resolver now
  require (is_none m.final_outcome) (program prediction_proposal_unavailable)
  check_proposable m now correction
  require (evidence_is_valid evidence_uri evidence_hash) (program invalid_prediction_evidence)
  let proposed = with_proposal m outcome now evidence_uri evidence_hash
  _ ← maturity proposed
  ok (record proposed { status = PredictionStatus.proposed })

unfoldable pub handle_close_prediction_trading :
    Runtime → ResolvePrediction → Result PredictionMarket
handle_close_prediction_trading rt c = do
  let m = c.market.val
  check_resolver rt c
  require (m.authority == c.resolver) (program unauthorized_prediction_authority)
  require (status_is_open m.status) (program prediction_resolution_unavailable)
  ok (record m { status = PredictionStatus.frozen })

abbrev pub is_primary : PredictionResolutionPhase → Bool
is_primary PredictionResolutionPhase.primary = true
is_primary PredictionResolutionPhase.fallback = false

-- The four actions of `handle_advance_prediction`, in the order of their numbers.
unfoldable pub freeze_at_cutoff : PredictionMarket → ℤ → Result PredictionMarket
freeze_at_cutoff m now = do
  require (status_is_open m.status && leb_ℤ m.close_ts now)
      (program prediction_resolution_unavailable)
  ok (record m { status = PredictionStatus.frozen })

unfoldable pub activate_fallback : PredictionMarket → ℤ → Result PredictionMarket
activate_fallback m now = do
  f ← ok_or m.fallback (program prediction_fallback_unavailable)
  require (is_undecided m.status && (is_none m.proposal && is_primary m.resolution_phase))
      (program prediction_fallback_unavailable)
  require (leb_ℤ f.available_ts now && before_deadline now f.deadline_ts)
      (program prediction_fallback_unavailable)
  ok (record m {
    status = PredictionStatus.frozen;
    resolution_phase = PredictionResolutionPhase.fallback;
  })

unfoldable pub finalize_proposal : PredictionMarket → ℤ → Result PredictionMarket
finalize_proposal m now = do
  require (status_is_proposed m.status) (program prediction_proposal_unavailable)
  end ← maturity m
  require (leb_ℤ end now) (program prediction_proposal_unavailable)
  p ← ok_or m.proposal (program prediction_proposal_unavailable)
  ok (record m { final_outcome = some p.outcome; status = PredictionStatus.resolved })

-- `m.fallback.as_ref().and_then(|f| f.deadline_ts)`.
abbrev pub fallback_deadline : Option PredictionFallback → Option ℤ
fallback_deadline none = none
fallback_deadline (some f) = f.deadline_ts

unfoldable pub finalize_timeout : PredictionMarket → ℤ → Result PredictionMarket
finalize_timeout m now = do
  end ← ok_or (fallback_deadline m.fallback) (program prediction_fallback_unavailable)
  require (is_undecided m.status && (is_none m.proposal && leb_ℤ end now))
      (program prediction_fallback_unavailable)
  ok (record m {
    resolution_phase = PredictionResolutionPhase.fallback;
    final_outcome = some PredictionResolution.invalid;
    status = PredictionStatus.resolved;
  })

unfoldable pub handle_advance_prediction :
    Runtime → (now : ℤ) → ℕ → Account PredictionMarket → Result PredictionMarket
handle_advance_prediction rt now action market = do
  check_market rt market
  require (is_none market.val.final_outcome) (program prediction_resolution_unavailable)
  if action == 0
      then freeze_at_cutoff market.val now
      else if action == 1
      then activate_fallback market.val now
      else if action == 2
      then finalize_proposal market.val now
      else if action == 3
      then finalize_timeout market.val now
      else err (program prediction_resolution_unavailable)
