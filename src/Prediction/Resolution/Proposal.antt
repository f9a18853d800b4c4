-- ===== src/Prediction/Resolution/Proposal.antt =====
-- What a proposal or a correction that goes through has tested
-- (programs/tidebook/src/instructions/prediction_resolution.rs).
use tidebook.Base.{
  ℕ, ◌≡◌, refl, sym, is_none, List, none, some, Bool, ok, arith, bind_case, require_case,
}
use tidebook.Base.Int.{ℤ, pos, ◌≤ℤ◌, i64_max, try_from_i64, checked_add_i64}
use tidebook.State.{
  Account, Runtime, PredictionMarket, PredictionProposal, PredictionResolution, PredictionStatus,
}
use tidebook.Errors.{program, prediction_proposal_unavailable, invalid_prediction_evidence}
use tidebook.Prediction.Resolution.{
  ResolvePrediction, check_resolver, resolver_window, maturity, check_proposable, with_proposal,
  handle_propose_prediction,
}
use tidebook.Prediction.Resolution.Calls.{Signer}
use tidebook.Prediction.Resolution.Evidence.{evidence_is_valid}
use tidebook.Prediction.Resolution.Schedule.{
  IsProposal, matures, resolver_window-IsTurn, check_resolver-IsAdmin, evidence_is_valid-IsEvidence,
}

-- The market with one whole new proposal.
abbrev pub proposes : PredictionMarket → ℤ → PredictionResolution → List ℕ → ℕ → PredictionMarket
proposes m now outcome uri hash = record m {
  proposal =
      some
        (record { outcome = outcome; proposed_at = now; evidence_uri = uri; evidence_hash = hash });
  status = PredictionStatus.proposed;
}

pub maturity-matures :
    (m : PredictionMarket) (p : PredictionProposal) (end : ℤ)
    → m.proposal ≡ some p
    → maturity m ≡ ok end
    → (end ≡ matures m p.proposed_at) × (end ≤ℤ pos i64_max)
unfolding maturity try_from_i64 checked_add_i64
maturity-matures m p end e h = ground arith

pub record Proposed (rt : Runtime) (s : Signer) (m m' : PredictionMarket) (now : ℤ)
    (outcome : PredictionResolution) (uri : List ℕ) (hash : ℕ) (correction : Bool) : Type 0 where
  pub unresolved : m.final_outcome ≡ none
  pub proposable : check_proposable m now correction ≡ ok tt
  pub allowed : IsProposal rt m s now uri hash
  pub result : m' ≡ proposes m now outcome uri hash

pub propose-Proposed :
    (rt : Runtime) (s : Signer) (now : ℤ) (outcome : PredictionResolution) (uri : List ℕ) (hash : ℕ)
    (correction : Bool) (a : Account PredictionMarket) (m' : PredictionMarket)
    → handle_propose_prediction rt now outcome uri hash correction
        (record { resolver = s.key; market = a; admin_record = s.admin_record })
      ≡ ok m'
    → Proposed rt s a.val m' now outcome uri hash correction
unfolding handle_propose_prediction
propose-Proposed rt s now outcome uri hash correction a m' h =
    let m = a.val in
    let c : ResolvePrediction = record {
      resolver = s.key;
      market = a;
      admin_record = s.admin_record;
    } in
    let p : PredictionProposal = record {
      outcome = outcome;
      proposed_at = now;
      evidence_uri = uri;
      evidence_hash = hash;
    } in
    let failure = program prediction_proposal_unavailable in
    bind_case (check_resolver rt c) _ h λ _ admin h₁.
      bind_case (resolver_window m s.key now) _ h₁ λ _ turn h₂.
        require_case (is_none m.final_outcome) failure _ h₂ λ none_yet h₃.
          bind_case (check_proposable m now correction) _ h₃ λ _ proposable h₄.
            require_case (evidence_is_valid uri hash) (program invalid_prediction_evidence) _ h₄
              λ evidence h₅.
                bind_case (maturity (with_proposal m outcome now uri hash)) _ h₅ λ end matured h₆.
                  let (at, range) =
                    maturity-matures (with_proposal m outcome now uri hash) p end refl matured in
                  record {
                    unresolved = ground arith;
                    proposable = ground arith;
                    allowed = record {
                      admin = check_resolver-IsAdmin rt s a (ground arith);
                      turn = resolver_window-IsTurn m s.key now (ground arith);
                      evidence = evidence_is_valid-IsEvidence uri hash evidence;
                      representable = rw (sym at) range;
                    };
                    result = ground arith;
                  }
