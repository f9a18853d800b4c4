-- ===== src/Prediction/Tests/Lifecycle.antt =====
-- One market from its cutoff through a proposal to its resolution
-- (programs/tidebook/src/instructions/prediction_resolution.rs).
use tidebook.Base.{ℕ, ◌≤◌, ◌≡◌, refl, List, [], ◌∷◌, some, false, ok, arith}
use tidebook.Base.Int.{ℤ, pos, ◌+ℤ◌, ◌≤ℤ◌, try_from_i64, checked_add_i64}
use tidebook.Sample.{hashing}
use tidebook.State.{PredictionMarket, PredictionProposal, PredictionResolution, PredictionStatus}
use tidebook.Prediction.Resolution.{
  ResolvePrediction, check_resolver, primary_resolver, expected_resolver, resolver_window, maturity,
  check_proposable, handle_propose_prediction, freeze_at_cutoff, finalize_proposal,
  handle_advance_prediction,
}
use tidebook.Prediction.Resolution.Evidence.{strip_prefix, all_graphic, evidence_is_valid}
use tidebook.Prediction.Resolution.Calls.{Call, propose, advance, execute, run}
use tidebook.Prediction.Resolution.Moves.{Moves}
use tidebook.Prediction.Resolution.Rules.{execute-Moves}
use tidebook.Prediction.Resolution.Lifecycle.{
  IsCoherent, stage, SameTerms, run-IsCoherent, run-resolved,
}
use tidebook.Prediction.Resolution.Timing.{finalize_after_propose}
use tidebook.Prediction.Tests.Data.{market, resolver_record}

-- The text ar://e.
abbrev uri : List ℕ
uri = b'a' ∷ b'r' ∷ b':' ∷ b'/' ∷ b'/' ∷ b'e' ∷ []

abbrev proposing : ResolvePrediction
proposing = record { resolver = 31; market = market; admin_record = resolver_record }

abbrev proposed : PredictionMarket
proposed = record market.val {
  status = PredictionStatus.proposed;
  proposal = some (record {
    outcome = PredictionResolution.yes_;
    proposed_at = pos 120;
    evidence_uri = uri;
    evidence_hash = 9;
  });
}

abbrev resolved : PredictionMarket
resolved = record proposed {
  status = PredictionStatus.resolved;
  final_outcome = some PredictionResolution.yes_;
}

abbrev frozen : PredictionMarket
frozen = record market.val { status = PredictionStatus.frozen }

proposed_is :
    handle_propose_prediction hashing (pos 120) PredictionResolution.yes_ uri 9 false proposing
    ≡ ok proposed
unfolding handle_propose_prediction check_resolver resolver_window expected_resolver
    primary_resolver check_proposable evidence_is_valid strip_prefix all_graphic maturity
    try_from_i64 checked_add_i64 ◌+ℤ◌
proposed_is = refl

frozen_is : execute hashing market (advance (pos 100) 0) ≡ ok frozen
unfolding execute handle_advance_prediction freeze_at_cutoff
frozen_is = refl

market-IsCoherent : IsCoherent market.val
market-IsCoherent = ground arith

resolved-IsCoherent : IsCoherent resolved
resolved-IsCoherent = ground arith

abbrev history : List Call
history =
    advance (pos 100) 0
    ∷ propose (record { key = 31; admin_record = resolver_record }) (pos 120)
        PredictionResolution.yes_ uri 9 false
    ∷ advance (pos 170) 2
    ∷ []

run-IsCoherent_example :
    IsCoherent (run hashing market history).val
    × (stage market.val.status ≤ stage (run hashing market history).val.status)
    × SameTerms market.val (run hashing market history).val
run-IsCoherent_example = run-IsCoherent hashing market history market-IsCoherent

run-resolved_example :
    run hashing (record market { val = resolved }) history ≡ record market { val = resolved }
run-resolved_example =
    run-resolved hashing (record market { val = resolved }) history resolved-IsCoherent refl

execute-Moves_example : Moves hashing (advance (pos 100) 0) market.val frozen
execute-Moves_example = execute-Moves hashing market (advance (pos 100) 0) frozen frozen_is

-- A finalization that comes too early is refused, and the next one goes through.
abbrev too_early : List Call
too_early = advance (pos 160) 2 ∷ []

finalized_is :
    execute hashing
      (run hashing (record { key = market.key; val = proposed }) too_early)
      (advance (pos 170) 2)
    ≡ ok resolved
unfolding run execute handle_advance_prediction finalize_proposal maturity try_from_i64
    checked_add_i64 ◌+ℤ◌
finalized_is = refl

finalize_after_propose_example :
    (later : ℤ) × ((advance (pos 170) 2 ≡ advance later 2)
      × (pos 120 +ℤ pos 50 ≤ℤ later)
      × (resolved.status ≡ PredictionStatus.resolved)
      × ((p : PredictionProposal) × (((run hashing
                (record { key = market.key; val = proposed })
                too_early).val.proposal
              ≡ some p)
            × (resolved.final_outcome ≡ some p.outcome)))
      × (too_early ≡ [] → resolved.final_outcome ≡ some PredictionResolution.yes_))
finalize_after_propose_example =
    finalize_after_propose hashing (pos 120) PredictionResolution.yes_ uri 9 false proposing
      proposed resolved too_early (advance (pos 170) 2) proposed_is (omega arith, tt) (omega arith)
      finalized_is refl
