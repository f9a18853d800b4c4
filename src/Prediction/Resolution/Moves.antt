-- ===== src/Prediction/Resolution/Moves.antt =====
-- The lifecycle that the resolution instructions implement
-- (programs/tidebook/src/instructions/prediction_resolution.rs), as a relation between markets.
use tidebook.Base.{ℕ, ◌≡◌, ◌⊎◌, List, none, some, true, false}
use tidebook.Base.Int.{ℤ, ◌≤ℤ◌, ◌<ℤ◌}
use tidebook.State.{
  Runtime, PredictionMarket, PredictionFallback, PredictionProposal, PredictionResolution,
  PredictionResolutionPhase, PredictionStatus,
}
use tidebook.Prediction.Resolution.Calls.{Signer, Call, propose, close_trading, advance}
use tidebook.Prediction.Resolution.Schedule.{IsAdmin, IsFallbackTime, IsProposal, matures}
use tidebook.Prediction.Resolution.Proposal.{proposes}

-- Nobody has proposed and trading may even go on.
abbrev pub IsUndecided : PredictionStatus → Type 0
IsUndecided s = (s ≡ PredictionStatus.open_) ⊎ (s ≡ PredictionStatus.frozen)

-- The lifecycle's moves: the call that asks for each, the signer, the time and the state at which it
-- may happen, and the market that it leaves.
pub data Moves (rt : Runtime) (c : Call) (m m' : PredictionMarket) : Type 0 where
  first_proposal :
      (s : Signer) (now : ℤ) (outcome : PredictionResolution) (uri : List ℕ) (hash : ℕ)
      → c ≡ propose s now outcome uri hash false
      → m.final_outcome ≡ none
      → IsUndecided m.status
      → m.proposal ≡ none
      → IsProposal rt m s now uri hash
      → m' ≡ proposes m now outcome uri hash
      → Moves rt c m m'
  new_evidence :
      (s : Signer) (now : ℤ) (outcome : PredictionResolution) (uri : List ℕ) (hash : ℕ)
      (p : PredictionProposal)
      → c ≡ propose s now outcome uri hash true
      → m.final_outcome ≡ none
      → m.status ≡ PredictionStatus.proposed
      → m.proposal ≡ some p
      → now <ℤ matures m p.proposed_at
      → IsProposal rt m s now uri hash
      → m' ≡ proposes m now outcome uri hash
      → Moves rt c m m'
  early_close :
      (s : Signer)
      → c ≡ close_trading s
      → IsAdmin rt s
      → s.key ≡ m.authority
      → m.status ≡ PredictionStatus.open_
      → m' ≡ record m { status = PredictionStatus.frozen }
      → Moves rt c m m'
  cutoff :
      (now : ℤ)
      → c ≡ advance now 0
      → m.final_outcome ≡ none
      → m.status ≡ PredictionStatus.open_
      → m.close_ts ≤ℤ now
      → m' ≡ record m { status = PredictionStatus.frozen }
      → Moves rt c m m'
  fall_back :
      (now : ℤ) (f : PredictionFallback)
      → c ≡ advance now 1
      → m.final_outcome ≡ none
      → IsUndecided m.status
      → m.proposal ≡ none
      → m.resolution_phase ≡ PredictionResolutionPhase.primary
      → m.fallback ≡ some f
      → IsFallbackTime f now
      → m' ≡ record m {
        status = PredictionStatus.frozen;
        resolution_phase = PredictionResolutionPhase.fallback;
      }
      → Moves rt c m m'
  finalize :
      (now : ℤ) (p : PredictionProposal)
      → c ≡ advance now 2
      → m.final_outcome ≡ none
      → m.status ≡ PredictionStatus.proposed
      → m.proposal ≡ some p
      → matures m p.proposed_at ≤ℤ now
      → m' ≡ record m { final_outcome = some p.outcome; status = PredictionStatus.resolved }
      → Moves rt c m m'
  time_out :
      (now end : ℤ) (f : PredictionFallback)
      → c ≡ advance now 3
      → m.final_outcome ≡ none
      → IsUndecided m.status
      → m.proposal ≡ none
      → m.fallback ≡ some f
      → f.deadline_ts ≡ some end
      → end ≤ℤ now
      → m' ≡ record m {
        resolution_phase = PredictionResolutionPhase.fallback;
        final_outcome = some PredictionResolution.invalid;
        status = PredictionStatus.resolved;
      }
      → Moves rt c m m'
