-- ===== src/Prediction/Resolution/Rules.antt =====
-- The resolution instructions make the lifecycle's moves
-- (programs/tidebook/src/instructions/prediction_resolution.rs).
use tidebook.Base.{
  ℕ, ◌≡◌, refl, sym, ◌⊎◌, List, none, Bool, true, false, ok, arith, Option-cases, Result-cases, inl,
  inr, bind_case,
}
use tidebook.Base.Int.{ℤ}
use tidebook.State.{Account, Runtime, PredictionMarket, PredictionResolution, PredictionStatus}
use tidebook.Prediction.Resolution.{
  check_resolver, maturity, is_undecided, check_proposable, handle_close_prediction_trading,
  finalize_proposal, finalize_timeout, freeze_at_cutoff, activate_fallback,
  handle_advance_prediction,
}
use tidebook.Prediction.Resolution.Calls.{Signer, Call, propose, close_trading, advance, execute}
use tidebook.Prediction.Resolution.Schedule.{check_resolver-IsAdmin}
use tidebook.Prediction.Resolution.Proposal.{maturity-matures, Proposed, propose-Proposed}
use tidebook.Prediction.Resolution.Moves.{
  IsUndecided, Moves, first_proposal, new_evidence, early_close, cutoff, fall_back, finalize,
  time_out,
}

is_undecided-IsUndecided : (s : PredictionStatus) → is_undecided s ≡ true → IsUndecided s
is_undecided-IsUndecided PredictionStatus.open_ h = inl refl
is_undecided-IsUndecided PredictionStatus.frozen h = inr refl
is_undecided-IsUndecided PredictionStatus.draft h = absurd (ground arith)
is_undecided-IsUndecided PredictionStatus.proposed h = absurd (ground arith)
is_undecided-IsUndecided PredictionStatus.resolved h = absurd (ground arith)

module _ (rt : Runtime) (c : Call) (m m' : PredictionMarket) (now : ℤ)
    (n : m.final_outcome ≡ none) where
  cutoff_rule : c ≡ advance now 0 → freeze_at_cutoff m now ≡ ok m' → Moves rt c m m'
  unfolding freeze_at_cutoff
  cutoff_rule a h = cutoff now a n (ground arith) (ground arith) (ground arith)

  fallback_rule : c ≡ advance now 1 → activate_fallback m now ≡ ok m' → Moves rt c m m'
  unfolding activate_fallback
  fallback_rule a h = elim (Option-cases m.fallback) [
    | inl e ↦ absurd (ground arith)
    | inr (f, e) ↦
        fall_back now f a n (is_undecided-IsUndecided m.status (ground arith)) (ground arith)
          (ground arith) e (record { available = ground arith; before_end = λ end g. ground arith })
          (ground arith)
  ]

  finalize_rule : c ≡ advance now 2 → finalize_proposal m now ≡ ok m' → Moves rt c m m'
  unfolding finalize_proposal
  finalize_rule a h = elim (Option-cases m.proposal) [
    | inl e ↦ absurd (ground arith)
    | inr (p, e) ↦ elim (Result-cases (maturity m)) [
      | inl (end, g) ↦
          finalize now p a n (ground arith) e (ground (arith, maturity-matures m p end e g))
            (ground arith)
      | inr (x, g) ↦ absurd (ground arith)
    ]
  ]

  timeout_rule : c ≡ advance now 3 → finalize_timeout m now ≡ ok m' → Moves rt c m m'
  unfolding finalize_timeout
  timeout_rule a h = elim (Option-cases m.fallback) [
    | inl e ↦ absurd (ground arith)
    | inr (f, e) ↦ elim (Option-cases f.deadline_ts) [
      | inl g ↦ absurd (ground arith)
      | inr (end, g) ↦
          time_out now end f a n (is_undecided-IsUndecided m.status (ground arith)) (ground arith) e
            g (ground arith) (ground arith)
    ]
  ]

advance_rule :
    (rt : Runtime) (now : ℤ) (action : ℕ) (a : Account PredictionMarket) (m' : PredictionMarket)
    → handle_advance_prediction rt now action a ≡ ok m'
    → Moves rt (advance now action) a.val m'
unfolding handle_advance_prediction
advance_rule rt now action a m' h =
    let n : a.val.final_outcome ≡ none = ground arith in
    let c = advance now action in
    let body =
      λ (k : ((action ≡ 0) × (freeze_at_cutoff a.val now ≡ ok m'))
          ⊎ ((action ≡ 1) × (activate_fallback a.val now ≡ ok m'))
          ⊎ ((action ≡ 2) × (finalize_proposal a.val now ≡ ok m'))
          ⊎ ((action ≡ 3) × (finalize_timeout a.val now ≡ ok m'))).
        k in
    elim (body (ground arith)) [
      | inl (e, f) ↦ cutoff_rule rt c a.val m' now n (ground arith) f
      | inr (inl (e, f)) ↦ fallback_rule rt c a.val m' now n (ground arith) f
      | inr (inr (inl (e, f))) ↦ finalize_rule rt c a.val m' now n (ground arith) f
      | inr (inr (inr (e, f))) ↦ timeout_rule rt c a.val m' now n (ground arith) f
    ]

close_rule :
    (rt : Runtime) (s : Signer) (a : Account PredictionMarket) (m' : PredictionMarket)
    → handle_close_prediction_trading rt
        (record { resolver = s.key; market = a; admin_record = s.admin_record })
      ≡ ok m'
    → Moves rt (close_trading s) a.val m'
unfolding handle_close_prediction_trading
close_rule rt s a m' h =
    bind_case
      (check_resolver rt (record { resolver = s.key; market = a; admin_record = s.admin_record })) _
      h
      λ _ admin h₁.
        early_close s refl (check_resolver-IsAdmin rt s a (ground arith)) (ground arith)
          (ground arith) (ground arith)

correction_needs_proposal :
    (m : PredictionMarket) (now : ℤ) → m.proposal ≡ none → check_proposable m now true ≡ ok tt → ⊥
unfolding check_proposable maturity
correction_needs_proposal m now e h = ground arith

proposal_rule :
    (rt : Runtime) (s : Signer) (m m' : PredictionMarket) (now : ℤ) (outcome : PredictionResolution)
    (uri : List ℕ) (hash : ℕ) (correction : Bool)
    → Proposed rt s m m' now outcome uri hash correction
    → Moves rt (propose s now outcome uri hash correction) m m'
unfolding check_proposable
proposal_rule rt s m m' now outcome uri hash false t =
    let p = t.proposable in
    first_proposal s now outcome uri hash refl t.unresolved
      (is_undecided-IsUndecided m.status (ground arith)) (ground arith) t.allowed t.result
proposal_rule rt s m m' now outcome uri hash true t =
    let h = t.proposable in
    elim (Option-cases m.proposal) [
      | inl e ↦ absurd (correction_needs_proposal m now e h)
      | inr (p, e) ↦ elim (Result-cases (maturity m)) [
        | inl (end, g) ↦
            let (at, range) = maturity-matures m p end e g in
            new_evidence s now outcome uri hash p refl t.unresolved (ground arith) e
              (rw (sym at) (ground arith)) t.allowed t.result
        | inr (x, g) ↦ absurd (ground arith)
      ]
    ]

-- Every resolution instruction that goes through makes one of the lifecycle's moves.
pub execute-Moves :
    (rt : Runtime) (a : Account PredictionMarket) (c : Call) (m' : PredictionMarket)
    → execute rt a c ≡ ok m'
    → Moves rt c a.val m'
unfolding execute
execute-Moves rt a (propose s now outcome uri hash correction) m' h =
    proposal_rule rt s a.val m' now outcome uri hash correction
      (propose-Proposed rt s now outcome uri hash correction a m' h)
execute-Moves rt a (close_trading s) m' h = close_rule rt s a m' h
execute-Moves rt a (advance now action) m' h = advance_rule rt now action a m' h
