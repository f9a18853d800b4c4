-- ===== src/Prediction/Resolution/Waiting.antt =====
-- A proposed market while its delay runs, through any calls
-- (programs/tidebook/src/instructions/prediction_resolution.rs).
use tidebook.Base.{
  ℕ, ◌≡◌, refl, List, [], ◌∷◌, none, some, is_some, true, ok, err, ◌⊎◌, arith, Result-cases, inl,
  inr,
}
use tidebook.Base.Int.{ℤ, pos, ◌+ℤ◌, ◌≤ℤ◌, +ℤ_parts}
use tidebook.Errors.{Error}
use tidebook.State.{Account, Runtime, PredictionMarket, PredictionProposal, PredictionStatus}
use tidebook.Prediction.Resolution.Calls.{Call, propose, close_trading, advance, execute, run}
use tidebook.Prediction.Resolution.Moves.{
  Moves, first_proposal, new_evidence, early_close, cutoff, fall_back, finalize, time_out,
}
use tidebook.Prediction.Resolution.Rules.{execute-Moves}

-- A call is executed at `start` or later; the early close does not read the clock.
abbrev pub IsSince : ℤ → Call → Type 0
IsSince start (propose s now outcome uri hash correction) = start ≤ℤ now
IsSince start (close_trading s) = Unit {0}
IsSince start (advance now action) = start ≤ℤ now

abbrev pub AllSince : ℤ → List Call → Type 0
AllSince start [] = Unit {0}
AllSince start (c ∷ cs) = IsSince start c × AllSince start cs

-- A proposal stands that was made at `start` or later.
pub record Waits (start : ℤ) (delay : ℕ) (m : PredictionMarket) : Type 0 where
  pub delayed : m.resolution_delay_seconds ≡ delay
  pub unresolved : m.final_outcome ≡ none
  pub proposed : m.status ≡ PredictionStatus.proposed
  pub stands : (p : PredictionProposal) × ((m.proposal ≡ some p) × (start ≤ℤ p.proposed_at))

pub record Decided (m : PredictionMarket) : Type 0 where
  pub outcome : is_some m.final_outcome ≡ true
  pub resolved : m.status ≡ PredictionStatus.resolved

-- What ends the wait: the permissionless finalization, with the delay over, of the proposal that stands.
pub record Ends (start : ℤ) (delay : ℕ) (c : Call) (m m' : PredictionMarket) : Type 0 where
  pub later : ℤ
  pub called : c ≡ advance later 2
  pub waited : start +ℤ pos delay ≤ℤ later
  pub proposal : PredictionProposal
  pub stood : m.proposal ≡ some proposal
  pub outcome : m'.final_outcome ≡ some proposal.outcome
  pub resolved : m'.status ≡ PredictionStatus.resolved

+ℤ-mono : (a b : ℤ) (n : ℕ) → a ≤ℤ b → a +ℤ pos n ≤ℤ b +ℤ pos n
+ℤ-mono a b n h = ground (arith, +ℤ_parts a (pos n), +ℤ_parts b (pos n))

-- A move keeps a market waiting, or ends the wait.
pub Waits-Moves :
    {rt : Runtime} {c : Call} {m m' : PredictionMarket} (start : ℤ) (delay : ℕ)
    → Waits start delay m
    → Moves rt c m m'
    → IsSince start c
    → Waits start delay m' ⊎ Ends start delay c m m'
Waits-Moves start delay w (first_proposal s now o uri hash c n (inl u) e t r) f =
    absurd (ground (arith, w.proposed))
Waits-Moves start delay w (first_proposal s now o uri hash c n (inr u) e t r) f =
    absurd (ground (arith, w.proposed))
Waits-Moves start delay w (new_evidence s now o uri hash p c n g e b t r) f =
    let since : start ≤ℤ now = rw c at f in
    let q : PredictionProposal = record {
      outcome = o;
      proposed_at = now;
      evidence_uri = uri;
      evidence_hash = hash;
    } in
    inl (record {
      delayed = ground (arith, w.delayed);
      unresolved = ground arith;
      proposed = ground arith;
      stands = (q, (ground arith, since));
    })
Waits-Moves start delay w (early_close s c ad au g r) f = absurd (ground (arith, w.proposed))
Waits-Moves start delay w (cutoff now c n g t r) f = absurd (ground (arith, w.proposed))
Waits-Moves start delay w (fall_back now x c n (inl u) e ph fb av r) f =
    absurd (ground (arith, w.proposed))
Waits-Moves start delay w (fall_back now x c n (inr u) e ph fb av r) f =
    absurd (ground (arith, w.proposed))
Waits-Moves start delay w (finalize now p c n g e l r) f =
    let (q, (same, since)) = w.stands in
    let agree : q ≡ p = ground arith in
    let mono = +ℤ-mono start p.proposed_at delay (rw agree at since) in
    let over : p.proposed_at +ℤ pos delay ≤ℤ now = rw w.delayed at l in
    inr (record {
      later = now;
      called = c;
      waited = omega (arith, mono, over);
      proposal = p;
      stood = e;
      outcome = ground arith;
      resolved = ground arith;
    })
Waits-Moves start delay w (time_out now end x c n (inl u) e fb d l r) f =
    absurd (ground (arith, w.proposed))
Waits-Moves start delay w (time_out now end x c n (inr u) e fb d l r) f =
    absurd (ground (arith, w.proposed))

-- A market with a final outcome makes no move.
pub not-Moves-Decided :
    {rt : Runtime} {c : Call} {m m' : PredictionMarket} → Decided m → Moves rt c m m' → ⊥
not-Moves-Decided d (first_proposal s now o uri hash c n u e t r) = ground (arith, d.outcome)
not-Moves-Decided d (new_evidence s now o uri hash p c n g e b t r) = ground (arith, d.outcome)
not-Moves-Decided d (early_close s c ad au g r) = ground (arith, d.resolved)
not-Moves-Decided d (cutoff now c n g t r) = ground (arith, d.outcome)
not-Moves-Decided d (fall_back now f c n u e ph fb av r) = ground (arith, d.outcome)
not-Moves-Decided d (finalize now p c n g e l r) = ground (arith, d.outcome)
not-Moves-Decided d (time_out now end f c n u e fb dl l r) = ground (arith, d.outcome)

module _ (rt : Runtime) (start : ℤ) (delay : ℕ) where
  run-Decided : (a : Account PredictionMarket) (cs : List Call) → Decided a.val → run rt a cs ≡ a
  unfolding run
  run-Decided a [] d = refl
  run-Decided a (c ∷ cs) d = elim (Result-cases (execute rt a c)) [
    | inl (m', e) ↦ absurd (not-Moves-Decided d (execute-Moves rt a c m' e))
    | inr (x, e) ↦ rw e (run-Decided a cs d)
  ]

  run_none : (a : Account PredictionMarket) → run rt a [] ≡ a
  unfolding run
  run_none a = refl

  run_ok :
      (a : Account PredictionMarket) (c : Call) (cs : List Call) (m' : PredictionMarket)
      → execute rt a c ≡ ok m'
      → run rt a (c ∷ cs) ≡ run rt (record a { val = m' }) cs
  unfolding run
  run_ok a c cs m' e = rw e refl

  run_err :
      (a : Account PredictionMarket) (c : Call) (cs : List Call) (x : Error)
      → execute rt a c ≡ err x
      → run rt a (c ∷ cs) ≡ run rt a cs
  unfolding run
  run_err a c cs x e = rw e refl

  -- After any history a waiting market still waits, or it is decided.
  pub run-Waits :
      (a : Account PredictionMarket) (cs : List Call)
      → Waits start delay a.val
      → AllSince start cs
      → Waits start delay (run rt a cs).val ⊎ Decided (run rt a cs).val
  run-Waits a [] w since = inl (rw (run_none a) w)
  run-Waits a (c ∷ cs) w since = elim (Result-cases (execute rt a c)) [
    | inr (x, e) ↦ rw (run_err a c cs x e) (run-Waits a cs w since.1)
    | inl (m', e) ↦
        let b : Account PredictionMarket = record a { val = m' } in
        rw (run_ok a c cs m' e)
          (elim (Waits-Moves start delay w (execute-Moves rt a c m' e) since.0) [
            | inl w' ↦ run-Waits b cs w' since.1
            | inr ends ↦
                let d : Decided m' = record {
                  outcome = ground (arith, ends.outcome);
                  resolved = ends.resolved;
                } in
                inr (rw (run-Decided b cs d) d)
          ])
  ]
