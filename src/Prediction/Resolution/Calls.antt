-- ===== src/Prediction/Resolution/Calls.antt =====
-- The resolution instructions as calls on one market
-- (programs/tidebook/src/instructions/prediction_resolution.rs), and histories of calls.
use tidebook.Base.{ℕ, List, [], ◌∷◌, Bool, Result, ok, err}
use tidebook.Base.Int.{ℤ}
use tidebook.State.{Pubkey, Account, Runtime, AdminRecord, PredictionMarket, PredictionResolution}
use tidebook.Prediction.Resolution.{
  handle_propose_prediction, handle_close_prediction_trading, handle_advance_prediction,
}

pub record Signer : Type 0 where
  pub key : Pubkey
  pub admin_record : Account AdminRecord

-- One instruction with the time at which it is executed.
pub data Call : Type 0 where
  propose : Signer → ℤ → PredictionResolution → List ℕ → ℕ → Bool → Call
  close_trading : Signer → Call
  advance : ℤ → ℕ → Call

unfoldable pub execute : Runtime → Account PredictionMarket → Call → Result PredictionMarket
execute rt a (propose s now outcome uri hash correction) =
    handle_propose_prediction rt now outcome uri hash correction
      (record { resolver = s.key; market = a; admin_record = s.admin_record })
execute rt a (close_trading s) =
    handle_close_prediction_trading rt
      (record { resolver = s.key; market = a; admin_record = s.admin_record })
execute rt a (advance now action) = handle_advance_prediction rt now action a

-- A call that fails leaves the account as it was.
abbrev pub after : Account PredictionMarket → Result PredictionMarket → Account PredictionMarket
after a (ok m) = record a { val = m }
after a (err e) = a

unfoldable pub run : Runtime → Account PredictionMarket → List Call → Account PredictionMarket
run rt a [] = a
run rt a (c ∷ cs) = run rt (after a (execute rt a c)) cs
