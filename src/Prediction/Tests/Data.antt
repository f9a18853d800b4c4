-- ===== src/Prediction/Tests/Data.antt =====
-- One prediction market with three pairs outstanding (programs/tidebook/src/state/prediction.rs).
use tidebook.Base.{[], ◌∷◌, none, some}
use tidebook.Base.Int.{pos}
use tidebook.Sample.{address}
use tidebook.State.{
  Account, key_seed, prediction_market_seed, prediction_position_seed, admin_seed, AdminRecord,
  AdminStatus, PredictionMarket, PredictionPosition, PredictionOrderBook, PredictionFallback,
  PredictionStatus, PredictionResolutionPhase,
}

abbrev pub window : PredictionFallback
window = record { resolver = 32; available_ts = pos 300; deadline_ts = some (pos 400) }

abbrev pub market : Account PredictionMarket
market = record {
  key = address (prediction_market_seed ∷ key_seed 5 ∷ []);
  val = record {
    market_id = 5;
    authority = 30;
    resolver = 31;
    fallback = some window;
    collateral_mint = 12;
    collateral_vault = 13;
    metadata = 14;
    question_hash = 15;
    rules_hash = 16;
    rules_uri = [];
    close_ts = pos 100;
    earliest_resolution_ts = some (pos 110);
    resolution_delay_seconds = 50;
    resolution_phase = PredictionResolutionPhase.primary;
    status = PredictionStatus.open_;
    proposal = none;
    final_outcome = none;
    payout_per_contract = 1_000;
    price_tick = 10;
    yes_supply = 3;
    no_supply = 3;
    backing_reserve = 3_000;
    open_order_count = 4;
    bump = 255;
  };
}

abbrev pub position : Account PredictionPosition
position = record {
  key = address (prediction_position_seed ∷ key_seed market.key ∷ key_seed 22 ∷ []);
  val = record {
    market = market.key;
    owner = 22;
    collateral_free = 5_000;
    collateral_locked = 700;
    yes_free = 2;
    yes_locked = 1;
    no_free = 3;
    no_locked = 0;
    bump = 255;
  };
}

abbrev pub book : PredictionOrderBook
book = record {
  market = market.key;
  next_order_id = 9;
  yes_best_bid = some 400;
  yes_best_ask = some 450;
  no_best_bid = none;
  no_best_ask = none;
  bump = 255;
}

abbrev pub resolver_record : Account AdminRecord
resolver_record = record {
  key = address (admin_seed ∷ key_seed 31 ∷ []);
  val = record { authority = 31; added_by = 10; status = AdminStatus.active; bump = 255 };
}
