-- ===== src/Spot/Tests/Data.antt =====
-- One spot market with a best ask level of two orders (programs/tidebook/src/state.rs).
use tidebook.Base.{ℕ, [], ◌∷◌, none, some, refl}
use tidebook.State.{
  Pubkey, Account, market_seed, order_seed, price_level_seed, trader_balance_seed, market_fees_seed,
  protocol_config_seed, ask_seed, key_seed, le_bytes, Market, MarketStatus, Order, ask, open_,
  ProtocolConfig, MarketFees, PriceLevel, TraderBalance,
}
use tidebook.Sample.{address}
use tidebook.Spot.Queue.{mem, distinct, Store, put, IsLinked, length, IsQueue}

abbrev pub market_key : Pubkey
market_key = address (market_seed ∷ key_seed 11 ∷ key_seed 12 ∷ [])

abbrev pub market : Account Market
market = record {
  key = market_key;
  val = record {
    authority = 10;
    base_mint = 11;
    quote_mint = 12;
    status = MarketStatus.active;
    next_order_id = 3;
    base_decimals = 2;
    quote_decimals = 6;
    price_tick_size = 5;
    quantity_lot_size = 10;
    best_bid = none;
    best_ask = some 500;
    open_order_count = 2;
    bump = 255;
  };
}

abbrev pub config : Account ProtocolConfig
config = record {
  key = address (protocol_config_seed ∷ []);
  val = record { super_admin = 10; taker_fee_bps = 90; bump = 255 };
}

abbrev pub fees : Account MarketFees
fees = record {
  key = address (market_fees_seed ∷ key_seed market_key ∷ []);
  val = record { market = market_key; quote_mint = 12; accrued_quote_fees = 8; bump = 255 };
}

abbrev pub level_key : ℕ → Pubkey
level_key price = address (price_level_seed ∷ key_seed market_key ∷ ask_seed ∷ le_bytes price ∷ [])

abbrev pub order_key : ℕ → Pubkey
order_key id = address (order_seed ∷ key_seed market_key ∷ le_bytes id ∷ [])

abbrev pub first_order : Account Order
first_order = record {
  key = order_key 1;
  val = record {
    owner = 21;
    market = market_key;
    order_id = 1;
    side = ask;
    price = 500;
    price_level = level_key 500;
    previous_order = none;
    next_order = some (order_key 2);
    quantity = 40;
    remaining_quantity = 40;
    locked_collateral = 40;
    status = open_;
    bump = 255;
  };
}

abbrev pub second_order : Account Order
second_order = record {
  key = order_key 2;
  val = record {
    owner = 23;
    market = market_key;
    order_id = 2;
    side = ask;
    price = 500;
    price_level = level_key 500;
    previous_order = some (order_key 1);
    next_order = none;
    quantity = 20;
    remaining_quantity = 20;
    locked_collateral = 20;
    status = open_;
    bump = 255;
  };
}

abbrev pub level : Account PriceLevel
level = record {
  key = level_key 500;
  val = record {
    market = market_key;
    side = ask;
    price = 500;
    better_price = none;
    worse_price = none;
    first_order = some (order_key 1);
    last_order = some (order_key 2);
    total_remaining_quantity = 60;
    order_count = 2;
    rent_payer = 21;
    bump = 255;
  };
}

abbrev pub ledger :
    (owner base_free base_locked quote_free quote_locked : ℕ) → Account TraderBalance
ledger owner base_free base_locked quote_free quote_locked = record {
  key = address (trader_balance_seed ∷ key_seed market_key ∷ key_seed owner ∷ []);
  val = record {
    market = market_key;
    owner = owner;
    base_free = base_free;
    base_locked = base_locked;
    quote_free = quote_free;
    quote_locked = quote_locked;
    bump = 255;
  };
}

-- The two orders on the ledger.
abbrev pub orders : Store Order
orders = put (order_key 1) first_order.val (put (order_key 2) second_order.val (λ _. none))

pub level-IsQueue : IsQueue orders level (order_key 1 ∷ order_key 2 ∷ [])
unfolding IsLinked length mem distinct put
level-IsQueue = record {
  linked = (
    refl,
    (
      first_order.val,
      (
        record { stored = refl; rests_here = refl; still_open = refl; back = refl },
        (
          20,
          (
            refl,
            (
              refl,
              (
                second_order.val,
                (
                  record { stored = refl; rests_here = refl; still_open = refl; back = refl },
                  (0, (refl, (refl, refl, refl))),
                ),
              ),
            ),
          ),
        ),
      ),
    ),
  );
  counted = refl;
  apart = refl;
}
