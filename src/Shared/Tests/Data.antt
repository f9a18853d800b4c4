-- ===== src/Shared/Tests/Data.antt =====
-- A shared spot book with two bids at 1, whose base asset has one decimal
-- (programs/tidebook/src/state/shared.rs).
use tidebook.Base.{ℕ, refl, [], ◌∷◌, none, some}
use tidebook.Sample.{address, hashing}
use tidebook.State.{
  Pubkey, Account, key_seed, market_seed, protocol_config_seed, shared_book_seed,
  asset_balance_seed, MarketKind, MarketStatus, Market, bid, open_, ProtocolConfig, AssetBalance,
  SharedOutcome, SharedBook, SharedOrder, SharedPriceLevel,
}
use tidebook.Spot.Queue.{Store, put, IsLinked, mem, distinct, length}
use tidebook.Shared.Rules.{Claims}
use tidebook.Shared.Links
use tidebook.Shared.Queue.{as_order, IsSharedQueue}

abbrev pub market : Account Market
market = record {
  key = address (market_seed ∷ key_seed 11 ∷ key_seed 12 ∷ []);
  val = record {
    authority = 20;
    base_mint = 11;
    quote_mint = 12;
    status = MarketStatus.active;
    next_order_id = 1;
    base_decimals = 1;
    quote_decimals = 0;
    price_tick_size = 1;
    quantity_lot_size = 1;
    best_bid = none;
    best_ask = none;
    open_order_count = 0;
    bump = 255;
  };
}

abbrev pub config : Account ProtocolConfig
config = record {
  key = address (protocol_config_seed ∷ []);
  val = record { super_admin = 20; taker_fee_bps = 50; bump = 255 };
}

abbrev pub book : Account SharedBook
book = record {
  key = address (shared_book_seed ∷ key_seed market.key ∷ []);
  val = record {
    market = market.key;
    authority = 20;
    kind = MarketKind.spot;
    base_mint = 11;
    quote_mint = 12;
    base_decimals = 1;
    quote_decimals = 0;
    price_tick = 1;
    quantity_lot = 1;
    payout_per_contract = 0;
    best_prices = record { first = some 1; second = none; third = none; fourth = none };
    next_order_id = 3;
    open_order_count = 2;
    accrued_quote_fees = 8;
    bump = 255;
  };
}

abbrev pub order_key : ℕ → Pubkey
order_key id = Links.order_key hashing book.key id

abbrev pub level_key : ℕ → Pubkey
level_key price = Links.level_key hashing book.key SharedOutcome.spot_ bid price

abbrev pub asset_of : (owner mint free locked : ℕ) → Account AssetBalance
asset_of owner mint free locked = record {
  key = address (asset_balance_seed ∷ key_seed owner ∷ key_seed mint ∷ []);
  val = record { owner = owner; mint = mint; free = free; locked = locked; bump = 255 };
}

-- The base and the quote tokens of one trader.
abbrev pub claims_of : (owner base cash locked : ℕ) → Claims
claims_of owner base cash locked = record {
  base = some (asset_of owner 11 base 0);
  quote = asset_of owner 12 cash locked;
  position = none;
}

abbrev pub first : Account SharedOrder
first = record {
  key = order_key 1;
  val = record {
    owner = 21;
    market = market.key;
    book = book.key;
    order_id = 1;
    outcome = SharedOutcome.spot_;
    side = bid;
    price = 1;
    price_level = level_key 1;
    previous_order = none;
    next_order = some (order_key 2);
    quantity = 15;
    remaining_quantity = 15;
    locked_collateral = 1;
    status = open_;
    bump = 255;
  };
}

abbrev pub second : Account SharedOrder
second = record {
  key = order_key 2;
  val = record {
    owner = 22;
    market = market.key;
    book = book.key;
    order_id = 2;
    outcome = SharedOutcome.spot_;
    side = bid;
    price = 1;
    price_level = level_key 1;
    previous_order = some (order_key 1);
    next_order = none;
    quantity = 20;
    remaining_quantity = 20;
    locked_collateral = 2;
    status = open_;
    bump = 255;
  };
}

abbrev pub level : Account SharedPriceLevel
level = record {
  key = level_key 1;
  val = record {
    book = book.key;
    market = market.key;
    outcome = SharedOutcome.spot_;
    side = bid;
    price = 1;
    better_price = none;
    worse_price = none;
    first_order = some (order_key 1);
    last_order = some (order_key 2);
    total_remaining_quantity = 35;
    order_count = 2;
    rent_payer = 21;
    bump = 255;
  };
}

abbrev pub orders : Store SharedOrder
orders = put (order_key 1) first.val (put (order_key 2) second.val (λ _. none))

pub level-IsQueue : IsSharedQueue orders level (order_key 1 ∷ order_key 2 ∷ [])
unfolding IsLinked length mem distinct put
level-IsQueue = record {
  linked = (
    refl,
    (
      as_order first.val,
      (
        record { stored = refl; rests_here = refl; still_open = refl; back = refl },
        (
          20,
          (
            refl,
            (
              refl,
              (
                as_order second.val,
                (
                  record { stored = refl; rests_here = refl; still_open = refl; back = refl },
                  (0, (refl, (refl, refl, refl))),
                ),
              ),
            ),
          ),
        ),
      ),
    ),
  );
  counted = refl;
  apart = refl;
}
