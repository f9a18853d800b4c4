-- ===== src/Shared/Queue.antt =====
-- The queues of shared levels (programs/tidebook/src/state/shared.rs): a shared order and a shared
-- level have the links of a spot order and a spot level.
use tidebook.Base.{List}
use tidebook.State.{Pubkey, Account, Order, PriceLevel, SharedOrder, SharedPriceLevel}
use tidebook.Spot.Queue.{Store, IsQueue}
use tidebook.Spot.Queue.View.{view_store}

abbrev pub as_order : SharedOrder → Order
as_order o = record {
  owner = o.owner;
  market = o.market;
  order_id = o.order_id;
  side = o.side;
  price = o.price;
  price_level = o.price_level;
  previous_order = o.previous_order;
  next_order = o.next_order;
  quantity = o.quantity;
  remaining_quantity = o.remaining_quantity;
  locked_collateral = o.locked_collateral;
  status = o.status;
  bump = o.bump;
}

abbrev pub as_level : SharedPriceLevel → PriceLevel
as_level l = record {
  market = l.market;
  side = l.side;
  price = l.price;
  better_price = l.better_price;
  worse_price = l.worse_price;
  first_order = l.first_order;
  last_order = l.last_order;
  total_remaining_quantity = l.total_remaining_quantity;
  order_count = l.order_count;
  rent_payer = l.rent_payer;
  bump = l.bump;
}

abbrev pub level_account : Account SharedPriceLevel → Account PriceLevel
level_account a = record { key = a.key; val = as_level a.val }

-- A shared level with its FIFO queue.
abbrev pub IsSharedQueue : Store SharedOrder → Account SharedPriceLevel → List Pubkey → Type 0
IsSharedQueue st level ks = IsQueue (view_store as_order st) (level_account level) ks
