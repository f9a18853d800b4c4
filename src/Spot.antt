-- ===== src/Spot.antt =====
-- Spot markets: placing, matching and cancelling limit orders, deposits and withdrawals
-- (programs/tidebook/src/instructions/append_limit_order.rs, insert_limit_order.rs,
-- cancel_limit_order.rs, match_limit_order.rs, deposit.rs and withdraw.rs).
pub mod Placement
pub mod Funds
pub mod Queue
pub mod Ladder
pub mod Append
pub mod Insert
pub mod Cancel
pub mod Match
mod Tests
