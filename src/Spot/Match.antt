-- ===== src/Spot/Match.antt =====
-- Matching one taker against the best FIFO maker
-- (programs/tidebook/src/instructions/match_limit_order.rs).
pub mod Defs
pub mod Steps
pub mod Writes
pub mod Handler
pub mod Parts
pub mod Conservation
pub mod Transition
pub mod Partial
pub mod Priority
pub mod Backing
pub mod Exchange
pub mod Queue
pub mod Dequeue
