-- ===== src/Shared.antt =====
-- Books and balances that all markets share (programs/tidebook/src/shared_trading.rs and
-- instructions/shared_orders.rs, shared_match.rs).
mod Tests
pub mod Rules
pub mod Links
pub mod Queue
pub mod Remove
pub mod Place
pub mod Cancel
pub mod Match
pub mod Claims
pub mod Locks
pub mod Dust
