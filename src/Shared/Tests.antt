-- ===== src/Shared/Tests.antt =====
-- The theorems on shared books at one spot market (programs/tidebook/src/instructions/shared_orders.rs,
-- shared_match.rs).
mod Data
mod Resting
mod Trading
mod Closing
