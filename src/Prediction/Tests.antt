-- ===== src/Prediction/Tests.antt =====
-- The prediction theorems at one market (programs/tidebook/src/).
mod Data
mod Funds
mod Lifecycle
mod Book
mod Resting
mod Trading
