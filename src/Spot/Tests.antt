-- ===== src/Spot/Tests.antt =====
-- The spot theorems at one market: asks at 500 from two traders and a buyer who meets them
-- (programs/tidebook/src/instructions/).
mod Data
mod Placing
mod Trading
mod Cancelling
mod Funding
