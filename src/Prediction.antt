-- ===== src/Prediction.antt =====
-- Prediction markets: the rules and the book of orders (programs/tidebook/src/prediction_orders.rs
-- and instructions/place_prediction_order.rs, append_prediction_order.rs,
-- insert_prediction_order.rs, cancel_prediction_order.rs, match_prediction_order.rs), complete sets
-- and resolution (instructions/prediction_complete_set.rs, prediction_resolution.rs).
mod Tests
pub mod Orders
pub mod Book
pub mod Place
pub mod Append
pub mod Insert
pub mod Cancel
pub mod Match
pub mod CompleteSet
pub mod Resolution
