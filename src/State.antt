-- ===== src/State.antt =====
-- Account layouts (programs/tidebook/src/state.rs and state/prediction.rs, state/prediction_book.rs,
-- state/shared.rs).
-- A public key is a number; an account is its address with the value stored there.
mod Key
pub mod Spot
pub mod Prediction
pub mod Shared
pub use Key.*
unfoldable pub use Spot.*
unfoldable pub use Prediction.*
unfoldable pub use Shared.*
