-- ===== src/Lib.antt =====
-- Tidebook, a Solana program with on-chain order books for spot pairs and binary prediction
-- markets, and a verification of its core.
--
-- A trader owns a ledger of free and locked atoms per market, or one per asset that all markets
-- share. An order locks collateral and rests in a FIFO queue of orders at one price; the price
-- levels of a side are linked from the best price on. A match settles one taker with the oldest
-- order at the best price. A prediction market issues YES and NO in pairs against a reserve of one
-- payout per pair, and a resolver proposes its outcome, which becomes final after a published delay.
--
-- The program receives its accounts as untrusted references of the client. A handler is modelled as
-- a function from the accounts and the arguments to a result, an error of the program or the
-- changed accounts; a failed instruction changes nothing, as the runtime rolls it back. Account
-- constraints come first, in the order in which they are written, then the tests of the handler.
-- An account that is closed is `none` in the result. Addresses are numbers, and the runtime that
-- derives them from seeds is the record Runtime, a parameter of every handler; nothing is assumed
-- of it. The clock is the argument `now`. A machine integer is a natural number whose checked
-- operations fail outside its range; timestamps are the integers of Base/Int.
--
-- Files, with the code they model (paths below programs/tidebook/src):
--   Errors: errors/catalog.rs, and the framework errors that constraints raise.
--   Base: results and do blocks (Outcome), Boolean tests (Tests), checked machine integers (Word)
--     and signed timestamps (Int).
--   State: account layouts; Key (addresses, seeds, account constraints, constants.rs), Spot
--     (state.rs), Prediction (state/prediction.rs and state/prediction_book.rs), Shared
--     (state/shared.rs).
--   Fees: calculate_taker_fee of fees.rs. Bounds has its theorems.
--   Matching: prices_cross, calculate_fill and calculate_settlement of matching.rs. Fill has the
--     arithmetic of one fill, Plan and Funding the theorems of one settlement, Life those of a
--     resting order over many fills.
--   Spot: the spot book, instructions/. Placement has what append and insert share. Queue is the
--     abstract FIFO queue, Ladder the abstract list of prices, which a level leaves in Ladder/Remove
--     with what its neighbors say of it in Ladder/Borders. Append is append_limit_order.rs,
--     with the enqueue in Append/Queue and Append/Effects. Insert is insert_limit_order.rs, whose
--     Links takes it apart and whose Ladder and Refinement follow the list of prices. Match is
--     match_limit_order.rs: its constraints (Defs), calculations and tests (Steps), writes
--     (Writes) and handler (Handler), and the theorems by what they are about: Parts and
--     Transition take a successful match apart, Conservation and Exchange follow the tokens,
--     Backing the locks, Partial and Priority the links, Queue and Dequeue the FIFO queue. Cancel
--     is cancel_limit_order.rs, with its writes in Cancel/Handler, the ledger in Cancel/Effects and
--     the removal from the FIFO queue in Cancel/Remove, Cancel/Neighbors, Cancel/Queue,
--     Cancel/Unlinked and Cancel/Unlink. Funds is deposit.rs and withdraw.rs, with the claims on a
--     vault in Funds/Solvency.
--   Prediction: Orders is prediction_orders.rs. The book of orders: Book has what the instructions
--     share and derive_prediction_price_level_pda and derive_prediction_order_pda of pda.rs; its View
--     reads prediction orders as the orders of Spot/Queue, its Backing is about exact locks. Place,
--     Append, Insert, Cancel and Match are the instructions/*_prediction_order.rs: Place/Opening and
--     Insert/Refinement follow the list of prices, Append/Enqueue, Cancel/Unlink and Match/Dequeue
--     the FIFO queue, Match/Settlement the contracts and the cash; Parts and Ladder modules take a
--     successful call apart. CompleteSet is instructions/prediction_complete_set.rs; Resolution is
--     instructions/prediction_resolution.rs. Schedule says the published terms without its tests,
--     Moves is the lifecycle as a relation, whose moves the calls (Calls) make by Proposal and
--     Rules; Lifecycle is about histories of calls, Waiting and Timing about the delays.
--   Shared: the books that all markets share, instructions/shared_orders.rs and shared_match.rs
--     over shared_trading.rs. Rules has the terms of a book and the accounts of a trader, Links the
--     tests on levels and orders and the buckets that back an order, Remove remove_order; Place,
--     Cancel and Match are the instructions. Queue reads a shared level as a queue of Spot/Queue,
--     whose View follows it through Remove/Unlink, Place/Enqueue, Cancel/Unlink and Match/Dequeue.
--     Remove/Ladder reads the levels as a list of Spot/Ladder, which Remove/Neighbors and
--     Remove/Closing follow through the removal of a level. Claims and Locks are about what a trader
--     owns, Match/Conservation about what a match moves, Dust about an order without a lock.
--   Sample and the Tests modules: concrete accounts at which the theorems are applied.
--
-- No function runs on fuel: recursion is over lists of bytes, of orders, of prices, of fills and of
-- calls.
--
-- Not modelled: the deposits into shared wallets and the opening of shared books, the custody of
-- prediction collateral and the withdrawal of protocol fees, the set-up of markets and
-- administrators, market metadata and the test faucet, which have no definition here; events and
-- rent; the token program, which is a parameter of deposits and withdrawals; the indexer service and
-- the web application, which read the program's accounts from outside.
pub mod Errors
pub mod Base
pub mod State
pub mod Fees
pub mod Matching
pub mod Prediction
pub mod Shared
pub mod Spot
pub mod Sample
