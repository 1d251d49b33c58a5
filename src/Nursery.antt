-- ===== src/Nursery.antt =====
-- internal/nursery: the state machines that carry each swap from its creation to a claim, a refund
-- or a failure.
pub mod Handler
pub mod Transactions
pub mod Refunds
pub mod Amounts
pub mod ChainSwaps
pub mod Submarine
pub mod Direct
pub mod Reverse
