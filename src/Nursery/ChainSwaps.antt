-- ===== src/Nursery/ChainSwaps.antt =====
-- internal/nursery/chain.go: the life of a chain swap. The client locks coins on one chain, the server
-- locks coins on the other, which the client claims; a failed swap gets a new quote or is refunded.
pub mod World
pub mod Lockup
pub mod Quote
pub mod Status
pub mod Blocks
pub mod Invariant
pub mod Claim
