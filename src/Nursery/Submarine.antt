-- ===== src/Nursery/Submarine.antt =====
-- internal/nursery/swap.go: the life of a submarine swap. The client pays on chain, the server pays
-- the client's Lightning invoice; a failed swap is refunded.
pub mod World
pub mod Lockup
pub mod Claim
pub mod Status
pub mod Invariant
pub mod Completion
