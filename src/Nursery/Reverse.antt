-- ===== src/Nursery/Reverse.antt =====
-- internal/nursery/reverse.go: the life of a reverse swap. The client pays a Lightning invoice, the
-- server locks coins on chain, and the client claims them with the preimage, or is paid directly.
pub mod World
pub mod Payment
pub mod Guard
pub mod Status
pub mod Blocks
pub mod Earned
pub mod Invariant
