-- ===== src/Tests.antt =====
-- Concrete inputs of the theorems.
mod Fixtures
mod Chains
mod Swaps
mod Reverses
mod ChainSwaps
mod Autoswaps
mod Trees
mod Queries
mod Requests
