-- ===== src/Database.antt =====
-- internal/database: the records of the three kinds of swaps, and the setters that change a record in
-- memory and its row in one call.
pub mod Optional
pub mod Swap
pub mod ChainSwap
pub mod ReverseSwap
pub mod Query
