-- ===== src/Lightz.antt =====
-- pkg/lightz: the types of the swap protocol and the client's own checks of what the server offers.
pub mod Types
pub mod Events
pub mod Fees
pub mod BlockTime
pub mod Pairs
pub mod SwapTree
