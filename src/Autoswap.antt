-- ===== src/Autoswap.antt =====
-- internal/autoswap: the automatic swaps that keep the balances of channels and wallets.
pub mod Checks
pub mod Budget
pub mod Strategy
pub mod Lightning
pub mod Chain
pub mod Config
