-- ===== src/Onchain.antt =====
-- internal/onchain: the chain providers behind one interface, and the wallets of the client.
pub mod Chain
pub mod Fee
pub mod MultiChain
pub mod Wallets
