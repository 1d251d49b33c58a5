-- ===== src/Rpc.antt =====
-- internal/rpcserver: the requests of the RPC interface.
pub mod Request
pub mod Reverse
