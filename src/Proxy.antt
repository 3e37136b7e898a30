-- ===== src/Proxy.antt =====
-- internal/proxy: what a client session does.
pub mod Transaction
pub mod Service
pub mod Local
pub mod Fanout
pub mod Keyspace
pub mod Dispatch
pub mod Pipeline
pub mod Wiring
