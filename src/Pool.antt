-- ===== src/Pool.antt =====
-- internal/pool/pool.go: the in-memory pool of proxies, its scheduling snapshot and the selection of
-- a proxy.
pub mod State
pub mod Region
pub mod Layer
pub mod Prio
pub mod Rebuild
pub mod Keyed
pub mod Search
pub mod Swrr
pub mod Next
pub mod Change
pub mod Sticky
pub mod Report
pub mod Coherent
pub mod Keeps
pub mod Serve
pub mod Session
pub mod History
pub mod Effects
