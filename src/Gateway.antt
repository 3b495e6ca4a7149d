-- ===== src/Gateway.antt =====
-- internal/gateway/gateway.go: the forward proxy that serves the clients of a group.
pub mod Creds
pub mod Direct
pub mod Relay
pub mod Retry
pub mod Answers
