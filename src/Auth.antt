-- ===== src/Auth.antt =====
-- internal/auth/auth.go: accounts, their passwords and tokens.
pub mod Password
pub mod Secret
pub mod State
pub mod Change
pub mod Sound
pub mod Keeps
pub mod Methods
pub mod History
