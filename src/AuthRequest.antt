-- ===== src/AuthRequest.antt =====
-- pkg/storm/shared/authrequest.go: the validation of authorization requests.
pub mod Params
pub mod Redirect
pub mod Scopes
pub mod Loopback
pub mod Registered
