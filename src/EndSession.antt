-- ===== src/EndSession.antt =====
-- pkg/storm/plugins/endsession: logout at the request of a client.
pub mod Logout
pub mod Redirect
