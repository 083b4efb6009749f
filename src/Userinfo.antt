-- ===== src/Userinfo.antt =====
-- pkg/storm/plugins/userinfo: the UserInfo endpoint.
pub mod Info
pub mod Jwt
pub mod Endpoint
pub mod Possession
pub mod Issued
