-- ===== src/Revocation.antt =====
-- pkg/storm/plugins/revocation and pkg/storm/plugins/introspection: the two endpoints that take a token.
pub mod Endpoint
pub mod Encoded
