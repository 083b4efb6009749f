-- ===== src/Token.antt =====
-- The token endpoint as a whole: pkg/storm/plugins/token/token.go, handleToken.
pub mod Handler
pub mod Restricted
