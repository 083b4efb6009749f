-- ===== src/Issue.antt =====
-- pkg/storm/plugins/token: the creation of tokens, once a grant handler has admitted a request.
pub mod Request
pub mod Audience
pub mod Host
pub mod Claims
pub mod Opaque
pub mod Response
pub mod Frame
pub mod Resolve
pub mod IdToken
