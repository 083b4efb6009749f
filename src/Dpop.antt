-- ===== src/Dpop.antt =====
-- pkg/storm/plugins/dpop: proof-of-possession of a key by a signed proof (RFC 9449).
pub mod Proof
pub mod Soundness
pub mod Cache
pub mod Eviction
pub mod Replay
pub mod Nonce
