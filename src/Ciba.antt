-- ===== src/Ciba.antt =====
-- Client-initiated backchannel authentication: pkg/storm/plugins/ciba, and handleCIBA of
-- pkg/storm/plugins/token.
pub mod Store
pub mod Duration
pub mod Redeem
pub mod Object
pub mod Authorize
pub mod Approval
pub mod Redeemed
pub mod Spent
pub mod Once
pub mod Begun
