-- ===== src/Device.antt =====
-- pkg/storm/plugins/device: the device authorization plugin.
pub mod UserCode
pub mod Approval
pub mod Consent
