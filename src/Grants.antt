-- ===== src/Grants.antt =====
-- pkg/storm/plugins/token and the helpers of pkg/storm/shared that its handlers call.
pub mod Binding
pub mod Endpoint
pub mod Bound
pub mod Admission
pub mod Limit
pub mod ClientAuth
pub mod Assertion
pub mod DeviceCode
pub mod Polling
pub mod Plugin
pub mod Code
pub mod Checks
pub mod Refresh
pub mod Frame
pub mod Exchanged
pub mod Reuse
pub mod Renewed
pub mod Bearer
pub mod Exchange
