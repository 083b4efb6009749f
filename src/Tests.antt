-- ===== src/Tests.antt =====
-- Examples on concrete inputs, one module per part of the program.
mod Dpop
mod Verifier
mod AuthRequest
mod RateLimit
mod Grants
mod Device
mod Assertion
mod Approval
mod Store
mod Codes
mod Ciba
mod Issue
mod Token
mod EndSession
mod Userinfo
