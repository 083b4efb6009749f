-- ===== src/Verifier.antt =====
-- pkg/protocol/verifier.go: the checks that every token goes through. The time is the argument `now`,
-- in nanoseconds since the Unix epoch; durations are nanoseconds and not negative; a claim's time is
-- in seconds, and 0 is an absent claim.
pub mod Checks
pub mod Token
pub mod Soundness
pub mod Assertion
