-- ===== src/Grants/Limit.antt =====
-- pkg/storm/plugins/token/token.go: checkClientRateLimit is the limiter of pkg/storm/ratelimit.go.
use kexcore_oidc.Base.{
  ℕ, ◌≡◌, ◌≢◌, Bool, some, List, arith, eqb, if◌then◌else◌, Map, Result, ok, err,
}
use kexcore_oidc.OidcError.{OidcError, slow_down}
use kexcore_oidc.Client.{Client}
use kexcore_oidc.RateLimit.{RateLimiter, allow}
use kexcore_oidc.Grants.Endpoint.{check_client_rate_limit}

-- The limiter that a client's limit amounts to, over the timestamps of all clients.
abbrev pub limiter_of : Map (List ℕ) → (limit : ℕ × ℕ) → RateLimiter
limiter_of limits limit = record {
  buckets = limits;
  rate = limit.0;
  window = if eqb limit.1 0 then 60000000000 else limit.1;
}

abbrev pub verdict : RateLimiter × Bool → Map (List ℕ) × Result OidcError (Unit {0})
verdict (rl, allowed) = (rl.buckets, if allowed then ok tt else err slow_down)

-- For a client with a positive limit the check is the general rate limiter with the client's limit
-- and window (one minute where the client states none), on the key of the client's id.
pub check_client_rate_limit-allow :
    (limits : Map (List ℕ)) (c : Client) (limit : ℕ × ℕ) (now : ℕ)
    → c.rate_limit ≡ some limit
    → limit.0 ≢ 0
    → check_client_rate_limit limits c now ≡ verdict (allow (limiter_of limits limit) c.id now)
unfolding check_client_rate_limit allow
check_client_rate_limit-allow limits c limit now h positive = ground arith
