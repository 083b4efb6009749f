-- ===== src/Tests/RateLimit.antt =====
-- pkg/storm/ratelimit.go: two requests and a tick.
use kexcore_oidc.Base.{
  ◌≤◌, ◌<◌, String, ◌≡◌, refl, ◌≢◌, ◌↔◌, Bool, true, false, List, [], ◌∷◌, arith, eq_iff, length,
  keep, lookup, insert, retain,
}
use kexcore_oidc.RateLimit.{RateLimiter, new_rate_limiter, is_alive, allow, cleanup_tick}
use kexcore_oidc.RateLimit.Window.{Event, request, tick, grants, grants_within_window}
use kexcore_oidc.RateLimit.Bucket.{bucket_of, allow_iff}

abbrev events : List Event
events = request "a" 1 ∷ request "a" 2 ∷ tick 5 ∷ request "a" 20 ∷ []

granted : grants (new_rate_limiter 1 10) events "a" ≡ 1 ∷ 20 ∷ []
unfolding grants new_rate_limiter allow lookup insert cleanup_tick retain
granted = refl

grants_within_window_example :
    length (keep (is_alive 10 25) (grants (new_rate_limiter 1 10) events "a")) ≤ 1
grants_within_window_example =
    grants_within_window 1 10 events "a" 25
      (omega arith, (omega arith, (omega arith, (omega arith, tt)))) (omega arith)

abbrev one_request : RateLimiter
one_request = record { buckets = ("a", 1 ∷ []) ∷ []; rate = 1; window = 10 }

abbrev key_a : String
key_a = "a"

a-b : key_a ≢ "b"
a-b e = false-true ((eq_iff "a" "b").1 e)
  where
    false-true : ◌≡◌ {A = Bool} false true → ⊥
    false-true h = cc

allow_iff_example :
    ((allow one_request "a" 5).1 ≡ true)
    ↔ (length (keep (is_alive 10 5) (bucket_of one_request "a")) < 1)
allow_iff_example = allow_iff one_request "a" 5
