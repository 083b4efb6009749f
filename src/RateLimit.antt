-- ===== src/RateLimit.antt =====
-- pkg/storm/ratelimit.go: the sliding-window limiter of the engine. `time.Now()` is the argument
-- `now`, in any unit counted from a fixed origin, and `ts.After(now.Add(-window))` is written
-- `now < ts + window`, which is the same over the integers.
pub mod Bucket
pub mod Window
use kexcore_oidc.Base.{
  ℕ, zero, suc, ◌+◌, ◌-◌, ◌*◌, ◌/◌, ◌%◌, ◌≤◌, ◌<◌, String, ◌≡◌, refl, sym, ap, ◌∙◌, fun_ext, ◌≢◌,
  ◌↔◌, ◌⊎◌, inl, inr, Bool, true, false, ◌&&◌, ◌||◌, not, Option, none, some, List, [], ◌∷◌, ◌++◌,
  map, arith, eq_iff, ltb, leb, eqb, ◌==◌, ◌!=◌, if◌then◌else◌, Bool-cases, Option-cases, contains,
  Listed, contains_iff, length, get_elem?, keep, any, length-append, length-keep, keep-append,
  keep-keep, All, Map, lookup, insert, delete, retain, lookup-insert, lookup-delete, length-insert,
  length-delete, length-retain,
}

pub record RateLimiter : Type 0 where
  pub buckets : Map (List ℕ)
  pub rate : ℕ
  pub window : ℕ

-- `NewRateLimiter`.
unfoldable pub new_rate_limiter : ℕ → ℕ → RateLimiter
new_rate_limiter rate window = record { buckets = []; rate = rate; window = window }

-- `ts.After(cutoff)` with `cutoff := now.Add(-window)`.
abbrev pub is_alive : ℕ → ℕ → ℕ → Bool
is_alive window now ts = ltb now (ts + window)

abbrev pub or_empty : Option (List ℕ) → List ℕ
or_empty none = []
or_empty (some b) = b

-- `Allow`.
unfoldable pub allow : RateLimiter → String → ℕ → RateLimiter × Bool
allow rl key now =
    let b = or_empty (lookup key rl.buckets) in
    let valid = keep (is_alive rl.window now) b in
    if leb rl.rate (length valid)
    then (record rl { buckets = insert key valid rl.buckets }, false)
    else (record rl { buckets = insert key (valid ++ now ∷ []) rl.buckets }, true)

-- One tick of `cleanupLoop`: a bucket with no timestamp inside the window is deleted.
unfoldable pub cleanup_tick : RateLimiter → ℕ → RateLimiter
cleanup_tick rl now = record rl { buckets = retain (any (is_alive rl.window now)) rl.buckets }

pub data Response : Type 0 where
  served too_many_requests : Response

-- `Middleware`, over the key that `clientIP` gives.
unfoldable pub middleware : RateLimiter → String → ℕ → RateLimiter × Response
middleware rl key now =
    let (rl', allowed) = allow rl key now in (rl', if allowed then served else too_many_requests)

-- The part of a text before its first comma, as the loop of `clientIP` over X-Forwarded-For.
unfoldable pub before_comma : List ℕ → List ℕ
before_comma [] = []
before_comma (c ∷ s) = elim (eqb c b',') [ true ↦ [] | false ↦ c ∷ before_comma s ]

-- The part of a text before its last colon, if there is one: the loop over RemoteAddr, which runs
-- from the right.
unfoldable pub before_last_colon : List ℕ → Option (List ℕ)
before_last_colon [] = none
before_last_colon (c ∷ s) = elim (before_last_colon s) [
  | some r ↦ some (c ∷ r)
  | none ↦ if eqb c b':' then some [] else none
]

-- `clientIP` over the two headers (empty if absent) and RemoteAddr.
unfoldable pub client_ip : List ℕ → List ℕ → List ℕ → List ℕ
unfolding before_comma before_last_colon
client_ip (c ∷ xff) xri addr = before_comma (c ∷ xff)
client_ip [] (c ∷ xri) addr = c ∷ xri
client_ip [] [] addr = elim (before_last_colon addr) [ some r ↦ r | none ↦ addr ]
