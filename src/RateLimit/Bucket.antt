-- ===== src/RateLimit/Bucket.antt =====
-- pkg/storm/ratelimit.go: what one operation does to the bucket of a key.
use kexcore_oidc.Base.{
  ℕ, ◌≤◌, ◌<◌, String, ◌≡◌, refl, sym, ap, ◌∙◌, ◌≢◌, ◌↔◌, inl, inr, Bool, true, false, Option, none,
  some, List, [], ◌∷◌, ◌++◌, arith, eq_iff, ltb, leb, ◌==◌, if◌then◌else◌, Bool-cases, length, keep,
  any, length-keep, keep-keep, lookup, lookup-insert, filter_option, lookup-retain,
}
use kexcore_oidc.RateLimit.{RateLimiter, is_alive, or_empty, allow, cleanup_tick}

unfoldable pub bucket_of : RateLimiter → String → List ℕ
bucket_of rl k = or_empty (lookup k rl.buckets)

-- What a grant history and a bucket have in common: from `t0` on they agree on what is alive.
abbrev pub Agrees : ℕ → ℕ → List ℕ → List ℕ → Type 0
Agrees w t0 b hist = (now : ℕ) → t0 ≤ now → keep (is_alive w now) b ≡ keep (is_alive w now) hist

-- What is alive later was alive before.
pub keep-later :
    (w t now : ℕ) (b : List ℕ)
    → t ≤ now
    → keep (is_alive w now) (keep (is_alive w t) b) ≡ keep (is_alive w now) b
keep-later w t now b h = keep-keep (is_alive w now) (is_alive w t) (λ ts p. ground arith) b

pub length-later :
    (w t now : ℕ) (b : List ℕ)
    → t ≤ now
    → length (keep (is_alive w now) b) ≤ length (keep (is_alive w t) b)
length-later w t now b h = omega (
  arith,
  ap length (keep-later w t now b h),
  length-keep (is_alive w now) (keep (is_alive w t) b),
)

-- A bucket with nothing alive has nothing alive later.
any-keep : (p : ℕ → Bool) (b : List ℕ) → any p b ≡ false → keep p b ≡ []
any-keep p [] h = refl
any-keep p (x ∷ b) h = ground (arith, any-keep p b)

keep-expired :
    (w t now : ℕ) (b : List ℕ)
    → t ≤ now
    → any (is_alive w t) b ≡ false
    → keep (is_alive w now) b ≡ []
keep-expired w t now b h dead =
    sym (keep-later w t now b h) ∙ ap (keep (is_alive w now)) (any-keep (is_alive w t) b dead)

keep-filter_option :
    (w t now : ℕ) (o : Option (List ℕ))
    → t ≤ now
    → keep (is_alive w now) (or_empty (filter_option (any (is_alive w t)) o))
      ≡ keep (is_alive w now) (or_empty o)
keep-filter_option w t now none h = refl
keep-filter_option w t now (some b) h = ground (arith, keep-expired w t now b h)

-- A tick of the cleanup loop hides nothing that is alive then or later.
pub bucket_of-tick :
    (rl : RateLimiter) (t : ℕ) (k : String)
    → Agrees rl.window t (bucket_of (cleanup_tick rl t) k) (bucket_of rl k)
unfolding bucket_of cleanup_tick
bucket_of-tick rl t k now h =
    rw lookup-retain (keep-filter_option rl.window t now (lookup k rl.buckets) h)

-- After a request the bucket holds what was alive, and the request's own time if it passed.
pub bucket_of-allow :
    (rl : RateLimiter) (j k : String) (t : ℕ)
    → let valid = keep (is_alive rl.window t) (bucket_of rl j) in
      bucket_of (allow rl j t).0 k
      ≡ (if j == k then (if (allow rl j t).1 then valid ++ t ∷ [] else valid) else bucket_of rl k)
unfolding bucket_of allow
bucket_of-allow rl j k t =
    elim (Bool-cases
      (leb rl.rate (length (keep (is_alive rl.window t) (or_empty (lookup j rl.buckets)))))) [
        | inl e ↦ rw (e, lookup-insert) (ground arith)
        | inr e ↦ rw (e, lookup-insert) (ground arith)
      ]

-- A request passes exactly when fewer than `rate` of the times in its bucket are alive.
pub allow_iff :
    (rl : RateLimiter) (k : String) (t : ℕ)
    → ((allow rl k t).1 ≡ true) ↔ (length (keep (is_alive rl.window t) (bucket_of rl k)) < rl.rate)
unfolding bucket_of allow
allow_iff rl k t = ground arith

allow-answer :
    (rl : RateLimiter) (k : String) (t : ℕ)
    → (allow rl k t).1 ≡ ltb (length (keep (is_alive rl.window t) (bucket_of rl k))) rl.rate
unfolding bucket_of allow
allow-answer rl k t = ground arith

-- A tick of the cleanup loop is invisible: at any later time a request of any key is answered as
-- it would have been without the tick.
pub cleanup_tick-invisible :
    (rl : RateLimiter) (t now : ℕ) (k : String)
    → t ≤ now
    → (allow (cleanup_tick rl t) k now).1 ≡ (allow rl k now).1
unfolding cleanup_tick
cleanup_tick-invisible rl t now k h =
    allow-answer (cleanup_tick rl t) k now
    ∙ ap (λ (l : List ℕ). ltb (length l) rl.rate) (bucket_of-tick rl t k now h)
    ∙ sym (allow-answer rl k now)

-- A request touches no bucket but its own key's.
pub allow-other_keys :
    (rl : RateLimiter) (j k : String) (now : ℕ)
    → j ≢ k
    → bucket_of (allow rl j now).0 k ≡ bucket_of rl k
allow-other_keys rl j k now ne = rw (bucket_of-allow rl j k now) (ground (arith, eq_iff j k))
