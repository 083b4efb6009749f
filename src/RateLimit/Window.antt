-- ===== src/RateLimit/Window.antt =====
-- pkg/storm/ratelimit.go: how many requests of a key pass within a window.
use kexcore_oidc.Base.{
  ℕ, ◌≤◌, String, ◌≡◌, refl, sym, ap, ◌∙◌, inl, inr, Bool, true, false, ◌&&◌, List, [], ◌∷◌, ◌++◌,
  arith, eq_iff, ◌==◌, if◌then◌else◌, Bool-cases, length, keep, length-append, length-keep,
  keep-append, lookup,
}
use mathlib.Core.List.{append-nil, append_assoc}
use mathlib.Core.Bool.{and-true, and-false}
use kexcore_oidc.RateLimit.Bucket.{
  bucket_of, Agrees, keep-later, length-later, bucket_of-tick, bucket_of-allow, allow_iff,
}
use kexcore_oidc.RateLimit.{RateLimiter, new_rate_limiter, is_alive, allow, cleanup_tick}

-- What happens to a limiter: a request of a key, or a tick of the cleanup loop, at a time.
pub data Event : Type 0 where
  request : String → ℕ → Event
  tick : ℕ → Event

abbrev pub time_of : Event → ℕ
time_of (request k t) = t
time_of (tick t) = t

-- The clock does not run backwards.
abbrev pub Ordered : ℕ → List Event → Type 0
Ordered t0 [] = Unit
Ordered t0 (e ∷ es) = (t0 ≤ time_of e) × Ordered (time_of e) es

abbrev pub last_time : ℕ → List Event → ℕ
last_time t0 [] = t0
last_time t0 (e ∷ es) = last_time (time_of e) es

-- The times at which requests of `k` were let through.
unfoldable pub grants : RateLimiter → List Event → String → List ℕ
grants rl [] k = []
grants rl (request j t ∷ es) k =
    let rest = grants (allow rl j t).0 es k in
    if (allow rl j t).1 && (j == k) then t ∷ rest else rest
grants rl (tick t ∷ es) k = grants (cleanup_tick rl t) es k

-- The step of the induction, for the bucket of the request's own key.
Agrees-grant :
    (w t0 t : ℕ) (b hist : List ℕ)
    → t0 ≤ t
    → Agrees w t0 b hist
    → Agrees w t (keep (is_alive w t) b ++ t ∷ []) (hist ++ t ∷ [])
Agrees-grant w t0 t b hist h a now hn =
    rw (keep-append, keep-append)
      (ap (λ (l : List ℕ). l ++ keep (is_alive w now) (t ∷ []))
        (keep-later w t now b hn ∙ a now (omega arith)))

Agrees-deny :
    (w t0 t : ℕ) (b hist : List ℕ)
    → t0 ≤ t
    → Agrees w t0 b hist
    → Agrees w t (keep (is_alive w t) b) hist
Agrees-deny w t0 t b hist h a now hn = keep-later w t now b hn ∙ a now (omega arith)

allow-keeps_config :
    (rl : RateLimiter) (j : String) (t : ℕ)
    → ((allow rl j t).0.window ≡ rl.window) × ((allow rl j t).0.rate ≡ rl.rate)
unfolding allow
allow-keeps_config rl j t = ground arith

-- Everything that the induction carries about one key: the bucket and the history of grants agree
-- on what is alive, and no more than `rate` grants are.
record Tracks (rl : RateLimiter) (k : String) (t0 : ℕ) (hist : List ℕ) : Type 0 where
  agrees : Agrees rl.window t0 (bucket_of rl k) hist
  bounded : length (keep (is_alive rl.window t0) hist) ≤ rl.rate

-- The history after a request.
abbrev grow : Bool → ℕ → List ℕ → List ℕ
grow true t hist = hist ++ t ∷ []
grow false t hist = hist

module _ (rl : RateLimiter) (k : String) (t0 t : ℕ) (hist : List ℕ) (h : t0 ≤ t)
    (v : Tracks rl k t0 hist) where
  still_bounded : length (keep (is_alive rl.window t) hist) ≤ rl.rate
  still_bounded = omega (arith, v.bounded, length-later rl.window t0 t hist h)

  Tracks-tick : Tracks (cleanup_tick rl t) k t hist
  unfolding cleanup_tick
  Tracks-tick = record {
    agrees = λ now hn. bucket_of-tick rl t k now hn ∙ v.agrees now (omega arith);
    bounded = still_bounded;
  }

  -- The bucket of the request's key, and the bound, when the request passes and when it does not.
  Agrees-own : Agrees rl.window t (bucket_of (allow rl k t).0 k) (grow (allow rl k t).1 t hist)
  Agrees-own = elim (Bool-cases (allow rl k t).1) [
    | inl e ↦
        rw (bucket_of-allow rl k k t, e, (eq_iff k k).1 refl)
          (Agrees-grant rl.window t0 t (bucket_of rl k) hist h v.agrees)
    | inr e ↦
        rw (bucket_of-allow rl k k t, e, (eq_iff k k).1 refl)
          (Agrees-deny rl.window t0 t (bucket_of rl k) hist h v.agrees)
  ]

  bounded-own : length (keep (is_alive rl.window t) (grow (allow rl k t).1 t hist)) ≤ rl.rate
  bounded-own = elim (Bool-cases (allow rl k t).1) [
    | inl e ↦
        rw (e, keep-append, length-append)
          (omega (
            arith,
            (allow_iff rl k t).0 e,
            ap length (v.agrees t h),
            length-keep (is_alive rl.window t) (t ∷ []),
          ))
    | inr e ↦ rw e still_bounded
  ]

  Tracks-own : Tracks (allow rl k t).0 k t (grow (allow rl k t).1 t hist)
  Tracks-own = record {
    agrees = rw (allow-keeps_config rl k t).0 Agrees-own;
    bounded = rw ((allow-keeps_config rl k t).0, (allow-keeps_config rl k t).1) bounded-own;
  }

  Tracks-other : (j : String) → (j == k) ≡ false → Tracks (allow rl j t).0 k t hist
  Tracks-other j e = record {
    agrees =
        rw ((allow-keeps_config rl j t).0, bucket_of-allow rl j k t, e)
          (λ now hn. v.agrees now (omega arith));
    bounded = rw ((allow-keeps_config rl j t).0, (allow-keeps_config rl j t).1) still_bounded;
  }

append-grow :
    (passed : Bool) (t : ℕ) (hist rest : List ℕ)
    → hist ++ (if passed then t ∷ rest else rest) ≡ grow passed t hist ++ rest
append-grow true t hist rest = sym (append_assoc hist (t ∷ []) rest)
append-grow false t hist rest = refl

Tracks-request :
    (rl : RateLimiter) (j k : String) (t0 t : ℕ) (hist : List ℕ)
    → t0 ≤ t
    → Tracks rl k t0 hist
    → Tracks (allow rl j t).0 k t (grow ((allow rl j t).1 && (j == k)) t hist)
Tracks-request rl j k t0 t hist h v = elim (Bool-cases (j == k)) [
  | inl e ↦
      let same : j ≡ k = (eq_iff j k).0 e in rw (e, same, and-true) (Tracks-own rl k t0 t hist h v)
  | inr e ↦ rw (e, and-false) (Tracks-other rl k t0 t hist h v j e)
]

rebase :
    (w w' r r' now : ℕ) (l : List ℕ)
    → w ≡ w'
    → r ≡ r'
    → length (keep (is_alive w now) l) ≤ r
    → length (keep (is_alive w' now) l) ≤ r'
rebase w w' r r' now l ew er h = rw (← ew, ← er) h

grants-bounded :
    (es : List Event) (rl : RateLimiter) (k : String) (t0 : ℕ) (hist : List ℕ)
    → Ordered t0 es
    → Tracks rl k t0 hist
    → (now : ℕ) → last_time t0 es ≤ now
    → length (keep (is_alive rl.window now) (hist ++ grants rl es k)) ≤ rl.rate
unfolding grants cleanup_tick
grants-bounded [] rl k t0 hist o v now hn =
    rw append-nil (omega (arith, v.bounded, length-later rl.window t0 now hist hn))
grants-bounded (tick t ∷ es) rl k t0 hist o v now hn =
    grants-bounded es (cleanup_tick rl t) k t hist o.1 (Tracks-tick rl k t0 t hist o.0 v) now hn
grants-bounded (request j t ∷ es) rl k t0 hist o v now hn =
    let rl' = (allow rl j t).0 in
    let hist' = grow ((allow rl j t).1 && (j == k)) t hist in
    let later =
      grants-bounded es rl' k t hist' o.1 (Tracks-request rl j k t0 t hist o.0 v) now hn in
    let config = allow-keeps_config rl j t in
    rw (append-grow ((allow rl j t).1 && (j == k)) t hist (grants rl' es k)) (
      rebase rl'.window rl.window rl'.rate rl.rate now (hist' ++ grants rl' es k) config.0 config.1
        later)

new-Tracks : (rate window : ℕ) (k : String) → Tracks (new_rate_limiter rate window) k 0 []
unfolding new_rate_limiter bucket_of
new-Tracks rate window k = record {
  agrees = λ now hn. unfold lookup in refl;
  bounded = omega arith;
}

-- A limiter of `rate` requests per `window`, with its cleanup loop ticking at any times: whatever
-- the requests, at every moment after them at most `rate` requests of one key that passed lie
-- within the window that ends then.
pub grants_within_window :
    (rate window : ℕ) (es : List Event) (k : String) (now : ℕ)
    → Ordered 0 es
    → last_time 0 es ≤ now
    → length (keep (is_alive window now) (grants (new_rate_limiter rate window) es k)) ≤ rate
grants_within_window rate window es k now o hn =
    unfold new_rate_limiter in
    grants-bounded es (new_rate_limiter rate window) k 0 [] o (new-Tracks rate window k) now hn
