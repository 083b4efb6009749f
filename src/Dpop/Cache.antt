-- ===== src/Dpop/Cache.antt =====
-- pkg/storm/plugins/dpop/dpop.go: the cache of used jti values and of server nonces, and the
-- middleware. `time.Now()` is the argument `now` (nanoseconds since the Unix epoch); the mutex is
-- held throughout each operation, so an operation is one step.
use kexcore_oidc.Base.{
  ℕ, ◌+◌, ◌-◌, ◌*◌, ◌/◌, String, Bool, true, false, not, Option, none, some, List, [], ◌∷◌, ltb,
  leb, eqb, ◌==◌, if◌then◌else◌, length, get_elem?, Map, lookup, insert, delete, retain, sort,
  concat, ok, err,
}
use kexcore_oidc.Dpop.Proof.{Jose, Proof, max_proof_age, parse_proof}

pub record Plugin : Type 0 where
  pub used_nonces : Map ℕ
  pub nonces : Map ℕ

-- `NewWithConfig`.
unfoldable pub new_plugin : Plugin
new_plugin = record { used_nonces = []; nonces = [] }

abbrev pub max_nonce_cache_size : ℕ
max_nonce_cache_size = 10000

-- `NonceLifetime`: five minutes.
abbrev pub nonce_lifetime : ℕ
nonce_lifetime = 300 * 1000000000

-- `target := maxNonceCacheSize / 4; if target == 0 { target = 1 }`.
abbrev pub evict_target : ℕ
evict_target = let t : ℕ = max_nonce_cache_size / 4 in if eqb t 0 then 1 else t

-- `for _, t := range m { timestamps = append(timestamps, t) }`.
abbrev pub values : Map ℕ → List ℕ
values [] = []
values ((k, t) ∷ m) = t ∷ values m

-- The body that `evictOldestLocked` and `evictNoncesLocked` share, for any target. The index
-- target-1 is within the list, as the guard before it shows.
unfoldable pub evict_from : ℕ → Map ℕ → Map ℕ
evict_from target m =
    if ltb (length (values m)) target then m else elim (get_elem? (sort (values m)) (target - 1)) [
      | none ↦ m
      | some cutoff ↦ retain (λ t. ltb cutoff t) m
    ]

-- `evictOldestLocked`.
unfoldable pub evict_oldest : Plugin → Plugin
evict_oldest p = record p { used_nonces = evict_from evict_target p.used_nonces }

-- `evictNoncesLocked`.
unfoldable pub evict_nonces : Plugin → Plugin
evict_nonces p = record p { nonces = evict_from evict_target p.nonces }

-- `CleanupNonceCache`: `t.Before(now.Add(-age))` is written `t + age < now`.
unfoldable pub cleanup_nonce_cache : Plugin → ℕ → Plugin
cleanup_nonce_cache p now = record {
  used_nonces = retain (λ t. not (ltb (t + max_proof_age) now)) p.used_nonces;
  nonces = retain (λ t. not (ltb (t + nonce_lifetime) now)) p.nonces;
}

-- `GenerateNonce`, with the random text that it draws.
unfoldable pub generate_nonce : Plugin → String → ℕ → Plugin × String
generate_nonce p fresh now =
    let p1 = if leb max_nonce_cache_size (length p.nonces) then evict_nonces p else p in
    (record p1 { nonces = insert fresh now p1.nonces }, fresh)

-- `ValidateNonce`: `time.Since(t) > NonceLifetime` is written `t + nonce_lifetime < now`.
unfoldable pub validate_nonce : Plugin → String → ℕ → Plugin × Bool
validate_nonce p nonce now = if nonce == "" then (p, false) else elim (lookup nonce p.nonces) [
  | none ↦ (p, false)
  | some t ↦
      if ltb (t + nonce_lifetime) now
      then (record p { nonces = delete nonce p.nonces }, false)
      else (record p { nonces = delete nonce p.nonces }, true)
]

-- What the middleware reads of a request.
pub record Request : Type 0 where
  pub dpop_headers : List String
  pub method : String
  pub tls : Bool
  pub host : String
  pub url : String

pub data Response : Type 0 where
  -- The next handler runs, with the proof in its context if there is one.
  next : Option Proof → Response
  multiple_proofs invalid_proof replay_detected : Response

-- `scheme + "://" + r.Host + r.URL.String()`.
abbrev pub full_url : Request → String
full_url r = concat (if r.tls then "https" else "http") (concat "://" (concat r.host r.url))

-- The locked part of the middleware: replay detection, eviction, record.
unfoldable pub check_replay : Plugin → Proof → ℕ → Plugin × Response
check_replay p proof now = elim (lookup proof.unique_id p.used_nonces) [
  | some t ↦ (p, replay_detected)
  | none ↦
      let p1 = if leb max_nonce_cache_size (length p.used_nonces) then evict_oldest p else p in
      (record p1 { used_nonces = insert proof.unique_id now p1.used_nonces }, next (some proof))
]

-- `Middleware`.
unfoldable pub middleware : Jose → Plugin → Request → ℕ → Plugin × Response
middleware j p r now = elim r.dpop_headers [
  | [] ↦ (p, next none)
  | h ∷ hs ↦ elim hs [
    | [] ↦ elim (parse_proof j h r.method (full_url r) now) [
      | ok proof ↦ check_replay p proof now
      | err e ↦ (p, invalid_proof)
    ]
    | h' ∷ rest ↦ (p, multiple_proofs)
  ]
]
