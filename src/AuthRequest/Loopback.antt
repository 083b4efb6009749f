-- ===== src/AuthRequest/Loopback.antt =====
-- pkg/storm/shared/authrequest.go: the tests of hosts, schemes and methods behind redirect URIs.
use kexcore_oidc.Base.{
  String, subst, if◌then◌else◌, ◌≡◌, refl, ◌↔◌, ◌⊎◌, inl, inr, Bool, true, false, ◌||◌, Option,
  none, some, List, [], ◌∷◌, arith, eq_iff, ◌==◌, Option-cases, Listed, contains_iff,
}
use kexcore_oidc.Client.{
  AuthMethod, basic, private_key_jwt, post, public, tls_client_auth, self_signed_tls, other_method,
}
use kexcore_oidc.AuthRequest.Redirect.{
  Url, Net, is_localhost, same_base, is_legacy_confidential, http_loopback_or_localhost,
}

-- The registered URI has no query, and the scheme, host and path of the requested one.
abbrev pub HasBase : (reg req : Url) → Type 0
HasBase reg req =
    (reg.raw_query ≡ "")
    × ((reg.scheme ≡ req.scheme) × ((reg.host ≡ req.host) × (reg.path ≡ req.path)))

pub same_base_iff : (reg req : Url) → (same_base reg req ≡ true) ↔ HasBase reg req
same_base_iff reg req =
    let q = eq_iff reg.raw_query "" in
    let s = eq_iff reg.scheme req.scheme in
    let h = eq_iff reg.host req.host in
    let p = eq_iff reg.path req.path in
    (λ e. ground (arith, q, s, h, p), λ e. ground (arith, q, s, h, p))

-- The names of the local host.
abbrev pub local_hosts : List String
local_hosts = "localhost" ∷ "127.0.0.1" ∷ "::1" ∷ []

pub is_localhost-Listed : (host : String) → is_localhost host ≡ true → Listed host local_hosts
unfolding is_localhost
is_localhost-Listed host e = (contains_iff local_hosts host).0 (
    ground (
      arith,
      eq_iff host "localhost",
      eq_iff "localhost" host,
      eq_iff host "127.0.0.1",
      eq_iff "127.0.0.1" host,
      eq_iff host "::1",
      eq_iff "::1" host,
    ))

pub is_legacy_confidential-method :
    (m : AuthMethod) → is_legacy_confidential m ≡ true → (m ≡ basic) ⊎ (m ≡ private_key_jwt)
is_legacy_confidential-method basic e = inl refl
is_legacy_confidential-method private_key_jwt e = inr refl
is_legacy_confidential-method post e = absurd (cc)
is_legacy_confidential-method public e = absurd (cc)
is_legacy_confidential-method tls_client_auth e = absurd (cc)
is_legacy_confidential-method self_signed_tls e = absurd (cc)
is_legacy_confidential-method (other_method o) e = absurd (cc)

module _ (n : Net) where
  open n use {query_unescape, parse_url, glob_match, is_loopback_ip}

  -- An http or https URL whose host is localhost or a loopback address.
  abbrev pub IsLoopback : (uri : String) → Url → Type 0
  IsLoopback uri u =
      (parse_url uri ≡ some u)
      × (((u.scheme ≡ "http") ⊎ (u.scheme ≡ "https"))
          × ((u.hostname ≡ "localhost") ⊎ (is_loopback_ip u.hostname ≡ true)))

  pub local_url-IsLoopback :
      (uri : String) (u : Url)
      → http_loopback_or_localhost n uri ≡ (some u, true)
      → IsLoopback uri u
  unfolding http_loopback_or_localhost
  local_url-IsLoopback uri u e = elim (Option-cases (parse_url uri)) [
    | inl missing ↦ absurd (none_parsed (rw (http_loopback_or_localhost, missing) at e))
    | inr (v, parsed) ↦
        by_scheme v parsed ((v.scheme == "http") || (v.scheme == "https")) refl
          (rw (http_loopback_or_localhost, parsed) at e)
  ]
    where
      none_parsed : ◌≡◌ {A = Option Url × Bool} (none, false) (some u, true) → ⊥
      none_parsed p = cc

      by_scheme :
          (v : Url)
          → parse_url uri ≡ some v
          → (b : Bool) → ((v.scheme == "http") || (v.scheme == "https")) ≡ b
          → ◌≡◌ {A = Option Url × Bool}
              (if b
                then (some v, (v.hostname == "localhost") || is_loopback_ip v.hostname)
                else (none, false))
              (some u, true)
          → IsLoopback uri u
      by_scheme v parsed false h p = absurd (none_parsed p)
      by_scheme v parsed true h p =
          let same : v ≡ u = cc in
          let local : ((v.hostname == "localhost") || is_loopback_ip v.hostname) ≡ true = cc in
          subst (IsLoopback uri) same (
            parsed,
            (
              ground (arith, eq_iff v.scheme "http", eq_iff v.scheme "https", h),
              ground (arith, eq_iff v.hostname "localhost", local),
            ),
          )

  pub local_flag-IsLoopback :
      (uri : String) (u : Url)
      → parse_url uri ≡ some u
      → (http_loopback_or_localhost n uri).1 ≡ true
      → IsLoopback uri u
  unfolding http_loopback_or_localhost
  local_flag-IsLoopback uri u parsed e =
      by_scheme ((u.scheme == "http") || (u.scheme == "https")) refl
        (rw (http_loopback_or_localhost, parsed) at e)
    where
      by_scheme :
          (b : Bool)
          → ((u.scheme == "http") || (u.scheme == "https")) ≡ b
          → (if◌then◌else◌ {A = Option Url × Bool} b
              (some u, (u.hostname == "localhost") || is_loopback_ip u.hostname)
              (none, false)).1
            ≡ true
          → IsLoopback uri u
      by_scheme false h p = absurd (cc)
      by_scheme true h p = (
        parsed,
        (
          ground (arith, eq_iff u.scheme "http", eq_iff u.scheme "https", h),
          ground (arith, eq_iff u.hostname "localhost", p),
        ),
      )
