-- ===== src/AuthRequest/Redirect.antt =====
-- pkg/storm/shared/authrequest.go: validating the redirect URI. URL parsing, IP parsing and glob
-- matching are the parameter `Net`.
use kexcore_oidc.Base.{
  String, Bool, true, false, ◌&&◌, ◌||◌, not, Option, none, some, List, [], ◌∷◌, ◌==◌, ◌!=◌,
  if◌then◌else◌, contains, Result, ok, err, ◌>>=◌, ◌>>◌, require, expect,
}
use kexcore_oidc.OidcError.{OidcError, invalid_request_redirect_uri, server_error}
use kexcore_oidc.Client.{Client, AuthMethod, basic, private_key_jwt, holds}
use kexcore_oidc.AuthRequest.Params.{AuthRequest, validate_params_except_redirect_uri}

pub record Url : Type 0 where
  pub scheme : String
  pub host : String
  pub hostname : String
  pub path : String
  pub raw_query : String

-- net/url, net and doublestar.
pub record Net : Type 0 where
  -- `url.QueryUnescape`.
  pub query_unescape : String → Option String
  -- `url.Parse`.
  pub parse_url : String → Option Url
  -- `net.ParseIP(host).IsLoopback()`.
  pub is_loopback_ip : String → Bool
  -- `doublestar.Match(pattern, uri)`; `none` is a malformed pattern.
  pub glob_match : (pattern uri : String) → Option Bool

-- `IsLocalhost`.
unfoldable pub is_localhost : String → Bool
is_localhost host = (host == "localhost") || ((host == "127.0.0.1") || (host == "::1"))

-- Scheme, host and path are the same, and the registered URI has no query.
abbrev pub same_base : (reg req : Url) → Bool
same_base reg req =
    (reg.raw_query == "")
    && ((reg.scheme == req.scheme) && ((reg.host == req.host) && (reg.path == req.path)))

-- `equalURI` of two URLs that are not nil.
unfoldable pub equal_uri : Url → Url → Bool
equal_uri a b = (a.path == b.path) && (a.raw_query == b.raw_query)

-- The two methods of confidential clients that may use plain HTTP in the code flow.
abbrev pub is_legacy_confidential : AuthMethod → Bool
is_legacy_confidential basic = true
is_legacy_confidential private_key_jwt = true
is_legacy_confidential _ = false

module _ (n : Net) where
  open n use {query_unescape, parse_url, is_loopback_ip, glob_match}

  -- `HTTPLoopbackOrLocalhost`: the URL if it is http or https, and whether its host is loopback.
  unfoldable pub http_loopback_or_localhost : String → Option Url × Bool
  http_loopback_or_localhost raw = elim (parse_url raw) [
    | none ↦ (none, false)
    | some u ↦
        if (u.scheme == "http") || (u.scheme == "https")
        then (some u, (u.hostname == "localhost") || is_loopback_ip u.hostname)
        else (none, false)
  ]

  -- The loop over registered URIs for a match without query.
  abbrev pub base_matches : Url → List String → Bool
  base_matches req [] = false
  base_matches req (r ∷ rs) =
      let rest = base_matches req rs in
      elim (parse_url r) [ none ↦ rest | some reg ↦ same_base reg req || rest ]

  -- The part of `checkRedirectURIAgainstClient` over the registered URIs.
  abbrev pub matches_registered : String → Option (List String) → Bool
  matches_registered uri none = false
  matches_registered uri (some uris) =
      contains uris uri || elim (parse_url uri) [ none ↦ false | some req ↦ base_matches req uris ]

  -- The loop over the glob patterns; the first malformed one is an error.
  abbrev pub check_globs : String → List String → Result OidcError (Unit {0})
  check_globs uri [] = err invalid_request_redirect_uri
  check_globs uri (p ∷ ps) =
      let rest = check_globs uri ps in
      elim (glob_match p uri) [ none ↦ err server_error | some hit ↦ if hit then ok tt else rest ]

  -- `checkRedirectURIAgainstClient`.
  unfoldable pub check_redirect_uri_against_client : Client → String → Result OidcError (Unit {0})
  check_redirect_uri_against_client c uri =
      if matches_registered uri c.redirect_uris then ok tt else elim c.redirect_uri_globs [
        | none ↦ err invalid_request_redirect_uri
        | some globs ↦ check_globs uri globs
      ]

  -- The schemes that `validateRedirectURIWeb` lets through to the registration check.
  abbrev pub web_scheme_allowed : Client → Url → (response_type : String) → Bool
  web_scheme_allowed c u response_type =
      (u.scheme == "https")
      || ((u.scheme == "http")
          && (is_localhost u.hostname
              || (holds c.dev_mode
                  || ((response_type == "code") && is_legacy_confidential c.auth_method))))

  -- `validateRedirectURIWeb`.
  unfoldable pub validate_redirect_uri_web :
      Client → (uri response_type : String) → Result OidcError (Unit {0})
  validate_redirect_uri_web c uri response_type = do
    u ← expect (parse_url uri) invalid_request_redirect_uri
    require ((u.scheme == "http") || (u.scheme == "https")) invalid_request_redirect_uri
    require (web_scheme_allowed c u response_type) invalid_request_redirect_uri
    check_redirect_uri_against_client c uri

  -- The last loop of `validateRedirectURINative`.
  abbrev pub loopback_registered : Option Url → List String → Bool
  loopback_registered none rs = false
  loopback_registered (some u) [] = false
  loopback_registered (some u) (r ∷ rs) =
      let rest = loopback_registered (some u) rs in
      elim (http_loopback_or_localhost r).0 [
        | none ↦ rest
        | some reg ↦ ((http_loopback_or_localhost r).1 && equal_uri u reg) || rest
      ]

  -- `validateRedirectURINative` once the URI matched a registered one.
  abbrev pub native_registered : Client → Url → (is_loopback : Bool) → Result OidcError (Unit {0})
  native_registered c u is_loopback =
      require
        (holds c.dev_mode
          || ((not is_loopback && (u.scheme == "https"))
              || (is_loopback || ((u.scheme != "http") && (u.scheme != "https")))))
        invalid_request_redirect_uri

  -- `validateRedirectURINative` if it did not.
  abbrev pub native_unregistered :
      Client → Option Url → (is_loopback : Bool) → Result OidcError (Unit {0})
  native_unregistered c u is_loopback = do
    require is_loopback invalid_request_redirect_uri
    registered ← expect c.redirect_uris invalid_request_redirect_uri
    require (loopback_registered u registered) invalid_request_redirect_uri

  -- `validateRedirectURINative`.
  unfoldable pub validate_redirect_uri_native :
      Client → (uri : String) → Result OidcError (Unit {0})
  validate_redirect_uri_native c uri = do
    u ← expect (parse_url uri) invalid_request_redirect_uri
    let (parsed, is_loopback) = http_loopback_or_localhost uri
    elim (check_redirect_uri_against_client c uri) [
      | ok matched ↦ native_registered c u is_loopback
      | err e ↦ native_unregistered c parsed is_loopback
    ]

  -- `ValidateRedirectURI`.
  unfoldable pub validate_redirect_uri :
      Client → (uri response_type : String) → Result OidcError (Unit {0})
  validate_redirect_uri c uri response_type = do
    require (uri != "") invalid_request_redirect_uri
    unescaped ← expect (query_unescape uri) invalid_request_redirect_uri
    (if holds c.is_native
        then validate_redirect_uri_native c unescaped
        else validate_redirect_uri_web c unescaped response_type)

  -- `ValidateAuthRequestParams`.
  unfoldable pub validate_auth_request_params :
      Client → AuthRequest → List String → Result OidcError AuthRequest
  validate_auth_request_params c r defaults = do
    validate_redirect_uri c r.redirect_uri r.response_type
    validate_params_except_redirect_uri c r defaults
