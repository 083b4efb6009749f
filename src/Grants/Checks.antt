-- ===== src/Grants/Checks.antt =====
-- pkg/storm/plugins/token/token.go: what the grant handlers check of a request against what they found
-- in the stores.
use kexcore_oidc.Base.{
  ℕ, ◌+◌, String, Bool, true, false, ◌&&◌, ◌||◌, not, Option, none, some, List, [], ◌∷◌, leb, eqb,
  ◌==◌, ◌!=◌, if◌then◌else◌, contains, split, Result, ok, err, ◌>>=◌, ◌>>◌, require, expect,
}
use kexcore_oidc.OidcError.{OidcError, invalid_request, invalid_grant, unauthorized_client}
use kexcore_oidc.Client.{Client, AuthMethod, public}
use kexcore_oidc.Grants.Binding.{Context}
use kexcore_oidc.Grants.Endpoint.{
  Services, Credentials, validate_grant_type, validate_refresh_scopes, verify_pkce,
  verify_dpop_code_binding,
}
use kexcore_oidc.Issue.Request.{TokenRequest}
use kexcore_oidc.Issue.Host.{AuthRequest, RefreshRequest}
use kexcore_oidc.Keyset.{Jwk, find_matching_key, key_use_signature}
use kexcore_oidc.Verifier.Checks.{Claims, Codec, ns, parse_token, key_id_and_alg}

-- `AccessTokenRequest`.
pub record CodeForm : Type 0 where
  pub code : String
  pub client : Credentials
  pub redirect_uri : String
  pub code_verifier : String

-- The checks of a code's form against its authorization request.
unfoldable pub check_code :
    Services
    → Client
    → AuthRequest
    → CodeForm
    → (jkt : Option String) → Context
    → Result OidcError (Unit {0})
check_code s c req form jkt r = do
  require (c.id == req.request.client_id) invalid_grant
  require (validate_grant_type c "authorization_code") unauthorized_client
  require (not ((form.redirect_uri != "") && (form.redirect_uri != req.redirect_uri))) invalid_grant
  require (not ((req.redirect_uri != "") && (form.redirect_uri == ""))) invalid_grant
  verify_pkce s req.code_challenge form.code_verifier
  verify_dpop_code_binding jkt r

-- `RefreshTokenRequest` of the protocol: the form.
pub record RefreshForm : Type 0 where
  pub refresh_token : String
  pub client : Credentials
  pub scopes : List String

-- `client.AuthMethod() == AuthMethodNone`.
abbrev pub is_public : AuthMethod → Bool
is_public public = true
is_public _ = false

-- The proof of possession for a refresh token that is bound to a DPoP key. Only a public client must
-- present the same key.
abbrev pub check_refresh_binding :
    Client → (bound_jkt : String) → Context → Result OidcError (Unit {0})
check_refresh_binding c bound_jkt r = if bound_jkt == "" then ok tt else do
  proof ← expect r.dpop_proof invalid_grant
  require (not (is_public c.auth_method && (proof != bound_jkt))) invalid_grant

-- The checks of a refresh token's form; the request comes back with its current scopes.
unfoldable pub check_refresh :
    Client → RefreshRequest → RefreshForm → Context → Result OidcError TokenRequest
check_refresh c req form r = do
  require (validate_grant_type c "refresh_token") unauthorized_client
  require (c.id == req.request.client_id) invalid_grant
  scopes ← validate_refresh_scopes form.scopes req.request.scopes
  check_refresh_binding c req.dpop_jkt r
  ok (record req.request { scopes = scopes })

-- The JWS library, as the JWT bearer grant uses it.
pub record Jws : Type 0 where
  -- `jwa.LookupSignatureAlgorithm`.
  pub known_alg : String → Bool
  -- `jws.Verify` of a token by an algorithm and a key.
  pub verify : (token alg : String) → Jwk → Bool

-- The key of the JWT bearer grant: the client's own, without its jwks_uri.
abbrev pub bearer_keys : Client → Result OidcError (List Jwk)
bearer_keys c = elim c.jwks [
  | none ↦ err invalid_grant
  | some [] ↦ err invalid_grant
  | some (k ∷ ks) ↦ ok (k ∷ ks)
]

abbrev pub or_invalid_grant {ℓ} : {E : Type 0} {A : Type ℓ} → Result E A → Result OidcError A
or_invalid_grant (ok a) = ok a
or_invalid_grant (err e) = err invalid_grant

-- Five minutes and ten seconds, in nanoseconds.
abbrev pub max_assertion_life : ℕ
max_assertion_life = 300000000000

abbrev pub iat_skew : ℕ
iat_skew = 10000000000

-- The signature of a JWT bearer assertion.
unfoldable pub check_bearer_signature :
    Codec → Jws → Client → (assertion : String) → Result OidcError (Unit {0})
check_bearer_signature k jws c assertion = do
  keys ← bearer_keys c
  sigs ← expect (k.signatures assertion) invalid_grant
  key ←
      or_invalid_grant
        (find_matching_key (key_id_and_alg sigs).0 key_use_signature (key_id_and_alg sigs).1 keys)
  require (jws.known_alg (key_id_and_alg sigs).1) invalid_grant
  require (jws.verify assertion (key_id_and_alg sigs).1 key) invalid_grant

-- The claims of a JWT bearer assertion.
unfoldable pub check_bearer_claims :
    Claims → (issuer : String) → (now : ℕ) → Result OidcError (Unit {0})
check_bearer_claims a issuer now = do
  require (contains a.audience issuer) invalid_grant
  require (not (eqb a.expiration 0)) invalid_grant
  require (leb now (ns a.expiration)) invalid_grant
  require (leb (ns a.expiration) (now + max_assertion_life)) invalid_grant
  require (eqb a.issued_at 0 || leb (ns a.issued_at) (now + iat_skew)) invalid_grant

-- The scopes of the form, where there are any.
abbrev pub bearer_scopes : (scope : String) → List String
bearer_scopes scope = if scope == "" then [] else split b' ' scope

-- `handleJWTProfile` up to the creation of the tokens: the client and its request.
unfoldable pub admit_bearer :
    Services
    → Codec
    → Jws
    → (issuer : String) → (assertion scope : String) → (now : ℕ)
    → Result OidcError (Client × TokenRequest)
admit_bearer s k jws issuer assertion scope now = do
  require (assertion != "") invalid_request
  parsed ← or_invalid_grant (parse_token k assertion)
  require (parsed.1.issuer != "") invalid_grant
  require (parsed.1.subject != "") invalid_grant
  c ← or_invalid_grant (s.get_client parsed.1.issuer)
  require (validate_grant_type c "urn:ietf:params:oauth:grant-type:jwt-bearer") unauthorized_client
  check_bearer_signature k jws c assertion
  check_bearer_claims parsed.1 issuer now
  ok (
    c,
    record {
      subject = parsed.1.subject;
      audience = parsed.1.audience;
      client_id = parsed.1.issuer;
      scopes = bearer_scopes scope;
      nonce = none;
      auth = none;
      extra_claims = none;
    },
  )
