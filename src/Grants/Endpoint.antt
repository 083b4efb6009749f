-- ===== src/Grants/Endpoint.antt =====
-- pkg/storm/plugins/token/token.go and util.go, and pkg/storm/shared/clientauth.go: what the grant
-- handlers check before they issue tokens. Times are in nanoseconds.
use kexcore_oidc.Base.{
  ℕ, String, Bool, false, ◌||◌, not, Option, none, some, List, [], ◌∷◌, ◌++◌, leb, eqb, ◌==◌, ◌!=◌,
  if◌then◌else◌, contains, length, keep, any, Map, lookup, insert, Result, ok, err, ◌>>=◌, ◌>>◌,
  require, expect,
}
use kexcore_oidc.OidcError.{OidcError, invalid_client, invalid_grant, invalid_scope, slow_down}
use kexcore_oidc.Keyset.{Jwk}
use kexcore_oidc.Client.{Client, public, private_key_jwt, tls_client_auth, self_signed_tls}
use kexcore_oidc.RateLimit.{is_alive, or_empty}
use kexcore_oidc.Grants.Binding.{Certificate, Context, validate_sender_constraining}

-- What the deployment and the libraries provide.
pub record Services : Type 0 where
  -- `GetClientByClientID` of the client store.
  pub get_client : String → Result OidcError Client
  -- `AuthorizeClientIDSecret` of the client store.
  pub authorize_secret : (client_id secret : String) → Result OidcError (Unit {0})
  -- `FetchJWKSFromURI`.
  pub fetch_jwks : String → Option (List Jwk)
  -- `jwkThumbprint`.
  pub thumbprint : Jwk → Option String
  -- `url.QueryUnescape`.
  pub unescape : String → Option String
  -- base64url of the SHA-256.
  pub s256 : String → String

-- `CodeChallenge`.
pub record CodeChallenge : Type 0 where
  pub challenge : String
  pub method : String

-- The form's and the plugin's part of a client's authentication.
pub record Credentials : Type 0 where
  pub client_id : String
  pub secret : String

-- `validateGrantType`.
unfoldable pub validate_grant_type : Client → String → Bool
validate_grant_type c grant_type = elim c.grant_types [
  | none ↦ (grant_type == "authorization_code") || (grant_type == "refresh_token")
  | some allowed ↦ contains allowed grant_type
]

-- `validateRefreshScopes`: the scopes of the new tokens.
unfoldable pub validate_refresh_scopes :
    (requested granted : List String) → Result OidcError (List String)
validate_refresh_scopes [] granted = ok granted
validate_refresh_scopes (s ∷ ss) granted = do
  require (not (any (λ scope. not (contains granted scope)) (s ∷ ss))) invalid_scope
  ok (s ∷ ss)

-- `verifyDPoPCodeBinding`; `none` as the stored thumbprint is a store without bindings, or its error.
unfoldable pub verify_dpop_code_binding :
    (stored : Option String) → Context → Result OidcError (Unit {0})
verify_dpop_code_binding none r = ok tt
verify_dpop_code_binding (some jkt) r =
    if jkt == ""
    then ok tt
    else do proof ← expect r.dpop_proof invalid_grant; require (proof == jkt) invalid_grant

-- `checkClientRateLimit`: the timestamps of each client, and the verdict.
unfoldable pub check_client_rate_limit :
    Map (List ℕ) → Client → (now : ℕ) → Map (List ℕ) × Result OidcError (Unit {0})
check_client_rate_limit limits c now = elim c.rate_limit [
  | none ↦ (limits, ok tt)
  | some limit ↦
      if eqb limit.0 0
      then (limits, ok tt)
      else let window = if eqb limit.1 0 then 60000000000 else limit.1 in
        let valid = keep (is_alive window now) (or_empty (lookup c.id limits)) in
        if leb limit.0 (length valid)
        then (insert c.id valid limits, err slow_down)
        else (insert c.id (valid ++ (now ∷ [])) limits, ok tt)
]

module _ (s : Services) where
  open s use {get_client, authorize_secret, fetch_jwks, thumbprint, unescape, s256}

  -- `verifyPKCE`.
  unfoldable pub verify_pkce :
      Option CodeChallenge → (verifier : String) → Result OidcError (Unit {0})
  verify_pkce none verifier = ok tt
  verify_pkce (some cc) verifier = if cc.challenge == "" then ok tt else do
    require (verifier != "") invalid_grant
    (if cc.method == "S256"
        then require (s256 verifier == cc.challenge) invalid_grant
        else if cc.method == "plain"
        then require (verifier == cc.challenge) invalid_grant
        else err invalid_grant)

  -- The static keys of `clientJWKSKeys`, where there are any.
  abbrev pub static_keys : Option (List Jwk) → Option (List Jwk)
  static_keys none = none
  static_keys (some []) = none
  static_keys (some (k ∷ ks)) = some (k ∷ ks)

  -- `clientJWKSKeys`.
  unfoldable pub client_jwks_keys : Client → Option (List Jwk)
  client_jwks_keys c = elim c.jwks_uri [
    | none ↦ static_keys c.jwks
    | some uri ↦
        if uri == ""
        then static_keys c.jwks
        else elim (fetch_jwks uri) [ none ↦ static_keys c.jwks | some keys ↦ some keys ]
  ]

  -- The loop of `VerifySelfSignedTLSClientAuth` over the client's keys; a key without a thumbprint
  -- is passed over.
  abbrev pub any_key : (cert_thumb : String) → List Jwk → Bool
  any_key cert_thumb [] = false
  any_key cert_thumb (k ∷ ks) =
      let rest = any_key cert_thumb ks in
      elim (thumbprint k) [ none ↦ rest | some t ↦ (t == cert_thumb) || rest ]

  -- `VerifySelfSignedTLSClientAuth`.
  unfoldable pub verify_self_signed_tls : Client → Certificate → Result OidcError (Unit {0})
  verify_self_signed_tls c cert = do
    require cert.is_self_signed invalid_client
    keys ← expect (client_jwks_keys c) invalid_client
    cert_thumb ← expect cert.key_thumbprint invalid_client
    require (any_key cert_thumb keys) invalid_client

  -- The client id and secret of a request, from its Authorization header or else from the form.
  unfoldable pub credentials : Context → Credentials → Result OidcError Credentials
  credentials r form = elim r.basic_auth [
    | none ↦ ok form
    | some basic ↦ do
      client_id ← expect (unescape basic.0) invalid_client
      secret ← expect (unescape basic.1) invalid_client
      ok (record { client_id = client_id; secret = secret })
  ]

  -- The client's own check of its certificate, where it has one.
  abbrev pub check_own_cert :
      Client → Certificate → (client_id : String) → Result OidcError (Unit {0})
  check_own_cert c cert client_id = elim c.validate_client_cert [
    | none ↦ ok tt
    | some valid ↦ require (valid cert.thumbprint client_id) invalid_client
  ]

  -- The part of `authenticateClient` that depends on the method the client is registered for.
  unfoldable pub check_method : Client → Context → Credentials → Result OidcError (Unit {0})
  check_method c r given = elim c.auth_method [
    | private_key_jwt ↦ err invalid_client
    | tls_client_auth ↦ do
      cert ← expect r.client_cert invalid_client
      check_own_cert c cert given.client_id
    | self_signed_tls ↦ do cert ← expect r.client_cert invalid_client; verify_self_signed_tls c cert
    | public ↦ ok tt
    | _ ↦ authorize_secret given.client_id given.secret
  ]

  -- `GetClientByClientID`, its error wrapped.
  abbrev pub find_client : (client_id : String) → Result OidcError Client
  find_client client_id = elim (get_client client_id) [ ok c ↦ ok c | err e ↦ err invalid_client ]

  -- `authenticateClient`.
  unfoldable pub authenticate_client :
      (global_dpop global_mtls : Bool) → Context → Credentials → Result OidcError Client
  authenticate_client global_dpop global_mtls r form = elim r.authenticated [
    | some id ↦ get_client id
    | none ↦ do
      given ← credentials r form
      require (given.client_id != "") invalid_client
      c ← find_client given.client_id
      check_method c r given
      validate_sender_constraining (some c) global_dpop global_mtls r
      ok c
  ]
