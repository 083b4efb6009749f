-- ===== src/Grants/ClientAuth.antt =====
-- pkg/storm/shared/clientauth.go: AuthenticatePrivateKeyJWT and ClientAuthHelper.AuthenticateClient,
-- the client authentication of the endpoints other than the token endpoint.
use kexcore_oidc.Base.{
  ℕ, String, Bool, true, false, not, Option, none, some, List, [], ◌∷◌, ◌==◌, ◌!=◌, if◌then◌else◌,
  Result, ok, err, ◌>>=◌, ◌>>◌, require, expect,
}
use kexcore_oidc.OidcError.{OidcError, invalid_request, invalid_client}
use kexcore_oidc.Client.{Client, AuthMethod, private_key_jwt}
use kexcore_oidc.Keyset.{Jwk}
use kexcore_oidc.Verifier.Checks.{Codec, parse_token}
use kexcore_oidc.Verifier.Assertion.{verify_jwt_assertion}
use kexcore_oidc.Grants.Binding.{Context}
use kexcore_oidc.Grants.Endpoint.{Services, Credentials, credentials, check_method, find_client}

-- The form of a request to one of these endpoints.
pub record Form : Type 0 where
  pub assertion_type : String
  pub assertion : String
  pub credentials : Credentials

-- `ClientAssertionTypeJWTAssertion`.
abbrev pub jwt_assertion : String
jwt_assertion = "urn:ietf:params:oauth:client-assertion-type:jwt-bearer"

abbrev pub is_private_key_jwt : AuthMethod → Bool
is_private_key_jwt private_key_jwt = true
is_private_key_jwt _ = false

abbrev pub no_keys : List Jwk → Bool
no_keys [] = true
no_keys (k ∷ ks) = false

-- Ten seconds, in nanoseconds.
abbrev pub clock_skew : ℕ
clock_skew = 10000000000

-- An error of the protocol layer, wrapped as invalid_client.
abbrev pub or_invalid_client {ℓ} : {E : Type 0} {A : Type ℓ} → Result E A → Result OidcError A
or_invalid_client (ok a) = ok a
or_invalid_client (err e) = err invalid_client

module _ (s : Services) (k : Codec) where
  open s use {fetch_jwks}

  -- Step 3 of `AuthenticatePrivateKeyJWT`: the client's keys; `none` is a client without them.
  abbrev pub assertion_keys : Client → Option (List Jwk)
  assertion_keys c = elim c.jwks [
    | none ↦ none
    | some static ↦ elim c.jwks_uri [
      | none ↦ some static
      | some uri ↦
          if uri == ""
          then some static
          else elim (fetch_jwks uri) [ none ↦ some static | some fetched ↦ some fetched ]
    ]
  ]

  -- `AuthenticatePrivateKeyJWT`; a nil `getAudiences` leaves no audience.
  unfoldable pub authenticate_private_key_jwt :
      (assertion : String) → Option (Client → List String) → (now : ℕ) → Result OidcError Client
  authenticate_private_key_jwt assertion get_audiences now = do
    request ← or_invalid_client (parse_token k assertion)
    require (request.1.issuer != "") invalid_client
    c ← find_client s request.1.issuer
    require (is_private_key_jwt c.auth_method) invalid_client
    keys ← expect (assertion_keys c) invalid_client
    require (not (no_keys keys)) invalid_client
    let allowed : List String = elim get_audiences [ none ↦ [] | some f ↦ f c ]
    or_invalid_client (verify_jwt_assertion k assertion allowed keys clock_skew now)
    ok c

  -- `ClientAuthHelper.AuthenticateClient`. Its steps by method are those of the token endpoint.
  unfoldable pub helper_authenticate_client : Context → Form → (now : ℕ) → Result OidcError Client
  helper_authenticate_client r form now =
      if form.assertion_type == jwt_assertion
      then (do
        require (form.assertion != "") invalid_client
        or_invalid_client (authenticate_private_key_jwt form.assertion none now))
      else (do
        given ← credentials s r form.credentials
        require (given.client_id != "") invalid_request
        c ← find_client s given.client_id
        check_method s c r given
        ok c)
