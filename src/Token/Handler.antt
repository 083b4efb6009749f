-- ===== src/Token/Handler.antt =====
-- pkg/storm/plugins/token/token.go: handleToken, which authenticates a client assertion and chooses the
-- handler of the grant, and the end of handleDeviceCode.
use kexcore_oidc.Base.{
  ℕ, String, Bool, true, ◌||◌, Option, none, some, List, [], ◌∷◌, ◌==◌, ◌!=◌, if◌then◌else◌,
  contains, Result, ok, err, require,
}
use kexcore_oidc.Base.Action.{Action, ◌>>=◌, ◌>>◌, pure, fail, lift, check}
use kexcore_oidc.OidcError.{OidcError, invalid_request, invalid_client, unsupported_grant_type}
use kexcore_oidc.Client.{Client}
use kexcore_oidc.Grants.Binding.{Context, validate_sender_constraining}
use kexcore_oidc.Grants.Endpoint.{Services, Credentials}
use kexcore_oidc.Issue.Request.{TokenRequest}
use kexcore_oidc.Issue.Host.{TokenStore, TokenCrypto}
use kexcore_oidc.Issue.Response.{Config, TokenResponse, create_token_response}
use kexcore_oidc.Verifier.Checks.{Codec}
use kexcore_oidc.Verifier.Token.{AccessTokenVerifier, IdTokenHintVerifier}
use kexcore_oidc.Grants.ClientAuth.{authenticate_private_key_jwt, jwt_assertion}
use kexcore_oidc.Grants.Plugin.{Server, on_store}
use kexcore_oidc.Grants.Checks.{Jws}
use kexcore_oidc.Grants.Code.{handle_authorization_code}
use kexcore_oidc.Grants.Refresh.{
  handle_refresh_token, handle_client_credentials, handle_jwt_profile,
}
use kexcore_oidc.Grants.Exchange.{
  ExchangeForm, ExchangeResponse, ExchangeStore, External, handle_token_exchange,
}
use kexcore_oidc.Grants.DeviceCode.{DeviceStore, DeviceTokenRequest, admit, handle_device_code}
use kexcore_oidc.Ciba.Store.{CibaStore}
use kexcore_oidc.Ciba.Redeem.{handle_ciba}

-- The form of a token request, with the members that some grant reads.
pub record TokenForm : Type 0 where
  pub grant_type : String
  pub assertion_type : String
  pub client_assertion : String
  pub client : Credentials
  pub code : String
  pub redirect_uri : String
  pub code_verifier : String
  pub refresh_token : String
  pub scopes : List String
  pub scope : String
  pub assertion : String
  pub exchange : ExchangeForm
  pub device_code : String
  pub auth_req_id : String

-- `AccessTokenResponse` or `TokenExchangeResponse`.
pub data TokenAnswer : Type 0 where
  tokens : TokenResponse → TokenAnswer
  exchanged : ExchangeResponse → TokenAnswer

-- The endpoints' URLs.
pub record Endpoints : Type 0 where
  pub token_endpoint : String
  pub bc_endpoint : String

-- `assertionAudiences`.
unfoldable pub assertion_audiences : (issuer token_endpoint bc_endpoint : String) → List String
assertion_audiences issuer token_endpoint bc_endpoint = issuer ∷ token_endpoint ∷ bc_endpoint ∷ []

-- `deviceTokenRequest` as a `storm.TokenRequest`.
abbrev pub device_request : DeviceTokenRequest → TokenRequest
device_request q = record {
  subject = q.subject;
  audience = q.client_id ∷ [];
  client_id = q.client_id;
  scopes = q.scopes;
  nonce = none;
  auth = none;
  extra_claims = none;
}

-- A client may be restricted to some grant types.
abbrev pub is_allowed : Client → (grant_type : String) → Bool
is_allowed c grant_type = elim c.allowed_grant_types [
  | none ↦ true
  | some allowed ↦ contains allowed grant_type
]

-- The optional stores and verifiers of the deployment, over the state of its device store.
pub record Deployment (d : DeviceStore) : Type 0 where
  pub store : TokenStore d.Store
  pub has_device_store : Bool
  pub ciba : Option (CibaStore d.Store)
  pub exchange : Option (ExchangeStore d.Store)
  pub subjects : External
  pub actors : External
  pub verifier : Option AccessTokenVerifier
  pub hints : IdTokenHintVerifier

abbrev pub answer_tokens :
    {State : Type 0}
    → Action (Server State) OidcError TokenResponse
    → Action (Server State) OidcError TokenAnswer
answer_tokens m = m >>= λ resp. pure (tokens resp)

module _ (s : Services) (x : TokenCrypto) (k : Codec) (jws : Jws) (d : DeviceStore)
    (w : Deployment d) where
  -- `authenticatePrivateKeyJWT` for the form's client assertion: the request with its client.
  unfoldable pub with_assertion :
      Config → Endpoints → Context → TokenForm → (now : ℕ) → Result OidcError Context
  with_assertion cfg u r form now =
      if form.assertion_type == jwt_assertion
      then (if form.client_assertion == ""
          then err invalid_client
          else elim (authenticate_private_key_jwt s k form.client_assertion
              (some (λ c. assertion_audiences cfg.issuer u.token_endpoint u.bc_endpoint)) now) [
                | err e ↦ err e
                | ok c ↦ ok (record r { authenticated = some c.id })
              ])
      else ok r

  -- The client of the request's context, if there is one.
  abbrev pub known_client : Context → Result OidcError (Option Client)
  known_client r = elim r.authenticated [
    | none ↦ ok none
    | some id ↦ elim (s.get_client id) [ err e ↦ err e | ok c ↦ ok (some c) ]
  ]

  -- The checks of the sender constraint before the grant type is read.
  unfoldable pub check_sender : Config → Context → Option Client → Result OidcError (Unit {0})
  check_sender cfg r (some c) =
      validate_sender_constraining (some c) cfg.require_dpop cfg.require_mtls r
  check_sender cfg r none =
      if cfg.require_dpop || cfg.require_mtls
      then validate_sender_constraining none cfg.require_dpop cfg.require_mtls r
      else ok tt

  -- `AllowedGrantTypes`, for the client of the context.
  abbrev pub check_allowed : Option Client → (grant_type : String) → Result OidcError (Unit {0})
  check_allowed none grant_type = ok tt
  check_allowed (some c) grant_type = require (is_allowed c grant_type) unsupported_grant_type

  -- `handleDeviceCode`, with the creation of the tokens.
  unfoldable pub handle_device_tokens :
      Config → Context → TokenForm → (now : ℕ) → Action (Server d.Store) OidcError TokenResponse
  handle_device_tokens cfg r form now = do
    check w.has_device_store unsupported_grant_type
    q ← on_store (λ st.
        handle_device_code d s cfg.require_dpop cfg.require_mtls cfg.device_poll_interval st r
          form.client form.device_code now)
    c ← lift (admit d s cfg.require_dpop cfg.require_mtls r form.client form.device_code)
    issued ← on_store (
        create_token_response x w.store cfg (device_request q) c r
          (record { issue_refresh = true; code = ""; current_refresh_token = "" }) now)
    pure issued.0

  -- The CIBA grant, where there is a store.
  abbrev pub by_ciba :
      Option (CibaStore d.Store)
      → Config
      → Context
      → TokenForm
      → (now : ℕ) → Action (Server d.Store) OidcError TokenResponse
  by_ciba none cfg r form now = fail unsupported_grant_type
  by_ciba (some b) cfg r form now =
      handle_ciba s x w.store b cfg r form.auth_req_id form.client.client_id now

  -- The switch over the grant type.
  unfoldable pub dispatch :
      Config → Context → TokenForm → (now : ℕ) → Action (Server d.Store) OidcError TokenAnswer
  dispatch cfg r form now =
      if form.grant_type == "authorization_code"
      then answer_tokens (
          handle_authorization_code s x w.store cfg r
            (record {
              code = form.code;
              client = form.client;
              redirect_uri = form.redirect_uri;
              code_verifier = form.code_verifier;
            })
            now)
      else if form.grant_type == "refresh_token"
      then answer_tokens (
          handle_refresh_token s x w.store cfg r
            (record {
              refresh_token = form.refresh_token;
              client = form.client;
              scopes = form.scopes;
            })
            now)
      else if form.grant_type == "client_credentials"
      then answer_tokens (handle_client_credentials s x w.store cfg r form.client form.scopes now)
      else if form.grant_type == "urn:ietf:params:oauth:grant-type:jwt-bearer"
      then answer_tokens (handle_jwt_profile s x w.store k jws cfg r form.assertion form.scope now)
      else if form.grant_type == "urn:ietf:params:oauth:grant-type:token-exchange"
      then (on_store (
            handle_token_exchange s x k w.verifier w.hints w.store w.exchange w.subjects w.actors
              cfg r form.exchange now)
          >>= λ resp. pure (exchanged resp))
      else if form.grant_type == "urn:ietf:params:oauth:grant-type:device_code"
      then answer_tokens (handle_device_tokens cfg r form now)
      else if form.grant_type == "urn:openid:params:grant-type:ciba"
      then answer_tokens (by_ciba w.ciba cfg r form now)
      else fail unsupported_grant_type

  -- `handleToken`.
  unfoldable pub handle_token :
      Config
      → Endpoints
      → Context
      → TokenForm
      → (now : ℕ) → Action (Server d.Store) OidcError TokenAnswer
  handle_token cfg u r form now = do
    r1 ← lift (with_assertion cfg u r form now)
    known ← lift (known_client r1)
    lift (check_sender cfg r1 known)
    check (form.grant_type != "") invalid_request
    lift (check_allowed known form.grant_type)
    dispatch cfg r1 form now
