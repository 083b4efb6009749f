-- ===== src/Issue/Response.antt =====
-- pkg/storm/plugins/token/token.go: createTokenResponseFromTokenRequest and
-- createClientCredentialsResponse.
use kexcore_oidc.Base.{
  ℕ, ◌/◌, String, Bool, false, Option, none, some, List, ◌!=◌, if◌then◌else◌, contains, Result, ok,
}
use kexcore_oidc.Base.Action.{Action, ◌>>=◌, ◌>>◌, pure, lift, change}
use kexcore_oidc.OidcError.{OidcError}
use kexcore_oidc.Client.{Client}
use kexcore_oidc.Grants.Binding.{Context, is_some, token_cnf}
use kexcore_oidc.Issue.Request.{TokenRequest, AuthInfo, Pairwise, apply_pairwise}
use kexcore_oidc.Issue.Host.{TokenStore, TokenCrypto}
use kexcore_oidc.Issue.Claims.{create_id_token}
use kexcore_oidc.Issue.Opaque.{create_access_token}

-- The parts of the token plugin's configuration that its handlers read.
pub record Config : Type 0 where
  pub require_dpop : Bool
  pub require_mtls : Bool
  pub invalidate_refresh_on_use : Bool
  pub device_poll_interval : ℕ
  pub pairwise : Option Pairwise
  pub issuer : String

-- `tokenResponseOpts`.
pub record ResponseOpts : Type 0 where
  pub issue_refresh : Bool
  pub code : String
  pub current_refresh_token : String

-- `AccessTokenResponse`; an empty text is an absent member. `expires_in` is in seconds.
pub record TokenResponse : Type 0 where
  pub access_token : String
  pub token_type : String
  pub expires_in : ℕ
  pub scope : List String
  pub id_token : String
  pub refresh_token : String

abbrev pub token_type_of : Context → String
token_type_of r = if is_some r.dpop_proof then "DPoP" else "Bearer"

module _ (x : TokenCrypto) {State : Type 0} (t : TokenStore State) where
  -- The recording of the client's session, for a request that is an authorization request.
  abbrev pub save_session :
      Option ((subject client_id sid : String) → State → State)
      → TokenRequest
      → Option AuthInfo
      → Action State OidcError (Unit {0})
  save_session none q auth = pure tt
  save_session (some save) q none = pure tt
  save_session (some save) q (some a) =
      if a.sid != "" then change (save q.subject q.client_id a.sid) else pure tt

  -- The ID token, for the scope "openid".
  abbrev pub id_token_for :
      Config
      → TokenRequest
      → Client
      → (now : ℕ) → (access_token code : String) → Result OidcError String
  id_token_for cfg q c now access_token code =
      if contains q.scopes "openid"
      then create_id_token x cfg.issuer q c now access_token code
      else ok ""

  -- `createTokenResponseFromTokenRequest`: the response and the token id.
  unfoldable pub create_token_response :
      Config
      → TokenRequest
      → Client
      → Context
      → ResponseOpts
      → (now : ℕ) → Action State OidcError (TokenResponse × String)
  create_token_response cfg request c r opts now = do
    let q = apply_pairwise cfg.pairwise c.id request
    cnf ← lift (token_cnf cfg.require_dpop cfg.require_mtls c r)
    issued ← create_access_token x t q c opts.issue_refresh opts.current_refresh_token cnf now
    id_token ← lift (id_token_for cfg q c now issued.access_token opts.code)
    save_session t.record_session q q.auth
    pure (
      record {
        access_token = issued.access_token;
        token_type = token_type_of r;
        expires_in = issued.validity / 1000000000;
        scope = q.scopes;
        id_token = id_token;
        refresh_token = if opts.issue_refresh then issued.refresh_token else "";
      },
      issued.token_id,
    )

  -- `createClientCredentialsResponse`.
  unfoldable pub client_credentials_response :
      Config → TokenRequest → Client → Context → (now : ℕ) → Action State OidcError TokenResponse
  client_credentials_response cfg request c r now = do
    cnf ← lift (token_cnf cfg.require_dpop cfg.require_mtls c r)
    issued ← create_access_token x t request c false "" cnf now
    pure (record {
      access_token = issued.access_token;
      token_type = token_type_of r;
      expires_in = issued.validity / 1000000000;
      scope = request.scopes;
      id_token = "";
      refresh_token = "";
    })
