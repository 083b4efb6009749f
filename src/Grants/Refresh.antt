-- ===== src/Grants/Refresh.antt =====
-- pkg/storm/plugins/token/token.go: handleRefreshToken (RFC 6749 §6), handleClientCredentials (§4.4)
-- and handleJWTProfile (RFC 7523 §2.1).
use kexcore_oidc.Base.{ℕ, String, true, false, none, some, List, ◌!=◌, if◌then◌else◌, Result, err}
use kexcore_oidc.Base.Action.{Action, ◌>>=◌, ◌>>◌, pure, lift, check, read, gets}
use kexcore_oidc.OidcError.{
  OidcError, invalid_request, invalid_grant, unauthorized_client, unsupported_grant_type,
}
use kexcore_oidc.Grants.Binding.{Context}
use kexcore_oidc.Grants.Endpoint.{Services, Credentials, validate_grant_type, authenticate_client}
use kexcore_oidc.Issue.Request.{TokenRequest}
use kexcore_oidc.Issue.Host.{TokenStore, TokenCrypto}
use kexcore_oidc.Issue.Response.{
  Config, TokenResponse, create_token_response, client_credentials_response,
}
use kexcore_oidc.Verifier.Checks.{Codec}
use kexcore_oidc.Grants.Checks.{RefreshForm, check_refresh, Jws, admit_bearer}
use kexcore_oidc.Grants.Plugin.{Server, on_store, limit_client, constrain_owner}

module _ (s : Services) (x : TokenCrypto) {State : Type 0} (t : TokenStore State) where
  -- `handleRefreshToken`.
  unfoldable pub handle_refresh_token :
      Config → Context → RefreshForm → (now : ℕ) → Action (Server State) OidcError TokenResponse
  handle_refresh_token cfg r form now = do
    check (form.refresh_token != "") invalid_request
    req ←
        read
          (λ (server : Server State). t.token_request_by_refresh_token server.0 form.refresh_token)
          invalid_grant
    lift (constrain_owner s cfg req.request.client_id r)
    c ← lift (authenticate_client s cfg.require_dpop cfg.require_mtls r form.client)
    limit_client c now
    current ← lift (check_refresh c req form r)
    issued ← on_store (
        create_token_response x t cfg current c r
          (record {
            issue_refresh = true;
            code = "";
            current_refresh_token =
                if cfg.invalidate_refresh_on_use then form.refresh_token else "";
          })
          now)
    pure issued.0

  -- `ClientCredentialsTokenRequest`, where the store implements it.
  abbrev pub credentials_request :
      (client_id : String) → List String → State → Result OidcError TokenRequest
  credentials_request client_id scopes st = elim t.client_credentials_request [
    | none ↦ err unsupported_grant_type
    | some make ↦ make client_id scopes st
  ]

  -- `handleClientCredentials`.
  unfoldable pub handle_client_credentials :
      Config
      → Context
      → Credentials
      → (scopes : List String) → (now : ℕ) → Action (Server State) OidcError TokenResponse
  handle_client_credentials cfg r form scopes now = do
    c ← lift (authenticate_client s cfg.require_dpop cfg.require_mtls r form)
    limit_client c now
    check (validate_grant_type c "client_credentials") unauthorized_client
    made ← gets (λ (server : Server State). credentials_request c.id scopes server.0)
    request ← lift made
    on_store (client_credentials_response x t cfg request c r now)

  -- `handleJWTProfile`.
  unfoldable pub handle_jwt_profile :
      Codec
      → Jws
      → Config
      → Context
      → (assertion scope : String) → (now : ℕ) → Action (Server State) OidcError TokenResponse
  handle_jwt_profile k jws cfg r assertion scope now = do
    admitted ← lift (admit_bearer s k jws cfg.issuer assertion scope now)
    issued ← on_store (
        create_token_response x t cfg admitted.1 admitted.0 r
          (record { issue_refresh = false; code = ""; current_refresh_token = "" }) now)
    pure issued.0
