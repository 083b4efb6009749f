-- ===== src/Grants/Code.antt =====
-- pkg/storm/plugins/token/token.go: handleAuthorizationCode (RFC 6749 §4.1.3).
use kexcore_oidc.Base.{
  List, Map, Result, ℕ, String, true, Option, none, some, ◌!=◌, if◌then◌else◌, ok, err,
}
use kexcore_oidc.Base.Action.{Action, ◌>>=◌, ◌>>◌, pure, lift, check, gets}
use kexcore_oidc.OidcError.{OidcError, invalid_request, invalid_grant}
use kexcore_oidc.Grants.Binding.{Context}
use kexcore_oidc.Grants.Endpoint.{Services, authenticate_client}
use kexcore_oidc.Issue.Request.{resource_aware}
use kexcore_oidc.Issue.Host.{AuthRequest, TokenStore, TokenCrypto}
use kexcore_oidc.Issue.Response.{Config, TokenResponse, create_token_response}
use kexcore_oidc.Grants.Plugin.{Server, on_store, change_store, limit_client, constrain_owner}
use kexcore_oidc.Grants.Checks.{CodeForm, check_code}

-- `TrackTokenForAuthRequest`, where it is implemented and there is a token id.
abbrev pub track_token :
    {State : Type 0}
    → Option ((auth_request_id token_id : String) → State → State)
    → (auth_request_id token_id : String) → State
    → State
track_token none auth_request_id token_id st = st
track_token (some track) auth_request_id token_id st =
    if token_id != "" then track auth_request_id token_id st else st

module _ (s : Services) (x : TokenCrypto) {State : Type 0} (t : TokenStore State) where
  -- What follows the lookup of a code: where it failed, the tokens of a code that was used before
  -- are revoked.
  abbrev pub found_code :
      (code : String)
      → Map (List ℕ)
      → State × Option AuthRequest
      → Server State × Result OidcError AuthRequest
  found_code code limits (st, some req) = ((st, limits), ok req)
  found_code code limits (st, none) = elim t.revoke_tokens_for_used_code [
    | none ↦ ((st, limits), err invalid_grant)
    | some revoke ↦ ((revoke code st, limits), err invalid_grant)
  ]

  -- `AuthRequestByCode`, and what follows.
  abbrev pub find_code : (code : String) → Action (Server State) OidcError AuthRequest
  find_code code (st, limits) = found_code code limits (t.auth_request_by_code code st)

  -- The handler from the authorization request on.
  abbrev pub exchange_code :
      Config
      → Context
      → CodeForm
      → (now : ℕ) → AuthRequest
      → Action (Server State) OidcError TokenResponse
  exchange_code cfg r form now req = do
    lift (constrain_owner s cfg req.request.client_id r)
    c ← lift (authenticate_client s cfg.require_dpop cfg.require_mtls r form.client)
    limit_client c now
    jkt ← gets (λ (server : Server State). t.auth_request_dpop_jkt server.0 req.id)
    lift (check_code s c req form jkt r)
    issued ← on_store (
        create_token_response x t cfg (resource_aware req.resources req.request) c r
          (record { issue_refresh = true; code = form.code; current_refresh_token = "" }) now)
    change_store (track_token t.track_token req.id issued.1)
    change_store (λ st. (t.delete_auth_request req.id st).0)
    pure issued.0

  -- `handleAuthorizationCode`.
  unfoldable pub handle_authorization_code :
      Config → Context → CodeForm → (now : ℕ) → Action (Server State) OidcError TokenResponse
  handle_authorization_code cfg r form now = do
    check (form.code != "") invalid_request
    req ← find_code form.code
    exchange_code cfg r form now req
