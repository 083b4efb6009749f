-- ===== src/Ciba/Redeem.antt =====
-- pkg/storm/plugins/token/token.go: handleCIBA (CIBA Core 1.0 §8).
use kexcore_oidc.Base.{
  ℕ, ◌+◌, ◌*◌, String, Bool, true, false, ◌&&◌, Option, none, some, List, [], ◌∷◌, ltb, leb, ◌==◌,
  ◌!=◌, if◌then◌else◌, Result, ok, err,
}
use kexcore_oidc.Base.Action.{Action, ◌>>=◌, ◌>>◌, pure, fail, lift, check, read}
use kexcore_oidc.OidcError.{
  OidcError, invalid_request, invalid_client, invalid_grant, unauthorized_client, server_error,
  access_denied, authorization_pending, slow_down, expired_token,
}
use kexcore_oidc.Client.{Client, tls_client_auth}
use kexcore_oidc.Grants.Binding.{Context, validate_sender_constraining}
use kexcore_oidc.Grants.Endpoint.{Services, validate_grant_type, find_client, check_own_cert}
use kexcore_oidc.Issue.Request.{TokenRequest}
use kexcore_oidc.Issue.Host.{TokenStore, TokenCrypto}
use kexcore_oidc.Issue.Response.{Config, TokenResponse, create_token_response}
use kexcore_oidc.Grants.Plugin.{Server, on_store, change_store}
use kexcore_oidc.Ciba.Store.{
  CibaStatus, pending, approved, denied, consumed, other_status, CibaRequest, CibaStore,
}

-- The client of a request without an assertion.
abbrev pub certified_client :
    Services → Config → Context → (client_id : String) → Client → Result OidcError Client
certified_client s cfg r client_id c = elim c.auth_method [
  | tls_client_auth ↦ elim r.client_cert [
    | none ↦ err invalid_client
    | some cert ↦ elim (check_own_cert s c cert client_id) [
      | err e ↦ err e
      | ok u ↦ elim (validate_sender_constraining (some c) cfg.require_dpop cfg.require_mtls r) [
        | err e ↦ err e
        | ok v ↦ ok c
      ]
    ]
  ]
  | _ ↦ err invalid_client
]

-- Who asks: the client of the assertion, or one with a certificate.
unfoldable pub ciba_client :
    Services → Config → Context → (client_id : String) → Result OidcError Client
ciba_client s cfg r client_id = elim r.authenticated [
  | some id ↦ elim (s.get_client id) [
    | err e ↦ err e
    | ok c ↦ if (client_id != "") && (client_id != c.id) then err invalid_client else ok c
  ]
  | none ↦ if client_id == "" then err invalid_client else elim (find_client s client_id) [
    | err e ↦ err e
    | ok c ↦ certified_client s cfg r client_id c
  ]
]

-- The interval between two polls.
abbrev pub ciba_interval : (default_interval : ℕ) → CibaRequest → ℕ
ciba_interval default_interval q =
    if ltb 0 q.interval then q.interval * 1000000000 else default_interval

-- `elapsed < interval`, for a client that polled before.
abbrev pub too_early : (interval : ℕ) → Option ℕ → (now : ℕ) → Bool
too_early interval none now = false
too_early interval (some last) now = ltb now (last + interval)

-- `cibaTokenRequest`.
abbrev pub ciba_token_request : CibaRequest → Client → TokenRequest
ciba_token_request q c = record {
  subject = q.subject;
  audience = c.id ∷ [];
  client_id = c.id;
  scopes = q.approved_scopes;
  nonce = none;
  auth = none;
  extra_claims = none;
}

-- `UpdateCIBARequestStatus` to consumed; an error is only logged.
abbrev pub consume :
    {State : Type 0} → CibaStore State → (auth_req_id : String) → List String → State → State
consume d auth_req_id scopes st = (d.update_status auth_req_id consumed scopes st).0

module _ (s : Services) (x : TokenCrypto) {State : Type 0} (t : TokenStore State)
    (d : CibaStore State) where
  -- The switch over the status.
  abbrev pub poll_status :
      (default_interval : ℕ)
      → (auth_req_id : String) → (now : ℕ) → CibaRequest
      → CibaStatus
      → Action (Server State) OidcError (Unit {0})
  poll_status default_interval auth_req_id now q pending =
      if too_early (ciba_interval default_interval q) q.last_poll now
      then (change_store (d.update_interval auth_req_id 5) >> fail slow_down)
      else (change_store (d.update_poll auth_req_id now) >> fail authorization_pending)
  poll_status default_interval auth_req_id now q approved = pure tt
  poll_status default_interval auth_req_id now q denied = fail access_denied
  poll_status default_interval auth_req_id now q consumed = fail invalid_grant
  poll_status default_interval auth_req_id now q (other_status o) = fail server_error

  -- `handleCIBA`, where there is a CIBA store.
  unfoldable pub handle_ciba :
      Config
      → Context
      → (auth_req_id client_id : String) → (now : ℕ) → Action (Server State) OidcError TokenResponse
  handle_ciba cfg r auth_req_id client_id now = do
    check (auth_req_id != "") invalid_request
    c ← lift (ciba_client s cfg r client_id)
    check (validate_grant_type c "urn:openid:params:grant-type:ciba") unauthorized_client
    q ← read (λ (server : Server State). d.get_request server.0 auth_req_id) invalid_grant
    check (q.client_id == c.id) invalid_grant
    check (leb now q.expires) expired_token
    poll_status cfg.device_poll_interval auth_req_id now q q.status
    issued ← on_store (
        create_token_response x t cfg (ciba_token_request q c) c r
          (record { issue_refresh = true; code = ""; current_refresh_token = "" }) now)
    change_store (consume d auth_req_id q.approved_scopes)
    pure issued.0
