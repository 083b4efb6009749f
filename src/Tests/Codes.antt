-- ===== src/Tests/Codes.antt =====
-- pkg/storm/plugins/token: one code and one refresh token.
use kexcore_oidc.Issue.Request.{apply_pairwise, resource_aware}
use kexcore_oidc.Grants.Checks.{check_code, check_refresh}
use kexcore_oidc.Base.{lookup, insert}
use kexcore_oidc.Grants.Endpoint.{
  authenticate_client, credentials, check_method, check_client_rate_limit, validate_grant_type,
  verify_pkce, verify_dpop_code_binding, validate_refresh_scopes,
}
use kexcore_oidc.Grants.Binding.{
  validate_sender_constraining, token_cnf, sender_constraining_requirements, resolve_cnf,
}
use kexcore_oidc.Base.{insert}
use kexcore_oidc.Issue.Request.{apply_pairwise}
use kexcore_oidc.Issue.Opaque.{create_access_token}
use kexcore_oidc.Grants.Binding.{sender_constraining_requirements}
use kexcore_oidc.Grants.Binding.{token_cnf}
use kexcore_oidc.Issue.Response.{create_token_response}
use kexcore_oidc.Grants.Endpoint.{validate_refresh_scopes}
use kexcore_oidc.Grants.Endpoint.{validate_grant_type}
use kexcore_oidc.Grants.Checks.{check_refresh}
use kexcore_oidc.Base.{lookup}
use kexcore_oidc.Grants.Endpoint.{check_client_rate_limit}
use kexcore_oidc.Grants.Endpoint.{check_method}
use kexcore_oidc.Grants.Endpoint.{credentials}
use kexcore_oidc.Grants.Endpoint.{authenticate_client}
use kexcore_oidc.Grants.Binding.{validate_sender_constraining}
use kexcore_oidc.Base.{
  String, Bool, subst, ◌≡◌, refl, ap, ◌≢◌, false, Bool-cases, inl, inr, Option, none, some, [], ◌∷◌,
  eq_iff, ◌==◌, if◌then◌else◌, ok, err,
}
use kexcore_oidc.OidcError.{invalid_grant}
use kexcore_oidc.Grants.Plugin.{Server}
use kexcore_oidc.Grants.Checks.{CodeForm, RefreshForm}
use kexcore_oidc.Grants.Code.{handle_authorization_code}
use kexcore_oidc.Grants.Refresh.{handle_refresh_token}
use kexcore_oidc.Grants.Exchanged.{IsExchanged, handle_authorization_code-IsExchanged}
use kexcore_oidc.Grants.Reuse.{Gone, after_codes, CodeLaws, handle_authorization_code-once}
use kexcore_oidc.Grants.Renewed.{IsRenewed, handle_refresh_token-IsRenewed}
use kexcore_oidc.Issue.Host.{AuthRequest, TokenStore}
use kexcore_oidc.Issue.Response.{TokenResponse}
use kexcore_oidc.Tests.Grants.{services, call}
use kexcore_oidc.Tests.Store.{request, store_over, store_over-IsKept, crypto, config}

abbrev auth_req : AuthRequest
auth_req = record {
  id = "req1";
  redirect_uri = "https://app.example/cb";
  code_challenge = some (record { challenge = "v"; method = "S256" });
  request = request;
  resources = [];
}

-- The state has the request of the code "c1", until it is looked up.
abbrev by_code : String → Option AuthRequest → Option AuthRequest × Option AuthRequest
by_code code none = (none, none)
by_code code (some q) = if code == "c1" then (none, some q) else (some q, none)

abbrev cleaned : String → Option AuthRequest → Option AuthRequest × Bool
cleaned id st = (st, false)

abbrev codes : TokenStore (Option AuthRequest)
codes = store_over (Option AuthRequest) by_code cleaned

by_code-Gone : (code : String) → Gone codes code none
by_code-Gone code = refl

by_code-invalidated :
    (code : String) (st st' : Option AuthRequest) (q : AuthRequest)
    → by_code code st ≡ (st', some q)
    → Gone codes code st'
by_code-invalidated code none st' q e = absurd (cc)
by_code-invalidated code (some q0) st' q e = elim (Bool-cases (code == "c1")) [
  | inl here ↦
      subst (Gone codes code)
        (ap (λ (o : Option AuthRequest × Option AuthRequest). o.0) (rw here at e)) refl
  | inr other ↦ absurd (missed (rw other at e))
]
  where
    missed : ◌≡◌ {A = Option AuthRequest × Option AuthRequest} (some q0, none) (st', some q) → ⊥
    missed p = cc

by_code-looked_up :
    (code other : String) (st : Option AuthRequest)
    → Gone codes code st
    → Gone codes code (by_code other st).0
by_code-looked_up code other none gone = refl
by_code-looked_up code other (some q) gone = elim (Bool-cases (other == "c1")) [
  | inl here ↦ rw here refl
  | inr elsewhere ↦ rw elsewhere gone
]

code_laws : CodeLaws codes
code_laws = record {
  invalidated = by_code-invalidated;
  looked_up = by_code-looked_up;
  created = λ code. store_over-IsKept (Option AuthRequest) by_code cleaned _;
  tracked = λ track i token_id code st e gone. absurd (cc);
  deleted = λ id code st gone. gone;
  revoked = λ revoke other code st e gone. absurd (cc);
}

abbrev code_form : CodeForm
code_form = record {
  code = "c1";
  client = record { client_id = ""; secret = "" };
  redirect_uri = "https://app.example/cb";
  code_verifier = "v";
}

c1_named : ◌≢◌ {A = String} "c1" ""
c1_named e = absurd (let yes = (eq_iff "c1" "").1 e in cc)

abbrev before : Server (Option AuthRequest)
before = (some auth_req, [])

abbrev after_it : Server (Option AuthRequest)
after_it = (none, ("app", 0 ∷ []) ∷ [])

abbrev code_tokens : TokenResponse
code_tokens = record {
  access_token = "ueat-1:user";
  token_type = "DPoP";
  expires_in = 9;
  scope = "profile" ∷ [];
  id_token = "";
  refresh_token = "r2";
}

exchanges :
    handle_authorization_code services crypto codes config call code_form 0 before
    ≡ (after_it, ok code_tokens)
unfolding handle_authorization_code check_code verify_pkce verify_dpop_code_binding resource_aware
    validate_sender_constraining authenticate_client credentials check_method
    check_client_rate_limit lookup insert validate_grant_type create_token_response token_cnf
    sender_constraining_requirements resolve_cnf create_access_token apply_pairwise
exchanges = refl

handle_authorization_code-IsExchanged_example :
    IsExchanged services crypto codes config call code_form 0 (some auth_req) none code_tokens
handle_authorization_code-IsExchanged_example =
    handle_authorization_code-IsExchanged services crypto codes config call code_form 0 before
      after_it code_tokens exchanges

handle_authorization_code-once_example :
    (handle_authorization_code services crypto codes config call code_form 7 (
      after_codes services crypto codes
        ((record { cfg = config; context = call; form = code_form; now = 5 }) ∷ [])
        (handle_authorization_code services crypto codes config call code_form 0 before).0)).1
    ≡ err invalid_grant
handle_authorization_code-once_example =
    handle_authorization_code-once services crypto codes code_laws "c1" config call code_form 0
      before c1_named refl
      ((record { cfg = config; context = call; form = code_form; now = 5 }) ∷ []) config call
      code_form 7 refl

abbrev refresh_form : RefreshForm
refresh_form = record {
  refresh_token = "r1";
  client = record { client_id = ""; secret = "" };
  scopes = [];
}

renews :
    handle_refresh_token services crypto codes config call refresh_form 0 before
    ≡ ((some auth_req, ("app", 0 ∷ []) ∷ []), ok code_tokens)
unfolding handle_refresh_token check_refresh validate_refresh_scopes validate_sender_constraining
    authenticate_client credentials check_method check_client_rate_limit lookup insert
    validate_grant_type create_token_response token_cnf sender_constraining_requirements resolve_cnf
    create_access_token apply_pairwise
renews = refl

handle_refresh_token-IsRenewed_example :
    IsRenewed services crypto codes config call refresh_form 0
      (some auth_req)
      (some auth_req)
      code_tokens
handle_refresh_token-IsRenewed_example =
    handle_refresh_token-IsRenewed services crypto codes config call refresh_form 0 before
      (some auth_req, ("app", 0 ∷ []) ∷ []) code_tokens renews
