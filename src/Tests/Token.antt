-- ===== src/Tests/Token.antt =====
-- pkg/storm/plugins/token: a client with an assertion, at the token endpoint and for the JWT bearer grant.
use kexcore_oidc.Issue.Request.{apply_pairwise}
use kexcore_oidc.Issue.Opaque.{create_access_token}
use kexcore_oidc.Issue.Response.{create_token_response}
use kexcore_oidc.Grants.Refresh.{handle_jwt_profile}
use kexcore_oidc.Grants.Binding.{token_cnf}
use kexcore_oidc.Grants.Binding.{sender_constraining_requirements}
use kexcore_oidc.Grants.Binding.{resolve_cnf}
use kexcore_oidc.Grants.Binding.{validate_sender_constraining}
use kexcore_oidc.Verifier.Checks.{check_expiration}
use kexcore_oidc.Verifier.Checks.{check_audience_any}
use kexcore_oidc.Verifier.Assertion.{verify_jwt_assertion}
use kexcore_oidc.Grants.ClientAuth.{authenticate_private_key_jwt}
use kexcore_oidc.Token.Handler.{dispatch}
use kexcore_oidc.Token.Handler.{check_sender}
use kexcore_oidc.Token.Handler.{assertion_audiences}
use kexcore_oidc.Token.Handler.{with_assertion}
use kexcore_oidc.Grants.Checks.{check_bearer_claims}
use kexcore_oidc.Keyset.{alg_to_key_type}
use kexcore_oidc.Keyset.{find_matching_key}
use kexcore_oidc.Grants.Checks.{check_bearer_signature}
use kexcore_oidc.Grants.Endpoint.{validate_grant_type}
use kexcore_oidc.Verifier.Checks.{parse_token}
use kexcore_oidc.Base.{
  true, ℕ, ◌≡◌, refl, false, none, some, [], ◌∷◌, ◌==◌, if◌then◌else◌, split, ok, err,
}
use kexcore_oidc.OidcError.{invalid_client}
use kexcore_oidc.Client.{Client}
use kexcore_oidc.Grants.Endpoint.{Services}
use kexcore_oidc.Grants.ClientAuth.{jwt_assertion}
use kexcore_oidc.Grants.Checks.{Jws, admit_bearer}
use kexcore_oidc.Grants.Bearer.{IsBearer, admit_bearer-IsBearer}
use kexcore_oidc.Grants.DeviceCode.{DeviceStore}
use kexcore_oidc.Grants.Exchange.{ExchangeForm}
use kexcore_oidc.Issue.Request.{TokenRequest}
use kexcore_oidc.Issue.Response.{TokenResponse}
use kexcore_oidc.Token.Handler.{TokenForm, tokens, Endpoints, Deployment, handle_token}
use kexcore_oidc.Token.Restricted.{IsRestricted, handle_token-IsRestricted}
use kexcore_oidc.Tests.Grants.{services, call}
use kexcore_oidc.Tests.Store.{store_over, crypto, config}
use kexcore_oidc.Tests.Assertion.{signer}
use kexcore_oidc.Tests.Verifier.{codec}

abbrev bearer : Client
bearer = record signer {
  grant_types = some ("urn:ietf:params:oauth:grant-type:jwt-bearer" ∷ []);
  allowed_grant_types = some ("urn:ietf:params:oauth:grant-type:jwt-bearer" ∷ []);
}

abbrev bearer_services : Services
bearer_services = record services {
  get_client = λ id. if id == "client" then ok bearer else err invalid_client;
}

abbrev jws : Jws
jws = record { known_alg = λ alg. alg == "RS256"; verify = λ token alg key. token == "a.b.c" }

abbrev bearer_request : TokenRequest
bearer_request = record {
  subject = "client";
  audience = "https://op.example" ∷ [];
  client_id = "client";
  scopes = "api" ∷ [];
  nonce = none;
  auth = none;
  extra_claims = none;
}

admits :
    admit_bearer bearer_services codec jws "https://op.example" "a.b.c" "api" 1800000000000
    ≡ ok (bearer, bearer_request)
unfolding admit_bearer parse_token split validate_grant_type check_bearer_signature
    find_matching_key alg_to_key_type check_bearer_claims
admits = refl

admit_bearer-IsBearer_example :
    IsBearer bearer_services codec jws "https://op.example" "a.b.c" "api" 1800000000000 bearer
      bearer_request
admit_bearer-IsBearer_example =
    admit_bearer-IsBearer bearer_services codec jws "https://op.example" "a.b.c" "api" 1800000000000
      bearer bearer_request admits

-- No device codes.
abbrev no_devices : DeviceStore
no_devices = record {
  Store = ℕ;
  get_state = λ st client_id code. none;
  update_poll = λ st client_id code now. st;
  update_interval = λ st client_id code n. st;
}

abbrev deployment : Deployment no_devices
deployment = record {
  store = store_over ℕ (λ code st. (st, none)) (λ id st. (st, true));
  has_device_store = false;
  ciba = none;
  exchange = none;
  subjects = none;
  actors = none;
  verifier = none;
  hints = record {
    issuer = "https://op.example";
    key_set = none;
    key_store = none;
    offset = 0;
    max_age_iat = 0;
    max_age = 0;
    supported_sign_algs = [];
    acr = none;
  };
}

abbrev endpoints : Endpoints
endpoints = record {
  token_endpoint = "https://op.example/token";
  bc_endpoint = "https://op.example/bc-authorize";
}

abbrev no_exchange : ExchangeForm
no_exchange = record {
  subject_token = "";
  subject_token_type = "";
  actor_token = "";
  actor_token_type = "";
  requested_token_type = "";
  audience = [];
  resources = [];
  scopes = [];
}

abbrev token_form : TokenForm
token_form = record {
  grant_type = "urn:ietf:params:oauth:grant-type:jwt-bearer";
  assertion_type = jwt_assertion;
  client_assertion = "a.b.c";
  client = record { client_id = ""; secret = "" };
  code = "";
  redirect_uri = "";
  code_verifier = "";
  refresh_token = "";
  scopes = [];
  scope = "api";
  assertion = "a.b.c";
  exchange = no_exchange;
  device_code = "";
  auth_req_id = "";
}

abbrev bearer_tokens : TokenResponse
bearer_tokens = record {
  access_token = "ueat-1:client";
  token_type = "DPoP";
  expires_in = 0;
  scope = "api" ∷ [];
  id_token = "";
  refresh_token = "";
}

answers :
    handle_token bearer_services crypto codec jws no_devices deployment config endpoints call
      token_form 1800000000000
      (0, [])
    ≡ ((0, []), ok (tokens bearer_tokens))
unfolding handle_token with_assertion authenticate_private_key_jwt parse_token split
    verify_jwt_assertion check_audience_any assertion_audiences check_expiration find_matching_key
    alg_to_key_type check_sender validate_sender_constraining dispatch handle_jwt_profile
    admit_bearer validate_grant_type check_bearer_signature check_bearer_claims
    create_token_response token_cnf resolve_cnf sender_constraining_requirements create_access_token
    apply_pairwise
answers = refl

handle_token-IsRestricted_example :
    IsRestricted bearer_services codec config endpoints call token_form 1800000000000
handle_token-IsRestricted_example =
    handle_token-IsRestricted bearer_services crypto codec jws no_devices deployment config
      endpoints call token_form 1800000000000 (0, []) (0, []) (tokens bearer_tokens) refl answers
