-- ===== src/Tests/Grants.antt =====
-- pkg/storm/plugins/token: one client that must present a DPoP proof.
use kexcore_oidc.Grants.Endpoint.{check_method}
use kexcore_oidc.Grants.Binding.{resolve_cnf}
use kexcore_oidc.Base.{
  ℕ, String, ◌≡◌, refl, ◌≢◌, ◌↔◌, ◌⊎◌, true, false, none, some, List, [], ◌∷◌, arith, ◌==◌,
  if◌then◌else◌, ok, err, require,
}
use kexcore_oidc.OidcError.{invalid_client}
use kexcore_oidc.Client.{Client, basic}
use kexcore_oidc.RateLimit.{allow}
use kexcore_oidc.Grants.Binding.{
  Context, Cnf, token_cnf, verify_token_binding, sender_constraining_requirements,
  validate_sender_constraining,
}
use kexcore_oidc.Grants.Endpoint.{
  Services, CodeChallenge, Credentials, validate_refresh_scopes, verify_pkce, credentials,
  authenticate_client, check_client_rate_limit,
}
use kexcore_oidc.Grants.Bound.{token_cnf-verify_token_binding}
use kexcore_oidc.Grants.Admission.{Answers, Proven, verify_pkce_iff, authenticate_client-Proven}
use kexcore_oidc.Grants.Limit.{limiter_of, verdict, check_client_rate_limit-allow}

abbrev pub app : Client
app = record {
  id = "app";
  auth_method = basic;
  is_native = none;
  dev_mode = none;
  redirect_uris = some ("https://app.example/cb" ∷ []);
  redirect_uri_globs = none;
  strict_scope_validation = none;
  is_scope_allowed = none;
  response_types = none;
  fapi_profile = none;
  grant_types = none;
  sender_constraining = some (true, false);
  validate_client_cert = none;
  jwks_uri = none;
  jwks = none;
  rate_limit = some (2, 0);
  allowed_grant_types = none;
  id_token_signed_alg = none;
  id_token_lifetime = none;
  id_token_encryption = none;
  jwt_access_tokens = none;
  access_token_encryption = none;
  encryption_key = none;
  post_logout_redirect_uris = none;
  par_lifetime = none;
  request_object_signing_alg = none;
}

abbrev pub services : Services
services = record {
  get_client = λ id. if id == "app" then ok app else err invalid_client;
  authorize_secret = λ id secret. require (secret == "s3cret") invalid_client;
  fetch_jwks = λ uri. none;
  thumbprint = λ key. some key.material;
  unescape = λ text. some text;
  s256 = λ text. text;
}

abbrev pub call : Context
call = record {
  dpop_header = "proof";
  dpop_proof = some "thumb";
  client_cert = none;
  authenticated = none;
  basic_auth = some ("app", "s3cret");
}

abbrev form : Credentials
form = record { client_id = ""; secret = "" }

abbrev bound_cnf : Cnf
bound_cnf = record { jkt = some "thumb"; x5t = none }

issued : token_cnf false false app call ≡ ok bound_cnf
unfolding token_cnf sender_constraining_requirements resolve_cnf
issued = refl

token_cnf-verify_token_binding_example : verify_token_binding call bound_cnf ≡ ok tt
token_cnf-verify_token_binding_example =
    token_cnf-verify_token_binding false false app call bound_cnf issued

narrowed : validate_refresh_scopes ("email" ∷ []) ("openid" ∷ "email" ∷ []) ≡ ok ("email" ∷ [])
unfolding validate_refresh_scopes
narrowed = refl

abbrev requested_scopes : List String
requested_scopes = "email" ∷ []

abbrev plain_challenge : CodeChallenge
plain_challenge = record { challenge = "abc"; method = "plain" }

verify_pkce_iff_example :
    (verify_pkce services (some plain_challenge) "abc" ≡ ok tt)
    ↔ ((plain_challenge.challenge ≡ "") ⊎ Answers services plain_challenge "abc")
verify_pkce_iff_example = verify_pkce_iff services plain_challenge "abc"

admitted : authenticate_client services false false call form ≡ ok app
unfolding authenticate_client credentials check_method validate_sender_constraining
admitted = refl

authenticate_client-Proven_example :
    (given : Credentials) × (credentials services call form ≡ ok given)
    × (((given.client_id ≢ "") × (services.get_client given.client_id ≡ ok app))
        × (Proven services app basic call given
            × (validate_sender_constraining (some app) false false call ≡ ok tt)))
authenticate_client-Proven_example =
    authenticate_client-Proven services false false call form app refl admitted

abbrev app_limit : ℕ × ℕ
app_limit = (2, 0)

positive : app_limit.0 ≢ 0
positive e = omega arith

check_client_rate_limit-allow_example :
    check_client_rate_limit [] app 100 ≡ verdict (allow (limiter_of [] app_limit) "app" 100)
check_client_rate_limit-allow_example =
    check_client_rate_limit-allow [] app app_limit 100 refl positive
