-- ===== src/Tests/AuthRequest.antt =====
-- pkg/storm/shared/authrequest.go: one web client and one request.
use kexcore_oidc.AuthRequest.Redirect.{check_redirect_uri_against_client}
use kexcore_oidc.AuthRequest.Redirect.{validate_redirect_uri_web}
use kexcore_oidc.AuthRequest.Params.{validate_response_type}
use kexcore_oidc.AuthRequest.Params.{validate_nonce}
use kexcore_oidc.AuthRequest.Params.{validate_pkce}
use kexcore_oidc.Base.{String, ◌≡◌, refl, ◌≢◌, ◌⊎◌, true, false, none, some, [], ◌∷◌, ok}
use kexcore_oidc.Client.{Client, basic}
use kexcore_oidc.AuthRequest.Params.{
  AuthRequest, validate_prompt, validate_scopes, validate_params_except_redirect_uri,
}
use kexcore_oidc.AuthRequest.Redirect.{Net, validate_redirect_uri}
use kexcore_oidc.AuthRequest.Scopes.{IsAcceptable, validate_params-IsAcceptable}
use kexcore_oidc.AuthRequest.Registered.{
  IsNativeRedirect, IsWebRedirect, validate_redirect_uri_sound,
}
use kexcore_oidc.Client.{holds}

abbrev app : Client
app = record {
  id = "app";
  auth_method = basic;
  is_native = none;
  dev_mode = none;
  redirect_uris = some ("https://app.example/cb" ∷ []);
  redirect_uri_globs = none;
  strict_scope_validation = none;
  is_scope_allowed = none;
  response_types = none;
  fapi_profile = none;
  grant_types = none;
  sender_constraining = some (true, false);
  validate_client_cert = none;
  jwks_uri = none;
  jwks = none;
  rate_limit = some (2, 0);
  allowed_grant_types = none;
  id_token_signed_alg = none;
  id_token_lifetime = none;
  id_token_encryption = none;
  jwt_access_tokens = none;
  access_token_encryption = none;
  encryption_key = none;
  post_logout_redirect_uris = none;
  par_lifetime = none;
  request_object_signing_alg = none;
}

abbrev asked : AuthRequest
asked = record {
  scopes = "openid" ∷ "admin" ∷ [];
  response_type = "code";
  redirect_uri = "https://app.example/cb";
  nonce = "";
  prompt = "login" ∷ [];
  max_age = none;
  code_challenge = "abc";
  code_challenge_method = "S256";
}

-- The request as the validation leaves it.
abbrev answered : AuthRequest
answered = record asked { scopes = "openid" ∷ []; max_age = some 0 }

abbrev net : Net
net = record {
  query_unescape = λ text. some text;
  parse_url = λ text. some (record {
    scheme = "https";
    host = "app.example";
    hostname = "app.example";
    path = "/cb";
    raw_query = "";
  });
  is_loopback_ip = λ host. false;
  glob_match = λ pattern uri. some false;
}

abbrev filtered : AuthRequest
filtered = record asked { scopes = "openid" ∷ [] }

scopes_kept : validate_scopes app asked [] ≡ ok (filtered)
unfolding validate_scopes
scopes_kept = refl

all_valid : validate_params_except_redirect_uri app asked [] ≡ ok answered
unfolding validate_params_except_redirect_uri validate_prompt validate_scopes validate_pkce
    validate_nonce validate_response_type
all_valid = refl

validate_params-IsAcceptable_example : IsAcceptable app answered
validate_params-IsAcceptable_example = validate_params-IsAcceptable app asked answered [] all_valid

abbrev callback : String
callback = "https://app.example/cb"

callback_valid : validate_redirect_uri net app callback "code" ≡ ok tt
unfolding validate_redirect_uri validate_redirect_uri_web check_redirect_uri_against_client
callback_valid = refl

validate_redirect_uri_sound_example :
    (callback ≢ "")
    × ((plain : String) × (net.query_unescape callback ≡ some plain)
        × (((holds app.is_native ≡ true) × IsNativeRedirect net app plain)
            ⊎ ((holds app.is_native ≡ false) × IsWebRedirect net app plain "code")))
validate_redirect_uri_sound_example =
    validate_redirect_uri_sound net app callback "code" callback_valid
