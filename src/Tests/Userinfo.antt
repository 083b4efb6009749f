-- ===== src/Tests/Userinfo.antt =====
-- pkg/storm/plugins/userinfo: a bound opaque token, presented with its key.
use kexcore_oidc.Base.{
  String, ◌≡◌, refl, true, false, none, some, List, [], ◌==◌, if◌then◌else◌, ok, ◌≢◌, arith, eq_iff,
}
use kexcore_oidc.Grants.Binding.{
  Cnf, verify_token_binding, token_cnf, sender_constraining_requirements, resolve_cnf,
}
use kexcore_oidc.Issue.Opaque.{Issued, create_access_token, resolve_token, parse_token_parts}
use kexcore_oidc.Issue.Host.{TokenStore}
use kexcore_oidc.Userinfo.Issued.{IsPresented, handle_userinfo-issued}
use kexcore_oidc.Tests.Grants.{app, services, call}
use kexcore_oidc.Tests.Store.{request, store_over, crypto, crypto_laws}
use kexcore_oidc.Tests.Verifier.{codec}
use kexcore_oidc.Userinfo.Info.{UserInfo, no_profile}
use kexcore_oidc.Userinfo.Endpoint.{
  UserinfoRequest, UserinfoHost, json_info, handle_userinfo, extract_access_token, after_scheme,
  validate_dpop_proof_ath, check_binding, userinfo_answer,
}
use kexcore_oidc.Userinfo.Possession.{IsEntitled, handle_userinfo-IsEntitled}

abbrev alice : UserInfo
alice = record {
  subject = "user";
  about = no_profile;
  email_info = record { email = "a@example"; email_verified = true };
  phone_info = record { phone_number = ""; phone_number_verified = false };
  address = none;
  claims = [];
}

abbrev key_of_token : Cnf
key_of_token = record { jkt = some "thumb"; x5t = none }

abbrev host : UserinfoHost
host = record {
  from_token = λ token_id subject origin. if subject == "user" then some alice else none;
  from_request = none;
  token_cnf_lookup = some (λ token_id. some (some key_of_token));
  token_client_id = none;
  response_alg = none;
  signing_key = none;
  signing_key_by_alg = none;
  known_alg = λ alg. true;
  accepts_claim = λ key v. true;
  sign_jwt = λ alg key claims. none;
}

abbrev ask : UserinfoRequest
ask = record {
  authorization = "DPoP ueat-1:user";
  form_token = none;
  origin = "";
  accepts_jwt = false;
  proof_ath = "ueat-1:user";
  issuer = "https://op.example";
}

told : handle_userinfo services crypto codec none host call ask 5 ≡ ok (json_info alice)
unfolding handle_userinfo extract_access_token after_scheme validate_dpop_proof_ath check_binding
    userinfo_answer resolve_token parse_token_parts verify_token_binding
told = refl

handle_userinfo-IsEntitled_example :
    IsEntitled services crypto codec none host call ask 5 (json_info alice)
handle_userinfo-IsEntitled_example =
    handle_userinfo-IsEntitled services crypto codec none host call ask 5 (json_info alice) told

abbrev entries : TokenStore (List String)
entries = store_over (List String) (λ code st. (st, none)) (λ id st. (st, true))

abbrev issued : Issued
issued = record {
  access_token = "ueat-1:user";
  token_id = "at-1";
  refresh_token = "";
  validity = 9000000000;
}

issues : create_access_token crypto entries request app false "" key_of_token 0 [] ≡ ([], ok issued)
unfolding create_access_token
issues = refl

one_part : parse_token_parts "at-1" ≡ none
unfolding parse_token_parts
one_part = refl

binds : token_cnf false false app call ≡ ok key_of_token
unfolding token_cnf sender_constraining_requirements resolve_cnf
binds = refl

carries : extract_access_token ask ≡ "ueat-1:user"
unfolding extract_access_token after_scheme
carries = refl

nonblank : (s : String) → (s == "") ≡ false → s ≢ ""
nonblank s h = ground (arith, eq_iff s "")

presents : IsPresented services host ask "ueat-1:user" "at-1" key_of_token
presents = record {
  look = λ token_id. some (some key_of_token);
  carried = carries;
  not_blank = nonblank "ueat-1:user" refl;
  ath_given = nonblank "ueat-1:user" refl;
  ath = refl;
  has_lookup = refl;
  on_record = refl;
}

handle_userinfo-issued_example :
    handle_userinfo services crypto codec none host call ask 5
    ≡ ok (userinfo_answer host ask false "at-1" alice 5)
handle_userinfo-issued_example =
    handle_userinfo-issued services crypto crypto_laws entries codec none host call ask false false
      app key_of_token request false "" 0 5 [] [] issued alice binds issues refl refl one_part
      presents refl (nonblank "user" refl)
