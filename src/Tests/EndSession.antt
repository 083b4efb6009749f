-- ===== src/Tests/EndSession.antt =====
-- pkg/storm/plugins/endsession: a logout with an expired hint and a registered URI.
use kexcore_oidc.Base.{
  ◌≡◌, refl, Bool, true, false, none, some, [], ◌∷◌, ◌==◌, if◌then◌else◌, ok, err, split,
}
use kexcore_oidc.OidcError.{invalid_client}
use kexcore_oidc.Client.{Client}
use kexcore_oidc.Grants.Endpoint.{Services}
use kexcore_oidc.Keyset.{find_matching_key, alg_to_key_type}
use kexcore_oidc.Verifier.Checks.{
  decrypt_token, parse_token, check_issuer, check_signature, is_supported_sig_alg, key_store_verify,
  check_acr, check_expiration, check_auth_time, check_issued_at,
}
use kexcore_oidc.Verifier.Token.{
  verify_id_token_hint, authenticate_hint, resolve_key_set, check_freshness,
}
use kexcore_oidc.Tests.Grants.{app, services}
use kexcore_oidc.Tests.Verifier.{codec, hint_verifier}
use kexcore_oidc.EndSession.Logout.{
  EndSessionForm, redirect_to, Logout, handle_end_session, validate_end_session_request,
  hint_claims, bind_client, choose_redirect, logout_answer, validate_post_logout_redirect_uri,
}
use kexcore_oidc.EndSession.Redirect.{IsLoggedOut, handle_end_session-IsLoggedOut}

abbrev leaving_app : Client
leaving_app = record app {
  id = "https://op.example";
  post_logout_redirect_uris = some ("https://app.example/bye" ∷ []);
}

abbrev logout_services : Services
logout_services = record services {
  get_client = λ id. if id == "https://op.example" then ok leaving_app else err invalid_client;
}

-- The state is whether the session is alive.
abbrev logout : Logout Bool
logout = record {
  terminate = λ user client st. (false, ok tt);
  hook = none;
  with_state = λ uri state. none;
}

abbrev bye_form : EndSessionForm
bye_form = record {
  id_token_hint = "a.b.c";
  client_id = "";
  post_logout_redirect_uri = "https://app.example/bye";
  state = "s";
}

logged_out :
    handle_end_session logout_services codec (some hint_verifier) logout bye_form 2500000000000 true
    ≡ (false, ok (redirect_to "https://app.example/bye"))
unfolding handle_end_session validate_end_session_request hint_claims verify_id_token_hint
    authenticate_hint decrypt_token split parse_token check_issuer check_signature
    is_supported_sig_alg resolve_key_set key_store_verify find_matching_key alg_to_key_type
    check_acr check_freshness check_expiration bind_client choose_redirect logout_answer
    validate_post_logout_redirect_uri check_auth_time check_issued_at
logged_out = refl

handle_end_session-IsLoggedOut_example :
    IsLoggedOut logout_services codec
      (some hint_verifier)
      logout
      bye_form
      2500000000000
      true
      false
      "https://app.example/bye"
handle_end_session-IsLoggedOut_example =
    handle_end_session-IsLoggedOut logout_services codec (some hint_verifier) logout bye_form
      2500000000000 true false "https://app.example/bye" logged_out
