-- ===== src/Tests/Assertion.antt =====
-- pkg/storm/shared/clientauth.go: one client with a key, one assertion.
use kexcore_oidc.Grants.Endpoint.{check_method}
use kexcore_oidc.Base.{◌≡◌, refl, ◌≢◌, some, [], ◌∷◌, ◌==◌, if◌then◌else◌, ok, err}
use kexcore_oidc.OidcError.{invalid_client}
use kexcore_oidc.Client.{Client, basic, private_key_jwt}
use kexcore_oidc.Grants.Endpoint.{Services, Credentials, credentials}
use kexcore_oidc.Grants.Admission.{Proven}
use kexcore_oidc.Grants.ClientAuth.{Form, jwt_assertion, helper_authenticate_client}
use kexcore_oidc.Grants.Assertion.{
  helper_authenticate_client-no_assertion, helper_authenticate_client-Proven,
}
use kexcore_oidc.Tests.Grants.{app, services, call}
use kexcore_oidc.Tests.Verifier.{codec, signing_key}

abbrev pub signer : Client
signer = record app { id = "client"; auth_method = private_key_jwt; jwks = some (signing_key ∷ []) }

abbrev signer_services : Services
signer_services = record services {
  get_client = λ id. if id == "client" then ok signer else err invalid_client;
}

abbrev assertion_form : Form
assertion_form = record {
  assertion_type = jwt_assertion;
  assertion = "a.b.c";
  credentials = record { client_id = ""; secret = "" };
}

helper_authenticate_client-no_assertion_example :
    helper_authenticate_client signer_services codec call assertion_form 1500000000000 ≢ ok signer
helper_authenticate_client-no_assertion_example =
    helper_authenticate_client-no_assertion signer_services codec call assertion_form 1500000000000
      signer refl

abbrev secret_form : Form
secret_form = record {
  assertion_type = "";
  assertion = "";
  credentials = record { client_id = ""; secret = "" };
}

by_secret : helper_authenticate_client services codec call secret_form 0 ≡ ok app
unfolding helper_authenticate_client credentials check_method
by_secret = refl

helper_authenticate_client-Proven_example :
    (given : Credentials) × (credentials services call secret_form.credentials ≡ ok given)
    × ((services.get_client given.client_id ≡ ok app) × Proven services app basic call given)
helper_authenticate_client-Proven_example =
    helper_authenticate_client-Proven services codec call secret_form 0 app by_secret
