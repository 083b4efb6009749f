-- ===== src/Tests/Issue.antt =====
-- pkg/storm/plugins/token, revocation and introspection: one opaque token and one ID token.
use kexcore_oidc.Base.{true}
use kexcore_oidc.Base.{insert}
use kexcore_oidc.Grants.Endpoint.{check_method}
use kexcore_oidc.Grants.Endpoint.{credentials}
use kexcore_oidc.Base.{
  String, ◌≡◌, refl, false, none, some, List, [], ◌∷◌, ◌==◌, if◌then◌else◌, lookup, ok, eq_iff,
}
use kexcore_oidc.Grants.Binding.{Cnf}
use kexcore_oidc.Grants.ClientAuth.{Form, helper_authenticate_client}
use kexcore_oidc.Issue.Request.{TokenRequest, Pairwise, apply_pairwise, resource_aware}
use kexcore_oidc.Issue.Host.{ClaimValue, text, TokenStore}
use kexcore_oidc.Issue.Claims.{id_token_claims, protocol_claims}
use kexcore_oidc.Issue.IdToken.{
  id_token_claims-protected, id_token_claims-identity, wrapped-no_nonce,
}
use kexcore_oidc.Issue.Opaque.{Issued, create_access_token, resolve_token, parse_token_parts}
use kexcore_oidc.Issue.Resolve.{create_access_token-resolve_token}
use kexcore_oidc.Revocation.Endpoint.{
  RevocationStore, IntrospectStore, invalid_refresh_token, handle_introspection, handle_revocation,
}
use kexcore_oidc.Revocation.Encoded.{handle_revocation-encoded}
use kexcore_oidc.Tests.Grants.{app, services, call}
use kexcore_oidc.Tests.Store.{request, store_over, crypto, crypto_laws}
use kexcore_oidc.Tests.Verifier.{codec}

abbrev entries : TokenStore (List String)
entries = store_over (List String) (λ code st. (st, none)) (λ id st. (st, true))

abbrev unbound : Cnf
unbound = record { jkt = none; x5t = none }

abbrev issued : Issued
issued = record {
  access_token = "ueat-1:user";
  token_id = "at-1";
  refresh_token = "";
  validity = 9000000000;
}

issues : create_access_token crypto entries request app false "" unbound 0 [] ≡ ([], ok issued)
unfolding create_access_token
issues = refl

one_part : parse_token_parts "at-1" ≡ none
unfolding parse_token_parts
one_part = refl

create_access_token-resolve_token_example :
    resolve_token crypto codec none "ueat-1:user" 5 ≡ some ("at-1", "user")
create_access_token-resolve_token_example =
    create_access_token-resolve_token crypto entries crypto_laws request app false "" unbound 0 []
      [] issued refl refl issues one_part codec none 5

abbrev caller_form : Form
caller_form = record {
  assertion_type = "";
  assertion = "";
  credentials = record { client_id = ""; secret = "" };
}

authenticates : helper_authenticate_client services codec call caller_form 5 ≡ ok app
unfolding helper_authenticate_client credentials check_method
authenticates = refl

-- The ids that were revoked.
abbrev revocations : RevocationStore (List String)
revocations = record {
  get_refresh_token_info = λ st client_id token. invalid_refresh_token;
  revoke_token = λ token user_id client_id st. (token ∷ st, ok tt);
}

abbrev known_tokens : IntrospectStore crypto codec none
known_tokens token_id subject client_id =
    if token_id == "at-1" then some (("sub", subject) ∷ []) else none

handle_revocation-encoded_example :
    (handle_introspection crypto codec none services call caller_form known_tokens "ueat-1:user" 5
      ≡ ok (some (("sub", "user") ∷ [])))
    × (handle_revocation crypto codec none revocations services call caller_form "access_token"
          "ueat-1:user" 5 []
        ≡ ("ueat-1:user" ∷ [], ok tt))
handle_revocation-encoded_example =
    handle_revocation-encoded crypto codec none entries crypto_laws request app false "" unbound 0
      [] [] issued refl refl issues one_part refl (λ e. absurd (cc)) services call caller_form 5 app
      (λ v e. absurd (cc)) authenticates revocations known_tokens []

abbrev same_text : String → String
same_text v = v

abbrev with_extra : TokenRequest
with_extra = record request {
  extra_claims = some (("sub", "other") ∷ ("dept", "it") ∷ []);
  audience = "app" ∷ "api" ∷ [];
}

sub_first :
    lookup "sub" (protocol_claims same_text "https://op.example" with_extra 3600000000000 0 "at" "")
    ≡ some (text "user")
unfolding lookup protocol_claims insert
sub_first = refl

id_token_claims-protected_example :
    lookup "sub" (id_token_claims same_text "https://op.example" with_extra 3600000000000 0 "at" "")
    ≡ some (text "user")
id_token_claims-protected_example =
    id_token_claims-protected same_text "https://op.example" 3600000000000 0 "at" "" with_extra
      "sub" (text "user") (λ e. let yes = (eq_iff "sub" "azp").1 e in absurd (cc)) sub_first

id_token_claims-identity_example :
    (lookup "iss" (id_token_claims same_text "i" with_extra 1000000000 0 "at" "") ≡ some (text "i"))
    × ((lookup "sub" (id_token_claims same_text "i" with_extra 1000000000 0 "at" "")
          ≡ some (text "user"))
        × ((lookup "aud" (id_token_claims same_text "i" with_extra 1000000000 0 "at" "")
              ≡ some (text "app"))
            × ((lookup "iat" (id_token_claims same_text "i" with_extra 1000000000 0 "at" "")
                  ≡ some (ClaimValue.number 0))
                × (lookup "exp" (id_token_claims same_text "i" with_extra 1000000000 0 "at" "")
                    ≡ some (ClaimValue.number 1)))))
id_token_claims-identity_example =
    id_token_claims-identity same_text "i" 1000000000 0 "at" "" with_extra

abbrev pairwise : Pairwise
pairwise = record { is_pairwise_client = λ id. id == "app"; transform = λ client_id subject. "p" }

wrapped-no_nonce_example :
    (lookup "nonce"
        (id_token_claims same_text "i" (apply_pairwise (some pairwise) "app" request) 1 0 "at" "")
      ≡ none)
    × (lookup "nonce"
          (id_token_claims same_text "i" (resource_aware ("api" ∷ []) request) 1 0 "at" "")
        ≡ none)
wrapped-no_nonce_example =
    wrapped-no_nonce same_text "i" 1 0 "at" "" request pairwise "app" "api" [] refl
