-- ===== src/Tests/Verifier.antt =====
-- pkg/protocol/verifier.go and keyset.go: one token, one key.
use kexcore_oidc.Verifier.Checks.{check_audience_any}
use kexcore_oidc.Verifier.Checks.{check_auth_time}
use kexcore_oidc.Verifier.Checks.{check_issued_at}
use kexcore_oidc.Verifier.Token.{check_freshness}
use kexcore_oidc.Verifier.Checks.{check_acr}
use kexcore_oidc.Verifier.Token.{authenticate_hint}
use kexcore_oidc.Verifier.Checks.{key_store_verify}
use kexcore_oidc.Verifier.Checks.{is_supported_sig_alg}
use kexcore_oidc.Verifier.Checks.{check_signature}
use kexcore_oidc.Verifier.Checks.{check_issuer}
use kexcore_oidc.Verifier.Checks.{parse_token}
use kexcore_oidc.Verifier.Checks.{decrypt_token}
use kexcore_oidc.Base.{
  ◌+◌, ◌-◌, ◌≤◌, ◌<◌, String, ◌≡◌, refl, ◌↔◌, ◌⊎◌, inr, false, none, some, [], ◌∷◌, split, ok,
}
use kexcore_oidc.Keyset.{Jwk, alg_to_key_type, find_matching_key}
use kexcore_oidc.Keyset.Choice.{find_matching_key-eq, first_named, unnamed, the_only, prefer}
use kexcore_oidc.Verifier.Checks.{Claims, VerifyError, Codec, ns, round_second, check_expiration}
use kexcore_oidc.Verifier.Token.{
  AccessTokenVerifier, IdTokenHintVerifier, valid, hint_expired, resolve_key_set,
  verify_access_token_generic, verify_id_token_hint, IsAuthentic,
}
use kexcore_oidc.Verifier.Soundness.{
  verify_access_token_iff, verify_id_token_hint-IsAuthentic, verify_id_token_hint-valid,
}
use kexcore_oidc.Verifier.Assertion.{
  IsAsserted, verify_jwt_assertion, verify_jwt_assertion-IsAsserted,
}

abbrev pub signing_key : Jwk
signing_key = record { kid = "k1"; use_for = "sig"; kty = "RSA"; material = "m" }

abbrev other_key : Jwk
other_key = record { kid = "k2"; use_for = "sig"; kty = "RSA"; material = "m2" }

abbrev pub token_claims : Claims
token_claims = record {
  issuer = "client";
  subject = "client";
  audience = "https://op.example" ∷ [];
  expiration = 2000;
  issued_at = 1000;
  not_before = 0;
  auth_time = 900;
  nonce = "";
  jwt_id = "t1";
  azp = "";
  acr = "";
  client_id = "";
  sid = "";
}

-- Every token carries these claims, under the payload "b", signed by RS256 with the key k1.
abbrev pub codec : Codec
codec = record {
  base64_decode = λ body. some body;
  claims = λ payload. some token_claims;
  aud_is_array = λ payload. false;
  signatures = λ token. some ((record { kid = "k1"; alg = "RS256" }) ∷ []);
  verify = λ token key alg. some "b";
  decrypt = λ token key. none;
}

abbrev access_verifier : AccessTokenVerifier
access_verifier = record {
  issuer = "client";
  key_set = none;
  key_store = some (some (signing_key ∷ []));
  offset = 0;
  supported_sign_algs = "RS256" ∷ [];
}

abbrev pub hint_verifier : IdTokenHintVerifier
hint_verifier = record {
  issuer = "client";
  key_set = none;
  key_store = some (some (signing_key ∷ []));
  offset = 0;
  max_age_iat = 0;
  max_age = 0;
  supported_sign_algs = "RS256" ∷ [];
  acr = none;
}

accepted : verify_access_token_generic codec "a.b.c" access_verifier 1500000000000 ≡ ok token_claims
unfolding verify_access_token_generic decrypt_token split parse_token check_issuer check_signature
    is_supported_sig_alg resolve_key_set key_store_verify find_matching_key alg_to_key_type
    check_expiration
accepted = refl

expired_hint :
    (e : VerifyError) × (verify_id_token_hint codec "a.b.c" hint_verifier 2500000000000
      ≡ hint_expired token_claims e)
unfolding verify_id_token_hint authenticate_hint decrypt_token split parse_token check_issuer
    check_signature is_supported_sig_alg resolve_key_set key_store_verify find_matching_key
    alg_to_key_type check_acr check_freshness check_expiration
expired_hint = (_, refl)

verify_access_token_iff_example :
    (verify_access_token_generic codec "a.b.c" access_verifier 1500000000000 ≡ ok token_claims) ↔ (
      IsAuthentic codec "a.b.c" "client"
        ("RS256" ∷ [])
        (resolve_key_set codec access_verifier.key_set access_verifier.key_store)
        token_claims
      × (1500000000000 + 0 < ns token_claims.expiration))
verify_access_token_iff_example =
    verify_access_token_iff codec "a.b.c" access_verifier 1500000000000 token_claims

verify_id_token_hint-IsAuthentic_example :
    IsAuthentic codec "a.b.c" "client"
      ("RS256" ∷ [])
      (resolve_key_set codec hint_verifier.key_set hint_verifier.key_store)
      token_claims
verify_id_token_hint-IsAuthentic_example =
    verify_id_token_hint-IsAuthentic codec "a.b.c" hint_verifier 2500000000000 token_claims
      expired_hint.0 (inr expired_hint.1)

is_valid : verify_id_token_hint codec "a.b.c" hint_verifier 1500000000000 ≡ valid token_claims
unfolding verify_id_token_hint authenticate_hint decrypt_token split parse_token check_issuer
    check_signature is_supported_sig_alg resolve_key_set key_store_verify find_matching_key
    alg_to_key_type check_acr check_freshness check_expiration check_issued_at check_auth_time
is_valid = refl

verify_id_token_hint-valid_example :
    (1500000000000 + 0 < ns 2000)
    × (0 < 1000)
    × (ns 1000 ≤ round_second (1500000000000 + 0))
    × ((hint_verifier.max_age_iat ≡ 0) ⊎ (round_second (1500000000000 - 0) ≤ ns 1000))
    × ((hint_verifier.max_age ≡ 0) ⊎ ((0 < 900) × (round_second (1500000000000 - 0) ≤ ns 900)))
verify_id_token_hint-valid_example =
    verify_id_token_hint-valid codec "a.b.c" hint_verifier 1500000000000 token_claims is_valid

asserted :
    verify_jwt_assertion codec "a.b.c"
      ("https://op.example" ∷ [])
      (signing_key ∷ [])
      0
      1500000000000
    ≡ ok tt
unfolding verify_jwt_assertion parse_token split check_audience_any check_expiration
    find_matching_key alg_to_key_type
asserted = refl

verify_jwt_assertion-IsAsserted_example :
    IsAsserted codec "a.b.c" ("https://op.example" ∷ []) (signing_key ∷ []) 0 1500000000000
verify_jwt_assertion-IsAsserted_example =
    verify_jwt_assertion-IsAsserted codec "a.b.c" ("https://op.example" ∷ []) (signing_key ∷ []) 0
      1500000000000 {u = tt} asserted

find_matching_key-eq_example :
    find_matching_key "k2" "sig" "RS256" (signing_key ∷ other_key ∷ [])
    ≡ prefer
        (first_named "k2" "sig" "RS256" (signing_key ∷ other_key ∷ []))
        (the_only (unnamed "k2" "sig" "RS256" (signing_key ∷ other_key ∷ [])))
find_matching_key-eq_example =
    find_matching_key-eq "k2" "sig" "RS256" (signing_key ∷ other_key ∷ [])

abbrev second_id : String
second_id = "k2"

found_second : find_matching_key "k2" "sig" "RS256" (signing_key ∷ other_key ∷ []) ≡ ok other_key
unfolding find_matching_key alg_to_key_type
found_second = refl
