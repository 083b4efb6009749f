-- ===== src/Tests/Store.antt =====
-- A deployment of one client, for the token endpoint's handlers.
use kexcore_oidc.Base.{
  Bool, ℕ, String, ◌≡◌, refl, subst, true, false, Option, none, some, [], ◌∷◌, eqb, ◌==◌,
  if◌then◌else◌, ok, err, ok-injective,
}
use Prim.Native.Char.{code}
use kexcore_oidc.OidcError.{other_error}
use kexcore_oidc.Issue.Request.{TokenRequest}
use kexcore_oidc.Issue.Host.{AuthRequest, TokenStore, TokenCrypto}
use kexcore_oidc.Issue.Response.{Config}
use kexcore_oidc.Issue.Frame.{IsKept}
use kexcore_oidc.Issue.Resolve.{CryptoLaws}

abbrev pub request : TokenRequest
request = record {
  subject = "user";
  audience = "app" ∷ [];
  client_id = "app";
  scopes = "profile" ∷ [];
  nonce = some "n";
  auth = none;
  extra_claims = none;
}

-- A deployment that finds codes in its state; it has one refresh token, which is bound to a key.
abbrev pub store_over :
    (State : Type 0)
    → (String → State → State × Option AuthRequest)
    → (String → State → State × Bool)
    → TokenStore State
store_over State by_code delete_request = record {
  auth_request_by_code = by_code;
  delete_auth_request = delete_request;
  auth_request_dpop_jkt = λ st id. none;
  revoke_tokens_for_used_code = none;
  track_token = none;
  token_request_by_refresh_token = λ st token.
      if token == "r1" then some (record { request = request; dpop_jkt = "thumb" }) else none;
  create_access_token = λ q cnf st. (st, ok ("at-1", 9000000000));
  create_access_and_refresh_tokens = λ q current cnf st. (st, ok ("at-1", ("r2", 9000000000)));
  create_jwt_access_token = none;
  create_refresh_token = none;
  client_credentials_request = none;
  record_session = none;
}

pub store_over-IsKept :
    (State : Type 0) (by_code : String → State → State × Option AuthRequest)
    (delete_request : String → State → State × Bool) (P : State → Type 0)
    → IsKept (store_over State by_code delete_request) P
store_over-IsKept State by_code delete_request P = record {
  by_access = λ q cnf. record { kept = λ st p. p };
  by_both = λ q current cnf. record { kept = λ st p. p };
  by_jwt = λ make q cnf e. absurd (cc);
  by_refresh = λ make q current cnf e. absurd (cc);
  by_session = λ save subject client_id sid st e p. absurd (cc);
}

-- Encryption and encoding write one character in front.
abbrev pub strip : ℕ → String → Option String
strip mark String.[] = none
strip mark (String.◌∷◌ ch s) = if eqb (code ch) mark then some s else none

abbrev pub crypto : TokenCrypto
crypto = record {
  encrypt = λ plain. ok (String.◌∷◌ "e" plain);
  decrypt = strip b'e';
  encode = λ cipher. String.◌∷◌ "u" cipher;
  decode = strip b'u';
  sm2_decrypt = none;
  token_encryption_key = none;
  sm2_encryption_key = none;
  sm9_encryption_key = none;
  encrypt_jwe = λ signed key alg enc. err other_error;
  encrypt_sm9 = λ signed key. err other_error;
  signing_key = err other_error;
  signing_key_by_alg = none;
  sign = λ key claims. err other_error;
  hash = λ token alg. token;
}

pub crypto_laws : CryptoLaws crypto
crypto_laws = record {
  decrypts =
      λ plain cipher e. subst (λ (c : String). strip b'e' c ≡ some plain) (ok-injective e) refl;
  decodes = λ cipher. refl;
}

abbrev pub config : Config
config = record {
  require_dpop = false;
  require_mtls = false;
  invalidate_refresh_on_use = true;
  device_poll_interval = 5000000000;
  pairwise = none;
  issuer = "https://op.example";
}
