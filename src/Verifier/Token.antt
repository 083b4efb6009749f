-- ===== src/Verifier/Token.antt =====
-- pkg/protocol/verifier.go: VerifyAccessToken and VerifyIDTokenHint, and what their answers mean.
use kexcore_oidc.Base.{
  ℕ, String, ◌≡◌, ◌⊎◌, Option, none, some, List, [], ◌∷◌, Listed, split, Result, ok, err, ◌>>=◌,
  ◌>>◌,
}
use kexcore_oidc.Verifier.Checks.{
  Claims, VerifyError, Check, SignatureHeader, Codec, KeySet, check_issuer, check_acr,
  check_expiration, check_issued_at, check_auth_time, middle_of_three, decrypt_token, parse_token,
  check_signature, key_store_verify,
}
use kexcore_oidc.Keyset.{Jwk}

-- `AccessTokenVerifier`, with `resolveKeySet`: the key set, else the adapter over the key store.
pub record AccessTokenVerifier : Type 0 where
  pub issuer : String
  pub key_set : Option KeySet
  pub key_store : Option (Option (List Jwk))
  pub offset : ℕ
  pub supported_sign_algs : List String

-- `IDTokenHintVerifier`.
pub record IdTokenHintVerifier : Type 0 where
  pub issuer : String
  pub key_set : Option KeySet
  pub key_store : Option (Option (List Jwk))
  pub offset : ℕ
  pub max_age_iat : ℕ
  pub max_age : ℕ
  pub supported_sign_algs : List String
  pub acr : Option (String → Check)

-- What `VerifyIDTokenHint` returns: claims, claims with `IDTokenHintExpiredError`, or an error.
pub data HintResult : Type 0 where
  valid : Claims → HintResult
  hint_expired : Claims → VerifyError → HintResult
  invalid : VerifyError → HintResult

module _ (k : Codec) where
  -- `resolveKeySet`.
  unfoldable pub resolve_key_set : Option KeySet → Option (Option (List Jwk)) → Option KeySet
  resolve_key_set (some ks) store = some ks
  resolve_key_set none (some keys) = some (key_store_verify k keys)
  resolve_key_set none none = none

  -- `VerifyAccessTokenGeneric`.
  unfoldable pub verify_access_token_generic :
      String → AccessTokenVerifier → (now : ℕ) → Result VerifyError Claims
  verify_access_token_generic token v now = do
    decrypted ← decrypt_token k token none
    parsed ← parse_token k decrypted
    check_issuer parsed.1 v.issuer
    check_signature k decrypted parsed.0 v.supported_sign_algs
        (resolve_key_set v.key_set v.key_store)
    check_expiration parsed.1 v.offset now
    ok parsed.1

  -- `VerifyAccessToken`: the same chain; every error is a plain false.
  unfoldable pub verify_access_token :
      String → AccessTokenVerifier → (now : ℕ) → Option (String × String)
  verify_access_token token v now = elim (verify_access_token_generic token v now) [
    | ok c ↦ some (c.jwt_id, c.subject)
    | err e ↦ none
  ]

  -- The checks of `VerifyIDTokenHint` whose failure is a plain error.
  unfoldable pub authenticate_hint : String → IdTokenHintVerifier → Result VerifyError Claims
  authenticate_hint token v = do
    decrypted ← decrypt_token k token none
    parsed ← parse_token k decrypted
    check_issuer parsed.1 v.issuer
    check_signature k decrypted parsed.0 v.supported_sign_algs
        (resolve_key_set v.key_set v.key_store)
    check_acr parsed.1 v.acr
    ok parsed.1

  -- The checks whose failure is reported as an expired hint.
  unfoldable pub check_freshness : Claims → IdTokenHintVerifier → (now : ℕ) → Check
  check_freshness c v now = do
    check_expiration c v.offset now
    check_issued_at c v.max_age_iat v.offset now
    check_auth_time c v.max_age now

  -- `VerifyIDTokenHint`.
  unfoldable pub verify_id_token_hint : String → IdTokenHintVerifier → (now : ℕ) → HintResult
  verify_id_token_hint token v now = elim (authenticate_hint token v) [
    | err e ↦ invalid e
    | ok c ↦ elim (check_freshness c v now) [ ok u ↦ valid c | err e ↦ hint_expired c e ]
  ]

  -- That a token's signature is good: it has one signature, by an algorithm that is allowed, and
  -- the key set verifies it over exactly the payload.
  pub record IsSigned (token payload : String) (algs : List String) (set : Option KeySet)
      : Type 0 where
    pub header : SignatureHeader
    pub verify_signature : KeySet
    pub one : k.signatures token ≡ some (header ∷ [])
    pub allowed : (algs ≡ []) ⊎ Listed header.alg algs
    pub has_set : set ≡ some verify_signature
    pub covers : verify_signature token ≡ some payload

  -- That claims are those of a token issued by `issuer` and signed.
  pub record IsAuthentic (token issuer : String) (algs : List String) (set : Option KeySet)
      (c : Claims) : Type 0 where
    pub body : String
    pub payload : String
    pub three_parts : middle_of_three (split b'.' token) ≡ some body
    pub decoded : k.base64_decode body ≡ some payload
    pub claims_eq : k.claims payload ≡ some c
    pub issued_by : c.issuer ≡ issuer
    pub signed : IsSigned token payload algs set
