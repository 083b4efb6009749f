-- ===== src/Verifier/Checks.antt =====
-- pkg/protocol/verifier.go: the claims, DecryptToken, ParseToken, and the single checks.
use kexcore_oidc.Base.{
  ℕ, ◌+◌, ◌-◌, ◌*◌, ◌/◌, String, Bool, true, ◌&&◌, not, Option, none, some, List, [], ◌∷◌, ltb, leb,
  eqb, ◌==◌, ◌!=◌, if◌then◌else◌, contains, length, split, Result, ok, err, ◌>>=◌, ◌>>◌, require,
  expect,
}
use kexcore_oidc.Keyset.{Jwk, find_matching_key, key_use_signature}

-- The registered claims of a token.
pub record Claims : Type 0 where
  pub issuer : String
  pub subject : String
  pub audience : List String
  pub expiration : ℕ
  pub issued_at : ℕ
  pub not_before : ℕ
  pub auth_time : ℕ
  pub nonce : String
  pub jwt_id : String
  pub azp : String
  pub acr : String
  pub client_id : String
  pub sid : String

pub data VerifyError : Type 0 where
  no_decryption_key decryption_failed parse_failed malformed_payload undecodable_claims :
      VerifyError
  subject_missing subject_invalid issuer_invalid audience_invalid azp_missing azp_invalid :
      VerifyError
  signature_missing signature_multiple signature_unsupported_alg signature_invalid : VerifyError
  signature_invalid_payload expired iat_missing iat_in_future iat_too_old nbf_in_future :
      VerifyError
  nonce_invalid acr_invalid auth_time_not_present auth_time_too_old no_key_set : VerifyError

abbrev pub Check : Type 0
Check = Result VerifyError (Unit {0})

abbrev pub ns : ℕ → ℕ
ns seconds = seconds * 1000000000

-- `Round(time.Second)`.
abbrev pub round_second : ℕ → ℕ
round_second t = (t + 500000000) / 1000000000 * 1000000000

-- The header of one signature.
pub record SignatureHeader : Type 0 where
  pub kid : String
  pub alg : String

-- encoding/base64, encoding/json and the JOSE library.
pub record Codec : Type 0 where
  -- `base64.RawURLEncoding.DecodeString`.
  pub base64_decode : String → Option String
  -- `json.Unmarshal` into the claims.
  pub claims : String → Option Claims
  -- Whether the `aud` member of the JSON object is an array.
  pub aud_is_array : String → Bool
  -- `jws.Parse`: the headers of the signatures.
  pub signatures : String → Option (List SignatureHeader)
  -- `VerifySignature` by a key and an algorithm: the payload that the signature covers.
  pub verify : String → Jwk → String → Option String
  -- `DecryptTokenJWE`.
  pub decrypt : (token key : String) → Option String

-- `KeySet.VerifySignature`: the payload, if the signature verifies.
abbrev pub KeySet : Type 0
KeySet = String → Option String

-- `CheckSubject`.
unfoldable pub check_subject : Claims → Check
check_subject c = require (c.subject != "") subject_missing

-- `CheckIssuer`.
unfoldable pub check_issuer : Claims → String → Check
check_issuer c issuer = require (c.issuer == issuer) issuer_invalid

-- `CheckAudienceAny`: the loop over the allowed values.
unfoldable pub check_audience_any : Claims → List String → Check
check_audience_any c [] = err audience_invalid
check_audience_any c (a ∷ allowed) =
    let rest = check_audience_any c allowed in if contains c.audience a then ok tt else rest

-- `CheckAudience`.
unfoldable pub check_audience : Claims → String → Check
unfolding check_audience_any
check_audience c expected = check_audience_any c (expected ∷ [])

-- `DefaultAZPVerifier`.
unfoldable pub default_azp_verifier : String → String → Check
default_azp_verifier client_id azp = require (not ((azp != "") && (azp != client_id))) azp_invalid

-- `CheckAZPVerifier`.
unfoldable pub check_azp_verifier : Claims → (String → Check) → Check
check_azp_verifier c azp = do
  require (not (ltb 1 (length c.audience) && (c.azp == ""))) azp_missing
  elim (azp c.azp) [ ok u ↦ ok tt | err e ↦ err azp_invalid ]

-- `CheckAuthorizedParty`.
unfoldable pub check_authorized_party : Claims → String → Check
unfolding check_azp_verifier default_azp_verifier
check_authorized_party c client_id = check_azp_verifier c (default_azp_verifier client_id)

-- `DefaultACRVerifier`.
unfoldable pub default_acr_verifier : List String → String → Check
default_acr_verifier possible acr = require (contains possible acr) acr_invalid

-- `CheckAuthorizationContextClassReference`; `none` is a nil verifier.
unfoldable pub check_acr : Claims → Option (String → Check) → Check
check_acr c none = ok tt
check_acr c (some acr) = elim (acr c.acr) [ ok u ↦ ok tt | err e ↦ err acr_invalid ]

-- `CheckExpiration`: `time.Now().Add(offset).Before(expiration)`. An absent claim is year 1 or 1970,
-- and has passed either way.
unfoldable pub check_expiration : Claims → (offset now : ℕ) → Check
check_expiration c offset now = require (ltb (now + offset) (ns c.expiration)) expired

-- `CheckIssuedAt`.
unfoldable pub check_issued_at : Claims → (max_age_iat offset now : ℕ) → Check
check_issued_at c max_age_iat offset now = do
  require (not (eqb c.issued_at 0)) iat_missing
  require (leb (ns c.issued_at) (round_second (now + offset))) iat_in_future
  (if eqb max_age_iat 0
      then ok tt
      else require (leb (round_second (now - max_age_iat)) (ns c.issued_at)) iat_too_old)

-- `CheckNonce`.
unfoldable pub check_nonce : Claims → String → Check
check_nonce c nonce = require (c.nonce == nonce) nonce_invalid

-- `CheckAuthTime`.
unfoldable pub check_auth_time : Claims → (max_age now : ℕ) → Check
check_auth_time c max_age now = if eqb max_age 0 then ok tt else do
  require (not (eqb c.auth_time 0)) auth_time_not_present
  require (leb (round_second (now - max_age)) (ns c.auth_time)) auth_time_too_old

-- `isSupportedSigAlg`.
unfoldable pub is_supported_sig_alg : String → List String → Bool
is_supported_sig_alg alg [] = true
is_supported_sig_alg alg (a ∷ algs) = contains (a ∷ algs) alg

-- `parts[1]`, if there are exactly three parts.
abbrev pub middle_of_three : List String → Option String
middle_of_three (header ∷ body ∷ signature ∷ []) = some body
middle_of_three _ = none

-- The guards of `CheckSignature` on the number of signatures, and the algorithm of the only one.
abbrev pub only_alg : List SignatureHeader → Result VerifyError String
only_alg [] = err signature_missing
only_alg (s ∷ []) = ok s.alg
only_alg (s ∷ s' ∷ ss) = err signature_multiple

-- `GetKeyIDAndAlg`.
abbrev pub key_id_and_alg : List SignatureHeader → String × String
key_id_and_alg [] = ("", "")
key_id_and_alg (s ∷ ss) = (s.kid, s.alg)

module _ (k : Codec) where
  open k use {base64_decode, signatures, verify, decrypt}

  -- `decryptToken`.
  unfoldable pub decrypt_token : String → Option String → Result VerifyError String
  decrypt_token token key =
      let n = length (split b'.' token) in
      if eqb n 3
      then ok token
      else if eqb n 5
      then elim key [
        | none ↦ err no_decryption_key
        | some b ↦ expect (decrypt token b) decryption_failed
      ]
      else ok token

  -- `ParseToken`: the payload and the claims.
  unfoldable pub parse_token : String → Result VerifyError (String × Claims)
  parse_token token = do
    body ← expect (middle_of_three (split b'.' token)) parse_failed
    payload ← expect (base64_decode body) malformed_payload
    c ← expect (k.claims payload) undecodable_claims
    ok (payload, c)

  -- `CheckSignature`; a nil key set is a fault.
  unfoldable pub check_signature : (token payload : String) → List String → Option KeySet → Check
  check_signature token payload algs set = do
    sigs ← expect (signatures token) parse_failed
    alg ← only_alg sigs
    require (is_supported_sig_alg alg algs) signature_unsupported_alg
    verify_signature ← expect set no_key_set
    signed ← expect (verify_signature token) signature_invalid
    require (signed == payload) signature_invalid_payload

  -- `keyStoreAdapter.VerifySignature`, over the stored keys (with the store's id and use already
  -- written to them), or none if they cannot be fetched.
  unfoldable pub key_store_verify : Option (List Jwk) → KeySet
  key_store_verify keys token = elim keys [
    | none ↦ none
    | some ks ↦ elim (signatures token) [
      | none ↦ none
      | some sigs ↦
          elim (find_matching_key (key_id_and_alg sigs).0 key_use_signature (key_id_and_alg sigs).1
            ks) [ ok key ↦ verify token key (key_id_and_alg sigs).1 | err e ↦ none ]
    ]
  ]
