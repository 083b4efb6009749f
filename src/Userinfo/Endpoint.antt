-- ===== src/Userinfo/Endpoint.antt =====
-- pkg/storm/plugins/userinfo/userinfo.go: the handler (OIDC Core, section 5.3).
use kexcore_oidc.Base.{
  ℕ, ◌+◌, String, Bool, false, ◌&&◌, ◌||◌, Option, none, some, leb, eqb, ◌==◌, ◌!=◌, if◌then◌else◌,
  Map, Result, ok, err, ◌>>=◌, ◌>>◌, require, expect,
}
use Prim.Native.Char.{code}
use kexcore_oidc.OidcError.{OidcError, invalid_request}
use kexcore_oidc.Grants.Binding.{Context, Cnf, is_some, verify_token_binding}
use kexcore_oidc.Grants.Endpoint.{Services}
use kexcore_oidc.Issue.Host.{SigningKey, ClaimValue, TokenCrypto}
use kexcore_oidc.Issue.Opaque.{resolve_token}
use kexcore_oidc.Verifier.Checks.{Codec}
use kexcore_oidc.Verifier.Token.{AccessTokenVerifier}
use kexcore_oidc.Userinfo.Info.{UserInfo, jwt_claims}

-- What the handler reads of the HTTP request, beside its context.
pub record UserinfoRequest : Type 0 where
  -- The Authorization header.
  pub authorization : String
  -- `access_token` of the form of a POST that could be parsed.
  pub form_token : Option String
  pub origin : String
  -- Whether the Accept header contains "application/jwt".
  pub accepts_jwt : Bool
  -- `AccessTokenHash` of the DPoP proof, where the context has a proof.
  pub proof_ath : String
  -- `IssuerFromContext`.
  pub issuer : String

-- A claims source: the token id, the subject and the origin; `none` is an error.
abbrev pub ClaimSource : Type 0
ClaimSource = (token_id subject origin : String) → Option UserInfo

-- The stores of the plugin, and the JWT library.
pub record UserinfoHost : Type 0 where
  -- `SetUserinfoFromToken`.
  pub from_token : ClaimSource
  -- `SetUserinfoFromRequest`, where it is implemented.
  pub from_request : Option ClaimSource
  -- `TokenCNF`, where it is implemented: `none` is an error, `some none` an empty map.
  pub token_cnf_lookup : Option ((token_id : String) → Option (Option Cnf))
  -- `TokenClientID`, where it is implemented; `none` is an error, which comes with a blank client.
  pub token_client_id : Option ((token_id : String) → Option String)
  -- `UserInfoResponseAlg`, where it is implemented.
  pub response_alg : Option ((client_id : String) → Option String)
  -- `SigningKey` and, where it is implemented, `SigningKeyByAlg`.
  pub signing_key : Option SigningKey
  pub signing_key_by_alg : Option (String → Option SigningKey)
  -- Whether `jwa.LookupSignatureAlgorithm` knows the name.
  pub known_alg : String → Bool
  -- Whether `token.Set` takes a claim: it refuses a registered one of the wrong type.
  pub accepts_claim : String → ClaimValue → Bool
  pub sign_jwt : (alg : String) → SigningKey → Map ClaimValue → Option String

-- A 200 answer.
pub data UserinfoAnswer : Type 0 where
  json_info : UserInfo → UserinfoAnswer
  jwt_info : (signed : String) → UserinfoAnswer

-- `strings.ToLower` on one byte.
abbrev pub to_lower : ℕ → ℕ
to_lower c = if leb 65 c && leb c 90 then c + 32 else c

-- The header after a scheme, which is compared without case.
unfoldable pub after_scheme : (scheme auth : String) → Option String
after_scheme String.[] auth = some auth
after_scheme (String.◌∷◌ s scheme) String.[] = none
after_scheme (String.◌∷◌ s scheme) (String.◌∷◌ c auth) =
    let later = after_scheme scheme auth in if eqb (code s) (to_lower (code c)) then later else none

-- `extractAccessToken`.
unfoldable pub extract_access_token : UserinfoRequest → String
extract_access_token q = elim (after_scheme "bearer " q.authorization) [
  | some token ↦ token
  | none ↦ elim (after_scheme "dpop " q.authorization) [
    | some token ↦ token
    | none ↦ elim q.form_token [ none ↦ "" | some token ↦ token ]
  ]
]

-- `ValidateDPoPProofATH`, where there is a proof; the hash is the one of the library.
unfoldable pub validate_dpop_proof_ath :
    Services → Context → (ath token : String) → Result OidcError (Unit {0})
validate_dpop_proof_ath s r ath token =
    if is_some r.dpop_proof
    then (do require (ath != "") invalid_request; require (ath == s.s256 token) invalid_request)
    else ok tt

-- The check of a confirmation claim that was looked up.
abbrev pub check_claim : Context → Option (Option Cnf) → Result OidcError (Unit {0})
check_claim r none = err invalid_request
check_claim r (some none) = ok tt
check_claim r (some (some cnf)) = verify_token_binding r cnf

-- The check of the token's binding.
unfoldable pub check_binding :
    UserinfoHost → Context → (token_id : String) → Result OidcError (Unit {0})
check_binding h r token_id = elim h.token_cnf_lookup [
  | none ↦ ok tt
  | some look ↦ check_claim r (look token_id)
]

-- The richer source takes priority.
abbrev pub claim_source : UserinfoHost → ClaimSource
claim_source h = elim h.from_request [ none ↦ h.from_token | some f ↦ f ]

abbrev pub blank_if_none : Option String → String
blank_if_none none = ""
blank_if_none (some t) = t

-- The algorithm that the client registered, blank where there is none.
abbrev pub registered_alg : UserinfoHost → (client_id : String) → String
registered_alg h client_id = elim h.response_alg [
  | none ↦ ""
  | some f ↦ blank_if_none (f client_id)
]

-- `shouldReturnJWT`; a nil key store is `has_key_store` false.
abbrev pub should_return_jwt :
    UserinfoHost → (has_key_store accepts_jwt : Bool) → (token_id : String) → Bool
should_return_jwt h has_key_store accepts_jwt token_id = elim h.token_client_id [
  | none ↦ false
  | some f ↦
      let client_id = blank_if_none (f token_id) in
      has_key_store && (((client_id != "") && (registered_alg h client_id != "")) || accepts_jwt)
]

-- The key of the registered algorithm if the store has one, or else the default key.
abbrev pub choose_key : UserinfoHost → (alg : String) → SigningKey → SigningKey
choose_key h alg default_key = if alg == "" then default_key else elim h.signing_key_by_alg [
  | none ↦ default_key
  | some f ↦ elim (f alg) [ none ↦ default_key | some key ↦ key ]
]

-- `determineAlg`.
abbrev pub determine_alg : UserinfoHost → String → String
determine_alg h alg = if h.known_alg alg then alg else "RS256"

-- The client that the token was issued to, blank where it is not known.
abbrev pub client_of_token : UserinfoHost → (token_id : String) → String
client_of_token h token_id = elim h.token_client_id [
  | none ↦ ""
  | some f ↦ blank_if_none (f token_id)
]

-- `writeJWTResponse`, up to the signed token.
unfoldable pub write_jwt_response :
    UserinfoHost → (issuer token_id : String) → UserInfo → (now : ℕ) → Option String
write_jwt_response h issuer token_id u now =
    let client_id = client_of_token h token_id in
    if (issuer == "") || (client_id == "") then none else elim h.signing_key [
      | none ↦ none
      | some default_key ↦
          let key = choose_key h (registered_alg h client_id) default_key in
          h.sign_jwt (determine_alg h key.algorithm) key
            (jwt_claims h.accepts_claim issuer client_id u now)
    ]

-- The end of the handler: the JWT where it is wanted and can be made, or else JSON.
unfoldable pub userinfo_answer :
    UserinfoHost
    → UserinfoRequest
    → (has_key_store : Bool) → (token_id : String) → UserInfo
    → (now : ℕ) → UserinfoAnswer
userinfo_answer h q has_key_store token_id u now =
    if should_return_jwt h has_key_store q.accepts_jwt token_id
    then elim (write_jwt_response h q.issuer token_id u now) [
      | none ↦ json_info u
      | some signed ↦ jwt_info signed
    ]
    else json_info u

-- `handle` of the userinfo plugin; a nil key store is no verifier.
unfoldable pub handle_userinfo :
    Services
    → TokenCrypto
    → Codec
    → Option AccessTokenVerifier
    → UserinfoHost
    → Context
    → UserinfoRequest
    → (now : ℕ) → Result OidcError UserinfoAnswer
handle_userinfo s x k verifier h r q now = do
  require (extract_access_token q != "") invalid_request
  entry ← expect (resolve_token x k verifier (extract_access_token q) now) invalid_request
  validate_dpop_proof_ath s r q.proof_ath (extract_access_token q)
  check_binding h r entry.0
  info ← expect (claim_source h entry.0 entry.1 q.origin) invalid_request
  require (info.subject != "") invalid_request
  ok (userinfo_answer h q (is_some verifier) entry.0 info now)
