-- ===== src/Issue/Claims.antt =====
-- pkg/storm/plugins/token/token.go and util.go: createIDToken and encryptIDToken.
use kexcore_oidc.Base.{
  ℕ, ◌+◌, ◌/◌, String, ◌&&◌, Option, none, some, List, [], ◌∷◌, ltb, eqb, ◌==◌, ◌!=◌, if◌then◌else◌,
  contains, length, Map, lookup, insert, Result, ok, err, ◌>>=◌, expect,
}
use kexcore_oidc.OidcError.{OidcError, other_error}
use kexcore_oidc.Client.{Client, holds}
use kexcore_oidc.Issue.Request.{TokenRequest, AuthInfo, get_nonce}
use kexcore_oidc.Issue.Host.{SigningKey, ClaimValue, text, number, texts, TokenCrypto}

-- `IDTokenSignedResponseAlg()`, or PS256 for a FAPI client that names none.
unfoldable pub preferred_alg : Client → String
preferred_alg c =
    let own : String = elim c.id_token_signed_alg [ none ↦ "" | some alg ↦ alg ] in
    if own != "" then own else if holds c.fapi_profile then "PS256" else ""

-- `validIDTokenLifetime`: one hour, unless the client has a positive lifetime of its own.
abbrev pub id_token_lifetime : Client → ℕ
id_token_lifetime c = elim c.id_token_lifetime [
  | none ↦ 3600000000000
  | some d ↦ if ltb 0 d then d else 3600000000000
]

-- `time.Time.Unix()`, of a time in nanoseconds.
abbrev pub unix : ℕ → ℕ
unix t = t / 1000000000

-- `if v != "" { claims[k] = v }`.
abbrev pub put_text : (key value : String) → Map ClaimValue → Map ClaimValue
put_text key value m = if value != "" then insert key (text value) m else m

abbrev pub put_time : (key : String) → ℕ → Map ClaimValue → Map ClaimValue
put_time key t m = if eqb t 0 then m else insert key (number (unix t)) m

abbrev pub put_texts : (key : String) → List String → Map ClaimValue → Map ClaimValue
put_texts key [] m = m
put_texts key (v ∷ vs) m = insert key (texts (v ∷ vs)) m

-- The claims that a request that is an authorization request adds.
abbrev pub put_auth : Option AuthInfo → Map ClaimValue → Map ClaimValue
put_auth none m = m
put_auth (some a) m =
    put_text "sid" a.sid
      (put_texts "amr" a.amr (put_text "acr" a.acr (put_time "auth_time" a.auth_time m)))

-- The loop over the extra claims: what is there already stays.
unfoldable pub put_extra : List (String × String) → Map ClaimValue → Map ClaimValue
put_extra [] m = m
put_extra ((k, v) ∷ rest) m = elim (lookup k m) [
  | some there ↦ put_extra rest m
  | none ↦ put_extra rest (insert k (text v) m)
]

-- The claims before the extra ones.
unfoldable pub protocol_claims :
    (hash : String → String)
    → (issuer : String) → TokenRequest
    → (lifetime now : ℕ) → (access_token code : String) → Map ClaimValue
protocol_claims hash issuer r lifetime now access_token code =
    let base =
      ("iss", text issuer)
      ∷ ("sub", text r.subject)
      ∷ ("aud", text r.client_id)
      ∷ ("iat", number (unix now))
      ∷ ("exp", number (unix (now + lifetime)))
      ∷ [] in
    let nonced = put_text "nonce" (get_nonce r) base in
    let at =
      if access_token != "" then insert "at_hash" (text (hash access_token)) nonced else nonced in
    let coded = if code != "" then insert "c_hash" (text (hash code)) at else at in
    put_auth r.auth coded

-- The claims of `createIDToken`.
unfoldable pub id_token_claims :
    (hash : String → String)
    → (issuer : String) → TokenRequest
    → (lifetime now : ℕ) → (access_token code : String) → Map ClaimValue
id_token_claims hash issuer r lifetime now access_token code =
    let claims = protocol_claims hash issuer r lifetime now access_token code in
    let extended : Map ClaimValue = elim r.extra_claims [
      | none ↦ claims
      | some extra ↦ put_extra extra claims
    ] in
    if ltb 1 (length r.audience) then insert "azp" (text r.client_id) extended else extended

-- The key algorithms of `encryptIDToken` that use the client's key.
abbrev pub client_key_algs : List String
client_key_algs =
    "RSA-OAEP" ∷ "RSA-OAEP-256" ∷ "RSA-OAEP-384" ∷ "RSA-OAEP-512" ∷ "ECDH-ES" ∷ "ECDH-ES+A128KW"
    ∷ "ECDH-ES+A192KW" ∷ "ECDH-ES+A256KW" ∷ "A128KW" ∷ "A192KW" ∷ "A256KW" ∷ "A128GCMKW"
    ∷ "A192GCMKW" ∷ "A256GCMKW" ∷ []

module _ (x : TokenCrypto) where
  -- `encryptIDToken`.
  unfoldable pub encrypt_id_token :
      (signed : String) → Client → (alg enc : String) → Result OidcError String
  encrypt_id_token signed c alg enc =
      if alg == "dir"
      then (expect x.token_encryption_key other_error >>= λ key. x.encrypt_jwe signed key alg enc)
      else if alg == "SGD_SM2_3"
      then (expect x.sm2_encryption_key other_error >>= λ key. x.encrypt_jwe signed key alg enc)
      else if alg == "SGD_SM9_3"
      then (expect x.sm9_encryption_key other_error >>= λ key. x.encrypt_sm9 signed key)
      else if contains client_key_algs alg
      then (expect c.encryption_key other_error >>= λ own.
          expect own other_error >>= λ key. x.encrypt_jwe signed key alg enc)
      else err other_error

  -- A token, encrypted if the client asks for it by two algorithms.
  unfoldable pub maybe_encrypt :
      Option (String × String) → Client → (signed : String) → Result OidcError String
  maybe_encrypt none c signed = ok signed
  maybe_encrypt (some (alg, enc)) c signed =
      if (alg != "") && (enc != "") then encrypt_id_token signed c alg enc else ok signed

  -- A store's error, wrapped.
  abbrev pub or_other : Result OidcError SigningKey → Result OidcError SigningKey
  or_other (ok key) = ok key
  or_other (err e) = err other_error

  -- The key that `createIDToken` signs with.
  unfoldable pub id_token_key : Client → Result OidcError SigningKey
  id_token_key c = do
    default ← x.signing_key
    (if preferred_alg c == "" then ok default else elim x.signing_key_by_alg [
      | none ↦ ok default
      | some by_alg ↦ or_other (by_alg (preferred_alg c))
    ])

  -- `createIDToken`.
  unfoldable pub create_id_token :
      (issuer : String)
      → TokenRequest
      → Client
      → (now : ℕ) → (access_token code : String) → Result OidcError String
  create_id_token issuer r c now access_token code = do
    key ← id_token_key c
    signed ← x.sign key (
        id_token_claims (λ token. x.hash token key.algorithm) issuer r (id_token_lifetime c) now
          access_token code)
    maybe_encrypt c.id_token_encryption c signed
