-- ===== src/Issue/Host.antt =====
-- pkg/storm/storage.go: the interfaces of the deployment that the token plugin calls, over one state,
-- and what it takes from the libraries.
use kexcore_oidc.Base.{Bool, ℕ, String, Option, List, Map, Result}
use kexcore_oidc.OidcError.{OidcError}
use kexcore_oidc.Grants.Binding.{Cnf}
use kexcore_oidc.Grants.Endpoint.{CodeChallenge}
use kexcore_oidc.Issue.Request.{TokenRequest}

-- `storm.AuthRequest`.
pub record AuthRequest : Type 0 where
  pub id : String
  pub redirect_uri : String
  pub code_challenge : Option CodeChallenge
  -- As a request for tokens, which has its client id.
  pub request : TokenRequest
  -- `GetResources()`, empty where it is not implemented.
  pub resources : List String

-- `storm.RefreshTokenRequest`.
pub record RefreshRequest : Type 0 where
  pub request : TokenRequest
  pub dpop_jkt : String

pub record SigningKey : Type 0 where
  pub algorithm : String
  pub material : String

-- A value of a JSON object of claims.
pub data ClaimValue : Type 0 where
  text : String → ClaimValue
  number : ℕ → ClaimValue
  texts : List String → ClaimValue
  flag : Bool → ClaimValue
  -- An object, as it is encoded.
  structure : String → ClaimValue

-- `AuthStore`, `TokenStore` and their optional extensions.
pub record TokenStore (State : Type 0) : Type 0 where
  -- `AuthRequestByCode`, which changes the state: a lookup invalidates the code.
  pub auth_request_by_code : (code : String) → State → State × Option AuthRequest
  -- `DeleteAuthRequest`, with whether it succeeded.
  pub delete_auth_request : (auth_request_id : String) → State → State × Bool
  -- `GetAuthRequestDPoPJKT`; `none` is no binding store, or its error.
  pub auth_request_dpop_jkt : State → String → Option String
  -- `CodeReuseDetector`, where it is implemented.
  pub revoke_tokens_for_used_code : Option (String → State → State)
  pub track_token : Option ((auth_request_id token_id : String) → State → State)
  -- `TokenRequestByRefreshToken`.
  pub token_request_by_refresh_token : State → String → Option RefreshRequest
  -- `CreateAccessToken`: the token id and its expiry.
  pub create_access_token : TokenRequest → Cnf → State → State × Result OidcError (String × ℕ)
  -- `CreateAccessAndRefreshTokens`: the token id, the refresh token and the expiry.
  pub create_access_and_refresh_tokens :
      TokenRequest
      → (current_refresh_token : String) → Cnf
      → State
      → State × Result OidcError (String × (String × ℕ))
  -- `CreateJWTAccessToken` of `JWTAccessTokenStore`: the token id, the token and the expiry.
  pub create_jwt_access_token :
      Option (TokenRequest → Cnf → State → State × Result OidcError (String × (String × ℕ)))
  -- `CreateRefreshToken` of `JWTRefreshTokenStore`.
  pub create_refresh_token : Option (
      TokenRequest
      → (current_refresh_token : String) → Cnf
      → State
      → State × Result OidcError String)
  -- `ClientCredentialsTokenRequest`.
  pub client_credentials_request :
      Option ((client_id : String) → List String → State → Result OidcError TokenRequest)
  -- `RecordClientSession`.
  pub record_session : Option ((subject client_id sid : String) → State → State)

-- `UniCrypto`, `KeyStore` and the libraries.
pub record TokenCrypto : Type 0 where
  pub encrypt : String → Result OidcError String
  pub decrypt : String → Option String
  -- `base64.RawURLEncoding`.
  pub encode : String → String
  pub decode : String → Option String
  -- `SM2DecryptJWE`, where it is implemented.
  pub sm2_decrypt : Option (String → Option String)
  -- `TokenEncryptionKey`, `SM2TokenEncryptionPublicKey` and `SM9TokenEncryptionKey`; nil is `none` too.
  pub token_encryption_key : Option String
  pub sm2_encryption_key : Option String
  pub sm9_encryption_key : Option String
  -- `EncryptTokenJWE` and `EncryptTokenSM9`.
  pub encrypt_jwe : (signed key alg enc : String) → Result OidcError String
  pub encrypt_sm9 : (signed key : String) → Result OidcError String
  -- `SigningKey` and, where it is implemented, `SigningKeyByAlg`.
  pub signing_key : Result OidcError SigningKey
  pub signing_key_by_alg : Option (String → Result OidcError SigningKey)
  -- json.Marshal and the signature, by the GM signer or by `SignJWS`.
  pub sign : SigningKey → Map ClaimValue → Result OidcError String
  -- `HashString` by the hash of a signing algorithm; empty where there is none.
  pub hash : (token sig_alg : String) → String
