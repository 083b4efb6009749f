-- ===== src/Client.antt =====
-- The client, as the plugins see it: pkg/storm/shared/authrequest.go and clientauth.go declare what
-- they read as optional interfaces. A field of type `Option` is `none` where the client does not
-- implement the interface.
use kexcore_oidc.Base.{ℕ, String, Bool, false, Option, none, some, List}
use kexcore_oidc.Keyset.{Jwk}

-- `protocol.AuthMethod`.
pub data AuthMethod : Type 0 where
  basic post public private_key_jwt tls_client_auth self_signed_tls : AuthMethod
  other_method : String → AuthMethod

pub record Client : Type 0 where
  pub id : String
  pub auth_method : AuthMethod
  -- `ApplicationType() == ApplicationTypeNative`.
  pub is_native : Option Bool
  pub dev_mode : Option Bool
  pub redirect_uris : Option (List String)
  pub redirect_uri_globs : Option (List String)
  pub strict_scope_validation : Option Bool
  pub is_scope_allowed : Option (String → Bool)
  pub response_types : Option (List String)
  pub fapi_profile : Option Bool
  -- `GrantTypes()`.
  pub grant_types : Option (List String)
  -- `RequireDPoP()` and `RequireMtls()` of `SenderConstrainingProvider`.
  pub sender_constraining : Option (Bool × Bool)
  -- `ValidateClientCert(cert, clientID) == nil`, over the certificate's thumbprint.
  pub validate_client_cert : Option (String → String → Bool)
  pub jwks_uri : Option String
  -- `ClientJWKS()`.
  pub jwks : Option (List Jwk)
  -- `MaxTokenRequests()` and `TokenRequestWindow()` of `RateLimitClient`.
  pub rate_limit : Option (ℕ × ℕ)
  -- `AllowedGrantTypes()` of `GrantTypeClient`.
  pub allowed_grant_types : Option (List String)
  pub id_token_signed_alg : Option String
  pub id_token_lifetime : Option ℕ
  -- The key algorithm and the content algorithm; empty texts ask for no encryption.
  pub id_token_encryption : Option (String × String)
  -- `AccessTokenFormat() == AccessTokenTypeJWT`.
  pub jwt_access_tokens : Option Bool
  pub access_token_encryption : Option (String × String)
  -- `ClientEncryptionKey()`, which may be nil.
  pub encryption_key : Option (Option String)
  pub post_logout_redirect_uris : Option (List String)
  -- `PARLifetime()`, in nanoseconds.
  pub par_lifetime : Option ℕ
  -- `RequestObjectSigningAlg()`.
  pub request_object_signing_alg : Option String

-- `x, ok := client.(I); ok && x.M()`.
abbrev pub holds : Option Bool → Bool
holds none = false
holds (some b) = b
