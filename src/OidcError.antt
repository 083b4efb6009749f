-- ===== src/OidcError.antt =====
-- pkg/protocol/error.go: the protocol errors, by their error code. The free-text description and
-- the wrapped parent error are left out.
pub data OidcError : Type 0 where
  invalid_request : OidcError
  -- invalid_request that must not be redirected to the client.
  invalid_request_redirect_uri : OidcError
  invalid_client invalid_grant unauthorized_client unsupported_grant_type : OidcError
  invalid_scope server_error access_denied unsupported_response_type : OidcError
  authorization_pending slow_down expired_token invalid_binding_message : OidcError
  -- An error that is not of the protocol, as a store may return.
  other_error : OidcError
