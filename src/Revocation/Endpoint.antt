-- ===== src/Revocation/Endpoint.antt =====
-- pkg/storm/plugins/revocation/revocation.go (RFC 7009) and pkg/storm/plugins/introspection/introspection.go
-- (RFC 7662).
use kexcore_oidc.Base.{
  ℕ, String, Option, none, some, List, ◌==◌, ◌!=◌, if◌then◌else◌, Result, ok, err,
}
use kexcore_oidc.OidcError.{OidcError, invalid_request, server_error}
use kexcore_oidc.Client.{Client}
use kexcore_oidc.Grants.Binding.{Context}
use kexcore_oidc.Grants.Endpoint.{Services}
use kexcore_oidc.Issue.Host.{TokenCrypto}
use kexcore_oidc.Issue.Opaque.{resolve_token}
use kexcore_oidc.Verifier.Checks.{Codec}
use kexcore_oidc.Verifier.Token.{AccessTokenVerifier, verify_access_token}
use kexcore_oidc.Grants.ClientAuth.{Form, helper_authenticate_client}
use kexcore_oidc.Issue.Opaque.{parse_token_parts}

-- What `GetRefreshTokenInfo` gives: the user and the token id, ErrInvalidRefreshToken, or another error.
pub data RefreshInfo : Type 0 where
  refresh_info : (user_id token_id : String) → RefreshInfo
  invalid_refresh_token refresh_error : RefreshInfo

-- `RevocationStore`.
pub record RevocationStore (State : Type 0) : Type 0 where
  pub get_refresh_token_info : State → (client_id token : String) → RefreshInfo
  pub revoke_token :
      (token_or_id user_id client_id : String) → State → State × Result OidcError (Unit {0})

module _ (x : TokenCrypto) (k : Codec) (verifier : Option AccessTokenVerifier) where
  -- The steps of `resolveTokenForRevocation` after the GM/T attempt.
  abbrev pub resolve_plain : (token : String) → (now : ℕ) → Option (String × String)
  resolve_plain token now = elim (x.decrypt token) [
    | some plaintext ↦ parse_token_parts plaintext
    | none ↦ elim verifier [ none ↦ none | some v ↦ verify_access_token k token v now ]
  ]

  -- `resolveTokenForRevocation`; a nil key store is no verifier.
  unfoldable pub resolve_token_for_revocation :
      (token : String) → (now : ℕ) → Option (String × String)
  resolve_token_for_revocation token now = elim x.sm2_decrypt [
    | none ↦ resolve_plain token now
    | some sm2 ↦ elim (sm2 token) [
      | some plaintext ↦ parse_token_parts plaintext
      | none ↦ resolve_plain token now
    ]
  ]

  module _ {State : Type 0} (d : RevocationStore State) where
    -- What is revoked where the token was not taken for a refresh token: the token id and the subject
    -- of an access token, or else the token as it came.
    abbrev pub revoke_access :
        (token client_id : String)
        → State
        → Option (String × String)
        → State × Result OidcError (Unit {0})
    revoke_access token client_id st (some (token_id, user_id)) =
        d.revoke_token token_id user_id client_id st
    revoke_access token client_id st none = d.revoke_token token "" client_id st

    -- The handler from the attempt at a refresh token on.
    abbrev pub revoke_by_info :
        (token client_id : String)
        → (now : ℕ) → State
        → RefreshInfo
        → State × Result OidcError (Unit {0})
    revoke_by_info token client_id now st (refresh_info user_id token_id) =
        d.revoke_token token_id user_id client_id st
    revoke_by_info token client_id now st invalid_refresh_token =
        revoke_access token client_id st (resolve_token_for_revocation token now)
    revoke_by_info token client_id now st refresh_error = (st, err server_error)

    -- The handler once the client is known.
    abbrev pub revoke_for :
        (hint token client_id : String) → (now : ℕ) → State → State × Result OidcError (Unit {0})
    revoke_for hint token client_id now st =
        if hint != "access_token"
        then revoke_by_info token client_id now st (d.get_refresh_token_info st client_id token)
        else revoke_access token client_id st (resolve_token_for_revocation token now)

    -- The handler over the outcome of the client's authentication.
    abbrev pub revoke_as :
        (hint token : String)
        → (now : ℕ) → State
        → Result OidcError Client
        → State × Result OidcError (Unit {0})
    revoke_as hint token now st (err e) = (st, err e)
    revoke_as hint token now st (ok c) = revoke_for hint token c.id now st

    -- `handle` of the revocation plugin.
    unfoldable pub handle_revocation :
        Services
        → Context
        → Form
        → (hint token : String) → (now : ℕ) → State
        → State × Result OidcError (Unit {0})
    handle_revocation s r form hint token now st =
        if token == ""
        then (st, err invalid_request)
        else revoke_as hint token now st (helper_authenticate_client s k r form now)

  -- `IntrospectStore`: the token's claims for a client, where the token is known.
  abbrev pub IntrospectStore : Type 0
  IntrospectStore = (token_id subject client_id : String) → Option (List (String × String))

  -- The answer for a token that was resolved, or was not: `none` is an inactive token.
  abbrev pub introspect :
      IntrospectStore
      → (client_id : String) → Option (String × String)
      → Option (List (String × String))
  introspect d client_id none = none
  introspect d client_id (some (token_id, subject)) = d token_id subject client_id

  -- `handle` of the introspection plugin.
  unfoldable pub handle_introspection :
      Services
      → Context
      → Form
      → IntrospectStore
      → (token : String) → (now : ℕ) → Result OidcError (Option (List (String × String)))
  handle_introspection s r form d token now = elim (helper_authenticate_client s k r form now) [
    | err e ↦ err e
    | ok c ↦
        if token == ""
        then err invalid_request
        else ok (introspect d c.id (resolve_token x k verifier token now))
  ]
