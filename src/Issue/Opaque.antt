-- ===== src/Issue/Opaque.antt =====
-- pkg/storm/plugins/token/token.go: createAccessToken; pkg/storm/token.go: ResolveToken.
use kexcore_oidc.Base.{
  ℕ, ◌-◌, String, Bool, true, false, ◌&&◌, Option, none, some, eqb, if◌then◌else◌, concat, Result,
  ok, err,
}
use Prim.Native.Char.{Char, code}
use kexcore_oidc.Base.Action.{Action, ◌>>=◌, pure, lift}
use kexcore_oidc.OidcError.{OidcError}
use kexcore_oidc.Client.{Client, holds}
use kexcore_oidc.Grants.Binding.{Cnf}
use kexcore_oidc.Grants.Endpoint.{validate_grant_type}
use kexcore_oidc.Verifier.Checks.{Codec}
use kexcore_oidc.Verifier.Token.{AccessTokenVerifier, verify_access_token}
use kexcore_oidc.Issue.Request.{TokenRequest}
use kexcore_oidc.Issue.Host.{TokenStore, TokenCrypto}
use kexcore_oidc.Issue.Claims.{maybe_encrypt}

-- What `createAccessToken` returns.
pub record Issued : Type 0 where
  pub access_token : String
  pub token_id : String
  pub refresh_token : String
  pub validity : ℕ

-- The parts of a text, by whether its first character is the separator and by the parts of the rest.
abbrev pub cut_parts :
    (is_separator : Bool) → Char → String → Option (String × String) → Option (String × String)
cut_parts true ch rest later = some (String.[], rest)
cut_parts false ch rest none = none
cut_parts false ch rest (some parts) = some (String.◌∷◌ ch parts.0, parts.1)

-- `strings.SplitN(plaintext, ":", 2)`, and the test that there are two parts.
unfoldable pub parse_token_parts : String → Option (String × String)
parse_token_parts String.[] = none
parse_token_parts (String.◌∷◌ ch rest) =
    cut_parts (eqb (code ch) b':') ch rest (parse_token_parts rest)

module _ (x : TokenCrypto) where
  module _ {State : Type 0} (t : TokenStore State) where
    -- The opaque token of a token id and its subject, under the deployment's encryption.
    abbrev pub opaque_token : (token_id subject : String) → Result OidcError String
    opaque_token token_id subject = elim (x.encrypt (concat token_id (concat ":" subject))) [
      | err e ↦ err e
      | ok encrypted ↦ ok (x.encode encrypted)
    ]

    -- The refresh token beside a JWT access token, if there is to be one.
    abbrev pub refresh_for :
        Option (TokenRequest → (current : String) → Cnf → State → State × Result OidcError String)
        → TokenRequest
        → (needs_refresh : Bool) → (current : String) → Cnf
        → Action State OidcError String
    refresh_for none r needs_refresh current cnf = pure ""
    refresh_for (some refresh) r needs_refresh current cnf =
        if needs_refresh then refresh r current cnf else pure ""

    -- The branch of `createAccessToken` for a client that takes JWT access tokens.
    abbrev pub create_jwt :
        (TokenRequest → Cnf → State → State × Result OidcError (String × (String × ℕ)))
        → TokenRequest
        → Client
        → (needs_refresh : Bool) → (current : String) → Cnf
        → (now : ℕ) → Action State OidcError Issued
    create_jwt create r c needs_refresh current cnf now = do
      made ← create r cnf
      token ← lift (maybe_encrypt x c.access_token_encryption c made.1.0)
      refresh_token ← refresh_for t.create_refresh_token r needs_refresh current cnf
      pure (record {
        access_token = token;
        token_id = made.0;
        refresh_token = refresh_token;
        validity = made.1.1 - now;
      })

    -- The entry of an opaque token in the store, with a refresh token if there is to be one.
    abbrev pub mint :
        (needs_refresh : Bool)
        → TokenRequest
        → (current : String) → Cnf
        → Action State OidcError (String × (String × ℕ))
    mint true r current cnf = t.create_access_and_refresh_tokens r current cnf
    mint false r current cnf = do plain ← t.create_access_token r cnf; pure (plain.0, ("", plain.1))

    -- The other branch, of opaque tokens.
    abbrev pub create_opaque :
        TokenRequest
        → (needs_refresh : Bool) → (current : String) → Cnf
        → (now : ℕ) → Action State OidcError Issued
    create_opaque r needs_refresh current cnf now = do
      made ← mint needs_refresh r current cnf
      token ← lift (opaque_token made.0 r.subject)
      pure (record {
        access_token = token;
        token_id = made.0;
        refresh_token = made.1.0;
        validity = made.1.1 - now;
      })

    -- The branch for the client's format, where the store can make JWT access tokens.
    abbrev pub by_format :
        Option (TokenRequest → Cnf → State → State × Result OidcError (String × (String × ℕ)))
        → (jwt : Bool) → TokenRequest
        → Client
        → (needs_refresh : Bool) → (current : String) → Cnf
        → (now : ℕ) → Action State OidcError Issued
    by_format none jwt r c needs_refresh current cnf now =
        create_opaque r needs_refresh current cnf now
    by_format (some create) true r c needs_refresh current cnf now =
        create_jwt create r c needs_refresh current cnf now
    by_format (some create) false r c needs_refresh current cnf now =
        create_opaque r needs_refresh current cnf now

    -- `createAccessToken`.
    unfoldable pub create_access_token :
        TokenRequest
        → Client
        → (issue_refresh : Bool) → (current : String) → Cnf
        → (now : ℕ) → Action State OidcError Issued
    create_access_token r c issue_refresh current cnf now =
        by_format t.create_jwt_access_token (holds c.jwt_access_tokens) r c
          (issue_refresh && validate_grant_type c "refresh_token") current cnf now

  -- Base64 decoding, then decryption.
  abbrev pub decrypt_decoded : String → Option String
  decrypt_decoded token = elim (x.decode token) [ none ↦ none | some raw ↦ x.decrypt raw ]

  -- `ResolveToken` after the GM/T attempt: the decoded text, the raw text, then a JWT.
  abbrev pub resolve_standard :
      Codec → Option AccessTokenVerifier → (token : String) → (now : ℕ) → Option (String × String)
  resolve_standard k verifier token now = elim (decrypt_decoded token) [
    | some plaintext ↦ parse_token_parts plaintext
    | none ↦ elim (x.decrypt token) [
      | some plaintext ↦ parse_token_parts plaintext
      | none ↦ elim verifier [ none ↦ none | some v ↦ verify_access_token k token v now ]
    ]
  ]

  -- The GM/T attempt first, where there is one.
  abbrev pub after_sm2 :
      Option (String → Option String)
      → Codec
      → Option AccessTokenVerifier
      → (token : String) → (now : ℕ) → Option (String × String)
  after_sm2 none k verifier token now = resolve_standard k verifier token now
  after_sm2 (some sm2) k verifier token now = elim (sm2 token) [
    | some plaintext ↦ parse_token_parts plaintext
    | none ↦ resolve_standard k verifier token now
  ]

  -- `ResolveToken`: the token id and the subject; a nil key store is no verifier.
  unfoldable pub resolve_token :
      Codec → Option AccessTokenVerifier → (token : String) → (now : ℕ) → Option (String × String)
  resolve_token k verifier token now = after_sm2 x.sm2_decrypt k verifier token now
