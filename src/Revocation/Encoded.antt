-- ===== src/Revocation/Encoded.antt =====
-- pkg/storm/plugins/revocation/revocation.go: opaque access tokens at the revocation and at the
-- introspection endpoint.
use kexcore_oidc.Base.{
  ℕ, String, ◌≡◌, refl, ◌≢◌, Bool, false, Option, none, some, arith, eq_iff, ◌==◌, ok,
}
use kexcore_oidc.Client.{Client, holds}
use kexcore_oidc.Grants.Binding.{Context, Cnf}
use kexcore_oidc.Grants.Endpoint.{Services}
use kexcore_oidc.Issue.Request.{TokenRequest}
use kexcore_oidc.Issue.Host.{TokenStore, TokenCrypto}
use kexcore_oidc.Issue.Opaque.{Issued, create_access_token}
use kexcore_oidc.Verifier.Checks.{Codec}
use kexcore_oidc.Verifier.Token.{AccessTokenVerifier, verify_access_token}
use kexcore_oidc.Grants.ClientAuth.{Form, helper_authenticate_client}
use kexcore_oidc.Issue.Opaque.{parse_token_parts}
use kexcore_oidc.Issue.Resolve.{CryptoLaws, create_access_token-resolve_token}
use kexcore_oidc.Revocation.Endpoint.{
  RevocationStore, IntrospectStore, resolve_token_for_revocation, handle_revocation,
  handle_introspection, resolve_plain,
}

module _ (x : TokenCrypto) (k : Codec) (verifier : Option AccessTokenVerifier) where
  -- Without SM2 decryption, a text that is neither a ciphertext nor a JWT is not resolved.
  resolve_token_for_revocation-none :
      (token : String) (now : ℕ)
      → x.sm2_decrypt ≡ none
      → x.decrypt token ≡ none
      → ((v : AccessTokenVerifier) → verifier ≡ some v → verify_access_token k token v now ≡ none)
      → resolve_token_for_revocation x k verifier token now ≡ none
  unfolding resolve_token_for_revocation
  resolve_token_for_revocation-none token now no_sm2 unreadable no_jwt = by_sm2 x.sm2_decrypt no_sm2
    where
      by_verifier :
          (o : Option AccessTokenVerifier)
          → verifier ≡ o
          → ◌≡◌ {A = Option (String × String)}
              (elim o [ none ↦ none | some v ↦ verify_access_token k token v now ])
              none
      by_verifier none h = refl
      by_verifier (some v) h = no_jwt v h

      by_sm2 :
          (o : Option (String → Option String))
          → o ≡ none
          → ◌≡◌ {A = Option (String × String)}
              (elim o [
                | none ↦ resolve_plain x k verifier token now
                | some sm2 ↦ elim (sm2 token) [
                  | some plaintext ↦ parse_token_parts plaintext
                  | none ↦ resolve_plain x k verifier token now
                ]
              ])
              none
      by_sm2 none h = rw (unreadable, resolve_plain) (by_verifier verifier refl)
      by_sm2 (some sm2) h = absurd (cc)

  module _ {State : Type 0} (t : TokenStore State) (laws : CryptoLaws x) where
    -- An opaque access token is introspected under the token id and the subject it was issued with,
    -- but a request to revoke it revokes neither: where decryption refuses the encoded text, which is
    -- no JWT either, and there is no SM2 decryption, the store is asked to revoke the encoded text,
    -- for no user. The client that asks is authenticated, and names the token an access token.
    pub handle_revocation-encoded :
        (q : TokenRequest) (c : Client) (issue_refresh : Bool) (current : String) (cnf : Cnf)
        (issued_at : ℕ) (st0 st1 : State) (issued : Issued)
        → holds c.jwt_access_tokens ≡ false
        → x.sm2_decrypt ≡ none
        → create_access_token x t q c issue_refresh current cnf issued_at st0 ≡ (st1, ok issued)
        → parse_token_parts issued.token_id ≡ none
        → x.decrypt issued.access_token ≡ none
        → issued.access_token ≢ ""
        → (s : Services) (r : Context) (form : Form) (now : ℕ) (caller : Client)
        → ((v : AccessTokenVerifier)
            → verifier ≡ some v
            → verify_access_token k issued.access_token v now ≡ none)
        → helper_authenticate_client s k r form now ≡ ok caller
        → (d : RevocationStore State) (known : IntrospectStore x k verifier) (st : State)
        → (handle_introspection x k verifier s r form known issued.access_token now
            ≡ ok (known issued.token_id q.subject caller.id))
          × (handle_revocation x k verifier d s r form "access_token" issued.access_token now st
              ≡ d.revoke_token issued.access_token "" caller.id st)
    unfolding handle_introspection handle_revocation
    handle_revocation-encoded q c issue_refresh current cnf issued_at st0 st1 issued opaque no_sm2 e
          plain unreadable there s r form now caller no_jwt who d known st =
        let resolved =
          create_access_token-resolve_token x t laws q c issue_refresh current cnf issued_at st0 st1
            issued opaque no_sm2 e plain k verifier now in
        let lost =
          resolve_token_for_revocation-none issued.access_token now no_sm2 unreadable no_jwt in
        let named : (issued.access_token == "") ≡ false =
          ground (arith, eq_iff issued.access_token "", there) in
        (
          rw (who, handle_introspection) (rw (named, resolved) refl),
          rw (named, handle_revocation) (rw (who, lost) refl),
        )
