-- ===== src/Issue/Resolve.antt =====
-- pkg/storm/plugins/token/token.go and pkg/storm/token.go: an opaque access token is resolved to what it was
-- made of.
use kexcore_oidc.Base.{
  ℕ, ◌-◌, String, ◌≡◌, refl, sym, ap, ◌∙◌, subst, Bool, true, false, ◌&&◌, Option, none, some, eqb,
  concat, Result, ok, err, ok-injective,
}
use kexcore_oidc.Base.Action.{Action, after, after_lift, Succeeds, value_of}
use kexcore_oidc.OidcError.{OidcError}
use kexcore_oidc.Client.{Client, holds}
use kexcore_oidc.Grants.Binding.{Cnf}
use kexcore_oidc.Grants.Endpoint.{validate_grant_type}
use kexcore_oidc.Issue.Request.{TokenRequest}
use kexcore_oidc.Issue.Host.{TokenStore, TokenCrypto}
use kexcore_oidc.Issue.Opaque.{Issued, create_access_token, resolve_token}
use Prim.Native.Char.{code}
use text.Mathlib.TextLemmas.{nil-append, cons-append}
use kexcore_oidc.Verifier.Checks.{Codec}
use kexcore_oidc.Verifier.Token.{AccessTokenVerifier}
use kexcore_oidc.Issue.Opaque.{
  cut_parts, parse_token_parts, decrypt_decoded, resolve_standard, after_sm2, opaque_token, mint,
  by_format, create_opaque,
}

-- What the libraries promise: decryption and decoding undo encryption and encoding.
pub record CryptoLaws (x : TokenCrypto) : Type 0 where
  pub decrypts :
      (plain cipher : String) → x.encrypt plain ≡ ok cipher → x.decrypt cipher ≡ some plain
  pub decodes : (cipher : String) → x.decode (x.encode cipher) ≡ some cipher

-- The first ':' splits; a token id without one is found again.
parse_token_parts-concat :
    (token_id subject : String)
    → parse_token_parts token_id ≡ none
    → parse_token_parts (concat token_id (concat ":" subject)) ≡ some (token_id, subject)
unfolding parse_token_parts
parse_token_parts-concat String.[] subject h =
    rw (nil-append (concat ":" subject), colon subject) refl
  where
    colon : (rest : String) → concat ":" rest ≡ String.◌∷◌ ":" rest
    colon rest = cons-append ":" String.[] rest ∙ ap (String.◌∷◌ ":") (nil-append rest)
parse_token_parts-concat (String.◌∷◌ ch rest) subject h =
    rw (cons-append ch rest (concat ":" subject)) (
      by_char (eqb (code ch) b':') (parse_token_parts rest) refl h
        (parse_token_parts-concat rest subject))
  where
    by_char :
        (b : Bool) (o : Option (String × String))
        → parse_token_parts rest ≡ o
        → cut_parts b ch rest o ≡ none
        → (parse_token_parts rest ≡ none
            → parse_token_parts (concat rest (concat ":" subject)) ≡ some (rest, subject))
        → cut_parts b ch
            (concat rest (concat ":" subject))
            (parse_token_parts (concat rest (concat ":" subject)))
          ≡ some (String.◌∷◌ ch rest, subject)
    by_char true o e g later = absurd (cc)
    by_char false (some parts) e g later = absurd (cc)
    by_char false none e g later = rw (later e) refl

module _ (x : TokenCrypto) {State : Type 0} (t : TokenStore State) where
  -- The token that `createAccessToken` makes of an entry.
  create_opaque-token :
      (q : TokenRequest) (refresh : Bool) (current : String) (cnf : Cnf) (now : ℕ) (st st' : State)
      (issued : Issued)
      → create_opaque x t q refresh current cnf now st ≡ (st', ok issued)
      → opaque_token x t issued.token_id q.subject ≡ ok issued.access_token
  create_opaque-token q refresh current cnf now st st' issued e =
      let start : Succeeds (create_opaque x t q refresh current cnf now) st st' issued = record {
        outcome = e;
      } in
      after (mint x t refresh q current cnf) _ st start λ made st1 minted e1.
        after_lift (opaque_token x t made.0 q.subject) _ st1 e1 λ token encrypted e2.
          let ended : (
            st1,
            ok (record {
              access_token = token;
              token_id = made.0;
              refresh_token = made.1.0;
              validity = made.1.1 - now;
            }),
          )
              ≡ (st', ok issued) =
            e2.outcome in
          let same = value_of ended in
          subst (λ (i : Issued). opaque_token x t i.token_id q.subject ≡ ok i.access_token) same
            encrypted

  by_format-opaque :
      (o : Option (TokenRequest → Cnf → State → State × Result OidcError (String × (String × ℕ))))
      (jwt : Bool) (q : TokenRequest) (c : Client) (refresh : Bool) (current : String) (cnf : Cnf)
      (now : ℕ)
      → jwt ≡ false
      → by_format x t o jwt q c refresh current cnf now
        ≡ create_opaque x t q refresh current cnf now
  by_format-opaque none jwt q c refresh current cnf now h = refl
  by_format-opaque (some make) true q c refresh current cnf now h = absurd (cc)
  by_format-opaque (some make) false q c refresh current cnf now h = refl

  module _ (laws : CryptoLaws x) where
    opaque_token-decrypt :
        (token_id subject token : String)
        → opaque_token x t token_id subject ≡ ok token
        → decrypt_decoded x token ≡ some (concat token_id (concat ":" subject))
    opaque_token-decrypt token_id subject token e =
        by_cipher (x.encrypt (concat token_id (concat ":" subject))) refl e
      where
        by_cipher :
            (r : Result OidcError String)
            → x.encrypt (concat token_id (concat ":" subject)) ≡ r
            → ◌≡◌ {A = Result OidcError String}
                (elim r [ err e ↦ err e | ok cipher ↦ ok (x.encode cipher) ])
                (ok token)
            → decrypt_decoded x token ≡ some (concat token_id (concat ":" subject))
        by_cipher (err e1) q h = absurd (cc)
        by_cipher (ok cipher) q h =
            subst
              (λ (tok : String).
                decrypt_decoded x tok ≡ some (concat token_id (concat ":" subject)))
              (ok-injective h)
              (rw (laws.decodes cipher, decrypt_decoded) (laws.decrypts _ cipher q))

    -- Whatever the state of the store, an access token that is issued in the opaque format is resolved
    -- to its token id and to the subject it was issued for, at any time and under any verifier; that
    -- is so where the crypto has no SM2 decryption and the token id has no colon.
    pub create_access_token-resolve_token :
        (q : TokenRequest) (c : Client) (issue_refresh : Bool) (current : String) (cnf : Cnf)
        (now : ℕ) (st st' : State) (issued : Issued)
        → holds c.jwt_access_tokens ≡ false
        → x.sm2_decrypt ≡ none
        → create_access_token x t q c issue_refresh current cnf now st ≡ (st', ok issued)
        → parse_token_parts issued.token_id ≡ none
        → (k : Codec) (verifier : Option AccessTokenVerifier) (later : ℕ)
        → resolve_token x k verifier issued.access_token later ≡ some (issued.token_id, q.subject)
    unfolding create_access_token resolve_token
    create_access_token-resolve_token q c issue_refresh current cnf now st st' issued opaque no_sm2
          e plain k verifier later =
        let refresh = issue_refresh && validate_grant_type c "refresh_token" in
        let made : create_opaque x t q refresh current cnf now st ≡ (st', ok issued) =
          ap (λ (m : Action State OidcError Issued). m st)
            (sym (
              by_format-opaque t.create_jwt_access_token (holds c.jwt_access_tokens) q c refresh
                current cnf now opaque))
          ∙ e in
        let encrypted = create_opaque-token q refresh current cnf now st st' issued made in
        let decrypted =
          opaque_token-decrypt issued.token_id q.subject issued.access_token encrypted in
        ap
          (λ (o : Option (String → Option String)).
            after_sm2 x o k verifier issued.access_token later)
          no_sm2
        ∙ rw (decrypted, resolve_standard)
            (parse_token_parts-concat issued.token_id q.subject plain)
