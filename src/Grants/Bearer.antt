-- ===== src/Grants/Bearer.antt =====
-- pkg/storm/plugins/token/token.go: which assertions handleJWTProfile takes.
use kexcore_oidc.Base.{
  ℕ, ◌+◌, ◌≤◌, String, ◌≡◌, refl, ap, subst, true, not, Option, none, some, List, [], ◌∷◌, leb, eqb,
  leb→le, ◌!=◌, contains, Listed, contains_iff, Result, ok, err, require-eq-ok, ok-injective,
  after_require, after_expect, after_bind,
}
use kexcore_oidc.OidcError.{OidcError, invalid_request, invalid_grant, unauthorized_client}
use kexcore_oidc.Client.{Client}
use kexcore_oidc.Grants.Endpoint.{Services, validate_grant_type}
use kexcore_oidc.Issue.Request.{TokenRequest}
use kexcore_oidc.Keyset.{Jwk, find_matching_key, key_use_signature, alg_to_key_type}
use kexcore_oidc.Keyset.Choice.{Held, find_matching_key_sound, find_matching_key-Held}
use kexcore_oidc.Verifier.Checks.{Claims, Codec, ns, parse_token, key_id_and_alg}
use kexcore_oidc.Grants.Checks.{
  Jws, admit_bearer, or_invalid_grant, check_bearer_signature, check_bearer_claims, bearer_keys,
  bearer_scopes, max_assertion_life,
}

-- What holds of an assertion that tokens are issued for.
pub record IsBearer (s : Services) (k : Codec) (jws : Jws) (issuer assertion scope : String)
    (now : ℕ) (c : Client) (q : TokenRequest) : Type 0 where
  pub payload : String
  pub claims : Claims
  pub alg : String
  pub key : Jwk
  pub keys : List Jwk
  pub parsed : parse_token k assertion ≡ ok (payload, claims)
  pub by_client : s.get_client claims.issuer ≡ ok c
  pub granted : validate_grant_type c "urn:ietf:params:oauth:grant-type:jwt-bearer" ≡ true
  pub own_keys : c.jwks ≡ some keys
  pub registered : Held key keys
  pub key_fits : alg_to_key_type key alg ≡ true
  pub verified : jws.verify assertion alg key ≡ true
  pub for_us : Listed issuer claims.audience
  pub alive : now ≤ ns claims.expiration
  pub short : ns claims.expiration ≤ now + max_assertion_life
  pub for_subject : q.subject ≡ claims.subject
  pub for_client : q.client_id ≡ claims.issuer
  pub with_scopes : q.scopes ≡ bearer_scopes scope

or_invalid_grant-ok {ℓ} :
    {E : Type 0} {A : Type ℓ} (m : Result E A) {a : A} → or_invalid_grant m ≡ ok a → m ≡ ok a
or_invalid_grant-ok (ok x) h = cc
or_invalid_grant-ok (err e) h = cc

bearer_keys-own : (c : Client) (keys : List Jwk) → bearer_keys c ≡ ok keys → c.jwks ≡ some keys
bearer_keys-own c keys e = by_jwks c.jwks e
  where
    by_jwks :
        (o : Option (List Jwk))
        → ◌≡◌ {A = Result OidcError (List Jwk)}
            (elim o [
              | none ↦ err invalid_grant
              | some [] ↦ err invalid_grant
              | some (k ∷ ks) ↦ ok (k ∷ ks)
            ])
            (ok keys)
        → o ≡ some keys
    by_jwks none h = absurd (cc)
    by_jwks (some []) h = absurd (cc)
    by_jwks (some (k ∷ ks)) h = ap some (ok-injective h)

module _ (s : Services) (k : Codec) (jws : Jws) where
  check_bearer_signature-facts :
      (c : Client) (assertion : String) {u : Unit {0}}
      → check_bearer_signature k jws c assertion ≡ ok u
      → (keys : List Jwk) × (c.jwks ≡ some keys)
        × ((key : Jwk) × (alg : String) × (Held key keys
              × (alg_to_key_type key alg ≡ true)
              × (jws.verify assertion alg key ≡ true)))
  unfolding check_bearer_signature
  check_bearer_signature-facts c assertion e = after_bind (bearer_keys c) _ e λ keys own e1.
      after_expect (k.signatures assertion) invalid_grant _ e1 λ sigs found e2.
        let (key_id, alg) = key_id_and_alg sigs in
        after_bind (or_invalid_grant (find_matching_key key_id key_use_signature alg keys)) _ e2
          λ key chosen e3. after_require (jws.known_alg alg) invalid_grant _ e3 λ known e4. (
            keys,
            bearer_keys-own c keys own,
            (
              key,
              alg,
              (
                find_matching_key-Held key_id key_use_signature alg keys key
                    (or_invalid_grant-ok _ chosen),
                (find_matching_key_sound key_id key_use_signature alg keys key
                    (or_invalid_grant-ok _ chosen)).0,
                require-eq-ok _ _ e4,
              ),
            ),
          )

  check_bearer_claims-facts :
      (a : Claims) (issuer : String) (now : ℕ) {u : Unit {0}}
      → check_bearer_claims a issuer now ≡ ok u
      → Listed issuer a.audience
        × ((now ≤ ns a.expiration) × (ns a.expiration ≤ now + max_assertion_life))
  unfolding check_bearer_claims
  check_bearer_claims-facts a issuer now e =
      after_require (contains a.audience issuer) invalid_grant _ e λ for_us e1.
        after_require (not (eqb a.expiration 0)) invalid_grant _ e1 λ has_exp e2.
          after_require (leb now (ns a.expiration)) invalid_grant _ e2 λ alive e3.
            after_require (leb (ns a.expiration) (now + max_assertion_life)) invalid_grant _ e3
              λ short e4.
                ((contains_iff a.audience issuer).0 for_us, (leb→le _ _ alive, leb→le _ _ short))

  -- Tokens are issued for an assertion only if its issuer is a client of the store that may use the
  -- grant, one of this client's own keys verifies it, its audience has this server, and it expires
  -- neither before now nor more than five minutes from now; they are for the assertion's subject, for
  -- that client, and for the scopes of the form.
  pub admit_bearer-IsBearer :
      (issuer assertion scope : String) (now : ℕ) (c : Client) (q : TokenRequest)
      → admit_bearer s k jws issuer assertion scope now ≡ ok (c, q)
      → IsBearer s k jws issuer assertion scope now c q
  unfolding admit_bearer
  admit_bearer-IsBearer issuer assertion scope now c q e =
      after_require (assertion != "") invalid_request _ e λ there e1.
        after_bind (or_invalid_grant (parse_token k assertion)) _ e1 λ parsed read e2.
          after_require (parsed.1.issuer != "") invalid_grant _ e2 λ issued e3.
            after_require (parsed.1.subject != "") invalid_grant _ e3 λ about e4.
              after_bind (or_invalid_grant (s.get_client parsed.1.issuer)) _ e4 λ c1 stored e5.
                after_require (validate_grant_type c1 "urn:ietf:params:oauth:grant-type:jwt-bearer")
                  unauthorized_client _ e5
                  λ granted e6.
                    after_bind (check_bearer_signature k jws c1 assertion) _ e6 λ u signed e7.
                      after_bind (check_bearer_claims parsed.1 issuer now) _ e7 λ u1 fresh e8.
                        let same = ok-injective e8 in
                        let (keys, own, (key, alg, (held, fits, verified))) =
                          check_bearer_signature-facts c1 assertion signed in
                        let (for_us, (alive, short)) =
                          check_bearer_claims-facts parsed.1 issuer now fresh in
                        subst
                          (λ (p : Client × TokenRequest).
                            IsBearer s k jws issuer assertion scope now p.0 p.1)
                          same
                          (record {
                            payload = parsed.0;
                            claims = parsed.1;
                            alg = alg;
                            key = key;
                            keys = keys;
                            parsed = or_invalid_grant-ok _ read;
                            by_client = or_invalid_grant-ok _ stored;
                            granted = granted;
                            own_keys = own;
                            registered = held;
                            key_fits = fits;
                            verified = verified;
                            for_us = for_us;
                            alive = alive;
                            short = short;
                            for_subject = refl;
                            for_client = refl;
                            with_scopes = refl;
                          })
