-- ===== src/Verifier/Assertion.antt =====
-- pkg/protocol/verifier.go: VerifyJWTAssertion (RFC 7523 §2.2), and what it establishes.
use kexcore_oidc.Base.{
  ℕ, ◌+◌, ◌<◌, String, ◌≡◌, refl, ◌≢◌, inl, inr, Bool, true, false, ◌||◌, not, some, List, [], ◌∷◌,
  arith, eq_iff, ltb, leb, eqb, ltb→lt, ◌==◌, Bool-cases, contains, Listed, contains_iff, Result,
  ok, err, ◌>>=◌, ◌>>◌, require, expect, after_require, after_expect, after_bind,
}
use kexcore_oidc.Verifier.Checks.{
  Claims, SignatureHeader, VerifyError, parse_failed, subject_invalid, audience_invalid,
  signature_invalid, expired, iat_in_future, nbf_in_future, Check, ns, round_second, Codec,
  check_audience_any, check_expiration, key_id_and_alg, parse_token,
}
use kexcore_oidc.Keyset.{Jwk, KeyError, find_matching_key, key_use_signature, alg_to_key_type}
use kexcore_oidc.Keyset.Choice.{Held, find_matching_key_sound, find_matching_key-Held}

-- `FindMatchingKey`'s error, wrapped as an invalid signature.
abbrev pub or_invalid_signature : Result KeyError Jwk → Result VerifyError Jwk
or_invalid_signature (ok key) = ok key
or_invalid_signature (err e) = err signature_invalid

-- A claimed time that is absent or not after now plus the offset, to the nearest second.
abbrev pub not_ahead : (claimed offset now : ℕ) → Bool
not_ahead claimed offset now = eqb claimed 0 || leb (ns claimed) (round_second (now + offset))

module _ (k : Codec) where
  -- `VerifyJWTAssertion`.
  unfoldable pub verify_jwt_assertion :
      (assertion : String) → (allowed : List String) → List Jwk → (offset now : ℕ) → Check
  verify_jwt_assertion assertion allowed keys offset now = do
    parsed ← parse_token k assertion
    require (not (k.aud_is_array parsed.0)) audience_invalid
    check_audience_any parsed.1 allowed
    check_expiration parsed.1 offset now
    require (not_ahead parsed.1.issued_at offset now) iat_in_future
    require (not_ahead parsed.1.not_before offset now) nbf_in_future
    require (parsed.1.issuer == parsed.1.subject) subject_invalid
    sigs ← expect (k.signatures assertion) parse_failed
    key ←
        or_invalid_signature
          (find_matching_key (key_id_and_alg sigs).0 key_use_signature (key_id_and_alg sigs).1 keys)
    payload ← expect (k.verify assertion key (key_id_and_alg sigs).1) signature_invalid
    ok tt

  -- What an accepted assertion has established.
  pub record IsAsserted (assertion : String) (allowed : List String) (keys : List Jwk)
      (offset now : ℕ) : Type 0 where
    pub payload : String
    pub c : Claims
    pub key : Jwk
    pub alg : String
    pub signed_payload : String
    pub parsed : parse_token k assertion ≡ ok (payload, c)
    pub single_aud : k.aud_is_array payload ≡ false
    pub aud : String
    pub aud_allowed : Listed aud allowed
    pub aud_claimed : Listed aud c.audience
    pub fresh : now + offset < ns c.expiration
    pub self_issued : c.issuer ≡ c.subject
    pub sigs : List SignatureHeader
    pub has_sigs : k.signatures assertion ≡ some sigs
    pub alg_eq : (key_id_and_alg sigs).1 ≡ alg
    pub registered : Held key keys
    pub key_fits : alg_to_key_type key alg ≡ true
    pub verified : k.verify assertion key alg ≡ some signed_payload

check_audience_any-shared :
    (c : Claims) (allowed : List String) {u : Unit {0}}
    → check_audience_any c allowed ≡ ok u
    → (a : String) × Listed a allowed × Listed a c.audience
unfolding check_audience_any
check_audience_any-shared c [] e = cc
check_audience_any-shared c (a ∷ allowed) {u} e = elim (Bool-cases (contains c.audience a)) [
  | inl here ↦ (a, inl refl, (contains_iff c.audience a).0 here)
  | inr not_here ↦
      let (b, listed, claimed) = check_audience_any-shared c allowed {u = u} (rw not_here at e) in
      (b, inr listed, claimed)
]

module _ (k : Codec) where
  -- An assertion that is accepted was issued by its own subject, names one of the allowed
  -- audiences as a single string, expires after now plus the offset, and verifies under a
  -- registered key that fits its algorithm.
  pub verify_jwt_assertion-IsAsserted :
      (assertion : String) (allowed : List String) (keys : List Jwk) (offset now : ℕ) {u : Unit {0}}
      → verify_jwt_assertion k assertion allowed keys offset now ≡ ok u
      → IsAsserted k assertion allowed keys offset now
  unfolding verify_jwt_assertion check_expiration
  verify_jwt_assertion-IsAsserted assertion allowed keys offset now e =
      after_bind (parse_token k assertion) _ e λ parsed read e1.
        after_require (not (k.aud_is_array parsed.0)) audience_invalid _ e1 λ single e2.
          after_bind (check_audience_any parsed.1 allowed) _ e2 λ u1 aud e3.
            after_require (ltb (now + offset) (ns parsed.1.expiration)) expired _ e3 λ fresh e4.
              after_require (not_ahead parsed.1.issued_at offset now) iat_in_future _ e4 λ iat e5.
                after_require (not_ahead parsed.1.not_before offset now) nbf_in_future _ e5
                  λ nbf e6.
                    after_require (parsed.1.issuer == parsed.1.subject) subject_invalid _ e6
                      λ self e7.
                        after_expect (k.signatures assertion) parse_failed _ e7 λ sigs found e8.
                          let (key_id, alg) = key_id_and_alg sigs in
                          after_bind
                            (or_invalid_signature
                              (find_matching_key key_id key_use_signature alg keys))
                            _ e8
                            λ key chosen e9.
                              after_expect (k.verify assertion key alg) signature_invalid _ e9
                                λ signed verified e10.
                                  let (a, listed, claimed) =
                                    check_audience_any-shared parsed.1 allowed aud in
                                  record {
                                    payload = parsed.0;
                                    c = parsed.1;
                                    key = key;
                                    alg = alg;
                                    signed_payload = signed;
                                    parsed = read;
                                    single_aud = not-true _ single;
                                    aud = a;
                                    aud_allowed = listed;
                                    aud_claimed = claimed;
                                    fresh = ltb→lt _ _ fresh;
                                    self_issued = (eq_iff _ _).0 self;
                                    sigs = sigs;
                                    has_sigs = found;
                                    alg_eq = refl;
                                    registered =
                                        find_matching_key-Held key_id key_use_signature alg keys key
                                          (from_valid _ key chosen);
                                    key_fits =
                                        (find_matching_key_sound key_id key_use_signature alg keys
                                          key (from_valid _ key chosen)).0;
                                    verified = verified;
                                  }
    where
      not-true : (b : Bool) → not b ≡ true → b ≡ false
      not-true b h = ground arith

      from_valid :
          (r : Result KeyError Jwk) (key : Jwk) → or_invalid_signature r ≡ ok key → r ≡ ok key
      from_valid (ok x) key h = cc
      from_valid (err x) key h = cc

  -- With no allowed audience every assertion is refused.
  pub verify_jwt_assertion-no_audience :
      (assertion : String) (keys : List Jwk) (offset now : ℕ)
      → verify_jwt_assertion k assertion [] keys offset now ≢ ok tt
  verify_jwt_assertion-no_audience assertion keys offset now e =
      (verify_jwt_assertion-IsAsserted assertion [] keys offset now e).aud_allowed
