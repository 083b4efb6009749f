-- ===== src/Verifier/Soundness.antt =====
-- pkg/protocol/verifier.go: what the answers of VerifyAccessToken and VerifyIDTokenHint mean.
use kexcore_oidc.Base.{
  ℕ, ◌+◌, ◌-◌, ◌≤◌, ◌<◌, String, ◌≡◌, refl, sym, ap, ◌∙◌, subst, ◌↔◌, ◌⊎◌, inl, inr, true, Option,
  none, some, List, [], ◌∷◌, arith, eq_iff, ltb, ltb→lt, lt→ltb, ◌==◌, Listed, contains_iff, length,
  split, ok, require-eq-ok, after_require, after_expect, after_bind,
}
use kexcore_oidc.Verifier.Checks.{
  Claims, VerifyError, parse_failed, malformed_payload, undecodable_claims, issuer_invalid,
  signature_unsupported_alg, signature_invalid, expired, no_key_set, ns, round_second,
  SignatureHeader, Codec, KeySet, check_issuer, check_acr, check_expiration, check_issued_at,
  check_auth_time, is_supported_sig_alg, middle_of_three, only_alg, decrypt_token, parse_token,
  check_signature,
}
use kexcore_oidc.Verifier.Token.{
  AccessTokenVerifier, IdTokenHintVerifier, valid, hint_expired, resolve_key_set,
  verify_access_token_generic, authenticate_hint, check_freshness, verify_id_token_hint, IsSigned,
  IsAuthentic,
}

is_supported_sig_alg-Listed :
    (alg : String) (algs : List String)
    → is_supported_sig_alg alg algs ≡ true
    → (algs ≡ []) ⊎ Listed alg algs
unfolding is_supported_sig_alg
is_supported_sig_alg-Listed alg [] h = inl refl
is_supported_sig_alg-Listed alg (a ∷ algs) h = inr ((contains_iff (a ∷ algs) alg).0 h)

Listed-is_supported_sig_alg :
    (alg : String) (algs : List String)
    → (algs ≡ []) ⊎ Listed alg algs
    → is_supported_sig_alg alg algs ≡ true
unfolding is_supported_sig_alg
Listed-is_supported_sig_alg alg [] h = refl
Listed-is_supported_sig_alg alg (a ∷ algs) (inl e) = cc
Listed-is_supported_sig_alg alg (a ∷ algs) (inr m) = (contains_iff (a ∷ algs) alg).1 m

only_alg-one :
    (sigs : List SignatureHeader) (alg : String)
    → only_alg sigs ≡ ok alg
    → (h : SignatureHeader) × (sigs ≡ h ∷ []) × (h.alg ≡ alg)
only_alg-one [] alg e = cc
only_alg-one (h ∷ []) alg e = (h, refl, ground arith)
only_alg-one (h ∷ h' ∷ hs) alg e = cc

check_freshness-fresh :
    (k : Codec) (c : Claims) (v : IdTokenHintVerifier) (now : ℕ)
    → check_freshness k c v now ≡ ok tt
    → (now + v.offset < ns c.expiration)
      × (0 < c.issued_at)
      × (ns c.issued_at ≤ round_second (now + v.offset))
      × ((v.max_age_iat ≡ 0) ⊎ (round_second (now - v.max_age_iat) ≤ ns c.issued_at))
      × ((v.max_age ≡ 0) ⊎ ((0 < c.auth_time) × (round_second (now - v.max_age) ≤ ns c.auth_time)))
unfolding check_freshness check_expiration check_issued_at check_auth_time
check_freshness-fresh k c v now h = ground arith

module _ (k : Codec) where
  check_signature-IsSigned :
      (token payload : String) (algs : List String) (set : Option KeySet) {u : Unit {0}}
      → check_signature k token payload algs set ≡ ok u
      → IsSigned k token payload algs set
  unfolding check_signature
  check_signature-IsSigned token payload algs set e =
      after_expect (k.signatures token) parse_failed _ e λ sigs found e1.
        after_bind (only_alg sigs) _ e1 λ alg single e2.
          after_require (is_supported_sig_alg alg algs) signature_unsupported_alg _ e2
            λ supported e3. after_expect set no_key_set _ e3 λ vs has e4.
              after_expect (vs token) signature_invalid _ e4 λ signed ran e5.
                let (h, one, same_alg) = only_alg-one sigs alg single in
                record {
                  header = h;
                  verify_signature = vs;
                  one = found ∙ ap some one;
                  allowed = is_supported_sig_alg-Listed h.alg algs (rw same_alg supported);
                  has_set = has;
                  covers =
                      ran
                      ∙ ap some
                          ((eq_iff signed payload).0 (require-eq-ok (signed == payload) _ e5));
                }

  IsSigned-check_signature :
      {token payload : String} {algs : List String} {set : Option KeySet}
      → IsSigned k token payload algs set
      → check_signature k token payload algs set ≡ ok tt
  unfolding check_signature
  IsSigned-check_signature {payload} {algs} s =
      rw
        (
          s.one,
          Listed-is_supported_sig_alg s.header.alg algs s.allowed,
          s.has_set,
          s.covers,
          (eq_iff payload payload).1 refl,
        )
        refl

  -- Without a key, decryption lets every token pass unchanged, except one of five parts.
  decrypt_token-same : (token d : String) → decrypt_token k token none ≡ ok d → d ≡ token
  unfolding decrypt_token
  decrypt_token-same token d e = ground arith

  three-decrypt_token :
      (token body : String)
      → middle_of_three (split b'.' token) ≡ some body
      → decrypt_token k token none ≡ ok token
  unfolding decrypt_token
  three-decrypt_token token body e = rw (count_three (split b'.' token) e) refl
    where
      count_three : (ps : List String) → middle_of_three ps ≡ some body → length ps ≡ 3
      count_three (a ∷ b ∷ c ∷ []) h = refl
      count_three [] h = cc
      count_three (a ∷ []) h = cc
      count_three (a ∷ b ∷ []) h = cc
      count_three (a ∷ b ∷ c ∷ d ∷ ps) h = cc

  parse_token-parts :
      (token payload : String) (c : Claims)
      → parse_token k token ≡ ok (payload, c)
      → (body : String) × (middle_of_three (split b'.' token) ≡ some body)
        × (k.base64_decode body ≡ some payload)
        × (k.claims payload ≡ some c)
  unfolding parse_token
  parse_token-parts token payload c e =
      after_expect (middle_of_three (split b'.' token)) parse_failed _ e λ body a1 e1.
        after_expect (k.base64_decode body) malformed_payload _ e1 λ p a2 e2.
          after_expect (k.claims p) undecodable_claims _ e2
            λ c' a3 e3. (body, a1, ground arith, ground arith)

  to-IsAuthentic :
      (token issuer d payload : String) (algs : List String) (set : Option KeySet) (c : Claims)
      {u : Unit {0}}
      → decrypt_token k token none ≡ ok d
      → parse_token k d ≡ ok (payload, c)
      → (c.issuer == issuer) ≡ true
      → check_signature k d payload algs set ≡ ok u
      → IsAuthentic k token issuer algs set c
  to-IsAuthentic token issuer d payload algs set c plain read iss sig =
      let same = decrypt_token-same token d plain in
      let read' = sym (ap (parse_token k) same) ∙ read in
      let sig' = sym (ap (λ (x : String). check_signature k x payload algs set) same) ∙ sig in
      let (body, three, decoded, claims_eq) = parse_token-parts token payload c read' in
      record {
        body = body;
        payload = payload;
        three_parts = three;
        decoded = decoded;
        claims_eq = claims_eq;
        issued_by = (eq_iff c.issuer issuer).0 iss;
        signed = check_signature-IsSigned token payload algs set sig';
      }

  -- The common head of the two verifications succeeds on an authentic token.
  IsAuthentic-parse_token :
      {token issuer : String} {algs : List String} {set : Option KeySet} {c : Claims}
      (a : IsAuthentic k token issuer algs set c)
      → parse_token k token ≡ ok (a.payload, c)
  unfolding parse_token
  IsAuthentic-parse_token a = rw (a.three_parts, a.decoded, a.claims_eq) refl

  module _ (token : String) (v : AccessTokenVerifier) (now : ℕ) where
    access_token-IsAuthentic :
        (c : Claims)
        → verify_access_token_generic k token v now ≡ ok c
        → IsAuthentic k token v.issuer v.supported_sign_algs
            (resolve_key_set k v.key_set v.key_store)
            c
          × (now + v.offset < ns c.expiration)
    unfolding verify_access_token_generic check_issuer check_expiration
    access_token-IsAuthentic c e = after_bind (decrypt_token k token none) _ e λ d plain e1.
        after_bind (parse_token k d) _ e1 λ parsed read e2.
          after_require (parsed.1.issuer == v.issuer) issuer_invalid _ e2 λ iss e3.
            after_bind
              (check_signature k d parsed.0 v.supported_sign_algs
                (resolve_key_set k v.key_set v.key_store))
              _ e3
              λ u sig e4.
                after_require (ltb (now + v.offset) (ns parsed.1.expiration)) expired _ e4
                  λ fresh e5.
                    let same : parsed.1 ≡ c = cc in
                    let authentic =
                      to-IsAuthentic token v.issuer d parsed.0 v.supported_sign_algs
                        (resolve_key_set k v.key_set v.key_store) parsed.1 plain read iss sig in
                    subst
                      (λ (x : Claims).
                        IsAuthentic k token v.issuer v.supported_sign_algs
                          (resolve_key_set k v.key_set v.key_store) x
                        × (now + v.offset < ns x.expiration))
                      same (authentic, ltb→lt (now + v.offset) (ns parsed.1.expiration) fresh)

    IsAuthentic-access_token :
        (c : Claims)
        → IsAuthentic k token v.issuer v.supported_sign_algs
            (resolve_key_set k v.key_set v.key_store)
            c
        → now + v.offset < ns c.expiration
        → verify_access_token_generic k token v now ≡ ok c
    unfolding verify_access_token_generic check_issuer check_expiration
    IsAuthentic-access_token c a fresh =
        rw
          (
            three-decrypt_token token a.body a.three_parts,
            IsAuthentic-parse_token a,
            (eq_iff c.issuer v.issuer).1 a.issued_by,
            IsSigned-check_signature a.signed,
            lt→ltb (now + v.offset) (ns c.expiration) fresh,
          )
          refl

    -- An access token yields claims exactly when it has three parts whose middle part decodes to
    -- those claims, they name the verifier's issuer, the token has one signature, by an algorithm
    -- that is allowed, that the key set verifies over exactly that middle part, and the token
    -- expires after now plus the offset.
    pub verify_access_token_iff :
        (c : Claims)
        → (verify_access_token_generic k token v now ≡ ok c) ↔ (
            IsAuthentic k token v.issuer v.supported_sign_algs
              (resolve_key_set k v.key_set v.key_store)
              c
            × (now + v.offset < ns c.expiration))
    verify_access_token_iff c =
        (access_token-IsAuthentic c, λ h. IsAuthentic-access_token c h.0 h.1)

  module _ (token : String) (v : IdTokenHintVerifier) (now : ℕ) where
    authenticate_hint-IsAuthentic :
        (c : Claims)
        → authenticate_hint k token v ≡ ok c
        → IsAuthentic k token v.issuer v.supported_sign_algs
            (resolve_key_set k v.key_set v.key_store)
            c
    unfolding authenticate_hint check_issuer
    authenticate_hint-IsAuthentic c e = after_bind (decrypt_token k token none) _ e λ d plain e1.
        after_bind (parse_token k d) _ e1 λ parsed read e2.
          after_require (parsed.1.issuer == v.issuer) issuer_invalid _ e2 λ iss e3.
            after_bind
              (check_signature k d parsed.0 v.supported_sign_algs
                (resolve_key_set k v.key_set v.key_store))
              _ e3
              λ u sig e4. after_bind (check_acr parsed.1 v.acr) _ e4 λ w acr e5.
                let same : parsed.1 ≡ c = cc in
                subst
                  (IsAuthentic k token v.issuer v.supported_sign_algs
                    (resolve_key_set k v.key_set v.key_store))
                  same
                  (to-IsAuthentic token v.issuer d parsed.0 v.supported_sign_algs
                    (resolve_key_set k v.key_set v.key_store) parsed.1 plain read iss sig)

    -- Claims come back from a hint, even from an expired one, only if the hint is authentic: the
    -- verifier's issuer, one signature by an allowed algorithm, verified over the claims' own text.
    pub verify_id_token_hint-IsAuthentic :
        (c : Claims) (e : VerifyError)
        → (verify_id_token_hint k token v now ≡ valid c)
          ⊎ (verify_id_token_hint k token v now ≡ hint_expired c e)
        → IsAuthentic k token v.issuer v.supported_sign_algs
            (resolve_key_set k v.key_set v.key_store)
            c
    unfolding verify_id_token_hint
    verify_id_token_hint-IsAuthentic c e h = authenticate_hint-IsAuthentic c (ground arith)

    -- A hint that is valid, and not merely authentic, is fresh: it expires after now plus the
    -- offset, its issue time is present and not after now plus the offset to the nearest second,
    -- and, where limits are configured, neither it nor the authentication time is too old.
    pub verify_id_token_hint-valid :
        (c : Claims)
        → verify_id_token_hint k token v now ≡ valid c
        → (now + v.offset < ns c.expiration)
          × (0 < c.issued_at)
          × (ns c.issued_at ≤ round_second (now + v.offset))
          × ((v.max_age_iat ≡ 0) ⊎ (round_second (now - v.max_age_iat) ≤ ns c.issued_at))
          × ((v.max_age ≡ 0)
              ⊎ ((0 < c.auth_time) × (round_second (now - v.max_age) ≤ ns c.auth_time)))
    unfolding verify_id_token_hint
    verify_id_token_hint-valid c h = check_freshness-fresh k c v now (ground arith)
