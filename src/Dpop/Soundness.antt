-- ===== src/Dpop/Soundness.antt =====
-- pkg/storm/plugins/dpop: what an accepted proof has established.
use kexcore_oidc.Base.{
  ℕ, ◌+◌, ◌*◌, ◌≤◌, String, ◌≡◌, sym, ap, ◌∙◌, ◌≢◌, ◌↔◌, ◌⊎◌, true, false, not, Option, none, some,
  ◌∷◌, [], refl, cut_at, List, arith, eq_iff, ◌==◌, ok, after_require, after_expect,
}
use kexcore_oidc.Dpop.Proof.{
  Jose, RawKey, Header, Claims, Proof, second, max_proof_age, is_private_key, normalize_htu,
  htu_match, check_claims, parse_proof, first_header, text_or_empty, ecdsa_private, rsa_private,
  ecdsa_public, rsa_public, ed25519_public, ed25519_private, symmetric, is_private_raw, unparsable,
  no_signatures, missing_jwk, unmarshallable_jwk, invalid_jwk, private_jwk, invalid_typ,
  unexportable_key, bad_signature, bad_payload,
}

module _ (j : Jose) where
  open j use {
    Key, headers, marshal_jwk, parse_key, export, verify, claims, thumbprint, drop_port, sha256,
  }

  -- A URL without query and fragment, and without port where it can be parsed.
  abbrev pub target : String → String
  target url = elim (drop_port (cut_at b'?' b'#' url)) [
    | some plain ↦ plain
    | none ↦ cut_at b'?' b'#' url
  ]

  normalize_htu-target : (url : String) → normalize_htu j url ≡ target url
  unfolding normalize_htu
  normalize_htu-target url = by_parse (drop_port (cut_at b'?' b'#' url))
    where
      by_parse :
          (o : Option String)
          → elim o [ none ↦ cut_at b'?' b'#' url | some u ↦ u ]
            ≡ elim o [ some plain ↦ plain | none ↦ cut_at b'?' b'#' url ]
      by_parse none = refl
      by_parse (some u) = refl

  -- Neither an ECDSA nor an RSA private key.
  abbrev pub IsNotPrivate : RawKey → Type 0
  IsNotPrivate raw = ((c : String) → raw ≢ ecdsa_private c) × ((n : ℕ) → raw ≢ rsa_private n)

  is_private_key-IsNotPrivate :
      (key : Key) (raw : RawKey)
      → export key ≡ some raw
      → (is_private_key j key ≡ false) ↔ IsNotPrivate raw
  unfolding is_private_key
  is_private_key-IsNotPrivate key raw e = rw (e, is_private_key) (by_raw raw)
    where
      by_raw : (v : RawKey) → (is_private_raw v ≡ false) ↔ IsNotPrivate v
      by_raw (ecdsa_public c) = (λ h. (λ d q. cc, λ n q. cc), λ h. refl)
      by_raw (rsa_public m) = (λ h. (λ d q. cc, λ n q. cc), λ h. refl)
      by_raw (ecdsa_private c) = (λ h. absurd (cc), λ h. absurd (h.0 c refl))
      by_raw (rsa_private m) = (λ h. absurd (cc), λ h. absurd (h.1 m refl))
      by_raw ed25519_public = (λ h. (λ d q. cc, λ n q. cc), λ h. refl)
      by_raw ed25519_private = (λ h. (λ d q. cc, λ n q. cc), λ h. refl)
      by_raw symmetric = (λ h. (λ d q. cc, λ n q. cc), λ h. refl)

  first_header_iff :
      (sigs : List Header) (front : Header)
      → (first_header sigs ≡ some front) ↔ ((rest : List Header) × (sigs ≡ front ∷ rest))
  first_header_iff [] front = (λ h. absurd (cc), λ h. absurd (never h.0 h.1))
    where
      never : (rest : List Header) → [] ≡ front ∷ rest → ⊥
      never rest p = cc
  first_header_iff (x ∷ xs) front = (λ h. (xs, cc), λ h. ap first_header h.1)

  text_or_empty_iff :
      (o : Option String) (s : String) → s ≢ "" → (text_or_empty o ≡ s) ↔ (o ≡ some s)
  text_or_empty_iff none s h = (λ e. absurd (h (sym e)), λ e. cc)
  text_or_empty_iff (some a) s h = (λ e. ap some e, λ e. cc)

  typ_given : ◌≢◌ {A = String} "dpop+jwt" ""
  typ_given e = not_both refl ((eq_iff "dpop+jwt" "").1 e)
    where
      not_both : ("dpop+jwt" == "") ≡ false → ("dpop+jwt" == "") ≡ true → ⊥
      not_both p q = cc

  -- What RFC 9449 §4.3 asks of a proof for one request, and where each field comes from.
  pub record IsValidProof (header method url : String) (now : ℕ) (p : Proof) : Type 0 where
    pub sigs : List Header
    pub front : Header
    pub jwk_raw : String
    pub jwk_bytes : String
    pub key : Key
    pub c : Claims
    pub parsed : headers header ≡ some sigs
    pub others : List Header
    pub first : sigs ≡ front ∷ others
    pub embedded : front.jwk ≡ some jwk_raw
    pub marshalled : marshal_jwk jwk_raw ≡ some jwk_bytes
    pub key_parsed : parse_key jwk_bytes ≡ some key
    pub not_private : IsNotPrivate p.public_key
    pub typed : front.typ ≡ some "dpop+jwt"
    pub exported : export key ≡ some p.public_key
    pub signed : verify header front.alg key ≡ true
    pub decoded : claims header ≡ some c
    pub has_jti : p.unique_id ≢ ""
    pub jti_eq : c.jti ≡ p.unique_id
    pub htm_eq : p.htm ≡ c.htm
    pub htu_eq : p.htu ≡ c.htu
    pub method_eq : c.htm ≡ method
    pub url_eq : target c.htu ≡ target url
    pub iat_eq : p.issued_at ≡ c.iat * second
    pub not_old : now ≤ p.issued_at + 300000000000
    pub not_future : p.issued_at ≤ now + 300000000000
    pub bound : thumbprint key ≡ some p.jkt
    pub ath_eq : p.ath ≡ c.ath

  record Checked (key : Key) (raw : RawKey) (c : Claims) (method url : String) (now : ℕ) (p : Proof)
      : Type 0 where
    has_jti : c.jti ≢ ""
    method_eq : c.htm ≡ method
    url_eq : normalize_htu j c.htu ≡ normalize_htu j url
    not_old : now ≤ c.iat * second + max_proof_age
    not_future : c.iat * second ≤ now + max_proof_age
    bound : thumbprint key ≡ some p.jkt
    fields : p ≡ record {
      jkt = p.jkt;
      htm = c.htm;
      htu = c.htu;
      ath = c.ath;
      issued_at = c.iat * second;
      unique_id = c.jti;
      public_key = raw;
    }

  check_claims-Checked :
      (key : Key) (raw : RawKey) (c : Claims) (method url : String) (now : ℕ) {p : Proof}
      → check_claims j key raw c method url now ≡ ok p
      → Checked key raw c method url now p
  unfolding check_claims htu_match
  check_claims-Checked key raw c method url now e = record {
    has_jti = ground (arith, eq_iff c.jti "");
    method_eq = ground (arith, eq_iff c.htm method);
    url_eq = ground (arith, eq_iff (normalize_htu j c.htu) (normalize_htu j url));
    not_old = ground arith;
    not_future = ground arith;
    bound = ground arith;
    fields = ground arith;
  }

  -- The values that `ParseProof` has read when it comes to the claims.
  record Opened (header : String) (front : Header) (key : Key) (raw : RawKey) (c : Claims)
      : Type 0 where
    sigs : List Header
    jwk_raw : String
    jwk_bytes : String
    parsed : headers header ≡ some sigs
    first : first_header sigs ≡ some front
    embedded : front.jwk ≡ some jwk_raw
    marshalled : marshal_jwk jwk_raw ≡ some jwk_bytes
    key_parsed : parse_key jwk_bytes ≡ some key
    not_private : is_private_key j key ≡ false
    typed : text_or_empty front.typ ≡ "dpop+jwt"
    exported : export key ≡ some raw
    signed : verify header front.alg key ≡ true
    decoded : claims header ≡ some c

  parse_proof-Opened :
      (header method url : String) (now : ℕ) {p : Proof}
      → parse_proof j header method url now ≡ ok p
      → (front : Header) × (key : Key) × (raw : RawKey) × (c : Claims) × Opened header front key raw
          c
        × (check_claims j key raw c method url now ≡ ok p)
  unfolding parse_proof
  parse_proof-Opened header method url now e =
      after_expect (headers header) unparsable _ e λ sigs a1 e1.
        after_expect (first_header sigs) no_signatures _ e1 λ h a2 e2.
          after_expect h.jwk missing_jwk _ e2 λ jr a3 e3.
            after_expect (marshal_jwk jr) unmarshallable_jwk _ e3 λ jb a4 e4.
              after_expect (parse_key jb) invalid_jwk _ e4 λ key a5 e5.
                after_require (not (is_private_key j key)) private_jwk _ e5 λ a6 e6.
                  after_require (text_or_empty h.typ == "dpop+jwt") invalid_typ _ e6 λ a7 e7.
                    after_expect (export key) unexportable_key _ e7 λ raw a8 e8.
                      after_require (verify header h.alg key) bad_signature _ e8 λ a9 e9.
                        after_expect (claims header) bad_payload _ e9 λ c a10 e10.
                          let opened : Opened header h key raw c = record {
                            sigs = sigs;
                            jwk_raw = jr;
                            jwk_bytes = jb;
                            parsed = a1;
                            first = a2;
                            embedded = a3;
                            marshalled = a4;
                            key_parsed = a5;
                            not_private = ground arith;
                            typed = (eq_iff (text_or_empty h.typ) "dpop+jwt").0 a7;
                            exported = a8;
                            signed = a9;
                            decoded = a10;
                          } in
                          (h, key, raw, c, opened, e10)

  -- One direction: what acceptance establishes.
  pub parse_proof-IsValidProof :
      (header method url : String) (now : ℕ) {p : Proof}
      → parse_proof j header method url now ≡ ok p
      → IsValidProof header method url now p
  parse_proof-IsValidProof header method url now {p} e =
      let (front, key, raw, c, o, e') = parse_proof-Opened header method url now e in
      let v = check_claims-Checked key raw c method url now e' in
      let f = v.fields in
      let shown : export key ≡ some p.public_key =
        o.exported ∙ sym (ap (λ (q : Proof). some q.public_key) f) in
      record {
        sigs = o.sigs;
        front = front;
        jwk_raw = o.jwk_raw;
        jwk_bytes = o.jwk_bytes;
        key = key;
        c = c;
        parsed = o.parsed;
        others = ((first_header_iff o.sigs front).0 o.first).0;
        first = ((first_header_iff o.sigs front).0 o.first).1;
        embedded = o.embedded;
        marshalled = o.marshalled;
        key_parsed = o.key_parsed;
        not_private = (is_private_key-IsNotPrivate key _ shown).0 o.not_private;
        typed = (text_or_empty_iff front.typ "dpop+jwt" typ_given).0 o.typed;
        exported = shown;
        signed = o.signed;
        decoded = o.decoded;
        has_jti = λ h. v.has_jti (sym (ap (λ (q : Proof). q.unique_id) f) ∙ h);
        jti_eq = sym (ap (λ (q : Proof). q.unique_id) f);
        htm_eq = ap (λ (q : Proof). q.htm) f;
        htu_eq = ap (λ (q : Proof). q.htu) f;
        method_eq = v.method_eq;
        url_eq = sym (normalize_htu-target c.htu) ∙ (v.url_eq ∙ normalize_htu-target url);
        iat_eq = ap (λ (q : Proof). q.issued_at) f;
        not_old = omega (arith, ap (λ (q : Proof). q.issued_at) f, v.not_old);
        not_future = omega (arith, ap (λ (q : Proof). q.issued_at) f, v.not_future);
        bound = v.bound;
        ath_eq = ap (λ (q : Proof). q.ath) f;
      }

  htu_match-true : (a b : String) → normalize_htu j a ≡ normalize_htu j b → htu_match j a b ≡ true
  unfolding htu_match
  htu_match-true a b h = (eq_iff _ _).1 h

  check_claims_complete :
      {header method url : String} {now : ℕ} {p : Proof} (v : IsValidProof header method url now p)
      → check_claims j v.key p.public_key v.c method url now ≡ ok p
  unfolding check_claims
  check_claims_complete {method} {url} v = ground (
    arith,
    eq_iff v.c.jti "",
    eq_iff v.c.htm method,
    htu_match-true v.c.htu url
        (normalize_htu-target v.c.htu ∙ (v.url_eq ∙ sym (normalize_htu-target url))),
  )

  -- The converse: whatever meets these conditions is accepted.
  pub parse_proof_complete :
      (header method url : String) (now : ℕ) (p : Proof)
      → IsValidProof header method url now p
      → parse_proof j header method url now ≡ ok p
  unfolding parse_proof
  parse_proof_complete header method url now p v =
      rw
        (
          v.parsed,
          (first_header_iff v.sigs v.front).1 (v.others, v.first),
          v.embedded,
          v.marshalled,
          v.key_parsed,
          (is_private_key-IsNotPrivate v.key p.public_key v.exported).1 v.not_private,
          (eq_iff _ _).1 ((text_or_empty_iff v.front.typ "dpop+jwt" typ_given).1 v.typed),
          v.exported,
          v.signed,
          v.decoded,
        )
        (check_claims_complete v)

  -- The guard on private keys in the header answers true exactly for an ECDSA or RSA private key:
  -- an Ed25519 private key, or a symmetric one, passes it.
  pub is_private_key_iff :
      (key : Key)
      → (is_private_key j key ≡ true) ↔ (
          ((c : String) × (export key ≡ some (ecdsa_private c)))
          ⊎ ((n : ℕ) × (export key ≡ some (rsa_private n))))
  unfolding is_private_key
  is_private_key_iff key = ground arith

  -- A proof is accepted exactly when the first of its protected headers has the type dpop+jwt and an
  -- embedded key that can be parsed and exported, is no ECDSA or RSA private key, and under which the
  -- signature verifies; its claims name the request's method and URL (up to query, fragment and
  -- port) and a nonempty jti; it is at most five minutes old or early; and the result carries these
  -- claims, that key and its thumbprint.
  pub parse_proof_iff :
      (header method url : String) (now : ℕ) (p : Proof)
      → (parse_proof j header method url now ≡ ok p) ↔ IsValidProof header method url now p
  parse_proof_iff header method url now p =
      (parse_proof-IsValidProof header method url now, parse_proof_complete header method url now p)

  -- A proof stays valid until it is too old.
  pub IsValidProof-later :
      {header method url : String} {t u : ℕ} {p : Proof}
      → IsValidProof header method url t p
      → t ≤ u
      → u ≤ p.issued_at + max_proof_age
      → IsValidProof header method url u p
  IsValidProof-later v h young = record {
    sigs = v.sigs;
    front = v.front;
    jwk_raw = v.jwk_raw;
    jwk_bytes = v.jwk_bytes;
    key = v.key;
    c = v.c;
    parsed = v.parsed;
    others = v.others;
    first = v.first;
    embedded = v.embedded;
    marshalled = v.marshalled;
    key_parsed = v.key_parsed;
    not_private = v.not_private;
    typed = v.typed;
    exported = v.exported;
    signed = v.signed;
    decoded = v.decoded;
    has_jti = v.has_jti;
    jti_eq = v.jti_eq;
    htm_eq = v.htm_eq;
    htu_eq = v.htu_eq;
    method_eq = v.method_eq;
    url_eq = v.url_eq;
    iat_eq = v.iat_eq;
    not_old = young;
    not_future = omega (arith, v.not_future);
    bound = v.bound;
    ath_eq = v.ath_eq;
  }
