-- ===== src/Issue/IdToken.antt =====
-- pkg/storm/plugins/token/token.go and util.go: what the claims of an ID token say, whatever a
-- deployment adds, and what the wrappers of a request leave out of them.
use kexcore_oidc.Base.{
  ℕ, ◌+◌, String, ◌≡◌, refl, ◌∙◌, subst, ◌≢◌, inl, inr, Bool, true, false, ◌||◌, Option, none, some,
  List, [], ◌∷◌, arith, eq_iff, ltb, eqb, ◌==◌, ◌!=◌, if◌then◌else◌, Bool-cases, length, Map,
  lookup, insert, lookup-insert,
}
use kexcore_oidc.Issue.Request.{
  TokenRequest, AuthInfo, Pairwise, apply_pairwise, resource_aware, get_nonce, merge_audience,
}
use kexcore_oidc.Issue.Host.{ClaimValue, text, number, texts}
use kexcore_oidc.Issue.Claims.{
  unix, put_text, put_time, put_texts, put_auth, put_extra, protocol_claims, id_token_claims,
}

-- Writing one claim leaves another alone.
insert-other :
    (key read : String) (v : ClaimValue) (m : Map ClaimValue)
    → (key == read) ≡ false
    → lookup read (insert key v m) ≡ lookup read m
insert-other key read v m h = lookup-insert key read v m ∙ rw h refl

put_text-other :
    (key read v : String) (m : Map ClaimValue)
    → (key == read) ≡ false
    → lookup read (put_text key v m) ≡ lookup read m
put_text-other key read v m h = elim (Bool-cases (v != "")) [
  | inl there ↦ rw there (insert-other key read (text v) m h)
  | inr absent ↦ rw absent refl
]

put_time-other :
    (key read : String) (v : ℕ) (m : Map ClaimValue)
    → (key == read) ≡ false
    → lookup read (put_time key v m) ≡ lookup read m
put_time-other key read v m h = elim (Bool-cases (eqb v 0)) [
  | inl absent ↦ rw absent refl
  | inr there ↦ rw there (insert-other key read (number (unix v)) m h)
]

put_texts-other :
    (key read : String) (vs : List String) (m : Map ClaimValue)
    → (key == read) ≡ false
    → lookup read (put_texts key vs m) ≡ lookup read m
put_texts-other key read [] m h = refl
put_texts-other key read (v ∷ vs) m h = insert-other key read (texts (v ∷ vs)) m h

not_azp : {read : String} → ("azp" == read) ≡ false → read ≢ "azp"
not_azp {read} h e = ground (arith, eq_iff "azp" read, h, e)

-- The names of the claims that an authorization request adds.
abbrev pub is_auth_claim : String → Bool
is_auth_claim read =
    ("auth_time" == read) || (("acr" == read) || (("amr" == read) || ("sid" == read)))

or-false : (a b : Bool) → (a || b) ≡ false → (a ≡ false) × (b ≡ false)
or-false true b h = absurd (cc)
or-false false b h = (refl, h)

put_auth-other :
    (auth : Option AuthInfo) (read : String) (m : Map ClaimValue)
    → is_auth_claim read ≡ false
    → lookup read (put_auth auth m) ≡ lookup read m
put_auth-other none read m h = refl
put_auth-other (some a) read m h =
    let (h1, rest1) = or-false _ _ h in
    let (h2, rest2) = or-false _ _ rest1 in
    let (h3, h4) = or-false _ _ rest2 in
    put_text-other "sid" read a.sid _ h4
    ∙ (put_texts-other "amr" read a.amr _ h3
        ∙ (put_text-other "acr" read a.acr _ h2 ∙ put_time-other "auth_time" read a.auth_time m h1))

-- A claim that is there stays through the extra claims.
put_extra-keeps :
    (extra : List (String × String)) (m : Map ClaimValue) (read : String) (v : ClaimValue)
    → lookup read m ≡ some v
    → lookup read (put_extra extra m) ≡ some v
unfolding put_extra
put_extra-keeps [] m read v h = h
put_extra-keeps ((key, value) ∷ rest) m read v h =
    by_old (lookup key m) refl (put_extra-keeps rest m read v h)
      (put_extra-keeps rest (insert key (text value) m) read v)
  where
    distinct_from : lookup key m ≡ none → (key == read) ≡ false
    distinct_from gone = elim (Bool-cases (key == read)) [
      | inl same ↦ absurd (
          let clash = subst (λ (j : String). lookup j m ≡ none) ((eq_iff key read).0 same) gone in
          cc)
      | inr other ↦ other
    ]

    by_old :
        (o : Option ClaimValue)
        → lookup key m ≡ o
        → lookup read (put_extra rest m) ≡ some v
        → (lookup read (insert key (text value) m) ≡ some v
            → lookup read (put_extra rest (insert key (text value) m)) ≡ some v)
        → lookup read (elim o [
          | some there ↦ put_extra rest m
          | none ↦ put_extra rest (insert key (text value) m)
        ])
          ≡ some v
    by_old (some there) e later after_insert = later
    by_old none e later after_insert =
        after_insert (insert-other key read (text value) m (distinct_from e) ∙ h)

module _ (hash : String → String) (issuer : String) (lifetime now : ℕ)
    (access_token code : String) where
  extended :
      (extra : Option (List (String × String))) (m : Map ClaimValue) (read : String)
      (v : ClaimValue)
      → lookup read m ≡ some v
      → lookup read (elim extra [ none ↦ m | some claims ↦ put_extra claims m ]) ≡ some v
  extended none m read v h = h
  extended (some claims) m read v h = put_extra-keeps claims m read v h

  -- Whatever extra claims a deployment adds to an ID token, each claim of the protocol keeps its value;
  -- only "azp" is set after them.
  pub id_token_claims-protected :
      (r : TokenRequest) (read : String) (v : ClaimValue)
      → read ≢ "azp"
      → lookup read (protocol_claims hash issuer r lifetime now access_token code) ≡ some v
      → lookup read (id_token_claims hash issuer r lifetime now access_token code) ≡ some v
  unfolding id_token_claims
  id_token_claims-protected r read v other h =
      let apart : ("azp" == read) ≡ false = ground (arith, eq_iff "azp" read, other) in
      let before =
        extended r.extra_claims (protocol_claims hash issuer r lifetime now access_token code) read
          v h in
      elim (Bool-cases (ltb 1 (length r.audience))) [
        | inl several ↦ rw several (insert-other "azp" read (text r.client_id) _ apart ∙ before)
        | inr single ↦ rw single before
      ]

  -- A claim that is none of the optional ones is read from the first five.
  abbrev pub is_optional : String → Bool
  is_optional read =
      ("nonce" == read) || (("at_hash" == read) || (("c_hash" == read) || is_auth_claim read))

  abbrev pub base_claims : TokenRequest → Map ClaimValue
  base_claims r =
      ("iss", text issuer)
      ∷ ("sub", text r.subject)
      ∷ ("aud", text r.client_id)
      ∷ ("iat", number (unix now))
      ∷ ("exp", number (unix (now + lifetime)))
      ∷ []

  hash-other :
      (key read v : String) (made : String) (m : Map ClaimValue)
      → (key == read) ≡ false
      → lookup read (if v != "" then insert key (text made) m else m) ≡ lookup read m
  hash-other key read v made m h = elim (Bool-cases (v != "")) [
    | inl there ↦ rw there (insert-other key read (text made) m h)
    | inr absent ↦ rw absent refl
  ]

  protocol_claims-base :
      (r : TokenRequest) (read : String)
      → is_optional read ≡ false
      → lookup read (protocol_claims hash issuer r lifetime now access_token code)
        ≡ lookup read (base_claims r)
  unfolding protocol_claims
  protocol_claims-base r read h =
      let (h1, rest1) = or-false _ _ h in
      let (h2, rest2) = or-false _ _ rest1 in
      let (h3, h4) = or-false _ _ rest2 in
      put_auth-other r.auth read _ h4
      ∙ (hash-other "c_hash" read code (hash code) _ h3
          ∙ (hash-other "at_hash" read access_token (hash access_token) _ h2
              ∙ put_text-other "nonce" read (get_nonce r) (base_claims r) h1))

  -- An ID token names this issuer, the request's subject and client, and the times of its creation and
  -- of its expiry, whatever else is in it.
  pub id_token_claims-identity :
      (r : TokenRequest)
      → (lookup "iss" (id_token_claims hash issuer r lifetime now access_token code)
          ≡ some (text issuer))
        × ((lookup "sub" (id_token_claims hash issuer r lifetime now access_token code)
              ≡ some (text r.subject))
            × ((lookup "aud" (id_token_claims hash issuer r lifetime now access_token code)
                  ≡ some (text r.client_id))
                × ((lookup "iat" (id_token_claims hash issuer r lifetime now access_token code)
                      ≡ some (number (unix now)))
                    × (lookup "exp" (id_token_claims hash issuer r lifetime now access_token code)
                        ≡ some (number (unix (now + lifetime)))))))
  unfolding lookup
  id_token_claims-identity r =
      let claim : (read : String) (v : ClaimValue)
          → read ≢ "azp"
          → is_optional read ≡ false
          → lookup read (base_claims r) ≡ some v
          → lookup read (id_token_claims hash issuer r lifetime now access_token code) ≡ some v =
        λ read v other plain h.
          id_token_claims-protected r read v other (protocol_claims-base r read plain ∙ h) in
      (
        claim "iss" (text issuer) (not_azp refl) refl refl,
        (
          claim "sub" (text r.subject) (not_azp refl) refl refl,
          (
            claim "aud" (text r.client_id) (not_azp refl) refl refl,
            (
              claim "iat" (number (unix now)) (not_azp refl) refl refl,
              claim "exp" (number (unix (now + lifetime))) (not_azp refl) refl refl,
            ),
          ),
        ),
      )

  -- A request without the optional interfaces.
  abbrev pub plain : (subject client_id : String) (audience scopes : List String) → TokenRequest
  plain subject client_id audience scopes = record {
    subject = subject;
    audience = audience;
    client_id = client_id;
    scopes = scopes;
    nonce = none;
    auth = none;
    extra_claims = none;
  }

  plain-protocol :
      (subject client_id : String) (audience scopes : List String)
      → lookup "nonce" (
          protocol_claims hash issuer
            (plain subject client_id audience scopes)
            lifetime
            now
            access_token
            code)
        ≡ none
  unfolding protocol_claims lookup
  plain-protocol subject client_id audience scopes =
      hash-other "c_hash" "nonce" code (hash code) _ refl
      ∙ hash-other "at_hash" "nonce" access_token (hash access_token)
          (base_claims (plain subject client_id audience scopes)) refl

  plain-no_nonce :
      (subject client_id : String) (audience scopes : List String)
      → lookup "nonce" (
          id_token_claims hash issuer
            (plain subject client_id audience scopes)
            lifetime
            now
            access_token
            code)
        ≡ none
  unfolding id_token_claims
  plain-no_nonce subject client_id audience scopes =
      let before = plain-protocol subject client_id audience scopes in
      elim (Bool-cases (ltb 1 (length audience))) [
        | inl several ↦ rw several (insert-other "azp" "nonce" (text client_id) _ refl ∙ before)
        | inr single ↦ rw single before
      ]

  -- The ID tokens of a pairwise client, and those of a request with resources, have no nonce, whatever
  -- nonce the authorization request had.
  pub wrapped-no_nonce :
      (r : TokenRequest) (p : Pairwise) (client_id : String) (resource : String)
      (resources : List String)
      → p.is_pairwise_client client_id ≡ true
      → (lookup "nonce" (
            id_token_claims hash issuer
              (apply_pairwise (some p) client_id r)
              lifetime
              now
              access_token
              code)
          ≡ none)
        × (lookup "nonce" (
              id_token_claims hash issuer
                (resource_aware (resource ∷ resources) r)
                lifetime
                now
                access_token
                code)
            ≡ none)
  unfolding apply_pairwise resource_aware
  wrapped-no_nonce r p client_id resource resources is_pairwise = (
    rw is_pairwise
        (plain-no_nonce (p.transform client_id r.subject) r.client_id r.audience r.scopes),
    plain-no_nonce r.subject r.client_id (merge_audience r.audience (resource ∷ resources))
        r.scopes,
  )
