-- ===== src/Userinfo/Possession.antt =====
-- pkg/storm/plugins/userinfo/userinfo.go: to whom the claims of a user are given.
use kexcore_oidc.Base.{
  ap, ◌∙◌, ◌==◌, Bool, true, false, refl, subst, Map, lookup, ◌≢◌, if◌then◌else◌, Option-cases,
  ◌||◌, Bool-cases, ℕ, String, ◌≡◌, refl, sym, ◌≢◌, ◌⊎◌, inl, inr, Option, none, some, arith,
  eq_iff, ◌!=◌, Option-cases, ok, require-eq-ok, ok-injective, after_require, after_expect,
  after_bind,
}
use kexcore_oidc.OidcError.{invalid_request}
use kexcore_oidc.Grants.Binding.{Context, Cnf, is_some}
use kexcore_oidc.Grants.Bound.{IsPossessed, verify_token_binding_iff}
use kexcore_oidc.Grants.Endpoint.{Services}
use kexcore_oidc.Issue.Host.{TokenCrypto}
use kexcore_oidc.Issue.Opaque.{resolve_token}
use kexcore_oidc.Verifier.Checks.{Codec}
use kexcore_oidc.Verifier.Token.{AccessTokenVerifier}
use kexcore_oidc.Userinfo.Info.{UserInfo, jwt_claims}
use kexcore_oidc.Issue.Host.{ClaimValue, text, SigningKey}
use kexcore_oidc.Userinfo.Jwt.{jwt_claims-sub, jwt_claims-aud}
use kexcore_oidc.Userinfo.Endpoint.{
  ClaimSource, write_jwt_response, should_return_jwt, client_of_token, choose_key, registered_alg,
  determine_alg, json_info, jwt_info, UserinfoRequest, UserinfoHost, UserinfoAnswer,
  extract_access_token, validate_dpop_proof_ath, check_binding, check_claim, claim_source,
  userinfo_answer, handle_userinfo,
}

-- What is known of a token's binding: there is no lookup, or the claim was found, and it is empty or
-- the request proves possession.
abbrev pub IsBindingShown : UserinfoHost → Context → (token_id : String) → Type 0
IsBindingShown h r token_id =
    (h.token_cnf_lookup ≡ none)
    ⊎ ((look : String → Option (Option Cnf)) × (h.token_cnf_lookup ≡ some look)
        × ((look token_id ≡ some none)
            ⊎ ((cnf : Cnf) × (look token_id ≡ some (some cnf)) × IsPossessed r cnf)))

-- The source of the claims, the one for the request where there is one.
abbrev pub IsLoaded : UserinfoHost → (token_id subject origin : String) → UserInfo → Type 0
IsLoaded h token_id subject origin info =
    ((h.from_request ≡ none) × (h.from_token token_id subject origin ≡ some info))
    ⊎ ((f : ClaimSource) × (h.from_request ≡ some f) × (f token_id subject origin ≡ some info))

-- A claim of the JWT has this value, or there is a custom claim of its name.
abbrev pub HasClaim : UserInfo → Map ClaimValue → (name value : String) → Type 0
HasClaim info claims name value =
    (lookup name claims ≡ some (text value))
    ⊎ ((v : ClaimValue) × (lookup name info.claims ≡ some v))

-- A JWT about these claims, for the client of the token.
pub record IsSignedFor (h : UserinfoHost) (token_id : String) (info : UserInfo)
    (answer : UserinfoAnswer) : Type 0 where
  pub signed : String
  pub alg : String
  pub key : SigningKey
  pub claims : Map ClaimValue
  pub client_id : String
  pub look : String → Option String
  pub has_lookup : h.token_client_id ≡ some look
  pub client : look token_id ≡ some client_id
  pub given : answer ≡ jwt_info signed
  pub made : h.sign_jwt alg key claims ≡ some signed
  pub for_subject : HasClaim info claims "sub" info.subject
  pub for_client : HasClaim info claims "aud" client_id

-- What holds when claims were given out.
pub record IsEntitled (s : Services) (x : TokenCrypto) (k : Codec)
    (verifier : Option AccessTokenVerifier) (h : UserinfoHost) (r : Context) (q : UserinfoRequest)
    (now : ℕ) (answer : UserinfoAnswer) : Type 0 where
  pub token_id : String
  pub subject : String
  pub info : UserInfo
  pub resolved : resolve_token x k verifier (extract_access_token q) now ≡ some (token_id, subject)
  pub hashed : (r.dpop_proof ≡ none) ⊎ (q.proof_ath ≡ s.s256 (extract_access_token q))
  pub bound : IsBindingShown h r token_id
  pub loaded : IsLoaded h token_id subject q.origin info
  pub named : info.subject ≢ ""
  pub answered : (answer ≡ json_info info) ⊎ IsSignedFor h token_id info answer

check_binding-IsBindingShown :
    (h : UserinfoHost) (r : Context) (token_id : String)
    → check_binding h r token_id ≡ ok tt
    → IsBindingShown h r token_id
unfolding check_binding
check_binding-IsBindingShown h r token_id e = elim (Option-cases h.token_cnf_lookup) [
  | inl missing ↦ inl missing
  | inr (look, there) ↦ inr (look, there, by_claim look (look token_id) refl (rw there at e))
]
  where
    by_claim :
        (look : String → Option (Option Cnf)) (o : Option (Option Cnf))
        → look token_id ≡ o
        → check_claim r o ≡ ok tt
        → (look token_id ≡ some none)
          ⊎ ((cnf : Cnf) × (look token_id ≡ some (some cnf)) × IsPossessed r cnf)
    by_claim look none found p = absurd (cc)
    by_claim look (some none) found p = inl found
    by_claim look (some (some cnf)) found p = inr (cnf, found, (verify_token_binding_iff r cnf).0 p)

validate_dpop_proof_ath-eq :
    (s : Services) (r : Context) (ath token : String)
    → validate_dpop_proof_ath s r ath token ≡ ok tt
    → (r.dpop_proof ≡ none) ⊎ (ath ≡ s.s256 token)
unfolding validate_dpop_proof_ath
validate_dpop_proof_ath-eq s r ath token e = elim (Option-cases r.dpop_proof) [
  | inl missing ↦ inl missing
  | inr (proof, there) ↦ inr (
      after_require (ath != "") invalid_request _ (rw there at e)
        λ given e1. (eq_iff ath (s.s256 token)).0 (require-eq-ok _ _ e1))
]

claim_source-IsLoaded :
    (h : UserinfoHost) (token_id subject origin : String) (info : UserInfo)
    → claim_source h token_id subject origin ≡ some info
    → IsLoaded h token_id subject origin info
claim_source-IsLoaded h token_id subject origin info e = elim (Option-cases h.from_request) [
  | inl missing ↦ inl (missing, rw missing at e)
  | inr (f, there) ↦ inr (f, there, rw there at e)
]

client_of_token-known :
    (h : UserinfoHost) (token_id : String)
    → (client_of_token h token_id == "") ≡ false
    → (look : String → Option String) × (h.token_client_id ≡ some look)
      × (look token_id ≡ some (client_of_token h token_id))
client_of_token-known h token_id e = elim (Option-cases h.token_client_id) [
  | inl missing ↦ absurd (blank (rw missing at e))
  | inr (look, there) ↦ elim (Option-cases (look token_id)) [
    | inl unknown ↦ absurd (blank (rw unknown at rw there at e))
    | inr (c, known) ↦ (look, there, known ∙ ap some (sym (rw there (rw known refl))))
  ]
]
  where
    blank : ("" == "") ≡ false → ⊥
    blank p = cc

has_custom :
    (info : UserInfo) (claims : Map ClaimValue) (name value : String)
    → (lookup name info.claims ≡ none → lookup name claims ≡ some (text value))
    → HasClaim info claims name value
has_custom info claims name value h = elim (Option-cases (lookup name info.claims)) [
  | inl missing ↦ inl (h missing)
  | inr (v, there) ↦ inr (v, there)
]

write_jwt_response-IsSignedFor :
    (h : UserinfoHost) (issuer token_id signed : String) (info : UserInfo) (now : ℕ)
    → write_jwt_response h issuer token_id info now ≡ some signed
    → IsSignedFor h token_id info (jwt_info signed)
unfolding write_jwt_response
write_jwt_response-IsSignedFor h issuer token_id signed info now e =
    elim (Bool-cases ((issuer == "") || (client_of_token h token_id == ""))) [
      | inl blank ↦ absurd (nothing (rw blank at e))
      | inr given ↦ by_key h.signing_key (rw given at e) (right _ _ given)
    ]
  where
    nothing : ◌≡◌ {A = Option String} none (some signed) → ⊥
    nothing p = cc

    right : (a b : Bool) → (a || b) ≡ false → b ≡ false
    right a b p = ground (arith, p)

    by_key :
        (o : Option SigningKey)
        → ◌≡◌ {A = Option String}
            (elim o [
              | none ↦ none
              | some default_key ↦
                  h.sign_jwt
                    (determine_alg h
                      (choose_key h
                        (registered_alg h (client_of_token h token_id))
                        default_key).algorithm)
                    (choose_key h (registered_alg h (client_of_token h token_id)) default_key)
                    (jwt_claims h.accepts_claim issuer (client_of_token h token_id) info now)
            ])
            (some signed)
        → (client_of_token h token_id == "") ≡ false
        → IsSignedFor h token_id info (jwt_info signed)
    by_key none p named = absurd (nothing p)
    by_key (some default_key) p named =
        let c = client_of_token h token_id in
        let claims = jwt_claims h.accepts_claim issuer c info now in
        let (look, has_lookup, client) = client_of_token-known h token_id named in
        record {
          signed = signed;
          alg = determine_alg h (choose_key h (registered_alg h c) default_key).algorithm;
          key = choose_key h (registered_alg h c) default_key;
          claims = claims;
          client_id = c;
          look = look;
          has_lookup = has_lookup;
          client = client;
          given = refl;
          made = p;
          for_subject =
              has_custom info claims "sub" info.subject
                (jwt_claims-sub h.accepts_claim issuer c info now);
          for_client =
              has_custom info claims "aud" c (jwt_claims-aud h.accepts_claim issuer c info now);
        }

userinfo_answer-cases :
    (h : UserinfoHost) (q : UserinfoRequest) (has_key_store : Bool) (token_id : String)
    (info : UserInfo) (now : ℕ)
    → (userinfo_answer h q has_key_store token_id info now ≡ json_info info)
      ⊎ IsSignedFor h token_id info (userinfo_answer h q has_key_store token_id info now)
unfolding userinfo_answer
userinfo_answer-cases h q has_key_store token_id info now =
    by_choice (should_return_jwt h has_key_store q.accepts_jwt token_id)
      (write_jwt_response h q.issuer token_id info now) refl
  where
    by_choice :
        (b : Bool) (o : Option String)
        → write_jwt_response h q.issuer token_id info now ≡ o
        → ((if b
              then elim o [ none ↦ json_info info | some signed ↦ jwt_info signed ]
              else json_info info)
            ≡ json_info info)
          ⊎ IsSignedFor h token_id info (
              if b
              then elim o [ none ↦ json_info info | some signed ↦ jwt_info signed ]
              else json_info info)
    by_choice true none e = inl refl
    by_choice true (some signed) e =
        inr (write_jwt_response-IsSignedFor h q.issuer token_id signed info now e)
    by_choice false o e = inl refl

-- Claims of a user are given out only for an access token that resolves to a token id and a subject;
-- a DPoP proof must carry the hash of that token, and where the deployment can look up the token's
-- confirmation claim, the request proves possession of a key it names, if it names any. The claims
-- are those of the deployment for that token and subject, from its source for requests where it has
-- one, and name a subject; the answer is these claims in JSON, or a JWT that names their subject and
-- the client of the token, unless a custom claim takes the name `sub` or `aud`.
pub handle_userinfo-IsEntitled :
    (s : Services) (x : TokenCrypto) (k : Codec) (verifier : Option AccessTokenVerifier)
    (h : UserinfoHost) (r : Context) (q : UserinfoRequest) (now : ℕ) (answer : UserinfoAnswer)
    → handle_userinfo s x k verifier h r q now ≡ ok answer
    → IsEntitled s x k verifier h r q now answer
unfolding handle_userinfo
handle_userinfo-IsEntitled s x k verifier h r q now answer e =
    after_require (extract_access_token q != "") invalid_request _ e λ given e1.
      after_expect (resolve_token x k verifier (extract_access_token q) now) invalid_request _ e1
        λ entry resolved e2.
          after_bind (validate_dpop_proof_ath s r q.proof_ath (extract_access_token q)) _ e2
            λ u hashed e3. after_bind (check_binding h r entry.0) _ e3 λ u' bound e4.
              after_expect (claim_source h entry.0 entry.1 q.origin) invalid_request _ e4
                λ info loaded e5.
                  after_require (info.subject != "") invalid_request _ e5 λ named e6. record {
                    token_id = entry.0;
                    subject = entry.1;
                    info = info;
                    resolved = resolved;
                    hashed =
                        validate_dpop_proof_ath-eq s r q.proof_ath (extract_access_token q) hashed;
                    bound = check_binding-IsBindingShown h r entry.0 bound;
                    loaded = claim_source-IsLoaded h entry.0 entry.1 q.origin info loaded;
                    named = ground (arith, eq_iff info.subject "");
                    answered =
                        subst
                          (λ (a : UserinfoAnswer).
                            (a ≡ json_info info) ⊎ IsSignedFor h entry.0 info a)
                          (ok-injective e6)
                          (userinfo_answer-cases h q (is_some verifier) entry.0 info now);
                  }
