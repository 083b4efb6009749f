-- ===== src/AuthRequest/Scopes.antt =====
-- pkg/storm/shared/authrequest.go: what the validation of the parameters guarantees.
use kexcore_oidc.Base.{
  String, ◌≡◌, refl, sym, ◌∙◌, subst, ◌≢◌, ◌↔◌, ◌⊎◌, inl, inr, Bool, true, false, ◌&&◌, not, Option,
  none, some, List, [], ◌∷◌, arith, eq_iff, ◌==◌, if◌then◌else◌, Bool-cases, contains, Listed,
  contains_iff, keep, All, Result, ok, err, Result-cases, require-eq-ok, after_require, after_bind,
}
use kexcore_oidc.OidcError.{OidcError, invalid_request, invalid_scope}
use kexcore_oidc.Client.{Client, holds}
use kexcore_oidc.AuthRequest.Params.{
  AuthRequest, scan_prompt, apply_prompt, validate_prompt, standard_scopes, scope_allowed,
  check_strict, keep_scope, validate_scopes, validate_pkce, needs_nonce, validate_nonce,
  response_type_allowed, validate_response_type, validate_params_except_redirect_uri,
}

-- The two flags of the first loop say whether "none", and whether anything else, is listed.
scan_prompt-none : (ps : List String) → ((scan_prompt ps).0 ≡ true) ↔ Listed "none" ps
scan_prompt-none [] = (λ h. cc, λ h. absurd h)
scan_prompt-none (p ∷ ps) = (
  λ h. ground (arith, eq_iff p "none", (scan_prompt-none ps).0),
  λ h. elim h [
    | inl e ↦ ground (arith, eq_iff p "none")
    | inr m ↦ ground (arith, (scan_prompt-none ps).1 m)
  ],
)

-- Something other than "none" is listed.
abbrev pub HasOther : List String → Type 0
HasOther [] = ⊥
HasOther (p ∷ ps) = (p ≢ "none") ⊎ HasOther ps

scan_prompt-other : (ps : List String) → ((scan_prompt ps).1 ≡ true) ↔ HasOther ps
scan_prompt-other [] = (λ h. cc, λ h. absurd h)
scan_prompt-other (p ∷ ps) = (
  λ h. ground (arith, eq_iff p "none", (scan_prompt-other ps).0),
  λ h. elim h [
    | inl e ↦ ground (arith, eq_iff p "none")
    | inr m ↦ ground (arith, (scan_prompt-other ps).1 m)
  ],
)

apply_prompt-eq :
    (ps : List String) (r : AuthRequest)
    → apply_prompt ps r ≡ (if contains ps "login" then record r { max_age = some 0 } else r)
apply_prompt-eq [] r = refl
apply_prompt-eq (p ∷ ps) r = elim (Bool-cases (p == "login")) [
  | inl e ↦ rw e (apply_prompt-eq ps (record r { max_age = some 0 }) ∙ ground arith)
  | inr e ↦ rw e (apply_prompt-eq ps r)
]

-- Both flags are set exactly when "none" is combined with another value.
scan_prompt-Conflicting :
    (ps : List String)
    → (((scan_prompt ps).0 && (scan_prompt ps).1) ≡ true) ↔ (Listed "none" ps × HasOther ps)
scan_prompt-Conflicting ps = (
  λ h. ((scan_prompt-none ps).0 (ground arith), (scan_prompt-other ps).0 (ground arith)),
  λ h. ground (arith, (scan_prompt-none ps).1 h.0, (scan_prompt-other ps).1 h.1),
)

-- The prompt is accepted exactly when it does not combine "none" with another value; the request
-- comes back with max_age 0 if "login" is listed, and unchanged if not.
pub validate_prompt_iff :
    (r q : AuthRequest)
    → (validate_prompt r ≡ ok q) ↔ (
        (¬ (Listed "none" r.prompt × HasOther r.prompt))
        × (q ≡ (if contains r.prompt "login" then record r { max_age = some 0 } else r)))
unfolding validate_prompt
validate_prompt_iff r q = elim (Bool-cases ((scan_prompt r.prompt).0 && (scan_prompt r.prompt).1)) [
  | inl both ↦ (
    λ e. absurd (refused (rw both at e)),
    λ h. absurd (h.0 ((scan_prompt-Conflicting r.prompt).0 both)),
  )
  | inr fine ↦ (
    λ e. (
      λ c. clash fine ((scan_prompt-Conflicting r.prompt).1 c),
      same (rw fine at e) ∙ apply_prompt-eq r.prompt r,
    ),
    λ h. rw (fine, h.1, apply_prompt-eq r.prompt r) refl,
  )
]
  where
    refused : ◌≡◌ {A = Result OidcError AuthRequest} (err invalid_request) (ok q) → ⊥
    refused p = cc

    clash : {b : Bool} → b ≡ false → b ≡ true → ⊥
    clash x y = cc

    same : {a : AuthRequest} → ◌≡◌ {A = Result OidcError AuthRequest} (ok a) (ok q) → q ≡ a
    same p = cc

-- A scope that the client may have: "openid" or one that the client allows, and under lenient
-- validation any standard one.
abbrev pub Granted : Client → String → Type 0
Granted c scope =
    (scope_allowed c scope ≡ true)
    ⊎ ((scope ≡ "openid")
        ⊎ ((holds c.strict_scope_validation ≡ false) × Listed scope standard_scopes))

check_strict-Granted :
    (c : Client) (ss : List String) {u : Unit {0}} → check_strict c ss ≡ ok u → All (Granted c) ss
check_strict-Granted c [] e = tt
check_strict-Granted c (s ∷ ss) {u} e = elim (Bool-cases (s == "openid")) [
  | inl h ↦ (inr (inl ((eq_iff s "openid").0 h)), check_strict-Granted c ss {u = u} (rw h at e))
  | inr h ↦ elim (Bool-cases (scope_allowed c s)) [
    | inl a ↦ (inl a, check_strict-Granted c ss {u = u} (rw (h, a) at e))
    | inr a ↦ absurd (no_error (rw (h, a) at e))
  ]
]
  where
    no_error : ◌≡◌ {A = Result OidcError (Unit {0})} (err invalid_scope) (ok u) → ⊥
    no_error p = cc

keep-Granted :
    (c : Client) (ss : List String)
    → holds c.strict_scope_validation ≡ false
    → All (Granted c) (keep (keep_scope c) ss)
keep-Granted c [] h = tt
keep-Granted c (s ∷ ss) h = elim (Bool-cases (keep_scope c s)) [
  | inl k ↦ rw k (granted k, keep-Granted c ss h)
  | inr k ↦ rw k (keep-Granted c ss h)
]
  where
    granted : keep_scope c s ≡ true → Granted c s
    granted k = elim (Bool-cases (contains standard_scopes s)) [
      | inl m ↦ inr (inr (h, (contains_iff standard_scopes s).0 m))
      | inr m ↦ inl (ground arith)
    ]

-- Scopes that pass are the configured defaults, where the request names none, or scopes that the
-- client may have; nothing but the scopes changes.
pub validate_scopes-Granted :
    (c : Client) (r q : AuthRequest) (defaults : List String)
    → validate_scopes c r defaults ≡ ok q
    → (((r.scopes ≡ []) × (q.scopes ≡ defaults)) ⊎ All (Granted c) q.scopes)
      × (q ≡ record r { scopes = q.scopes })
unfolding validate_scopes
validate_scopes-Granted c r q defaults e = by_scopes r.scopes refl defaults refl
  where
    Goal : Type 0
    Goal =
        (((r.scopes ≡ []) × (q.scopes ≡ defaults)) ⊎ All (Granted c) q.scopes)
        × (q ≡ record r { scopes = q.scopes })

    by_scopes : (ss : List String) → r.scopes ≡ ss → (ds : List String) → defaults ≡ ds → Goal
    by_scopes [] none_asked [] no_default = absurd (ground arith)
    by_scopes [] none_asked (d ∷ ds) some_default = (inl (none_asked, ground arith), ground arith)
    by_scopes (s ∷ ss) asked ds dd = elim (Bool-cases (holds c.strict_scope_validation)) [
      | inl strict ↦ elim (Result-cases (check_strict c (s ∷ ss))) [
        | inl (u, fine) ↦
            let kept : q ≡ r = ground arith in
            (inr (rw (kept, asked) (check_strict-Granted c (s ∷ ss) fine)), ground arith)
        | inr (x, bad) ↦ absurd (ground arith)
      ]
      | inr lenient ↦
          let kept : q ≡ record r { scopes = keep (keep_scope c) (s ∷ ss) } = ground arith in
          (
            inr (
                subst (λ (x : AuthRequest). All (Granted c) x.scopes) (sym kept)
                  (keep-Granted c (s ∷ ss) lenient)),
            ground arith,
          )
    ]

-- The response types with an ID token in the authorization response (OIDC Core, section 3).
abbrev pub id_token_types : List String
id_token_types = "id_token" ∷ "id_token token" ∷ "code id_token" ∷ "code id_token token" ∷ []

-- The client states no response types, or this one among others.
abbrev pub IsAllowedType : Option (List String) → String → Type 0
IsAllowedType types rt =
    (types ≡ none) ⊎ ((types ≡ some []) ⊎ ((ts : List String) × (types ≡ some ts) × Listed rt ts))

needs_nonce-not : (rt : String) → needs_nonce rt ≡ false → ¬ Listed rt id_token_types
needs_nonce-not rt h listed = clash h ((contains_iff id_token_types rt).1 listed)
  where
    clash : {b : Bool} → b ≡ false → b ≡ true → ⊥
    clash x y = cc

response_type_allowed-IsAllowedType :
    (types : Option (List String)) (rt : String)
    → response_type_allowed types rt ≡ true
    → IsAllowedType types rt
response_type_allowed-IsAllowedType none rt h = inl refl
response_type_allowed-IsAllowedType (some []) rt h = inr (inl refl)
response_type_allowed-IsAllowedType (some (t ∷ ts)) rt h =
    inr (inr (t ∷ ts, refl, (contains_iff (t ∷ ts) rt).0 h))

-- What the whole validation, apart from the redirect URI, guarantees of an accepted request.
pub record IsAcceptable (c : Client) (q : AuthRequest) : Type 0 where
  -- A FAPI client uses PKCE and the code flow only.
  pub fapi : (holds c.fapi_profile ≡ false) ⊎ ((q.code_challenge ≢ "") × (q.response_type ≡ "code"))
  pub method : (q.code_challenge ≡ "") ⊎ Listed q.code_challenge_method ("" ∷ "plain" ∷ "S256" ∷ [])
  -- A flow that returns an ID token from the authorization endpoint has a nonce.
  pub nonce : (¬ Listed q.response_type id_token_types) ⊎ (q.nonce ≢ "")
  pub response_type : q.response_type ≢ ""
  pub allowed : IsAllowedType c.response_types q.response_type

-- A request is accepted only with PKCE and the code flow for a FAPI client, a known or no PKCE
-- method where there is a challenge, a nonce where an ID token comes from the authorization
-- endpoint, and a response type that is given and allowed to the client.
pub validate_params-IsAcceptable :
    (c : Client) (r q : AuthRequest) (defaults : List String)
    → validate_params_except_redirect_uri c r defaults ≡ ok q
    → IsAcceptable c q
unfolding validate_params_except_redirect_uri validate_pkce validate_nonce validate_response_type
validate_params-IsAcceptable c r q defaults e = after_bind (validate_prompt r) _ e λ r1 prompted e1.
    after_bind (validate_scopes c r1 defaults) _ e1 λ r2 scoped e2.
      after_require (not (holds c.fapi_profile && (r2.code_challenge == ""))) invalid_request _ e2
        λ fapi e3. after_bind (validate_pkce r2) _ e3 λ u3 pkce e4.
          after_bind (validate_nonce r2) _ e4 λ u4 nonced e5.
            after_bind (validate_response_type c r2.response_type) _ e5 λ u5 typed e6.
              let same : r2 ≡ q = cc in
              subst (IsAcceptable c) same (record {
                fapi = elim (Bool-cases (holds c.fapi_profile)) [
                  | inl h ↦ inr (
                    ground (arith, eq_iff r2.code_challenge ""),
                    ground (arith, eq_iff r2.response_type "code"),
                  )
                  | inr h ↦ inl h
                ];
                method = elim (Bool-cases (r2.code_challenge == "")) [
                  | inl h ↦ inl ((eq_iff r2.code_challenge "").0 h)
                  | inr h ↦ inr (
                      (contains_iff ("" ∷ "plain" ∷ "S256" ∷ []) r2.code_challenge_method).0 (
                        require-eq-ok
                          (contains ("" ∷ "plain" ∷ "S256" ∷ []) r2.code_challenge_method)
                          invalid_request (rw h at pkce)))
                ];
                nonce = elim (Bool-cases (needs_nonce r2.response_type)) [
                  | inl h ↦ inr (ground (arith, eq_iff r2.nonce ""))
                  | inr h ↦ inl (needs_nonce-not r2.response_type h)
                ];
                response_type = ground (arith, eq_iff r2.response_type "");
                allowed =
                    response_type_allowed-IsAllowedType c.response_types r2.response_type
                      (ground arith);
              })
