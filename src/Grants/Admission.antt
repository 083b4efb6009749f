-- ===== src/Grants/Admission.antt =====
-- pkg/storm/plugins/token/util.go and token.go: what the checks of the token endpoint admit.
use kexcore_oidc.Base.{
  String, ◌≡◌, refl, sym, subst, ◌≢◌, ◌↔◌, ◌⊎◌, inl, inr, Bool, true, false, not, Option, none,
  some, List, [], ◌∷◌, arith, eq_iff, ◌==◌, ◌!=◌, Bool-cases, Option-cases, contains, Listed,
  contains_iff, any, All, Result, ok, err, require-eq-ok, after_require, after_expect, after_bind,
}
use kexcore_oidc.OidcError.{OidcError, invalid_client, invalid_scope}
use kexcore_oidc.Keyset.{Jwk}
use kexcore_oidc.Base.{◌∙◌, ap}
use kexcore_oidc.Client.{
  Client, AuthMethod, basic, post, public, private_key_jwt, tls_client_auth, self_signed_tls,
  other_method,
}
use kexcore_oidc.Grants.Binding.{Certificate, Context, validate_sender_constraining}
use kexcore_oidc.Grants.Endpoint.{
  Services, CodeChallenge, Credentials, validate_refresh_scopes, any_key, verify_pkce,
  client_jwks_keys, verify_self_signed_tls, credentials, check_own_cert, check_method, find_client,
  authenticate_client,
}

-- Refreshed tokens have no scope that the refresh token was not granted, and exactly the requested
-- scopes if some were requested.
pub validate_refresh_scopes-Listed :
    (requested granted q : List String)
    → validate_refresh_scopes requested granted ≡ ok q
    → All (λ scope. Listed scope granted) q × ((requested ≡ []) ⊎ (q ≡ requested))
unfolding validate_refresh_scopes
validate_refresh_scopes-Listed [] granted q e = (
  subst (All (λ scope. Listed scope granted)) same (all_listed granted granted (λ x h. h)),
  inl refl,
)
  where
    same : granted ≡ q
    same = cc

    all_listed :
        (ss all : List String)
        → ((x : String) → Listed x ss → Listed x all)
        → All (λ x. Listed x all) ss
    all_listed [] all h = tt
    all_listed (s ∷ ss) all h = (h s (inl refl), all_listed ss all (λ x m. h x (inr m)))
validate_refresh_scopes-Listed (s ∷ ss) granted q e =
    after_require (not (any (λ scope. not (contains granted scope)) (s ∷ ss))) invalid_scope _ e
      λ fine e1.
        let same : q ≡ s ∷ ss = cc in
        (subst (All (λ scope. Listed scope granted)) (sym same) (listed (s ∷ ss) fine), inr same)
  where
    listed :
        (xs : List String)
        → not (any (λ scope. not (contains granted scope)) xs) ≡ true
        → All (λ scope. Listed scope granted) xs
    listed [] h = tt
    listed (x ∷ xs) h = ((contains_iff granted x).0 (ground arith), listed xs (ground arith))

module _ (s : Services) where
  open s use {get_client, authorize_secret, s256}

  -- The verifier belongs to the challenge, under one of the two methods.
  abbrev pub Answers : CodeChallenge → (verifier : String) → Type 0
  Answers cc verifier =
      (verifier ≢ "")
      × (((cc.method ≡ "S256") × (s256 verifier ≡ cc.challenge))
          ⊎ ((cc.method ≡ "plain") × (verifier ≡ cc.challenge)))

  not_plain : (m : String) → m ≡ "plain" → (m == "S256") ≡ false
  not_plain m h = rw h refl

  -- A code whose challenge is not empty is redeemed exactly with a verifier that answers the
  -- challenge, under "S256" or "plain"; one whose challenge is empty with any verifier.
  pub verify_pkce_iff :
      (challenge : CodeChallenge) (verifier : String)
      → (verify_pkce s (some challenge) verifier ≡ ok tt)
        ↔ ((challenge.challenge ≡ "") ⊎ Answers challenge verifier)
  unfolding verify_pkce
  verify_pkce_iff challenge verifier =
      let e1 = eq_iff challenge.challenge "" in
      let e2 = eq_iff verifier "" in
      let e3 = eq_iff challenge.method "S256" in
      let e4 = eq_iff challenge.method "plain" in
      let e5 = eq_iff (s256 verifier) challenge.challenge in
      let e6 = eq_iff verifier challenge.challenge in
      let apart = not_plain challenge.method in
      (
        λ h. ground (arith, e1, e2, e3, e4, e5, e6),
        λ h. ground (arith, e1, e2, e3, e4, e5, e6, apart),
      )

  -- One of the keys has the thumbprint.
  abbrev pub HasKey : (cert_thumb : String) → List Jwk → Type 0
  HasKey t [] = ⊥
  HasKey t (k ∷ ks) = (s.thumbprint k ≡ some t) ⊎ HasKey t ks

  any_key-HasKey : (t : String) (ks : List Jwk) → any_key s t ks ≡ true → HasKey t ks
  any_key-HasKey t [] h = absurd (ground arith)
  any_key-HasKey t (k ∷ ks) h = by_thumbprint (any_key-HasKey t ks) (s.thumbprint k) refl
    where
      by_thumbprint :
          (any_key s t ks ≡ true → HasKey t ks)
          → (o : Option String) → s.thumbprint k ≡ o
          → HasKey t (k ∷ ks)
      by_thumbprint later none e = inr (later (ground arith))
      by_thumbprint later (some u) e = elim (Bool-cases (u == t)) [
        | inl same ↦ inl (e ∙ ap some ((eq_iff u t).0 same))
        | inr apart ↦ inr (later (ground arith))
      ]

  -- The evidence that each authentication method of a client asks for.
  abbrev pub Proven : Client → AuthMethod → Context → Credentials → Type 0
  Proven c private_key_jwt r given = ⊥
  Proven c tls_client_auth r given =
      (cert : Certificate) × (r.client_cert ≡ some cert)
      × ((c.validate_client_cert ≡ none)
          ⊎ ((valid : String → String → Bool) × (c.validate_client_cert ≡ some valid)
              × (valid cert.thumbprint given.client_id ≡ true)))
  Proven c self_signed_tls r given =
      (cert : Certificate) × (r.client_cert ≡ some cert)
      × ((cert.is_self_signed ≡ true)
          × ((t : String) × (cert.key_thumbprint ≡ some t)
              × ((keys : List Jwk) × (client_jwks_keys s c ≡ some keys) × HasKey t keys)))
  Proven c public r given = Unit
  Proven c m r given = authorize_secret given.client_id given.secret ≡ ok tt

  own_cert-valid :
      (c : Client) (cert : Certificate) (client_id : String)
      → check_own_cert s c cert client_id ≡ ok tt
      → (c.validate_client_cert ≡ none)
        ⊎ ((valid : String → String → Bool) × (c.validate_client_cert ≡ some valid)
            × (valid cert.thumbprint client_id ≡ true))
  own_cert-valid c cert client_id e = elim (Option-cases c.validate_client_cert) [
    | inl h ↦ inl h
    | inr (valid, h) ↦ inr (valid, h, require-eq-ok _ _ (rw h at e))
  ]

  self_signed-HasKey :
      (c : Client) (cert : Certificate)
      → verify_self_signed_tls s c cert ≡ ok tt
      → (cert.is_self_signed ≡ true)
        × ((t : String) × (cert.key_thumbprint ≡ some t)
            × ((keys : List Jwk) × (client_jwks_keys s c ≡ some keys) × HasKey t keys))
  unfolding verify_self_signed_tls
  self_signed-HasKey c cert e = after_require cert.is_self_signed invalid_client _ e λ signed e1.
      after_expect (client_jwks_keys s c) invalid_client _ e1 λ keys known e2.
        after_expect cert.key_thumbprint invalid_client _ e2 λ t found e3.
          (signed, (t, found, (keys, known, any_key-HasKey t keys (require-eq-ok _ _ e3))))

  pub check_method-Proven :
      (c : Client) (r : Context) (given : Credentials)
      → check_method s c r given ≡ ok tt
      → Proven c c.auth_method r given
  unfolding check_method verify_self_signed_tls client_jwks_keys
  check_method-Proven c r given e = by_method c.auth_method refl
    where
      by_method : (m : AuthMethod) → c.auth_method ≡ m → Proven c m r given
      by_method private_key_jwt h = absurd (refused (rw h at e))
        where
          refused : ◌≡◌ {A = Result OidcError (Unit {0})} (err invalid_client) (ok tt) → ⊥
          refused p = cc
      by_method tls_client_auth h =
          after_expect r.client_cert invalid_client _ (rw h at e)
            λ cert shown e1. (cert, shown, own_cert-valid c cert given.client_id e1)
      by_method self_signed_tls h =
          after_expect r.client_cert invalid_client _ (rw h at e)
            λ cert shown e1. (cert, shown, self_signed-HasKey c cert e1)
      by_method public h = tt
      by_method basic h = rw h at e
      by_method post h = rw h at e
      by_method (other_method x) h = rw h at e

  pub find_client-stored :
      (client_id : String) (c : Client)
      → find_client s client_id ≡ ok c
      → get_client client_id ≡ ok c
  find_client-stored client_id c h = unwrapped (get_client client_id) h
    where
      unwrapped :
          (x : Result OidcError Client)
          → elim x [ ok c ↦ ok c | err e ↦ err invalid_client ] ≡ ok c
          → x ≡ ok c
      unwrapped (ok y) h = h
      unwrapped (err y) h = cc

  -- A client that was not authenticated before is returned only with the evidence that its
  -- registered method asks for, so never one registered for private_key_jwt, and with the proof of
  -- possession that it must present; its id is the one in the Authorization header or the form.
  pub authenticate_client-Proven :
      (global_dpop global_mtls : Bool) (r : Context) (form : Credentials) (c : Client)
      → r.authenticated ≡ none
      → authenticate_client s global_dpop global_mtls r form ≡ ok c
      → (given : Credentials) × (credentials s r form ≡ ok given)
        × (((given.client_id ≢ "") × (get_client given.client_id ≡ ok c))
            × (Proven c c.auth_method r given
                × (validate_sender_constraining (some c) global_dpop global_mtls r ≡ ok tt)))
  unfolding authenticate_client credentials check_method validate_sender_constraining
  authenticate_client-Proven global_dpop global_mtls r form c fresh e =
      after_bind (credentials s r form) _ (rw fresh at e) λ given read e1.
        after_require (given.client_id != "") invalid_client _ e1 λ named e2.
          after_bind (find_client s given.client_id) _ e2 λ c1 found e3.
            after_bind (check_method s c1 r given) _ e3 λ u proven e4.
              after_bind (validate_sender_constraining (some c1) global_dpop global_mtls r) _ e4
                λ u1 sent e5.
                  let same : c1 ≡ c = cc in
                  subst Good same (
                    given,
                    read,
                    (
                      (
                        ground (arith, eq_iff given.client_id ""),
                        find_client-stored given.client_id c1 found,
                      ),
                      (check_method-Proven c1 r given proven, sent),
                    ),
                  )
    where
      Good : Client → Type 0
      Good c =
          (given : Credentials) × (credentials s r form ≡ ok given)
          × (((given.client_id ≢ "") × (get_client given.client_id ≡ ok c))
              × (Proven c c.auth_method r given
                  × (validate_sender_constraining (some c) global_dpop global_mtls r ≡ ok tt)))
