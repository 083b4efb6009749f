-- ===== src/Grants/Assertion.antt =====
-- pkg/storm/shared/clientauth.go: which clients an assertion, or the helper, authenticates.
use kexcore_oidc.Base.{
  ℕ, String, ◌≡◌, refl, subst, ◌≢◌, inl, inr, true, false, not, none, some, List, [], ◌∷◌, arith,
  eq_iff, ◌==◌, ◌!=◌, Bool-cases, Result, ok, err, ◌>>=◌, ◌>>◌, require, after_require,
  after_expect, after_bind,
}
use kexcore_oidc.OidcError.{invalid_request, invalid_client}
use kexcore_oidc.Client.{Client, AuthMethod, private_key_jwt}
use kexcore_oidc.Keyset.{Jwk}
use kexcore_oidc.Verifier.Checks.{Claims, Codec, parse_token}
use kexcore_oidc.Verifier.Assertion.{
  verify_jwt_assertion, IsAsserted, verify_jwt_assertion-IsAsserted,
  verify_jwt_assertion-no_audience,
}
use kexcore_oidc.Grants.Binding.{Context}
use kexcore_oidc.Grants.Endpoint.{Services, Credentials, credentials, check_method, find_client}
use kexcore_oidc.Grants.Admission.{Proven, check_method-Proven, find_client-stored}
use kexcore_oidc.Grants.ClientAuth.{
  Form, jwt_assertion, is_private_key_jwt, no_keys, clock_skew, or_invalid_client, assertion_keys,
  authenticate_private_key_jwt, helper_authenticate_client,
}

or_invalid_client-ok {ℓ} :
    {E : Type 0} {A : Type ℓ} (m : Result E A) {a : A} → or_invalid_client m ≡ ok a → m ≡ ok a
or_invalid_client-ok (ok x) h = cc
or_invalid_client-ok (err e) h = cc

module _ (s : Services) (k : Codec) where
  open s use {get_client}

  -- A client that an assertion authenticates is the one that the store has under the assertion's
  -- issuer, is registered for private_key_jwt, and has at least one key; and the assertion was
  -- issued by its own subject, for one of that client's audiences, expires more than ten seconds from
  -- now, and verifies under a key of that client.
  pub authenticate_private_key_jwt-IsAsserted :
      (assertion : String) (audiences : Client → List String) (now : ℕ) (c : Client)
      → authenticate_private_key_jwt s k assertion (some audiences) now ≡ ok c
      → (payload : String) × (claims : Claims) × (parse_token k assertion ≡ ok (payload, claims))
        × ((get_client claims.issuer ≡ ok c)
            × ((c.auth_method ≡ private_key_jwt)
                × ((keys : List Jwk) × ((assertion_keys s k c ≡ some keys) × (keys ≢ []))
                    × IsAsserted k assertion (audiences c) keys clock_skew now)))
  unfolding authenticate_private_key_jwt
  authenticate_private_key_jwt-IsAsserted assertion audiences now c e =
      after_bind (or_invalid_client (parse_token k assertion)) _ e λ request read e1.
        after_require (request.1.issuer != "") invalid_client _ e1 λ named e2.
          after_bind (find_client s request.1.issuer) _ e2 λ c1 found e3.
            after_require (is_private_key_jwt c1.auth_method) invalid_client _ e3 λ method e4.
              after_expect (assertion_keys s k c1) invalid_client _ e4 λ keys known e5.
                after_require (not (no_keys keys)) invalid_client _ e5 λ some_keys e6.
                  after_bind
                    (or_invalid_client
                      (verify_jwt_assertion k assertion (audiences c1) keys clock_skew now))
                    _ e6
                    λ u verified e7.
                      let same : c1 ≡ c = cc in
                      subst Good same (
                        request.0,
                        request.1,
                        or_invalid_client-ok _ read,
                        (
                          find_client-stored s request.1.issuer c1 found,
                          (
                            by_method c1.auth_method method,
                            (
                              keys,
                              (known, nonempty keys some_keys),
                              verify_jwt_assertion-IsAsserted k assertion (audiences c1) keys
                                  clock_skew now {u = u} (or_invalid_client-ok _ verified),
                            ),
                          ),
                        ),
                      )
    where
      Good : Client → Type 0
      Good c =
          (payload : String) × (claims : Claims) × (parse_token k assertion ≡ ok (payload, claims))
          × ((get_client claims.issuer ≡ ok c)
              × ((c.auth_method ≡ private_key_jwt)
                  × ((keys : List Jwk) × ((assertion_keys s k c ≡ some keys) × (keys ≢ []))
                      × IsAsserted k assertion (audiences c) keys clock_skew now)))

      by_method : (m : AuthMethod) → is_private_key_jwt m ≡ true → m ≡ private_key_jwt
      by_method private_key_jwt h = refl
      by_method _ h = ground arith

      nonempty : (keys : List Jwk) → not (no_keys keys) ≡ true → keys ≢ []
      nonempty [] h = absurd (ground arith)
      nonempty (x ∷ xs) h = λ e. cc

  -- The helper authenticates no client by an assertion: it asks for no audience, and an assertion
  -- without an allowed audience is refused.
  pub helper_authenticate_client-no_assertion :
      (r : Context) (form : Form) (now : ℕ) (c : Client)
      → form.assertion_type ≡ jwt_assertion
      → helper_authenticate_client s k r form now ≢ ok c
  unfolding helper_authenticate_client authenticate_private_key_jwt
  helper_authenticate_client-no_assertion r form now c typed e =
      after_require (form.assertion != "") invalid_client _ (chosen e) λ given e1.
        after_bind (or_invalid_client (parse_token k form.assertion)) _ (or_invalid_client-ok _ e1)
          λ request read e2. after_require (request.1.issuer != "") invalid_client _ e2 λ named e3.
            after_bind (find_client s request.1.issuer) _ e3 λ c1 found e4.
              after_require (is_private_key_jwt c1.auth_method) invalid_client _ e4 λ method e5.
                after_expect (assertion_keys s k c1) invalid_client _ e5 λ keys known e6.
                  after_require (not (no_keys keys)) invalid_client _ e6 λ some_keys e7.
                    after_bind
                      (or_invalid_client
                        (verify_jwt_assertion k form.assertion [] keys clock_skew now))
                      _ e7
                      λ u verified e8.
                        verify_jwt_assertion-no_audience k form.assertion keys clock_skew now
                          (or_invalid_client-ok _ verified)
    where
      chosen :
          helper_authenticate_client s k r form now ≡ ok c
          → (require (form.assertion != "") invalid_client
              >> or_invalid_client (authenticate_private_key_jwt s k form.assertion none now))
            ≡ ok c
      chosen h = rw ((eq_iff form.assertion_type jwt_assertion).1 typed) at h

  -- Without an assertion, the helper returns only a client that the store has under the id in the
  -- Authorization header or the form, with the evidence that its registered method asks for.
  pub helper_authenticate_client-Proven :
      (r : Context) (form : Form) (now : ℕ) (c : Client)
      → helper_authenticate_client s k r form now ≡ ok c
      → (given : Credentials) × (credentials s r form.credentials ≡ ok given)
        × ((get_client given.client_id ≡ ok c) × Proven s c c.auth_method r given)
  unfolding helper_authenticate_client
  helper_authenticate_client-Proven r form now c e =
      elim (Bool-cases (form.assertion_type == jwt_assertion)) [
        | inl typed ↦ absurd (
            helper_authenticate_client-no_assertion r form now c
              ((eq_iff form.assertion_type jwt_assertion).0 typed) e)
        | inr plain ↦
            after_bind (credentials s r form.credentials) _ (chosen plain e) λ given read e1.
              after_require (given.client_id != "") invalid_request _ e1 λ named e2.
                after_bind (find_client s given.client_id) _ e2 λ c1 found e3.
                  after_bind (check_method s c1 r given) _ e3 λ u proven e4.
                    let same : c1 ≡ c = cc in
                    (
                      given,
                      read,
                      subst
                          (λ (x : Client).
                            (get_client given.client_id ≡ ok x) × Proven s x x.auth_method r given)
                          same
                          (
                            find_client-stored s given.client_id c1 found,
                            check_method-Proven s c1 r given proven,
                          ),
                    )
      ]
    where
      chosen :
          (form.assertion_type == jwt_assertion) ≡ false
          → helper_authenticate_client s k r form now ≡ ok c
          → (credentials s r form.credentials >>= λ given.
              require (given.client_id != "") invalid_request
              >> (find_client s given.client_id >>= λ c1. check_method s c1 r given >> ok c1))
            ≡ ok c
      chosen p h = rw p at h
