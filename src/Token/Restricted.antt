-- ===== src/Token/Restricted.antt =====
-- pkg/storm/plugins/token/token.go: what handleToken requires of every request for tokens.
use kexcore_oidc.Base.{
  ℕ, String, ◌≡◌, refl, sym, subst, inl, inr, Bool, true, false, Option, none, some, List, [], ◌∷◌,
  eq_iff, ◌==◌, ◌!=◌, if◌then◌else◌, Bool-cases, contains, Listed, contains_iff, Result, ok, err,
  require-eq-ok, ok-injective,
}
use kexcore_oidc.Base.Action.{◌>>◌, lift, after_lift, after_check, Succeeds}
use kexcore_oidc.OidcError.{OidcError, invalid_request, invalid_client}
use kexcore_oidc.Client.{Client}
use kexcore_oidc.Grants.Binding.{Context, validate_sender_constraining}
use kexcore_oidc.Grants.Endpoint.{Services}
use kexcore_oidc.Issue.Host.{TokenCrypto}
use kexcore_oidc.Issue.Response.{Config}
use kexcore_oidc.Verifier.Checks.{Codec}
use kexcore_oidc.Grants.ClientAuth.{authenticate_private_key_jwt, jwt_assertion}
use kexcore_oidc.Grants.Plugin.{Server}
use kexcore_oidc.Grants.Checks.{Jws}
use kexcore_oidc.Grants.DeviceCode.{DeviceStore}
use kexcore_oidc.Token.Handler.{
  TokenForm, TokenAnswer, Endpoints, Deployment, assertion_audiences, is_allowed, with_assertion,
  known_client, check_sender, check_allowed, dispatch, handle_token,
}

-- The grant types that the endpoint has a handler for.
abbrev pub handled_grants : List String
handled_grants =
    "authorization_code" ∷ "refresh_token" ∷ "client_credentials"
    ∷ "urn:ietf:params:oauth:grant-type:jwt-bearer"
    ∷ "urn:ietf:params:oauth:grant-type:token-exchange"
    ∷ "urn:ietf:params:oauth:grant-type:device_code" ∷ "urn:openid:params:grant-type:ciba" ∷ []

-- What holds when a client assertion was presented and tokens were issued.
pub record IsRestricted (s : Services) (k : Codec) (cfg : Config) (u : Endpoints) (r : Context)
    (form : TokenForm) (now : ℕ) : Type 0 where
  pub asserted : Client
  pub client : Client
  pub accepted :
      authenticate_private_key_jwt s k form.client_assertion
        (some (λ c. assertion_audiences cfg.issuer u.token_endpoint u.bc_endpoint))
        now
      ≡ ok asserted
  pub stored : s.get_client asserted.id ≡ ok client
  pub constrained :
      validate_sender_constraining
        (some client)
        cfg.require_dpop
        cfg.require_mtls
        (record r { authenticated = some asserted.id })
      ≡ ok tt
  pub allowed :
      (types : List String) → client.allowed_grant_types ≡ some types → Listed form.grant_type types
  pub handled : Listed form.grant_type handled_grants

is_allowed-Listed :
    (c : Client) (grant_type : String) (types : List String)
    → is_allowed c grant_type ≡ true
    → c.allowed_grant_types ≡ some types
    → Listed grant_type types
is_allowed-Listed c grant_type types h e = by_types c.allowed_grant_types h e
  where
    by_types :
        (o : Option (List String))
        → (elim o [ none ↦ true | some allowed ↦ contains allowed grant_type ]) ≡ true
        → o ≡ some types
        → Listed grant_type types
    by_types none g q = absurd (cc)
    by_types (some listed) g q =
        subst (λ (l : List String). Listed grant_type l) (some-injective q)
          ((contains_iff listed grant_type).0 g)
      where
        some-injective : ◌≡◌ {A = Option (List String)} (some listed) (some types) → listed ≡ types
        some-injective p = cc

module _ (s : Services) (x : TokenCrypto) (k : Codec) (jws : Jws) (d : DeviceStore)
    (w : Deployment d) where
  with_assertion-asserted :
      (cfg : Config) (u : Endpoints) (r r1 : Context) (form : TokenForm) (now : ℕ)
      → form.assertion_type ≡ jwt_assertion
      → with_assertion s x k jws d w cfg u r form now ≡ ok r1
      → (c : Client) × (authenticate_private_key_jwt s k form.client_assertion
            (some (λ c1. assertion_audiences cfg.issuer u.token_endpoint u.bc_endpoint))
            now
          ≡ ok c)
        × (record r { authenticated = some c.id } ≡ r1)
  unfolding with_assertion
  with_assertion-asserted cfg u r r1 form now asserted e =
      let by_jwt : (form.assertion_type == jwt_assertion) ≡ true = (eq_iff _ _).1 asserted in
      by_presence (form.client_assertion == "") (rw by_jwt at e)
    where
      by_result :
          (m : Result OidcError Client)
          → ◌≡◌ {A = Result OidcError Context}
              (elim m [ err e1 ↦ err e1 | ok c ↦ ok (record r { authenticated = some c.id }) ])
              (ok r1)
          → (c : Client) × (m ≡ ok c) × (record r { authenticated = some c.id } ≡ r1)
      by_result (err e1) h = absurd (cc)
      by_result (ok c) h = (c, refl, ok-injective h)

      by_presence :
          (b : Bool)
          → ◌≡◌ {A = Result OidcError Context}
              (if b
                then err invalid_client
                else elim (authenticate_private_key_jwt s k form.client_assertion
                    (some (λ c1. assertion_audiences cfg.issuer u.token_endpoint u.bc_endpoint))
                    now) [ err e1 ↦ err e1 | ok c ↦ ok (record r { authenticated = some c.id }) ])
              (ok r1)
          → (c : Client) × (authenticate_private_key_jwt s k form.client_assertion
                (some (λ c1. assertion_audiences cfg.issuer u.token_endpoint u.bc_endpoint))
                now
              ≡ ok c)
            × (record r { authenticated = some c.id } ≡ r1)
      by_presence true h = absurd (cc)
      by_presence false h = by_result _ h

  known_client-stored :
      (r : Context) (id : String) (known : Option Client)
      → known_client s x k jws d w (record r { authenticated = some id }) ≡ ok known
      → (c : Client) × (s.get_client id ≡ ok c) × (known ≡ some c)
  known_client-stored r id known e = by_result (s.get_client id) e
    where
      by_result :
          (m : Result OidcError Client)
          → ◌≡◌ {A = Result OidcError (Option Client)}
              (elim m [ err e1 ↦ err e1 | ok c ↦ ok (some c) ])
              (ok known)
          → (c : Client) × (m ≡ ok c) × (known ≡ some c)
      by_result (err e1) h = absurd (cc)
      by_result (ok c) h = (c, refl, sym (ok-injective h))

  -- A grant type that the endpoint has no handler for yields nothing.
  dispatch-handled :
      (cfg : Config) (r : Context) (form : TokenForm) (now : ℕ) (server server' : Server d.Store)
      (a : TokenAnswer)
      → dispatch s x k jws d w cfg r form now server ≡ (server', ok a)
      → Listed form.grant_type handled_grants
  unfolding dispatch
  dispatch-handled cfg r form now server server' a e =
      elim (Bool-cases (form.grant_type == "authorization_code")) [
        | inl h ↦ inl (sym ((eq_iff _ _).0 h))
        | inr h1 ↦ elim (Bool-cases (form.grant_type == "refresh_token")) [
          | inl h ↦ inr (inl (sym ((eq_iff _ _).0 h)))
          | inr h2 ↦ elim (Bool-cases (form.grant_type == "client_credentials")) [
            | inl h ↦ inr (inr (inl (sym ((eq_iff _ _).0 h))))
            | inr h3 ↦
                elim (Bool-cases
                  (form.grant_type == "urn:ietf:params:oauth:grant-type:jwt-bearer")) [
                    | inl h ↦ inr (inr (inr (inl (sym ((eq_iff _ _).0 h)))))
                    | inr h4 ↦
                        elim (Bool-cases
                          (form.grant_type == "urn:ietf:params:oauth:grant-type:token-exchange")) [
                            | inl h ↦ inr (inr (inr (inr (inl (sym ((eq_iff _ _).0 h))))))
                            | inr h5 ↦
                                elim (Bool-cases (
                                  form.grant_type
                                  == "urn:ietf:params:oauth:grant-type:device_code")) [
                                    | inl h ↦
                                        inr (inr (inr (inr (inr (inl (sym ((eq_iff _ _).0 h)))))))
                                    | inr h6 ↦
                                        elim (Bool-cases (
                                          form.grant_type == "urn:openid:params:grant-type:ciba")) [
                                            | inl h ↦ inr (
                                                inr (
                                                  inr (
                                                    inr
                                                      (inr (inr (inl (sym ((eq_iff _ _).0 h))))))))
                                            | inr h7 ↦ absurd (
                                                let none_left =
                                                  rw (h1, h2, h3, h4, h5, h6, h7, dispatch) at e in
                                                cc)
                                          ]
                                  ]
                          ]
                  ]
          ]
        ]
      ]

  -- Where a request carries a client assertion and tokens are issued, the assertion was accepted for
  -- this server; the client that it names meets its sender constraint and, where it is restricted to
  -- some grant types, asked for one of these; and the grant type is one of those the endpoint handles.
  pub handle_token-IsRestricted :
      (cfg : Config) (u : Endpoints) (r : Context) (form : TokenForm) (now : ℕ)
      (server server' : Server d.Store) (a : TokenAnswer)
      → form.assertion_type ≡ jwt_assertion
      → handle_token s x k jws d w cfg u r form now server ≡ (server', ok a)
      → IsRestricted s k cfg u r form now
  unfolding handle_token check_sender
  handle_token-IsRestricted cfg u r form now server server' a asserts e =
      let start : Succeeds (handle_token s x k jws d w cfg u r form now) server server' a = record {
        outcome = e;
      } in
      after_lift (with_assertion s x k jws d w cfg u r form now) _ server start λ r1 asserted e1.
        after_lift (known_client s x k jws d w r1) _ server e1 λ known found e2.
          after_lift (check_sender s x k jws d w cfg r1 known) _ server e2 λ u1 constrained e3.
            after_check (form.grant_type != "") invalid_request
              (lift (check_allowed s x k jws d w known form.grant_type)
                >> dispatch s x k jws d w cfg r1 form now)
              server e3
              λ named e4.
                after_lift (check_allowed s x k jws d w known form.grant_type)
                  (λ u2. dispatch s x k jws d w cfg r1 form now) server e4
                  λ u2 allowed e5.
                    let (c, accepted, is_r1) =
                      with_assertion-asserted cfg u r r1 form now asserts asserted in
                    let (c1, stored, is_known) = known_client-stored r c.id known (
                      subst (λ (q : Context). known_client s x k jws d w q ≡ ok known) (sym is_r1)
                        found) in
                    let sender : check_sender s x k jws d w cfg
                          (record r { authenticated = some c.id }) (some c1)
                        ≡ ok tt =
                      subst
                        (λ (o : Option Client).
                          check_sender s x k jws d w cfg (record r { authenticated = some c.id }) o
                          ≡ ok tt)
                        is_known
                        (subst (λ (q : Context). check_sender s x k jws d w cfg q known ≡ ok tt)
                          (sym is_r1) constrained) in
                    let may : check_allowed s x k jws d w (some c1) form.grant_type ≡ ok tt =
                      subst
                        (λ (o : Option Client).
                          check_allowed s x k jws d w o form.grant_type ≡ ok tt)
                        is_known allowed in
                    record {
                      asserted = c;
                      client = c1;
                      accepted = accepted;
                      stored = stored;
                      constrained = sender;
                      allowed = λ types.
                          is_allowed-Listed c1 form.grant_type types (require-eq-ok _ _ may);
                      handled = dispatch-handled cfg r1 form now server server' a e5.outcome;
                    }
