-- ===== src/Grants/Exchanged.antt =====
-- pkg/storm/plugins/token/token.go: which codes handleAuthorizationCode issues tokens for, and what
-- happens to a code that was used.
use kexcore_oidc.Base.{
  ℕ, String, ◌≡◌, sym, ap, ◌∙◌, subst, ◌≢◌, true, ◌&&◌, not, Option, none, some, arith, eq_iff,
  ◌==◌, ◌!=◌, Result, ok, err, after_require, after_expect, after_bind, require-eq-ok, refl, ◌⊎◌,
  inl, inr, ◌↔◌, Bool-cases, List, [], ◌∷◌, ◌++◌, Listed,
}
use kexcore_oidc.Base.Action.{
  after, after_lift, after_check, after_gets, Succeeds, state_of, value_of,
}
use kexcore_oidc.OidcError.{OidcError, invalid_request, invalid_grant, unauthorized_client}
use kexcore_oidc.Client.{Client}
use kexcore_oidc.Grants.Binding.{Context}
use kexcore_oidc.Grants.Endpoint.{
  Services, validate_grant_type, verify_pkce, verify_dpop_code_binding, authenticate_client,
}
use kexcore_oidc.Issue.Request.{TokenRequest, resource_aware, merge_audience}
use kexcore_oidc.Issue.Audience.{distinct-Listed}
use kexcore_oidc.Issue.Host.{AuthRequest, TokenStore, TokenCrypto}
use kexcore_oidc.Issue.Response.{Config, ResponseOpts, TokenResponse, create_token_response}
use kexcore_oidc.Grants.Plugin.{Server, on_store, limit_client, constrain_owner}
use kexcore_oidc.Grants.Frame.{on_store-inverse}
use kexcore_oidc.Grants.Checks.{CodeForm, check_code}
use kexcore_oidc.Grants.Code.{found_code, find_code, track_token, handle_authorization_code}

-- How the tokens of this grant are created.
abbrev pub code_opts : CodeForm → ResponseOpts
code_opts form = record { issue_refresh = true; code = form.code; current_refresh_token = "" }

-- The request is bound to no DPoP key, or to the one that a proof was presented for.
abbrev pub IsKeyShown : (stored : Option String) → Context → Type 0
IsKeyShown stored r =
    (stored ≡ none)
    ⊎ ((stored ≡ some "") ⊎ ((jkt : String) × (stored ≡ some jkt) × (r.dpop_proof ≡ some jkt)))

verify_dpop_code_binding-IsKeyShown :
    (stored : Option String) (r : Context)
    → verify_dpop_code_binding stored r ≡ ok tt
    → IsKeyShown stored r
unfolding verify_dpop_code_binding
verify_dpop_code_binding-IsKeyShown none r e = inl refl
verify_dpop_code_binding-IsKeyShown (some jkt) r e = elim (Bool-cases (jkt == "")) [
  | inl blank ↦ inr (inl (ap some ((eq_iff jkt "").0 blank)))
  | inr bound ↦ after_expect r.dpop_proof invalid_grant _ (rw bound at e) λ proof shown e1.
      inr (inr (jkt, refl, shown ∙ ap some ((eq_iff proof jkt).0 (require-eq-ok _ _ e1))))
]

-- The tokens are asked for as the request has it, and for its resources.
pub record IsForRequest (req : AuthRequest) (wanted : TokenRequest) : Type 0 where
  pub subject_eq : wanted.subject ≡ req.request.subject
  pub client_eq : wanted.client_id ≡ req.request.client_id
  pub scopes_eq : wanted.scopes ≡ req.request.scopes
  pub without_resources : (req.resources ≢ []) ⊎ (wanted ≡ req.request)
  -- With resources, these and the audience of the request, and nothing else.
  pub all_in :
      (req.resources ≡ [])
      ⊎ ((a : String) → Listed a (req.request.audience ++ req.resources) ↔ Listed a wanted.audience)

resource_aware-IsForRequest :
    (req : AuthRequest) → IsForRequest req (resource_aware req.resources req.request)
unfolding resource_aware merge_audience
resource_aware-IsForRequest req = by_resources req.resources refl
  where
    by_resources :
        (rs : List String) → req.resources ≡ rs → IsForRequest req (resource_aware rs req.request)
    by_resources [] e = record {
      subject_eq = refl;
      client_eq = refl;
      scopes_eq = refl;
      without_resources = inr refl;
      all_in = inl e;
    }
    by_resources (x ∷ xs) e = record {
      subject_eq = refl;
      client_eq = refl;
      scopes_eq = refl;
      without_resources = inl (rw e (λ q. cc));
      all_in = inr (rw e (λ a. distinct-Listed a (req.request.audience ++ (x ∷ xs))));
    }

-- What holds when tokens were issued for a code.
pub record IsExchanged {State : Type 0} (s : Services) (x : TokenCrypto) (t : TokenStore State)
    (cfg : Config) (r : Context) (form : CodeForm) (now : ℕ) (before after_it : State)
    (resp : TokenResponse) : Type 0 where
  pub req : AuthRequest
  pub client : Client
  pub looked : State
  pub created : State
  pub token_id : String
  pub named : form.code ≢ ""
  pub found : t.auth_request_by_code form.code before ≡ (looked, some req)
  pub authenticated :
      authenticate_client s cfg.require_dpop cfg.require_mtls r form.client ≡ ok client
  pub owned : client.id ≡ req.request.client_id
  pub granted : validate_grant_type client "authorization_code" ≡ true
  pub same_redirect : form.redirect_uri ≡ req.redirect_uri
  pub pkce : verify_pkce s req.code_challenge form.code_verifier ≡ ok tt
  pub binding : IsKeyShown (t.auth_request_dpop_jkt looked req.id) r
  pub wanted : TokenRequest
  pub for_request : IsForRequest req wanted
  pub issued :
      create_token_response x t cfg wanted client r (code_opts form) now looked
      ≡ (created, ok (resp, token_id))
  pub used :
      after_it
      ≡ (t.delete_auth_request req.id (track_token t.track_token req.id token_id created)).0

nonempty : {a : String} → (a != "") ≡ true → a ≢ ""
nonempty {a} h e = ground (arith, eq_iff a "", h, e)

-- The two tests of the redirect URIs leave only equal ones.
redirects-same :
    (registered given : String)
    → not ((given != "") && (given != registered)) ≡ true
    → not ((registered != "") && (given == "")) ≡ true
    → given ≡ registered
redirects-same registered given h1 h2 =
    ground (arith, eq_iff given registered, eq_iff given "", eq_iff registered "")

check_code-facts :
    (s : Services) (c : Client) (req : AuthRequest) (form : CodeForm) (jkt : Option String)
    (r : Context) {u : Unit {0}}
    → check_code s c req form jkt r ≡ ok u
    → (c.id ≡ req.request.client_id)
      × ((validate_grant_type c "authorization_code" ≡ true)
          × ((form.redirect_uri ≡ req.redirect_uri)
              × ((verify_pkce s req.code_challenge form.code_verifier ≡ ok tt)
                  × (verify_dpop_code_binding jkt r ≡ ok tt))))
unfolding check_code
check_code-facts s c req form jkt r e =
    after_require (c.id == req.request.client_id) invalid_grant _ e λ owned e1.
      after_require (validate_grant_type c "authorization_code") unauthorized_client _ e1
        λ granted e2.
          after_require (not ((form.redirect_uri != "") && (form.redirect_uri != req.redirect_uri)))
            invalid_grant _ e2
            λ same e3.
              after_require (not ((req.redirect_uri != "") && (form.redirect_uri == "")))
                invalid_grant _ e3
                λ there e4.
                  after_bind (verify_pkce s req.code_challenge form.code_verifier) _ e4
                    λ u1 pkce e5. (
                      (eq_iff _ _).0 owned,
                      (
                        granted,
                        (redirects-same req.redirect_uri form.redirect_uri same there, (pkce, e5)),
                      ),
                    )

module _ (s : Services) (x : TokenCrypto) {State : Type 0} (t : TokenStore State) where
  -- A code that is found changes the store as the lookup does.
  find_code-found :
      (code : String) (server server' : Server State) (req : AuthRequest)
      → Succeeds (find_code s x t code) server server' req
      → t.auth_request_by_code code server.0 ≡ (server'.0, some req)
  find_code-found code (st, limits) server' req e =
      by_store (t.auth_request_by_code code st) e.outcome
    where
      fails :
          (st1 : State) (revoke : Option (String → State → State))
          → ◌≡◌ {A = Server State × Result OidcError AuthRequest}
              (elim revoke [
                | none ↦ ((st1, limits), err invalid_grant)
                | some f ↦ ((f code st1, limits), err invalid_grant)
              ])
              (server', ok req)
          → ⊥
      fails st1 none h = absurd (cc)
      fails st1 (some f) h = absurd (cc)

      by_store :
          (o : State × Option AuthRequest)
          → found_code s x t code limits o ≡ (server', ok req)
          → o ≡ (server'.0, some req)
      by_store (st1, some req1) h = cc
      by_store (st1, none) h = absurd (fails st1 t.revoke_tokens_for_used_code h)

  -- The rate limit keeps the store.
  pub limit_client-store :
      (c : Client) (now : ℕ) (server server' : Server State) (u : Unit {0})
      → Succeeds (limit_client c now) server server' u
      → server.0 ≡ server'.0
  limit_client-store c now server server' u e =
      ap (λ (v : Server State × Result OidcError (Unit {0})). v.0.0) e.outcome

  -- Tokens are issued for a code only if the store has an authorization request under it, to the
  -- client of that request and once this client is authenticated and may use the grant; the redirect
  -- URI is the one of the authorization request, the PKCE challenge is answered, and a DPoP key that
  -- the request is bound to is presented. The tokens are asked for with the subject, client and scopes
  -- of that request and with its audience and resources, in the state that the lookup of the code left,
  -- and the deletion of the request is asked for afterwards.
  pub handle_authorization_code-IsExchanged :
      (cfg : Config) (r : Context) (form : CodeForm) (now : ℕ) (server server' : Server State)
      (resp : TokenResponse)
      → handle_authorization_code s x t cfg r form now server ≡ (server', ok resp)
      → IsExchanged s x t cfg r form now server.0 server'.0 resp
  unfolding handle_authorization_code
  handle_authorization_code-IsExchanged cfg r form now server server' resp e =
      let start : Succeeds (handle_authorization_code s x t cfg r form now) server server' resp =
        record { outcome = e } in
      after_check (form.code != "") invalid_request _ server start λ named e1.
        after (find_code s x t form.code) _ server e1 λ req server1 looked e2.
          after_lift (constrain_owner s cfg req.request.client_id r) _ server1 e2
            λ u constrained e3.
              after_lift (authenticate_client s cfg.require_dpop cfg.require_mtls r form.client) _
                server1 e3
                λ c who e4. after (limit_client c now) _ server1 e4 λ u2 server2 limited e5.
                  after_gets (λ (sv : Server State). t.auth_request_dpop_jkt sv.0 req.id) _ server2
                    e5
                    λ jkt stored e5a.
                      after_lift (check_code s c req form jkt r) _ server2 e5a λ u3 checked e6.
                        after
                          (on_store (
                            create_token_response x t cfg (resource_aware req.resources req.request)
                              c r (code_opts form) now))
                          _ server2 e6
                          λ issued server3 made e7.
                            let ended : (
                              (
                                (t.delete_auth_request req.id
                                    (track_token t.track_token req.id issued.1 server3.0)).0,
                                server3.1,
                              ),
                              ok issued.0,
                            )
                                ≡ (server', ok resp) =
                              e7.outcome in
                            let base : server1.0 ≡ server2.0 =
                              limit_client-store c now server1 server2 u2 limited in
                            let (owned, (granted, (same, (pkce, bound)))) =
                              check_code-facts s c req form jkt r checked in
                            record {
                              req = req;
                              client = c;
                              looked = server1.0;
                              created = server3.0;
                              token_id = issued.1;
                              named = nonempty named;
                              found = find_code-found form.code server server1 req looked;
                              authenticated = who;
                              owned = owned;
                              granted = granted;
                              same_redirect = same;
                              pkce = pkce;
                              wanted = resource_aware req.resources req.request;
                              for_request = resource_aware-IsForRequest req;
                              binding = verify_dpop_code_binding-IsKeyShown _ r (
                                  subst
                                    (λ (st : State).
                                      verify_dpop_code_binding (t.auth_request_dpop_jkt st req.id) r
                                      ≡ ok tt)
                                    (sym base)
                                    (subst
                                      (λ (j : Option String). verify_dpop_code_binding j r ≡ ok tt)
                                      (sym stored) bound));
                              issued =
                                  ap
                                    (λ (st : State).
                                      create_token_response x t cfg
                                        (resource_aware req.resources req.request) c r
                                        (code_opts form) now st)
                                    base
                                  ∙ ((on_store-inverse _ server2 server3 issued made).outcome
                                      ∙ ap (λ (v : TokenResponse). (server3.0, ok (v, issued.1)))
                                          (value_of ended));
                              used = sym (ap (λ (sv : Server State). sv.0) (state_of ended));
                            }
