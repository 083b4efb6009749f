-- ===== src/Grants/Renewed.antt =====
-- pkg/storm/plugins/token/token.go: which refresh tokens handleRefreshToken renews.
use kexcore_oidc.Base.{
  ℕ, String, ◌≡◌, ap, ◌∙◌, ◌≢◌, true, false, some, List, arith, eq_iff, ◌==◌, ◌!=◌, if◌then◌else◌,
  ok, require-eq-ok, ◌⊎◌, inl, inr, [], ◌∷◌, All, Listed, any, contains, contains_iff, not, refl,
  sym, subst, Bool, ok-injective, after_require, after_expect, after_bind,
}
use kexcore_oidc.Base.Action.{
  after, after_lift, after_check, after_read, Succeeds, state_of, value_of,
}
use kexcore_oidc.OidcError.{invalid_scope, invalid_request, invalid_grant, unauthorized_client}
use kexcore_oidc.Client.{Client, public}
use kexcore_oidc.Grants.Binding.{Context}
use kexcore_oidc.Grants.Endpoint.{
  Services, validate_grant_type, validate_refresh_scopes, authenticate_client,
}
use kexcore_oidc.Issue.Request.{TokenRequest}
use kexcore_oidc.Issue.Host.{RefreshRequest, TokenStore, TokenCrypto}
use kexcore_oidc.Issue.Response.{Config, ResponseOpts, TokenResponse, create_token_response}
use kexcore_oidc.Grants.Plugin.{Server, on_store, limit_client, constrain_owner}
use kexcore_oidc.Grants.Frame.{on_store-inverse}
use kexcore_oidc.Grants.Exchanged.{limit_client-store}
use kexcore_oidc.Grants.Checks.{RefreshForm, check_refresh, check_refresh_binding, is_public}
use kexcore_oidc.Grants.Refresh.{handle_refresh_token}

-- How the tokens of this grant are created.
abbrev pub refresh_opts : Config → RefreshForm → ResponseOpts
refresh_opts cfg form = record {
  issue_refresh = true;
  code = "";
  current_refresh_token = if cfg.invalidate_refresh_on_use then form.refresh_token else "";
}

-- What holds when tokens were issued for a refresh token.
pub record IsRenewed {State : Type 0} (s : Services) (x : TokenCrypto) (t : TokenStore State)
    (cfg : Config) (r : Context) (form : RefreshForm) (now : ℕ) (before after_it : State)
    (resp : TokenResponse) : Type 0 where
  pub req : RefreshRequest
  pub client : Client
  pub scopes : List String
  pub token_id : String
  pub found : t.token_request_by_refresh_token before form.refresh_token ≡ some req
  pub authenticated :
      authenticate_client s cfg.require_dpop cfg.require_mtls r form.client ≡ ok client
  pub owned : client.id ≡ req.request.client_id
  pub granted : validate_grant_type client "refresh_token" ≡ true
  -- All that was granted before where the form asks for none, or what it asks for, all of it granted.
  pub narrowed :
      ((form.scopes ≡ []) × (scopes ≡ req.request.scopes))
      ⊎ ((form.scopes ≢ [])
          × ((scopes ≡ form.scopes) × All (λ scope. Listed scope req.request.scopes) scopes))
  -- A refresh token that is bound to a key needs a proof, and of the same key for a public client.
  pub possession :
      req.dpop_jkt ≢ ""
      → (proof : String) × (r.dpop_proof ≡ some proof)
        × (client.auth_method ≡ public → proof ≡ req.dpop_jkt)
  pub issued :
      create_token_response x t cfg
        (record req.request { scopes = scopes })
        client
        r
        (refresh_opts cfg form)
        now
        before
      ≡ (after_it, ok (resp, token_id))

none_missing :
    (granted ss : List String)
    → any (λ scope. not (contains granted scope)) ss ≡ false
    → All (λ scope. Listed scope granted) ss
none_missing granted [] h = tt
none_missing granted (s ∷ ss) h =
    ((contains_iff granted s).0 (ground arith), none_missing granted ss (ground arith))

validate_refresh_scopes-narrow :
    (requested granted scopes : List String)
    → validate_refresh_scopes requested granted ≡ ok scopes
    → ((requested ≡ []) × (scopes ≡ granted))
      ⊎ ((requested ≢ []) × ((scopes ≡ requested) × All (λ scope. Listed scope granted) scopes))
unfolding validate_refresh_scopes
validate_refresh_scopes-narrow [] granted scopes e = inl (refl, sym (ok-injective e))
validate_refresh_scopes-narrow (s ∷ ss) granted scopes e =
    after_require (not (any (λ scope. not (contains granted scope)) (s ∷ ss))) invalid_scope _ e
      λ fine e1.
        let same = ok-injective e1 in
        inr (
          λ q. cc,
          (
            sym same,
            subst (λ (l : List String). All (λ scope. Listed scope granted) l) same
                (none_missing granted (s ∷ ss) (flip _ fine)),
          ),
        )
  where
    flip : (b : Bool) → not b ≡ true → b ≡ false
    flip b h = ground arith

check_refresh_binding-possession :
    (c : Client) (jkt : String) (r : Context) {u : Unit {0}}
    → check_refresh_binding c jkt r ≡ ok u
    → jkt ≢ ""
    → (proof : String) × (r.dpop_proof ≡ some proof) × (c.auth_method ≡ public → proof ≡ jkt)
check_refresh_binding-possession c jkt r e bound =
    let some_jkt : (jkt == "") ≡ false = ground (arith, eq_iff jkt "", bound) in
    let run = rw some_jkt at e in
    after_expect r.dpop_proof invalid_grant _ run λ proof presented e1. (
      proof,
      presented,
      λ m.
          let is_pub : is_public c.auth_method ≡ true = rw m refl in
          ground (arith, eq_iff proof jkt, is_pub, require-eq-ok _ _ e1),
    )

check_refresh-facts :
    (c : Client) (req : RefreshRequest) (form : RefreshForm) (r : Context) (current : TokenRequest)
    → check_refresh c req form r ≡ ok current
    → (validate_grant_type c "refresh_token" ≡ true)
      × ((c.id ≡ req.request.client_id)
          × ((scopes : List String) × (validate_refresh_scopes form.scopes req.request.scopes
                ≡ ok scopes)
              × ((check_refresh_binding c req.dpop_jkt r ≡ ok tt)
                  × (record req.request { scopes = scopes } ≡ current))))
unfolding check_refresh
check_refresh-facts c req form r current e =
    after_require (validate_grant_type c "refresh_token") unauthorized_client _ e λ granted e1.
      after_require (c.id == req.request.client_id) invalid_grant _ e1 λ owned e2.
        after_bind (validate_refresh_scopes form.scopes req.request.scopes) _ e2
          λ scopes narrowed e3.
            after_bind (check_refresh_binding c req.dpop_jkt r) _ e3 λ u bound e4.
              (granted, ((eq_iff _ _).0 owned, (scopes, narrowed, (bound, ok-injective e4))))

module _ (s : Services) (x : TokenCrypto) {State : Type 0} (t : TokenStore State) where
  -- New tokens are issued for a refresh token only if the store has a request under it, to its own
  -- client, once authenticated and allowed to use the grant, with scopes among those granted before;
  -- a token that is bound to a DPoP key needs a proof, by a public client of the same key.
  pub handle_refresh_token-IsRenewed :
      (cfg : Config) (r : Context) (form : RefreshForm) (now : ℕ) (server server' : Server State)
      (resp : TokenResponse)
      → handle_refresh_token s x t cfg r form now server ≡ (server', ok resp)
      → IsRenewed s x t cfg r form now server.0 server'.0 resp
  unfolding handle_refresh_token
  handle_refresh_token-IsRenewed cfg r form now server server' resp e =
      let start : Succeeds (handle_refresh_token s x t cfg r form now) server server' resp =
        record { outcome = e } in
      after_check (form.refresh_token != "") invalid_request _ server start λ named e1.
        after_read (λ (sv : Server State). t.token_request_by_refresh_token sv.0 form.refresh_token)
          invalid_grant _ server e1
          λ req found e2.
            after_lift (constrain_owner s cfg req.request.client_id r) _ server e2
              λ u constrained e3.
                after_lift (authenticate_client s cfg.require_dpop cfg.require_mtls r form.client) _
                  server e3
                  λ c who e4. after (limit_client c now) _ server e4 λ u2 server1 limited e5.
                    after_lift (check_refresh c req form r) _ server1 e5 λ current checked e6.
                      after
                        (on_store
                          (create_token_response x t cfg current c r (refresh_opts cfg form) now))
                        _ server1 e6
                        λ issued server2 made e7.
                          let ended : (server2, ok issued.0) ≡ (server', ok resp) = e7.outcome in
                          let (granted, (owned, (scopes, narrowed, (bound, is_current)))) =
                            check_refresh-facts c req form r current checked in
                          let base : server.0 ≡ server1.0 =
                            limit_client-store s x t c now server server1 u2 limited in
                          record {
                            req = req;
                            client = c;
                            scopes = scopes;
                            token_id = issued.1;
                            found = found;
                            authenticated = who;
                            owned = owned;
                            granted = granted;
                            narrowed =
                                validate_refresh_scopes-narrow form.scopes req.request.scopes scopes
                                  narrowed;
                            possession = check_refresh_binding-possession c req.dpop_jkt r bound;
                            issued =
                                ap
                                  (λ (q : TokenRequest).
                                    create_token_response x t cfg q c r (refresh_opts cfg form) now
                                      server.0)
                                  is_current
                                ∙ (ap
                                      (λ (st : State).
                                        create_token_response x t cfg current c r
                                          (refresh_opts cfg form) now st)
                                      base
                                    ∙ ((on_store-inverse _ server1 server2 issued made).outcome
                                        ∙ ap
                                            (λ (p : State × TokenResponse).
                                              (p.0, ok (p.1, issued.1)))
                                            (pair
                                              (ap (λ (sv : Server State). sv.0) (state_of ended))
                                              (value_of ended))));
                          }
    where
      pair :
          {a a' : State} {b b' : TokenResponse}
          → a ≡ a'
          → b ≡ b'
          → ◌≡◌ {A = State × TokenResponse} (a, b) (a', b')
      pair {a' = a'} {b = b} p q =
          ap (λ (v : State). (v, b)) p ∙ ap (λ (v : TokenResponse). (a', v)) q
