-- ===== src/Ciba/Redeemed.antt =====
-- pkg/storm/plugins/token/token.go: which backchannel requests handleCIBA issues tokens for.
use kexcore_oidc.Base.{
  ℕ, ◌≤◌, String, ◌≡◌, refl, sym, ap, ◌∙◌, Bool, none, ◌∷◌, [], true, false, some, eq_iff, leb,
  leb→le, ◌==◌, ◌!=◌, if◌then◌else◌, Result, ok,
}
use kexcore_oidc.Base.Action.{
  ◌>>◌, fail, after, after_lift, after_check, after_read, Succeeds, state_of, value_of,
}
use kexcore_oidc.Issue.Request.{TokenRequest}
use kexcore_oidc.OidcError.{
  OidcError, invalid_request, invalid_grant, unauthorized_client, authorization_pending, slow_down,
  expired_token,
}
use kexcore_oidc.Client.{Client}
use kexcore_oidc.Grants.Binding.{Context}
use kexcore_oidc.Grants.Endpoint.{Services, validate_grant_type}
use kexcore_oidc.Issue.Host.{TokenStore, TokenCrypto}
use kexcore_oidc.Issue.Response.{Config, ResponseOpts, TokenResponse, create_token_response}
use kexcore_oidc.Grants.Plugin.{Server, on_store, change_store}
use kexcore_oidc.Grants.Frame.{on_store-inverse}
use kexcore_oidc.Ciba.Store.{
  CibaStatus, pending, approved, denied, consumed, other_status, CibaRequest, CibaStore,
}
use kexcore_oidc.Ciba.Redeem.{
  ciba_client, ciba_token_request, poll_status, too_early, ciba_interval, consume, handle_ciba,
}

-- How the tokens of this grant are created.
abbrev pub ciba_opts : ResponseOpts
ciba_opts = record { issue_refresh = true; code = ""; current_refresh_token = "" }

-- What holds when tokens were issued.
pub record IsRedeemed {State : Type 0} (s : Services) (x : TokenCrypto) (t : TokenStore State)
    (d : CibaStore State) (cfg : Config) (r : Context) (auth_req_id client_id : String) (now : ℕ)
    (before after_it : State) (resp : TokenResponse) : Type 0 where
  pub client : Client
  pub request : CibaRequest
  pub created : State
  pub token_id : String
  pub who : ciba_client s cfg r client_id ≡ ok client
  pub granted : validate_grant_type client "urn:openid:params:grant-type:ciba" ≡ true
  pub stored : d.get_request before auth_req_id ≡ some request
  pub owned : request.client_id ≡ client.id
  pub fresh : now ≤ request.expires
  pub was_approved : request.status ≡ approved
  -- What the tokens are for, at every place of the request for them.
  pub wanted : TokenRequest
  pub for_subject : wanted.subject ≡ request.subject
  pub for_scopes : wanted.scopes ≡ request.approved_scopes
  pub for_client : wanted.client_id ≡ request.client_id
  pub for_audience : wanted.audience ≡ request.client_id ∷ []
  pub bare : (wanted.nonce ≡ none) × ((wanted.auth ≡ none) × (wanted.extra_claims ≡ none))
  pub issued :
      create_token_response x t cfg wanted client r ciba_opts now before
      ≡ (created, ok (resp, token_id))
  pub spent : after_it ≡ consume d auth_req_id request.approved_scopes created

module _ (s : Services) (x : TokenCrypto) {State : Type 0} (t : TokenStore State)
    (d : CibaStore State) where
  -- Only an approved request goes on, and then nothing was changed.
  poll_status-approved :
      (default_interval : ℕ) (i : String) (now : ℕ) (q : CibaRequest) (status : CibaStatus)
      (server server' : Server State) (u : Unit {0})
      → poll_status s x t d default_interval i now q status server ≡ (server', ok u)
      → (status ≡ approved) × (server ≡ server')
  poll_status-approved default_interval i now q pending server server' u e =
      early (too_early (ciba_interval default_interval q) q.last_poll now) e
    where
      early :
          (b : Bool)
          → (if b
                then (change_store (d.update_interval i 5) >> fail slow_down)
                else (change_store (d.update_poll i now) >> fail authorization_pending))
              server
            ≡ (server', ok u)
          → (pending ≡ approved) × (server ≡ server')
      early true h = absurd (cc)
      early false h = absurd (cc)
  poll_status-approved default_interval i now q approved server server' u e =
      (refl, ap (λ (p : Server State × Result OidcError (Unit {0})). p.0) e)
  poll_status-approved default_interval i now q denied server server' u e = absurd (cc)
  poll_status-approved default_interval i now q consumed server server' u e = absurd (cc)
  poll_status-approved default_interval i now q (other_status o) server server' u e = absurd (cc)

  -- Tokens are issued only to the client that the request names, which may use the grant, for a
  -- request in the store that is approved and not expired; they are for the subject and the scopes of
  -- the approval, and in the state after their creation the store is asked to mark the request as
  -- consumed.
  pub handle_ciba-IsRedeemed :
      (cfg : Config) (r : Context) (auth_req_id client_id : String) (now : ℕ)
      (server server' : Server State) (resp : TokenResponse)
      → handle_ciba s x t d cfg r auth_req_id client_id now server ≡ (server', ok resp)
      → IsRedeemed s x t d cfg r auth_req_id client_id now server.0 server'.0 resp
  unfolding handle_ciba
  handle_ciba-IsRedeemed cfg r auth_req_id client_id now server server' resp e =
      let start : Succeeds (handle_ciba s x t d cfg r auth_req_id client_id now) server server'
          resp =
        record { outcome = e } in
      after_check (auth_req_id != "") invalid_request _ server start λ named e1.
        after_lift (ciba_client s cfg r client_id) _ server e1 λ c who e2.
          after_check (validate_grant_type c "urn:openid:params:grant-type:ciba")
            unauthorized_client _ server e2
            λ granted e3.
              after_read (λ (sv : Server State). d.get_request sv.0 auth_req_id) invalid_grant _
                server e3
                λ q there e4.
                  after_check (q.client_id == c.id) invalid_grant _ server e4 λ owned e5.
                    after_check (leb now q.expires) expired_token _ server e5 λ fresh e6.
                      after
                        (poll_status s x t d cfg.device_poll_interval auth_req_id now q q.status) _
                        server e6
                        λ u server1 polled e7.
                          after
                            (on_store (
                              create_token_response x t cfg (ciba_token_request q c) c r ciba_opts
                                now))
                            _ server1 e7
                            λ issued server2 made e8.
                              let (ok_status, same) =
                                poll_status-approved cfg.device_poll_interval auth_req_id now q
                                  q.status server server1 u polled.outcome in
                              let ended : (
                                (consume d auth_req_id q.approved_scopes server2.0, server2.1),
                                ok issued.0,
                              )
                                  ≡ (server', ok resp) =
                                e8.outcome in
                              record {
                                client = c;
                                request = q;
                                created = server2.0;
                                token_id = issued.1;
                                who = who;
                                granted = granted;
                                stored = there;
                                owned = (eq_iff _ _).0 owned;
                                fresh = leb→le _ _ fresh;
                                was_approved = ok_status;
                                wanted = ciba_token_request q c;
                                for_subject = refl;
                                for_scopes = refl;
                                for_client = sym ((eq_iff _ _).0 owned);
                                for_audience =
                                    ap (λ (i : String). i ∷ []) (sym ((eq_iff _ _).0 owned));
                                bare = (refl, (refl, refl));
                                issued =
                                    ap
                                      (λ (sv : Server State).
                                        create_token_response x t cfg (ciba_token_request q c) c r
                                          ciba_opts now sv.0)
                                      same
                                    ∙ ((on_store-inverse _ server1 server2 issued made).outcome
                                        ∙ ap (λ (v : TokenResponse). (server2.0, ok (v, issued.1)))
                                            (value_of ended));
                                spent = sym (ap (λ (sv : Server State). sv.0) (state_of ended));
                              }
