-- ===== src/Ciba/Spent.antt =====
-- Backchannel authentication across the token endpoint and the CIBA plugin: requests whose tokens
-- were issued stay consumed.
use kexcore_oidc.Base.{
  ℕ, String, ◌≡◌, refl, ap, ◌∙◌, subst, ◌≢◌, ◌⊎◌, inl, inr, Bool, true, false, Option, none, some,
  List, [], arith, leb, ◌==◌, ◌!=◌, if◌then◌else◌, Bool-cases, Result, ok, err, ok-injective,
  after_require, after_expect, after_bind,
}
use kexcore_oidc.OidcError.{
  OidcError, invalid_binding_message, invalid_request, invalid_grant, unauthorized_client,
  server_error, access_denied, authorization_pending, slow_down, expired_token,
}
use kexcore_oidc.Grants.Binding.{Context}
use kexcore_oidc.Grants.Endpoint.{Services, validate_grant_type}
use kexcore_oidc.Issue.Host.{TokenStore, TokenCrypto}
use kexcore_oidc.Issue.Response.{Config, create_token_response}
use kexcore_oidc.Base.Keeps.{
  Keeps, bind-Keeps, then-Keeps, lift-Keeps, pure-Keeps, fail-Keeps, check-Keeps, read-Keeps,
}
use kexcore_oidc.Verifier.Checks.{Codec}
use kexcore_oidc.Issue.Frame.{IsKept, create_token_response-Keeps}
use kexcore_oidc.Grants.Plugin.{Server, on_store, change_store}
use kexcore_oidc.Grants.Frame.{OnStore, on_store-Keeps, change_store-Keeps}
use kexcore_oidc.Ciba.Duration.{Duration}
use kexcore_oidc.Ciba.Store.{
  CibaStatus, pending, approved, denied, consumed, other_status, CibaRequest, CibaStore, is_pending,
}
use kexcore_oidc.Ciba.Redeem.{
  ciba_client, ciba_token_request, poll_status, too_early, ciba_interval, consume, handle_ciba,
}
use kexcore_oidc.Ciba.Object.{CibaLibrary}
use kexcore_oidc.Ciba.Authorize.{
  CibaConfig, BackchannelForm, new_request, store_new, store_result, backchannel_client,
  validate_ciba_grant_type, has_required_object, apply_object, subject_of, hints,
  handle_backchannel_auth,
}
use kexcore_oidc.Ciba.Approval.{
  Notifier, ActionForm, notify_status_change, settle, decide, act_on, handle_approval_action,
}

-- A request is there with the status that one had before.
abbrev pub Unchanged :
    {State : Type 0} → CibaStore State → State → (auth_req_id : String) → CibaRequest → Type 0
Unchanged d st id q = (q0 : CibaRequest) × (d.get_request st id ≡ some q0) × (q.status ≡ q0.status)

-- What a CIBA store promises: an update of a status that succeeds takes effect, one that fails takes
-- effect or does not, the other updates leave every status alone, and each concerns the request it
-- names.
pub record CibaLaws {State : Type 0} (d : CibaStore State) : Type 0 where
  pub status_after :
      (i : String) (status : CibaStatus) (scopes : List String) (st : State) (j : String)
      (q : CibaRequest)
      → d.get_request (d.update_status i status scopes st).0 j ≡ some q
      → ((i ≡ j) × (q.status ≡ status)) ⊎ Unchanged d st j q
  pub status_done :
      (i : String) (status : CibaStatus) (scopes : List String) (st : State) (q : CibaRequest)
      → (d.update_status i status scopes st).1 ≡ true
      → d.get_request (d.update_status i status scopes st).0 i ≡ some q
      → q.status ≡ status
  pub poll_after :
      (i : String) (now : ℕ) (st : State) (j : String) (q : CibaRequest)
      → d.get_request (d.update_poll i now st) j ≡ some q
      → Unchanged d st j q
  pub interval_after :
      (i : String) (n : ℕ) (st : State) (j : String) (q : CibaRequest)
      → d.get_request (d.update_interval i n st) j ≡ some q
      → Unchanged d st j q
  pub store_after :
      (made : CibaRequest) (st : State) (j : String) (q : CibaRequest)
      → d.get_request (d.store_request made st).0 j ≡ some q
      → (made.auth_req_id ≡ j) ⊎ (d.get_request st j ≡ some q)

-- That tokens were issued for a request: where it is found, it is consumed.
abbrev pub Spent : {State : Type 0} → CibaStore State → (auth_req_id : String) → State → Type 0
Spent d id st = (q : CibaRequest) → d.get_request st id ≡ some q → q.status ≡ consumed

module _ {State : Type 0} (d : CibaStore State) (laws : CibaLaws d) (id : String) where
  Unchanged-Spent :
      (st : State) (q : CibaRequest) → Unchanged d st id q → Spent d id st → q.status ≡ consumed
  Unchanged-Spent st q (q0, there, same) spent = same ∙ spent q0 there

  pub consume-Spent :
      (scopes : List String) (st : State)
      → (d.update_status id consumed scopes st).1 ≡ true
      → Spent d id (consume d id scopes st)
  consume-Spent scopes st done q there = laws.status_done id consumed scopes st q done there

  -- An update of the status of a request that is not consumed.
  update-Spent :
      (i : String) (status : CibaStatus) (scopes : List String) (st : State)
      → ((i ≡ id) → status ≡ consumed)
      → Spent d id st
      → Spent d id (d.update_status i status scopes st).0
  update-Spent i status scopes st own spent q there =
      elim (laws.status_after i status scopes st id q there) [
        | inl (same, is_now) ↦ is_now ∙ own same
        | inr unchanged ↦ Unchanged-Spent st q unchanged spent
      ]

  poll-Spent :
      (i : String) (now : ℕ) (st : State) → Spent d id st → Spent d id (d.update_poll i now st)
  poll-Spent i now st spent q there =
      Unchanged-Spent st q (laws.poll_after i now st id q there) spent

  interval-Spent :
      (i : String) (n : ℕ) (st : State) → Spent d id st → Spent d id (d.update_interval i n st)
  interval-Spent i n st spent q there =
      Unchanged-Spent st q (laws.interval_after i n st id q there) spent

  module _ (s : Services) (x : TokenCrypto) (t : TokenStore State)
      (kept : IsKept t (Spent d id)) where
    poll_status-Keeps :
        (default_interval : ℕ) (i : String) (now : ℕ) (q : CibaRequest) (status : CibaStatus)
        → Keeps (OnStore (Spent d id)) (poll_status s x t d default_interval i now q status)
    poll_status-Keeps default_interval i now q pending =
        elim (Bool-cases (too_early (ciba_interval default_interval q) q.last_poll now)) [
          | inl early ↦ rw early (
              then-Keeps (OnStore (Spent d id)) (change_store (d.update_interval i 5)) _
                (change_store-Keeps (Spent d id) _ (interval-Spent i 5)) (fail-Keeps _ slow_down))
          | inr in_time ↦ rw in_time (
              then-Keeps (OnStore (Spent d id)) (change_store (d.update_poll i now)) _
                (change_store-Keeps (Spent d id) _ (poll-Spent i now))
                (fail-Keeps _ authorization_pending))
        ]
    poll_status-Keeps default_interval i now q approved = pure-Keeps _ tt
    poll_status-Keeps default_interval i now q denied = fail-Keeps _ access_denied
    poll_status-Keeps default_interval i now q consumed = fail-Keeps _ invalid_grant
    poll_status-Keeps default_interval i now q (other_status o) = fail-Keeps _ server_error

    pub handle_ciba-Keeps :
        (cfg : Config) (r : Context) (i client_id : String) (now : ℕ)
        → Keeps (OnStore (Spent d id)) (handle_ciba s x t d cfg r i client_id now)
    unfolding handle_ciba
    handle_ciba-Keeps cfg r i client_id now =
        let P : Server State → Type 0 = OnStore (Spent d id) in
        check-Keeps P (i != "") invalid_request _ (
          lift-Keeps P (ciba_client s cfg r client_id) _ λ c.
            check-Keeps P (validate_grant_type c "urn:openid:params:grant-type:ciba")
              unauthorized_client _
              (read-Keeps P (λ server. d.get_request server.0 i) invalid_grant _
                λ q. check-Keeps P (q.client_id == c.id) invalid_grant _ (
                  check-Keeps P (leb now q.expires) expired_token _ (
                    then-Keeps P (poll_status s x t d cfg.device_poll_interval i now q q.status) _
                      (poll_status-Keeps cfg.device_poll_interval i now q q.status)
                      (bind-Keeps P
                        (on_store (
                          create_token_response x t cfg (ciba_token_request q c) c r
                            (record { issue_refresh = true; code = ""; current_refresh_token = "" })
                            now))
                        _
                        (on_store-Keeps (Spent d id) _
                          (create_token_response-Keeps x t (Spent d id) kept cfg _ c r _ now))
                        λ issued.
                          then-Keeps P (change_store (consume d i q.approved_scopes)) _
                            (change_store-Keeps (Spent d id) _
                              λ st. update-Spent i consumed q.approved_scopes st λ same. refl)
                            (pure-Keeps P issued.0))))))

    notify-Spent :
        (n : Option (Notifier State)) (q : CibaRequest) (st : State)
        → ((m : Notifier State)
            → n ≡ some m
            → (st1 : State) → Spent d id st1
            → Spent d id (m.on_status_change q st1))
        → Spent d id st
        → Spent d id (notify_status_change s d n q st)
    unfolding notify_status_change
    notify-Spent none q st tells spent = spent
    notify-Spent (some m) q st tells spent = ground (arith, spent, tells m refl st spent)

    settle-Spent :
        (n : Option (Notifier State)) (q : CibaRequest) (r : State × Bool)
        → ((m : Notifier State)
            → n ≡ some m
            → (st1 : State) → Spent d id st1
            → Spent d id (m.on_status_change q st1))
        → Spent d id r.0
        → Spent d id (settle s d n q r).0
    settle-Spent n q (st, true) tells spent = notify-Spent n q st tells spent
    settle-Spent n q (st, false) tells spent = spent

    -- What the notifier does for one client leaves other requests alone.
    pub decide-Spent :
        (n : Option (Notifier State))
        → ((m : Notifier State)
            → n ≡ some m
            → (q : CibaRequest) (st1 : State) → Spent d id st1
            → Spent d id (m.on_status_change q st1))
        → (i action : String) (q : CibaRequest) (st : State) → d.get_request st i ≡ some q
        → q.status ≡ pending
        → Spent d id st
        → Spent d id (decide s d n i action q st).0
    unfolding decide
    decide-Spent n tells i action q st there waiting spent =
        let other : i ≢ id =
          λ same. not_both (subst (λ (j : String). d.get_request st j ≡ some q) same there) in
        by_action (action == "approve") (action == "deny") other
      where
        not_both : d.get_request st id ≡ some q → ⊥
        not_both found = absurd (let gone = spent q found in cc)

        by_action :
            (a b : Bool)
            → i ≢ id
            → Spent d id
                (if a
                  then settle s d n
                      (record q { status = approved; approved_scopes = q.requested_scopes })
                      (d.update_status i approved q.requested_scopes st)
                  else if b
                  then settle s d n (record q { status = denied }) (d.update_status i denied [] st)
                  else (st, err invalid_request)).0
        by_action true b other =
            settle-Spent n _ _ (λ m e. tells m e _)
              (update-Spent i approved q.requested_scopes st (λ same. absurd (other same)) spent)
        by_action false true other =
            settle-Spent n _ _ (λ m e. tells m e _)
              (update-Spent i denied [] st (λ same. absurd (other same)) spent)
        by_action false false other = spent

    pending_of : (status : CibaStatus) → is_pending status ≡ true → status ≡ pending
    pending_of pending h = refl
    pending_of approved h = absurd (cc)
    pending_of denied h = absurd (cc)
    pending_of consumed h = absurd (cc)
    pending_of (other_status o) h = absurd (cc)

    act_on-Spent :
        (n : Option (Notifier State))
        → ((m : Notifier State)
            → n ≡ some m
            → (q : CibaRequest) (st1 : State) → Spent d id st1
            → Spent d id (m.on_status_change q st1))
        → (i action : String) (now : ℕ) (st : State) (o : Option CibaRequest)
        → d.get_request st i ≡ o
        → Spent d id st
        → Spent d id (act_on s d n i action now st o).0
    act_on-Spent n tells i action now st none e spent = spent
    act_on-Spent n tells i action now st (some q) e spent =
        elim (Bool-cases (is_pending q.status)) [
          | inl waiting ↦ ground (
            arith,
            spent,
            waiting,
            decide-Spent n tells i action q st e (pending_of q.status waiting) spent,
          )
          | inr settled ↦ ground (arith, spent, settled)
        ]

    pub handle_approval_action-Spent :
        (n : Option (Notifier State))
        → ((m : Notifier State)
            → n ≡ some m
            → (q : CibaRequest) (st1 : State) → Spent d id st1
            → Spent d id (m.on_status_change q st1))
        → (csrf : Option (Option String)) (form : ActionForm) (now : ℕ) (st : State) → Spent d id st
        → Spent d id (handle_approval_action s d csrf n form now st).0
    unfolding handle_approval_action
    handle_approval_action-Spent n tells csrf form now st spent = ground (
      arith,
      spent,
      act_on-Spent n tells form.auth_req_id form.action now st (d.get_request st form.auth_req_id)
          refl spent,
    )

    module _ (k : Codec) (l : CibaLibrary) where
      store_new-Spent :
          (cfg : CibaConfig) (made : CibaRequest × Duration) (st : State)
          → made.0.auth_req_id ≢ id
          → Spent d id st
          → Spent d id (store_new s k l d cfg made st).0
      store_new-Spent cfg made st other spent q there =
          elim (laws.store_after made.0 st id q there) [
            | inl same ↦ absurd (other same)
            | inr before ↦ spent q before
          ]

      -- The request that is stored has the id that was drawn.
      new_request-id :
          (cfg : CibaConfig) (r : Context) (form : BackchannelForm) (random : Option String)
          (now : ℕ) (made : CibaRequest × Duration)
          → new_request s k l cfg r form random now ≡ ok made
          → random ≡ some made.0.auth_req_id
      unfolding new_request
      new_request-id cfg r form random now made e =
          after_bind (backchannel_client s k l cfg r form now) _ e λ who known e1.
            after_require (validate_ciba_grant_type who.0) unauthorized_client _ e1 λ granted e2.
              after_require (has_required_object s k l who.0 form) invalid_request _ e2 λ signed e3.
                after_bind (apply_object s k l cfg form who.1 now) _ e3 λ full applied e4.
                  after_bind (subject_of (hints full.0)) _ e4 λ subject hinted e5.
                    after_require (leb (l.byte_length (l.trim full.0.binding_message)) 300)
                      invalid_binding_message _ e5
                      λ short e6. after_expect random server_error _ e6 λ drawn found e7.
                        found
                        ∙ ap (λ (m : CibaRequest × Duration). some m.0.auth_req_id)
                            (ok-injective e7)

      pub handle_backchannel_auth-Spent :
          (cfg : CibaConfig) (r : Context) (form : BackchannelForm) (random : Option String)
          (now : ℕ) (st : State)
          → random ≢ some id
          → Spent d id st
          → Spent d id (handle_backchannel_auth s k l d cfg r form random now st).0
      unfolding handle_backchannel_auth
      handle_backchannel_auth-Spent cfg r form random now st other spent =
          stored (new_request s k l cfg r form random now) refl
        where
          stored :
              (m : Result OidcError (CibaRequest × Duration))
              → new_request s k l cfg r form random now ≡ m
              → Spent d id (store_result s k l d cfg st m).0
          stored (err e) q = spent
          stored (ok made) q =
              store_new-Spent cfg made st
                (λ same. other (new_request-id cfg r form random now made q ∙ ap some same)) spent
