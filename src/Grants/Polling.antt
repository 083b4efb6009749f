-- ===== src/Grants/Polling.antt =====
-- pkg/storm/plugins/token/token.go: what polling for a device code yields.
use kexcore_oidc.Base.{
  ℕ, ◌+◌, ◌≤◌, ◌<◌, String, ◌≡◌, refl, sym, ap, subst, ◌∙◌, ◌⊎◌, inl, inr, Bool, true, false,
  Option, none, some, arith, ◌!=◌, Result, ok, err, after_require, after_bind,
}
use kexcore_oidc.OidcError.{
  OidcError, invalid_request, unauthorized_client, authorization_pending, slow_down,
}
use kexcore_oidc.Client.{Client}
use kexcore_oidc.Grants.Binding.{Context}
use kexcore_oidc.Grants.Endpoint.{Services, Credentials, validate_grant_type, authenticate_client}
use kexcore_oidc.Grants.DeviceCode.{
  DeviceState, DeviceStore, DeviceTokenRequest, poll_interval, polls_too_fast, poll_state, admit,
  answer, handle_device_code,
}

module _ (d : DeviceStore) where
  open d use {Store, get_state, update_poll, update_interval}

  -- The user approved the code, it is neither denied nor expired, and the last poll is long enough ago.
  pub record IsReady (default_interval : ℕ) (st : DeviceState) (now : ℕ) : Type 0 where
    pub approved : st.done ≡ true
    pub not_denied : st.denied ≡ false
    pub not_expired : now ≤ st.expires
    pub spaced :
        (st.last_poll ≡ none)
        ⊎ ((last : ℕ) × (st.last_poll ≡ some last)
            × (last + poll_interval default_interval st ≤ now))

  not_too_fast :
      (interval : ℕ) (o : Option ℕ) (now : ℕ)
      → polls_too_fast interval o now ≡ false
      → (o ≡ none) ⊎ ((last : ℕ) × (o ≡ some last) × (last + interval ≤ now))
  not_too_fast interval none now h = inl refl
  not_too_fast interval (some last) now h = inr (last, refl, ground arith)

  poll_state-IsReady :
      (default_interval : ℕ) (store : Store) (st : DeviceState) (client_id device_code : String)
      (now : ℕ) (q : DeviceTokenRequest)
      → (poll_state d default_interval store st client_id device_code now).1 ≡ ok q
      → IsReady default_interval st now
        × (q ≡ record { subject = st.subject; client_id = client_id; scopes = st.scopes })
  poll_state-IsReady default_interval store st client_id device_code now q e = (
    record {
      approved = ground arith;
      not_denied = ground arith;
      not_expired = ground arith;
      spaced = not_too_fast (poll_interval default_interval st) st.last_poll now (ground arith);
    },
    ground arith,
  )

  -- Tokens are requested for a device code only if an authenticated client that may use the grant
  -- polls, the store has the code for the client id of the form, the user approved it, it is neither
  -- denied nor expired, and the last poll is at least the interval ago; they are requested for the
  -- user who approved it and the scopes that were approved.
  pub handle_device_code-IsReady :
      (s : Services) (global_dpop global_mtls : Bool) (default_interval : ℕ) (store : Store)
      (r : Context) (form : Credentials) (device_code : String) (now : ℕ) (q : DeviceTokenRequest)
      → (handle_device_code d s global_dpop global_mtls default_interval store r form device_code
          now).1
        ≡ ok q
      → ((c : Client) × (authenticate_client s global_dpop global_mtls r form ≡ ok c)
          × (validate_grant_type c "urn:ietf:params:oauth:grant-type:device_code" ≡ true))
        × ((st : DeviceState) × (get_state store form.client_id device_code ≡ some st)
            × (IsReady default_interval st now
                × (q ≡ record {
                  subject = st.subject;
                  client_id = form.client_id;
                  scopes = st.scopes;
                })))
  unfolding admit handle_device_code
  handle_device_code-IsReady s global_dpop global_mtls default_interval store r form device_code now
        q e =
      by_admission (admit d s global_dpop global_mtls r form device_code) refl
        (get_state store form.client_id device_code) refl e
    where
      by_admission :
          (m : Result OidcError Client)
          → admit d s global_dpop global_mtls r form device_code ≡ m
          → (o : Option DeviceState) → get_state store form.client_id device_code ≡ o
          → (answer d default_interval store form.client_id device_code now m o).1 ≡ ok q
          → ((c : Client) × (authenticate_client s global_dpop global_mtls r form ≡ ok c)
              × (validate_grant_type c "urn:ietf:params:oauth:grant-type:device_code" ≡ true))
            × ((st : DeviceState) × (get_state store form.client_id device_code ≡ some st)
                × (IsReady default_interval st now
                    × (q ≡ record {
                      subject = st.subject;
                      client_id = form.client_id;
                      scopes = st.scopes;
                    })))
      by_admission (err x) admitted o found h = cc
      by_admission (ok c) admitted none found h = cc
      by_admission (ok c) admitted (some st) found h = (
        after_require (device_code != "") invalid_request _ admitted λ named a1.
            after_bind (authenticate_client s global_dpop global_mtls r form) _ a1 λ c1 known a2.
              after_require (validate_grant_type c1 "urn:ietf:params:oauth:grant-type:device_code")
                unauthorized_client _ a2 λ may a3. (c1, known, may),
        (
          st,
          found,
          poll_state-IsReady default_interval store st form.client_id device_code now q h,
        ),
      )

  -- An admitted client with a known code gets what the state answers.
  handle_device_code-poll_state :
      (s : Services) (global_dpop global_mtls : Bool) (default_interval : ℕ) (store : Store)
      (r : Context) (form : Credentials) (device_code : String) (now : ℕ) (c : Client)
      (st : DeviceState)
      → admit d s global_dpop global_mtls r form device_code ≡ ok c
      → get_state store form.client_id device_code ≡ some st
      → handle_device_code d s global_dpop global_mtls default_interval store r form device_code now
        ≡ poll_state d default_interval store st form.client_id device_code now
  unfolding handle_device_code
  handle_device_code-poll_state s global_dpop global_mtls default_interval store r form device_code
        now c st admitted found =
      rw (admitted, found) refl

  -- A poll that was answered with authorization_pending is recorded.
  poll_state-recorded :
      (default_interval : ℕ) (store : Store) (st : DeviceState) (client_id device_code : String)
      (now : ℕ)
      → (poll_state d default_interval store st client_id device_code now).1
        ≡ err authorization_pending
      → (poll_state d default_interval store st client_id device_code now).0
        ≡ update_poll store client_id device_code now
  poll_state-recorded default_interval store st client_id device_code now e = ground arith

  -- For an admitted client and a store that records the time of a poll and changes nothing else of
  -- the state: in the store that a poll leaves which was answered with authorization_pending, a poll
  -- before the interval is over, and before the code expires, is told to slow down, and has the
  -- interval of the code raised by five seconds.
  pub handle_device_code-slow_down :
      (s : Services) (global_dpop global_mtls : Bool) (default_interval : ℕ) (store : Store)
      (r : Context) (form : Credentials) (device_code : String) (t0 t1 : ℕ) (c : Client)
      (st : DeviceState)
      → admit d s global_dpop global_mtls r form device_code ≡ ok c
      → get_state store form.client_id device_code ≡ some st
      → get_state (update_poll store form.client_id device_code t0) form.client_id device_code
        ≡ some (record st { last_poll = some t0 })
      → (store1 : Store)
      → handle_device_code d s global_dpop global_mtls default_interval store r form device_code t0
        ≡ (store1, err authorization_pending)
      → t1 < t0 + poll_interval default_interval st
      → t1 ≤ st.expires
      → handle_device_code d s global_dpop global_mtls default_interval store1 r form device_code t1
        ≡ (update_interval store1 form.client_id device_code 5, err slow_down)
  handle_device_code-slow_down s global_dpop global_mtls default_interval store r form device_code
        t0 t1 c st admitted found recorded store1 e soon fresh =
      let first =
        handle_device_code-poll_state s global_dpop global_mtls default_interval store r form
          device_code t0 c st admitted found in
      let polled : poll_state d default_interval store st form.client_id device_code t0
          ≡ (store1, err authorization_pending) =
        sym first ∙ e in
      let pending : (poll_state d default_interval store st form.client_id device_code t0).1
          ≡ err authorization_pending =
        ap (λ (p : Store × Result OidcError DeviceTokenRequest). p.1) polled in
      let left : update_poll store form.client_id device_code t0 ≡ store1 =
        sym (poll_state-recorded default_interval store st form.client_id device_code t0 pending)
        ∙ ap (λ (p : Store × Result OidcError DeviceTokenRequest). p.0) polled in
      let now_recorded : get_state store1 form.client_id device_code
          ≡ some (record st { last_poll = some t0 }) =
        subst
          (λ (v : Store).
            get_state v form.client_id device_code ≡ some (record st { last_poll = some t0 }))
          left recorded in
      handle_device_code-poll_state s global_dpop global_mtls default_interval store1 r form
        device_code t1 c _ admitted now_recorded
      ∙ ground arith
