-- ===== src/Ciba/Authorize.antt =====
-- pkg/storm/plugins/ciba/ciba.go: handleBackchannelAuth (CIBA Core 1.0 §7).
use kexcore_oidc.Base.{
  ℕ, ◌+◌, ◌*◌, ◌/◌, String, Bool, true, ◌&&◌, not, Option, none, some, [], ◌∷◌, ltb, leb, eqb, ◌==◌,
  ◌!=◌, if◌then◌else◌, contains, Result, ok, err, ◌>>=◌, ◌>>◌, require, expect,
}
use kexcore_oidc.OidcError.{
  OidcError, invalid_request, invalid_client, unauthorized_client, server_error,
}
use kexcore_oidc.Client.{Client, private_key_jwt, tls_client_auth, holds}
use kexcore_oidc.Grants.Binding.{Context}
use kexcore_oidc.Grants.Endpoint.{Services, Credentials, find_client, check_own_cert}
use kexcore_oidc.OidcError.{invalid_binding_message}
use kexcore_oidc.Verifier.Checks.{Codec}
use kexcore_oidc.Grants.ClientAuth.{authenticate_private_key_jwt, jwt_assertion, or_invalid_client}
use kexcore_oidc.Ciba.Store.{CibaRequest, CibaStore, pending}
use kexcore_oidc.Ciba.Duration.{Duration, ahead, of_int64, is_less, add_time, seconds}
use kexcore_oidc.Ciba.Object.{CibaLibrary, CibaRequestObject, parse_request_object}

-- The form of a backchannel authentication request.
pub record BackchannelForm : Type 0 where
  pub assertion_type : String
  pub assertion : String
  pub client : Credentials
  pub request : String
  pub login_hint : String
  pub id_token_hint : String
  pub login_hint_token : String
  pub binding_message : String
  pub user_code : String
  pub requested_expiry : String
  pub scope : String
  pub notification_token : String

-- The plugin's configuration, in nanoseconds, and the deployment's URLs.
pub record CibaConfig : Type 0 where
  pub lifetime : ℕ
  pub interval : ℕ
  pub issuer : String
  pub bc_endpoint : String
  pub token_endpoint : String

-- `BackchannelAuthResponse`, in seconds.
pub record BackchannelResponse : Type 0 where
  pub auth_req_id : String
  pub expires_in : Duration
  pub interval : ℕ

-- The three hints.
pub record Hints : Type 0 where
  pub login_hint : String
  pub id_token_hint : String
  pub login_hint_token : String

-- `validateCIBAGrantType`.
unfoldable pub validate_ciba_grant_type : Client → Bool
validate_ciba_grant_type c = elim c.grant_types [
  | none ↦ true
  | some allowed ↦ contains allowed "urn:openid:params:grant-type:ciba"
]

-- `if v != "" { form.Set(key, v) }`.
abbrev pub over : (claim form : String) → String
over claim form = if claim != "" then claim else form

abbrev pub hints : BackchannelForm → Hints
hints form = record {
  login_hint = form.login_hint;
  id_token_hint = form.id_token_hint;
  login_hint_token = form.login_hint_token;
}

-- `hintsProvided`.
abbrev pub hints_provided : Hints → ℕ
hints_provided h =
    (if h.login_hint != "" then 1 else 0)
    + ((if h.id_token_hint != "" then 1 else 0) + (if h.login_hint_token != "" then 1 else 0))

-- The checks of the hints: the subject.
unfoldable pub subject_of : Hints → Result OidcError String
subject_of h =
    if eqb (hints_provided h) 0
    then err invalid_request
    else if ltb 1 (hints_provided h)
    then err invalid_request
    else if (h.login_hint == "") && (h.id_token_hint != "")
    then err invalid_request
    else ok h.login_hint

module _ (s : Services) (k : Codec) (l : CibaLibrary) where
  -- `validateClientAuth`.
  unfoldable pub validate_client_auth : Context → Credentials → Result OidcError Credentials
  validate_client_auth r form = elim r.basic_auth [
    | some basic ↦ ok (record { client_id = basic.0; secret = basic.1 })
    | none ↦
        if l.trim form.client_id == ""
        then err invalid_client
        else ok (record { client_id = l.trim form.client_id; secret = l.trim form.secret })
  ]

  -- The check of a client without an assertion, by the method it is registered for.
  unfoldable pub check_backchannel_method :
      Client → Context → Credentials → Result OidcError (Unit {0})
  check_backchannel_method c r given = elim c.auth_method [
    | tls_client_auth ↦ elim r.client_cert [
      | none ↦ err invalid_client
      | some cert ↦ check_own_cert s c cert given.client_id
    ]
    | private_key_jwt ↦ err invalid_client
    | _ ↦ s.authorize_secret given.client_id given.secret
  ]

  -- The client of a request and the client id that the request is kept under.
  unfoldable pub backchannel_client :
      CibaConfig → Context → BackchannelForm → (now : ℕ) → Result OidcError (Client × String)
  backchannel_client cfg r form now =
      if form.assertion_type == jwt_assertion
      then (if form.assertion == ""
          then err invalid_client
          else elim (or_invalid_client (
              authenticate_private_key_jwt s k form.assertion
                (some (λ c. cfg.issuer ∷ cfg.bc_endpoint ∷ cfg.token_endpoint ∷ [])) now)) [
                  | err e ↦ err e
                  | ok c ↦ ok (c, c.id)
                ])
      else elim (validate_client_auth r form.client) [
        | err e ↦ err e
        | ok given ↦ elim (find_client s given.client_id) [
          | err e ↦ err e
          | ok c ↦ elim (check_backchannel_method c r given) [
            | err e ↦ err e
            | ok u ↦ ok (c, given.client_id)
          ]
        ]
      ]

  -- The form with the claims of the request object, if there is one.
  abbrev pub with_object : BackchannelForm → CibaRequestObject → BackchannelForm
  with_object form o = record form {
    login_hint = over o.login_hint (l.trim form.login_hint);
    id_token_hint = over o.id_token_hint (l.trim form.id_token_hint);
    login_hint_token = over o.login_hint_token (l.trim form.login_hint_token);
    binding_message = over o.binding_message form.binding_message;
    user_code = over o.user_code form.user_code;
    scope = over o.scope form.scope;
    notification_token = over o.client_notification_token form.notification_token;
  }

  abbrev pub trimmed : BackchannelForm → BackchannelForm
  trimmed form = record form {
    login_hint = l.trim form.login_hint;
    id_token_hint = l.trim form.id_token_hint;
    login_hint_token = l.trim form.login_hint_token;
  }

  -- The claims of the request object override the form. What comes with it is the requested expiry:
  -- the object's, where it is positive, or else the form's.
  unfoldable pub apply_object :
      CibaConfig
      → BackchannelForm
      → (client_id : String) → (now : ℕ) → Result OidcError (BackchannelForm × Option ℕ)
  apply_object cfg form client_id now =
      let own : Option ℕ =
        if form.requested_expiry == "" then none else l.atoi form.requested_expiry in
      if l.trim form.request == ""
      then ok (trimmed form, own)
      else elim (parse_request_object s k l cfg.issuer (l.trim form.request) client_id now) [
        | err e ↦ err e
        | ok o ↦
            ok (
              with_object form o,
              if ltb 0 o.requested_expiry then some o.requested_expiry else own,
            )
      ]

  -- The lifetime of a request: the configured one, or less where less is asked for. The product
  -- wraps around.
  unfoldable pub lifetime_for : (lifetime : ℕ) → Option ℕ → Duration
  lifetime_for lifetime none = ahead lifetime
  lifetime_for lifetime (some secs) =
      let requested = of_int64 (secs * 1000000000) in
      if ltb 0 secs && is_less requested lifetime then requested else ahead lifetime

  -- What a FAPI client must send.
  abbrev pub has_required_object : Client → BackchannelForm → Bool
  has_required_object c form = not (holds c.fapi_profile && (form.request == ""))

  -- `handleBackchannelAuth`, up to the storing of the request; `random` is what generateRandomID
  -- gives.
  unfoldable pub new_request :
      CibaConfig
      → Context
      → BackchannelForm
      → (random : Option String) → (now : ℕ) → Result OidcError (CibaRequest × Duration)
  new_request cfg r form random now = do
    who ← backchannel_client cfg r form now
    require (validate_ciba_grant_type who.0) unauthorized_client
    require (has_required_object who.0 form) invalid_request
    given ← apply_object cfg form who.1 now
    subject ← subject_of (hints given.0)
    require (leb (l.byte_length (l.trim given.0.binding_message)) 300) invalid_binding_message
    auth_req_id ← expect random server_error
    let lifetime = lifetime_for cfg.lifetime given.1
    ok (
      record {
        auth_req_id = auth_req_id;
        client_id = who.1;
        scope = given.0.scope;
        subject = subject;
        binding_message = l.trim given.0.binding_message;
        user_code = l.trim given.0.user_code;
        requested_scopes = l.fields given.0.scope;
        expires = add_time now lifetime;
        status = pending;
        ping = l.trim given.0.notification_token != "";
        notification_token = l.trim given.0.notification_token;
        approved_scopes = [];
        last_poll = none;
        interval = 0;
      },
      lifetime,
    )

  -- The storing of the request, and the answer.
  abbrev pub store_new :
      {State : Type 0}
      → CibaStore State
      → CibaConfig
      → CibaRequest × Duration
      → State
      → State × Result OidcError BackchannelResponse
  store_new d cfg (q, lifetime) st =
      let (st', stored) = d.store_request q st in
      (
        st',
        if stored
            then ok (record {
              auth_req_id = q.auth_req_id;
              expires_in = seconds lifetime;
              interval = cfg.interval / 1000000000;
            })
            else err server_error,
      )

  -- The handler over the request that it made.
  abbrev pub store_result :
      {State : Type 0}
      → CibaStore State
      → CibaConfig
      → State
      → Result OidcError (CibaRequest × Duration)
      → State × Result OidcError BackchannelResponse
  store_result d cfg st (err e) = (st, err e)
  store_result d cfg st (ok made) = store_new d cfg made st

  -- `handleBackchannelAuth`.
  unfoldable pub handle_backchannel_auth :
      {State : Type 0}
      → CibaStore State
      → CibaConfig
      → Context
      → BackchannelForm
      → (random : Option String) → (now : ℕ) → State
      → State × Result OidcError BackchannelResponse
  handle_backchannel_auth d cfg r form random now st =
      store_result d cfg st (new_request cfg r form random now)
