-- ===== src/Tests/Device.antt =====
-- pkg/storm/plugins/token/token.go: polling for a device code.
use kexcore_oidc.Grants.Binding.{validate_sender_constraining}
use kexcore_oidc.Grants.Endpoint.{check_method}
use kexcore_oidc.Grants.Endpoint.{credentials}
use kexcore_oidc.Base.{
  ◌+◌, ◌≡◌, refl, true, false, Option, none, some, [], ◌∷◌, arith, ◌==◌, if◌then◌else◌, ok, err,
}
use kexcore_oidc.OidcError.{invalid_client, authorization_pending, slow_down}
use kexcore_oidc.Client.{Client}
use kexcore_oidc.Grants.Endpoint.{Services, Credentials, validate_grant_type, authenticate_client}
use kexcore_oidc.Grants.DeviceCode.{
  DeviceState, DeviceStore, DeviceTokenRequest, admit, handle_device_code,
}
use kexcore_oidc.Grants.Polling.{IsReady, handle_device_code-IsReady, handle_device_code-slow_down}
use kexcore_oidc.Tests.Grants.{app, services, call}

abbrev tv : Client
tv = record app { grant_types = some ("urn:ietf:params:oauth:grant-type:device_code" ∷ []) }

abbrev tv_services : Services
tv_services = record services {
  get_client = λ id. if id == "app" then ok tv else err invalid_client;
}

-- A store of one code.
abbrev one_code : DeviceStore
one_code = record {
  Store = Option DeviceState;
  get_state = λ store client_id device_code. store;
  update_poll = λ store client_id device_code t. elim store [
    | none ↦ none
    | some st ↦ some (record st { last_poll = some t })
  ];
  update_interval = λ store client_id device_code n. elim store [
    | none ↦ none
    | some st ↦ some (record st { interval = st.interval + n })
  ];
}

abbrev waiting : DeviceState
waiting = record {
  subject = "";
  scopes = "openid" ∷ [];
  done = false;
  denied = false;
  expires = 900000000000;
  last_poll = none;
  interval = 5;
}

abbrev approved : DeviceState
approved = record waiting { subject = "user"; done = true }

abbrev tv_form : Credentials
tv_form = record { client_id = "app"; secret = "" }

may_poll : admit one_code tv_services false false call tv_form "dc" ≡ ok tv
unfolding admit authenticate_client credentials check_method validate_sender_constraining
    validate_grant_type
may_poll = refl

ready :
    (handle_device_code one_code tv_services false false 0 (some approved) call tv_form "dc" 100).1
    ≡ ok (record { subject = "user"; client_id = "app"; scopes = "openid" ∷ [] })
unfolding handle_device_code admit authenticate_client credentials check_method
    validate_sender_constraining validate_grant_type
ready = refl

pending :
    handle_device_code one_code tv_services false false 0 (some waiting) call tv_form "dc" 100
    ≡ (some (record waiting { last_poll = some 100 }), err authorization_pending)
unfolding handle_device_code admit authenticate_client credentials check_method
    validate_sender_constraining validate_grant_type
pending = refl

abbrev tv_request : DeviceTokenRequest
tv_request = record { subject = "user"; client_id = "app"; scopes = "openid" ∷ [] }

handle_device_code-IsReady_example :
    ((c : Client) × (authenticate_client tv_services false false call tv_form ≡ ok c)
      × (validate_grant_type c "urn:ietf:params:oauth:grant-type:device_code" ≡ true))
    × ((st : DeviceState) × (one_code.get_state (some approved) "app" "dc" ≡ some st)
        × (IsReady one_code 0 st 100
            × (tv_request
                ≡ record { subject = st.subject; client_id = "app"; scopes = st.scopes })))
handle_device_code-IsReady_example =
    handle_device_code-IsReady one_code tv_services false false 0 (some approved) call tv_form "dc"
      100 tv_request ready

handle_device_code-slow_down_example :
    handle_device_code one_code tv_services false false 0
      (some (record waiting { last_poll = some 100 }))
      call
      tv_form
      "dc"
      200
    ≡ (some (record waiting { last_poll = some 100; interval = 10 }), err slow_down)
handle_device_code-slow_down_example =
    handle_device_code-slow_down one_code tv_services false false 0 (some waiting) call tv_form "dc"
      100 200 tv waiting may_poll refl refl (some (record waiting { last_poll = some 100 })) pending
      (omega arith) (omega arith)
