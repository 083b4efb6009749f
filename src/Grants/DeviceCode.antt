-- ===== src/Grants/DeviceCode.antt =====
-- pkg/storm/plugins/token/token.go: handleDeviceCode (RFC 8628 §3.4), up to the creation of the
-- tokens. The device store is a parameter, whose errors on an update are only logged.
use kexcore_oidc.Base.{
  ℕ, ◌+◌, ◌*◌, String, Bool, false, Option, none, some, List, ltb, ◌!=◌, if◌then◌else◌, Result, ok,
  err, ◌>>=◌, ◌>>◌, require,
}
use kexcore_oidc.OidcError.{
  OidcError, invalid_request, invalid_grant, unauthorized_client, access_denied,
  authorization_pending, slow_down, expired_token,
}
use kexcore_oidc.Client.{Client}
use kexcore_oidc.Grants.Binding.{Context}
use kexcore_oidc.Grants.Endpoint.{Services, Credentials, validate_grant_type, authenticate_client}

-- `DeviceAuthorizationState`, as the handler reads it; `last_poll` is `none` for the zero time, and
-- `interval` is in seconds.
pub record DeviceState : Type 0 where
  pub subject : String
  pub scopes : List String
  pub done : Bool
  pub denied : Bool
  pub expires : ℕ
  pub last_poll : Option ℕ
  pub interval : ℕ

-- `DeviceAuthStore`: the operations that the handler calls.
pub record DeviceStore : Type 1 where
  pub Store : Type 0
  -- `GetDeviceAuthorizationState`.
  pub get_state : Store → (client_id device_code : String) → Option DeviceState
  -- `UpdateDeviceAuthorizationPoll`.
  pub update_poll : Store → (client_id device_code : String) → (last_poll : ℕ) → Store
  -- `UpdateDeviceAuthorizationInterval`, by seconds.
  pub update_interval : Store → (client_id device_code : String) → (increment : ℕ) → Store

-- `deviceTokenRequest`.
pub record DeviceTokenRequest : Type 0 where
  pub subject : String
  pub client_id : String
  pub scopes : List String

-- `p.devicePollInterval`, unless the state has an interval of its own.
abbrev pub poll_interval : (default_interval : ℕ) → DeviceState → ℕ
poll_interval default_interval st =
    if ltb 0 st.interval then st.interval * 1000000000 else default_interval

-- `elapsed < interval` for a client that polled before.
abbrev pub polls_too_fast : (interval : ℕ) → Option ℕ → (now : ℕ) → Bool
polls_too_fast interval none now = false
polls_too_fast interval (some last) now = ltb now (last + interval)

module _ (d : DeviceStore) where
  open d use {Store, get_state, update_poll, update_interval}

  -- The handler from the expiry check on.
  abbrev pub poll_state :
      (default_interval : ℕ)
      → Store
      → DeviceState
      → (client_id device_code : String) → (now : ℕ) → Store × Result OidcError DeviceTokenRequest
  poll_state default_interval store st client_id device_code now =
      if ltb st.expires now
      then (store, err expired_token)
      else if st.denied
      then (store, err access_denied)
      else if polls_too_fast (poll_interval default_interval st) st.last_poll now
      then (update_interval store client_id device_code 5, err slow_down)
      else (
        update_poll store client_id device_code now,
        if st.done
            then ok (record { subject = st.subject; client_id = client_id; scopes = st.scopes })
            else err authorization_pending,
      )

  -- The checks before the state is read.
  unfoldable pub admit :
      Services
      → (global_dpop global_mtls : Bool) → Context
      → Credentials
      → (device_code : String) → Result OidcError Client
  admit s global_dpop global_mtls r form device_code = do
    require (device_code != "") invalid_request
    c ← authenticate_client s global_dpop global_mtls r form
    require (validate_grant_type c "urn:ietf:params:oauth:grant-type:device_code")
        unauthorized_client
    ok c

  -- The handler over the outcome of these checks and the state that the store has.
  abbrev pub answer :
      (default_interval : ℕ)
      → Store
      → (client_id device_code : String) → (now : ℕ) → Result OidcError Client
      → Option DeviceState
      → Store × Result OidcError DeviceTokenRequest
  answer default_interval store client_id device_code now (err e) o = (store, err e)
  answer default_interval store client_id device_code now (ok c) none = (store, err invalid_grant)
  answer default_interval store client_id device_code now (ok c) (some st) =
      poll_state default_interval store st client_id device_code now

  -- `handleDeviceCode`.
  unfoldable pub handle_device_code :
      Services
      → (global_dpop global_mtls : Bool) → (default_interval : ℕ) → Store
      → Context
      → Credentials
      → (device_code : String) → (now : ℕ) → Store × Result OidcError DeviceTokenRequest
  handle_device_code s global_dpop global_mtls default_interval store r form device_code now =
      answer default_interval store form.client_id device_code now
        (admit s global_dpop global_mtls r form device_code)
        (get_state store form.client_id device_code)
