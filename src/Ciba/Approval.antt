-- ===== src/Ciba/Approval.antt =====
-- pkg/storm/plugins/ciba/ciba.go: the approval page, handleApprovalAction and handleApprovalPage.
use kexcore_oidc.Base.{
  ℕ, String, Bool, true, false, ◌&&◌, ◌||◌, not, Option, none, some, [], ltb, ◌==◌, if◌then◌else◌,
  Result, ok, err,
}
use kexcore_oidc.OidcError.{OidcError, invalid_request, server_error, expired_token}
use kexcore_oidc.Client.{Client}
use kexcore_oidc.Grants.Endpoint.{Services}
use kexcore_oidc.Device.Approval.{validate_csrf}
use kexcore_oidc.Ciba.Store.{CibaRequest, CibaStore, approved, denied, is_pending}

-- The form of the page; its action and its id after `strings.TrimSpace`.
pub record ActionForm : Type 0 where
  pub auth_req_id : String
  pub action : String
  pub csrf_token : String

-- What the page shows besides the request.
pub data CibaPage : Type 0 where
  empty_page unknown_page : CibaPage
  processed_page expired_page open_page : CibaRequest → CibaPage

-- What the notifier is told, where there is a notifier, and the check of the endpoint's URL.
pub record Notifier (State : Type 0) : Type 0 where
  pub allow_private_ips : Bool
  -- `NotificationEndpoint()`, where the client has one.
  pub endpoint : Client → Option String
  -- `ValidateRemoteURL(url) == nil`.
  pub valid_url : String → Bool
  -- `OnCIBAStatusChange`, whose error is ignored.
  pub on_status_change : CibaRequest → State → State

module _ (s : Services) {State : Type 0} (d : CibaStore State) where
  -- `handleApprovalPage`: the page that is rendered.
  unfoldable pub handle_approval_page : (auth_req_id : String) → (now : ℕ) → State → CibaPage
  handle_approval_page auth_req_id now st =
      if auth_req_id == "" then empty_page else elim (d.get_request st auth_req_id) [
        | none ↦ unknown_page
        | some q ↦
            if not (is_pending q.status)
            then processed_page q
            else if ltb q.expires now
            then expired_page q
            else open_page q
      ]

  -- `validateNotificationEndpoint`: whether the client may be told.
  unfoldable pub valid_notification_endpoint : Notifier State → (client_id : String) → Bool
  valid_notification_endpoint n client_id = elim (s.get_client client_id) [
    | err e ↦ false
    | ok c ↦ elim (n.endpoint c) [ none ↦ true | some url ↦ (url == "") || n.valid_url url ]
  ]

  -- `notifyStatusChange`.
  unfoldable pub notify_status_change : Option (Notifier State) → CibaRequest → State → State
  notify_status_change none q st = st
  notify_status_change (some n) q st =
      if not q.ping
      then st
      else if not n.allow_private_ips && not (valid_notification_endpoint n q.client_id)
      then st
      else n.on_status_change q st

  -- A change of the status, and then the notification.
  abbrev pub settle :
      Option (Notifier State) → CibaRequest → State × Bool → State × Result OidcError (Unit {0})
  settle n q (st, true) = (notify_status_change n q st, ok tt)
  settle n q (st, false) = (st, err server_error)

  -- The switch over the action.
  unfoldable pub decide :
      Option (Notifier State)
      → (auth_req_id action : String) → CibaRequest
      → State
      → State × Result OidcError (Unit {0})
  decide n auth_req_id action q st =
      if action == "approve"
      then settle n (record q { status = approved; approved_scopes = q.requested_scopes })
          (d.update_status auth_req_id approved q.requested_scopes st)
      else if action == "deny"
      then settle n (record q { status = denied }) (d.update_status auth_req_id denied [] st)
      else (st, err invalid_request)

  -- The handler over the request that the store has.
  abbrev pub act_on :
      Option (Notifier State)
      → (auth_req_id action : String) → (now : ℕ) → State
      → Option CibaRequest
      → State × Result OidcError (Unit {0})
  act_on n auth_req_id action now st none = (st, err invalid_request)
  act_on n auth_req_id action now st (some q) =
      if not (is_pending q.status)
      then (st, err invalid_request)
      else if ltb q.expires now
      then (st, err expired_token)
      else decide n auth_req_id action q st

  -- `handleApprovalAction`.
  unfoldable pub handle_approval_action :
      (csrf : Option (Option String))
      → Option (Notifier State)
      → ActionForm
      → (now : ℕ) → State
      → State × Result OidcError (Unit {0})
  handle_approval_action csrf n form now st =
      if not (validate_csrf csrf form.csrf_token)
      then (st, err invalid_request)
      else if (form.auth_req_id == "") || (form.action == "")
      then (st, err invalid_request)
      else act_on n form.auth_req_id form.action now st (d.get_request st form.auth_req_id)
