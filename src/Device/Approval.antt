-- ===== src/Device/Approval.antt =====
-- pkg/storm/plugins/device/device.go and util.go: the approval of a device authorization by its user.
-- Template rendering, cookies and the device store are parameters.
use kexcore_oidc.Base.{
  String, Bool, true, false, not, Option, none, some, ◌==◌, if◌then◌else◌, Result, ok, err,
}
use kexcore_oidc.OidcError.{OidcError, invalid_request}

-- The store, with the operations of `DeviceAuthStore` that the approval calls; `err` is their error,
-- as `DefaultToServerError` maps it.
pub record ApprovalStore : Type 1 where
  pub Store : Type 0
  -- `ApproveDeviceAuthorization`.
  pub approve : Store → (user_code subject : String) → Result OidcError Store
  -- `DenyDeviceAuthorization`.
  pub deny : Store → (user_code : String) → Result OidcError Store
  -- `strings.TrimSpace`, and `strings.ToUpper` after it.
  pub trim : String → String
  pub upper_trim : String → String

-- The form of the approval page.
pub record ApprovalForm : Type 0 where
  pub user_code : String
  pub action : String
  pub subject : String
  pub csrf_token : String

-- The page that is shown.
pub data Page : Type 0 where
  approved_page denied_page : Page

-- `validateCSRF`: `none` is no CSRF handler, and `some` what `CheckCookie` of the handler gives.
unfoldable pub validate_csrf : Option (Option String) → (form_token : String) → Bool
validate_csrf none form_token = true
validate_csrf (some none) form_token = false
validate_csrf (some (some cookie)) form_token =
    if form_token == "" then false else cookie == form_token

module _ (a : ApprovalStore) where
  open a use {Store, approve, deny, trim, upper_trim}

  -- The answer to a change of the store: its error leaves the store as it was.
  abbrev pub commit : Store → Page → Result OidcError Store → Store × Result OidcError Page
  commit store page (ok changed) = (changed, ok page)
  commit store page (err e) = (store, err e)

  -- `handleDeviceApproval`, after the form is parsed.
  unfoldable pub handle_device_approval :
      (csrf : Option (Option String)) → Store → ApprovalForm → Store × Result OidcError Page
  handle_device_approval csrf store form =
      let user_code = upper_trim form.user_code in
      let subject = trim form.subject in
      if not (validate_csrf csrf form.csrf_token)
      then (store, err invalid_request)
      else if user_code == ""
      then (store, err invalid_request)
      else if form.action == "deny"
      then commit store denied_page (deny store user_code)
      else if subject == ""
      then (store, err invalid_request)
      else commit store approved_page (approve store user_code subject)
