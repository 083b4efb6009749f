-- ===== src/Device/Consent.antt =====
-- pkg/storm/plugins/device/device.go: who may approve or deny a device authorization.
use kexcore_oidc.Base.{
  String, ◌≡◌, refl, ap, ◌≢◌, inl, inr, true, Option, none, some, arith, eq_iff, ◌==◌, Bool-cases,
  Result, ok, err,
}
use kexcore_oidc.OidcError.{OidcError, invalid_request}
use kexcore_oidc.Device.Approval.{
  ApprovalStore, ApprovalForm, Page, approved_page, denied_page, validate_csrf, commit,
  handle_device_approval,
}

-- The form repeats the token of the signed cookie, which is there and not blank.
abbrev pub IsOwnForm : (cookie : Option String) → (form_token : String) → Type 0
IsOwnForm cookie form_token = (cookie ≡ some form_token) × (form_token ≢ "")

validate_csrf-IsOwnForm :
    (cookie : Option String) (form_token : String)
    → validate_csrf (some cookie) form_token ≡ true
    → IsOwnForm cookie form_token
unfolding validate_csrf
validate_csrf-IsOwnForm none form_token h = absurd (ground arith)
validate_csrf-IsOwnForm (some cookie) form_token h = elim (Bool-cases (form_token == "")) [
  | inl e ↦ absurd (ground arith)
  | inr e ↦ (
    ap (λ (x : String). some x) ((eq_iff cookie form_token).0 (ground arith)),
    ground (arith, eq_iff form_token ""),
  )
]

module _ (a : ApprovalStore) where
  open a use {Store, approve, deny, trim, upper_trim}

  -- Where a CSRF handler is configured, an authorization is approved only from a form that repeats
  -- the token of the signed cookie, with a user code and a subject that are not blank, and by exactly
  -- one approval of that code for that subject in the store.
  pub handle_device_approval-IsOwnForm :
      (cookie : Option String) (store : Store) (form : ApprovalForm)
      → (handle_device_approval a (some cookie) store form).1 ≡ ok approved_page
      → IsOwnForm cookie form.csrf_token
        × ((upper_trim form.user_code ≢ "")
            × ((trim form.subject ≢ "")
                × ((form.action ≢ "deny")
                    × (approve store (upper_trim form.user_code) (trim form.subject)
                        ≡ ok (handle_device_approval a (some cookie) store form).0))))
  unfolding handle_device_approval
  handle_device_approval-IsOwnForm cookie store form e =
      let code = upper_trim form.user_code in
      let subject = trim form.subject in
      elim (Bool-cases (validate_csrf (some cookie) form.csrf_token)) [
        | inr foreign ↦ absurd (refused (rw foreign at e))
        | inl own ↦ elim (Bool-cases (code == "")) [
          | inl blank ↦ absurd (refused (rw (own, blank) at e))
          | inr named ↦ elim (Bool-cases (form.action == "deny")) [
            | inl denies ↦ absurd (not_approved (deny store code) (rw (own, named, denies) at e))
            | inr approves ↦ elim (Bool-cases (subject == "")) [
              | inl nobody ↦ absurd (refused (rw (own, named, approves, nobody) at e))
              | inr somebody ↦ (
                validate_csrf-IsOwnForm cookie form.csrf_token own,
                (
                  ground (arith, eq_iff code ""),
                  (
                    ground (arith, eq_iff subject ""),
                    (
                      ground (arith, eq_iff form.action "deny"),
                      rw (own, named, approves, somebody)
                          (committed (approve store code subject)
                            (rw (own, named, approves, somebody) at e)),
                    ),
                  ),
                ),
              )
            ]
          ]
        ]
      ]
    where
      refused : ◌≡◌ {A = Result OidcError Page} (err invalid_request) (ok approved_page) → ⊥
      refused h = cc

      not_approved :
          (r : Result OidcError Store) → (commit a store denied_page r).1 ≡ ok approved_page → ⊥
      not_approved (ok changed) h = cc
      not_approved (err x) h = cc

      committed :
          (r : Result OidcError Store)
          → (commit a store approved_page r).1 ≡ ok approved_page
          → r ≡ ok (commit a store approved_page r).0
      committed (ok changed) h = refl
      committed (err x) h = cc
