-- ===== src/Tests/Approval.antt =====
-- pkg/storm/plugins/device: drawing a user code, and its approval.
use kexcore_oidc.Device.Approval.{validate_csrf}
use kexcore_oidc.Base.{
  ℕ, ◌+◌, ◌≤◌, ◌<◌, String, ◌≡◌, refl, ◌≢◌, ◌↔◌, Bool, false, some, List, [], ◌∷◌, eqb, ok,
}
use kexcore_oidc.Device.UserCode.{random_user_code, unique_user_code, unique_user_code_iff}
use kexcore_oidc.Device.Approval.{
  ApprovalStore, ApprovalForm, approved_page, handle_device_approval,
}
use kexcore_oidc.Device.Consent.{IsOwnForm, handle_device_approval-IsOwnForm}

-- The byte drawn in each round; the first code is in the store already.
abbrev draws : ℕ → List ℕ
draws n = n ∷ n ∷ n ∷ n ∷ []

abbrev taken : List ℕ → Bool
taken [] = false
taken (c ∷ cs) = eqb c b'B'

second_round : unique_user_code taken draws 0 3 ≡ ok (b'C' ∷ b'C' ∷ b'-' ∷ b'C' ∷ b'C' ∷ [])
unfolding unique_user_code random_user_code
second_round = refl

unique_user_code_iff_example :
    ((code : List ℕ) × (unique_user_code taken draws 0 3 ≡ ok code))
    ↔ ((n : ℕ) × (0 ≤ n) × ((n < 0 + 3) × (taken (random_user_code (draws n)) ≡ false)))
unique_user_code_iff_example = unique_user_code_iff taken draws 0 3

-- A store that keeps the subject of the approval.
abbrev one_approval : ApprovalStore
one_approval = record {
  Store = String;
  approve = λ store user_code subject. ok subject;
  deny = λ store user_code. ok "";
  trim = λ text. text;
  upper_trim = λ text. text;
}

abbrev approval_form : ApprovalForm
approval_form = record {
  user_code = "CC-CC";
  action = "approve";
  subject = "user";
  csrf_token = "t";
}

approves :
    (handle_device_approval one_approval (some (some "t")) "" approval_form).1 ≡ ok approved_page
unfolding handle_device_approval validate_csrf
approves = refl

handle_device_approval-IsOwnForm_example :
    IsOwnForm (some "t") approval_form.csrf_token
    × ((approval_form.user_code ≢ "")
        × ((approval_form.subject ≢ "")
            × ((approval_form.action ≢ "deny")
                × (one_approval.approve "" approval_form.user_code approval_form.subject
                    ≡ ok
                        (handle_device_approval one_approval
                          (some (some "t"))
                          ""
                          approval_form).0))))
handle_device_approval-IsOwnForm_example =
    handle_device_approval-IsOwnForm one_approval (some "t") "" approval_form approves
