-- ===== src/Tests/Ciba.antt =====
-- pkg/storm/plugins/ciba and handleCIBA: one client with a certificate, one approved request.
use kexcore_oidc.Issue.Request.{apply_pairwise}
use kexcore_oidc.Issue.Opaque.{create_access_token}
use kexcore_oidc.Grants.Binding.{sender_constraining_requirements}
use kexcore_oidc.Grants.Binding.{token_cnf}
use kexcore_oidc.Issue.Response.{create_token_response}
use kexcore_oidc.Grants.Endpoint.{validate_grant_type}
use kexcore_oidc.Grants.Binding.{validate_sender_constraining}
use kexcore_oidc.Ciba.Redeem.{ciba_client}
use kexcore_oidc.Base.{
  String, ◌≡◌, refl, ap, ◌≢◌, true, false, Bool-cases, inl, inr, Option, none, some, List, [], ◌∷◌,
  eq_iff, ◌==◌, if◌then◌else◌, ok, err,
}
use kexcore_oidc.OidcError.{invalid_client}
use kexcore_oidc.Client.{Client, tls_client_auth}
use kexcore_oidc.Grants.Binding.{Context}
use kexcore_oidc.Grants.Endpoint.{Services}
use kexcore_oidc.Grants.Plugin.{Server}
use kexcore_oidc.Issue.Host.{TokenStore}
use kexcore_oidc.Issue.Response.{TokenResponse}
use kexcore_oidc.Ciba.Store.{CibaRequest, CibaStore, CibaStatus, approved, consumed, pending}
use kexcore_oidc.Ciba.Redeem.{handle_ciba}
use kexcore_oidc.Ciba.Redeemed.{IsRedeemed, handle_ciba-IsRedeemed}
use kexcore_oidc.Ciba.Spent.{CibaLaws}
use kexcore_oidc.Ciba.Once.{CibaCall, act, after_calls, handle_ciba-once}
use kexcore_oidc.Ciba.Object.{CibaLibrary}
use kexcore_oidc.Ciba.Authorize.{CibaConfig, BackchannelForm}
use kexcore_oidc.Tests.Grants.{app, services}
use kexcore_oidc.Tests.Store.{store_over, store_over-IsKept, crypto, config}
use kexcore_oidc.Tests.Verifier.{codec}

abbrev Requests : Type 0
Requests = String → Option CibaRequest

abbrev mark : CibaStatus → List String → Option CibaRequest → Option CibaRequest
mark status scopes none = none
mark status scopes (some q) = some (record q { status = status; approved_scopes = scopes })

-- A store that keeps no poll times.
abbrev requests : CibaStore Requests
requests = record {
  get_request = λ st id. st id;
  store_request = λ q st. (λ id. if q.auth_req_id == id then some q else st id, true);
  update_status =
      λ i status scopes st. (λ id. if i == id then mark status scopes (st id) else st id, true);
  update_poll = λ i now st. st;
  update_interval = λ i n st. st;
}

mark-status :
    (status : CibaStatus) (scopes : List String) (o : Option CibaRequest) (q : CibaRequest)
    → mark status scopes o ≡ some q
    → q.status ≡ status
mark-status status scopes none q e = absurd (cc)
mark-status status scopes (some q0) q e = ap (λ (o : Option CibaRequest). status_of o) (sym_of e)
  where
    status_of : Option CibaRequest → CibaStatus
    status_of none = status
    status_of (some v) = v.status

    sym_of : {a b : Option CibaRequest} → a ≡ b → b ≡ a
    sym_of h = cc

request_laws : CibaLaws requests
request_laws = record {
  status_after = λ i status scopes st j q e. elim (Bool-cases (i == j)) [
    | inl same ↦ inl ((eq_iff i j).0 same, mark-status status scopes (st j) q (rw same at e))
    | inr other ↦ inr (q, rw other at e, refl)
  ];
  status_done = λ i status scopes st q done e.
      mark-status status scopes (st i) q (rw ((eq_iff i i).1 refl) at e);
  poll_after = λ i now st j q e. (q, e, refl);
  interval_after = λ i n st j q e. (q, e, refl);
  store_after = λ made st j q e. elim (Bool-cases (made.auth_req_id == j)) [
    | inl same ↦ inl ((eq_iff made.auth_req_id j).0 same)
    | inr other ↦ inr (rw other at e)
  ];
}

abbrev phone : Client
phone = record app {
  id = "phone";
  auth_method = tls_client_auth;
  sender_constraining = none;
  grant_types = some ("urn:openid:params:grant-type:ciba" ∷ []);
  rate_limit = none;
}

abbrev phone_services : Services
phone_services = record services {
  get_client = λ id. if id == "phone" then ok phone else err invalid_client;
}

abbrev phone_call : Context
phone_call = record {
  dpop_header = "";
  dpop_proof = none;
  client_cert = some (record { thumbprint = "x5t"; is_self_signed = false; key_thumbprint = none });
  authenticated = none;
  basic_auth = none;
}

abbrev one : CibaRequest
one = record {
  auth_req_id = "a1";
  client_id = "phone";
  scope = "profile";
  subject = "user";
  binding_message = "";
  user_code = "";
  requested_scopes = "profile" ∷ [];
  expires = 120000000000;
  status = approved;
  ping = false;
  notification_token = "";
  approved_scopes = "profile" ∷ [];
  last_poll = none;
  interval = 0;
}

abbrev ready : Server Requests
ready = (λ id. if id == "a1" then some one else none, [])

abbrev phone_store : TokenStore Requests
phone_store = store_over Requests (λ code st. (st, none)) (λ id st. (st, true))

abbrev phone_tokens : TokenResponse
phone_tokens = record {
  access_token = "ueat-1:user";
  token_type = "Bearer";
  expires_in = 9;
  scope = "profile" ∷ [];
  id_token = "";
  refresh_token = "";
}

abbrev redeemed : Server Requests
redeemed =
    (λ id. if "a1" == id then mark consumed ("profile" ∷ []) (ready.0 id) else ready.0 id, [])

redeems :
    handle_ciba phone_services crypto phone_store requests config phone_call "a1" "phone" 0 ready
    ≡ (redeemed, ok phone_tokens)
unfolding handle_ciba ciba_client validate_sender_constraining validate_grant_type
    create_token_response token_cnf sender_constraining_requirements create_access_token
    apply_pairwise
redeems = refl

handle_ciba-IsRedeemed_example :
    IsRedeemed phone_services crypto phone_store requests config phone_call "a1" "phone" 0 ready.0
      redeemed.0 phone_tokens
handle_ciba-IsRedeemed_example =
    handle_ciba-IsRedeemed phone_services crypto phone_store requests config phone_call "a1" "phone"
      0 ready redeemed phone_tokens redeems

abbrev library : CibaLibrary
library = record {
  decode_object = λ payload. none;
  verify_by_set = λ token keys. false;
  trim = λ v. if v == " " then "" else v;
  fields = λ v. v ∷ [];
  byte_length = λ v. 5;
  atoi = λ v. if v == "60" then some 60 else none;
}

-- Someone tries to approve the request again before the second attempt.
abbrev between : List (CibaCall Requests)
between = act none (record { auth_req_id = "a1"; action = "approve"; csrf_token = "" }) 1 ∷ []

handle_ciba-once_example :
    handle_ciba phone_services crypto phone_store requests config phone_call "a1" "phone" 2
      (after_calls phone_services codec library crypto phone_store requests none between redeemed)
    ≢ (redeemed, ok phone_tokens)
handle_ciba-once_example =
    handle_ciba-once phone_services codec library crypto phone_store requests none request_laws "a1"
      (store_over-IsKept Requests (λ code st. (st, none)) (λ id st. (st, true)) _)
      (λ m e q st spent. absurd (cc)) (λ scopes st. refl) config phone_call "phone" 0 ready redeemed
      phone_tokens redeems between (tt, tt) config phone_call "phone" 2 redeemed phone_tokens

abbrev ciba_config : CibaConfig
ciba_config = record {
  lifetime = 300000000000;
  interval = 5000000000;
  issuer = "https://op.example";
  bc_endpoint = "https://op.example/bc-authorize";
  token_endpoint = "https://op.example/token";
}

abbrev ciba_form : BackchannelForm
ciba_form = record {
  assertion_type = "";
  assertion = "";
  client = record { client_id = "phone"; secret = "" };
  request = " ";
  login_hint = "user";
  id_token_hint = "";
  login_hint_token = "";
  binding_message = "pay 5";
  user_code = "";
  requested_expiry = "60";
  scope = "profile";
  notification_token = "";
}

abbrev begun : CibaRequest
begun = record one {
  auth_req_id = "a2";
  binding_message = "pay 5";
  expires = 60000000000;
  status = pending;
  approved_scopes = [];
}
