-- ===== src/Ciba/Store.antt =====
-- pkg/storm/storage.go and pkg/protocol/ciba.go: backchannel authentication requests and their store.
use kexcore_oidc.Base.{ℕ, String, Bool, true, false, Option, List}

-- `CIBAStatus`.
pub data CibaStatus : Type 0 where
  pending approved denied consumed : CibaStatus
  other_status : String → CibaStatus

-- `CIBARequest`; `last_poll` is `none` for the zero time, and `interval` is in seconds.
pub record CibaRequest : Type 0 where
  pub auth_req_id : String
  pub client_id : String
  pub scope : String
  pub subject : String
  pub binding_message : String
  pub user_code : String
  pub requested_scopes : List String
  pub expires : ℕ
  pub status : CibaStatus
  -- `DeliveryMode == CIBAModePing`.
  pub ping : Bool
  pub notification_token : String
  pub approved_scopes : List String
  pub last_poll : Option ℕ
  pub interval : ℕ

-- `CIBAStore`; the `Bool` of an update is whether it succeeded.
pub record CibaStore (State : Type 0) : Type 0 where
  -- `GetCIBARequestByAuthReqID`.
  pub get_request : State → (auth_req_id : String) → Option CibaRequest
  -- `StoreCIBARequest`.
  pub store_request : CibaRequest → State → State × Bool
  -- `UpdateCIBARequestStatus`.
  pub update_status : (auth_req_id : String) → CibaStatus → List String → State → State × Bool
  -- `UpdateCIBAPoll` and `UpdateCIBAInterval`, whose errors are only logged.
  pub update_poll : (auth_req_id : String) → (last_poll : ℕ) → State → State
  pub update_interval : (auth_req_id : String) → (increment : ℕ) → State → State

-- `cibaReq.Status` is consumed.
abbrev pub is_consumed : CibaStatus → Bool
is_consumed consumed = true
is_consumed _ = false

abbrev pub is_pending : CibaStatus → Bool
is_pending pending = true
is_pending _ = false
