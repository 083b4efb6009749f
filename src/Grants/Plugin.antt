-- ===== src/Grants/Plugin.antt =====
-- pkg/storm/plugins/token/token.go: the state that the grant handlers share, the store of the
-- deployment and the per-client timestamps of the plugin.
use kexcore_oidc.Base.{ℕ, String, some, List, Map, Result, ok, err}
use kexcore_oidc.Base.Action.{Action}
use kexcore_oidc.OidcError.{OidcError}
use kexcore_oidc.Client.{Client}
use kexcore_oidc.Grants.Binding.{Context, validate_sender_constraining}
use kexcore_oidc.Grants.Endpoint.{Services, check_client_rate_limit}
use kexcore_oidc.Issue.Response.{Config}

abbrev pub Server : Type 0 → Type 0
Server State = State × Map (List ℕ)

module _ {State : Type 0} where
  abbrev pub attach {ℓ} :
      {A : Type ℓ} → Map (List ℕ) → State × Result OidcError A → Server State × Result OidcError A
  attach limits (st, r) = ((st, limits), r)

  -- An operation of the store.
  abbrev pub on_store {ℓ} :
      {A : Type ℓ} → Action State OidcError A → Action (Server State) OidcError A
  on_store m (st, limits) = attach limits (m st)

  -- A change of the store whose error is ignored.
  abbrev pub change_store : (State → State) → Action (Server State) OidcError (Unit {0})
  change_store f (st, limits) = ((f st, limits), ok tt)

-- `checkClientRateLimit`.
abbrev pub limit_client :
    {State : Type 0} → Client → (now : ℕ) → Action (Server State) OidcError (Unit {0})
limit_client c now (st, limits) =
    let (limits', verdict) = check_client_rate_limit limits c now in ((st, limits'), verdict)

-- The sender-constraining check of the client that a code or a refresh token belongs to, if there is
-- such a client.
abbrev pub constrain_owner :
    Services → Config → (client_id : String) → Context → Result OidcError (Unit {0})
constrain_owner s cfg client_id r = elim (s.get_client client_id) [
  | err e ↦ ok tt
  | ok c ↦ validate_sender_constraining (some c) cfg.require_dpop cfg.require_mtls r
]
