-- ===== src/Grants/Frame.antt =====
-- pkg/storm/plugins/token/token.go: what the steps of the grant handlers leave as it was in the store.
use kexcore_oidc.Base.{ℕ, ap, Result}
use kexcore_oidc.Base.Action.{Action, Succeeds}
use kexcore_oidc.OidcError.{OidcError}
use kexcore_oidc.Client.{Client}
use kexcore_oidc.Base.Keeps.{Keeps}
use kexcore_oidc.Grants.Plugin.{Server, on_store, change_store, limit_client}

-- A property of the store, as one of the server.
abbrev pub OnStore : {State : Type 0} → (State → Type 0) → Server State → Type 0
OnStore P server = P server.0

module _ {State : Type 0} (P : State → Type 0) where
  pub on_store-Keeps {ℓ} :
      {A : Type ℓ} (m : Action State OidcError A) → Keeps P m → Keeps (OnStore P) (on_store m)
  on_store-Keeps m keeps = record { kept = λ server p. keeps.kept server.0 p }

  pub change_store-Keeps :
      (f : State → State) → ((st : State) → P st → P (f st)) → Keeps (OnStore P) (change_store f)
  change_store-Keeps f h = record { kept = λ server p. h server.0 p }

  pub limit_client-Keeps :
      (c : Client) (now : ℕ) → Keeps (OnStore P) (limit_client {State = State} c now)
  limit_client-Keeps c now = record { kept = λ server p. p }

-- An operation of the store that succeeded on the server did so on the store.
pub on_store-inverse :
    {State : Type 0} {A : Type 0} (m : Action State OidcError A) (server server' : Server State)
    (a : A)
    → Succeeds (on_store m) server server' a
    → Succeeds m server.0 server'.0 a
on_store-inverse {State = State} {A = A} m server server' a e = record {
  outcome = ap (λ (v : Server State × Result OidcError A). (v.0.0, v.1)) e.outcome;
}
