-- ===== src/Ciba/Begun.antt =====
-- pkg/storm/plugins/ciba/ciba.go: which backchannel requests are stored.
use kexcore_oidc.Base.{◌*◌, ◌⊎◌, ℕ, ◌+◌, ◌≤◌, ◌≡◌, true, Option, some, [], ok}
use kexcore_oidc.OidcError.{OidcError}
use kexcore_oidc.Client.{Client}
use kexcore_oidc.Grants.Binding.{Context}
use kexcore_oidc.Grants.Endpoint.{Services}
use kexcore_oidc.Verifier.Checks.{Codec}
use kexcore_oidc.Ciba.Duration.{Duration}
use kexcore_oidc.Ciba.Store.{CibaRequest, pending}
use kexcore_oidc.Ciba.Object.{CibaLibrary}
use kexcore_oidc.Ciba.Authorize.{
  CibaConfig, BackchannelForm, hints, hints_provided, backchannel_client, validate_ciba_grant_type,
  apply_object,
}

-- What holds of a request that is to be stored.
pub record IsBegun (s : Services) (k : Codec) (l : CibaLibrary) (cfg : CibaConfig) (r : Context)
    (form : BackchannelForm) (now : ℕ) (q : CibaRequest) : Type 0 where
  pub client : Client
  pub full : BackchannelForm × Option ℕ
  pub who : backchannel_client s k l cfg r form now ≡ ok (client, q.client_id)
  pub granted : validate_ciba_grant_type client ≡ true
  pub applied : apply_object s k l cfg form q.client_id now ≡ ok full
  -- At most one hint is given, and the subject is the login hint.
  pub one_hint : hints_provided (hints full.0) ≡ 1
  pub for_subject : q.subject ≡ full.0.login_hint
  pub waiting : q.status ≡ pending
  pub unapproved : q.approved_scopes ≡ []
  -- Not expired already, unless the lifetime that was asked for overflows a duration.
  pub not_past :
      (now ≤ q.expires)
      ⊎ ((secs : ℕ) × (full.1 ≡ some secs) × (9223372036854775808 ≤ secs * 1000000000))
  pub in_lifetime : q.expires ≤ now + cfg.lifetime
