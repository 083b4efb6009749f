-- ===== src/Issue/Frame.antt =====
-- pkg/storm/plugins/token/token.go: what the creation of tokens leaves as it was in a deployment's state.
use kexcore_oidc.Base.{
  ℕ, String, ◌≡◌, refl, inl, inr, Bool, true, false, ◌&&◌, Option, none, some, ◌!=◌, Bool-cases,
  Result,
}
use kexcore_oidc.OidcError.{OidcError}
use kexcore_oidc.Client.{Client, holds}
use kexcore_oidc.Grants.Binding.{Context, Cnf, token_cnf}
use kexcore_oidc.Grants.Endpoint.{validate_grant_type}
use kexcore_oidc.Issue.Request.{TokenRequest, AuthInfo, apply_pairwise}
use kexcore_oidc.Issue.Host.{TokenStore, TokenCrypto}
use kexcore_oidc.Issue.Response.{Config, ResponseOpts, create_token_response}
use kexcore_oidc.Issue.Opaque.{create_access_token}
use kexcore_oidc.Base.Keeps.{Keeps, bind-Keeps, then-Keeps, lift-Keeps, pure-Keeps, change-Keeps}
use kexcore_oidc.Issue.Opaque.{
  opaque_token, create_jwt, create_opaque, mint, refresh_for, by_format,
}
use kexcore_oidc.Issue.Claims.{maybe_encrypt}
use kexcore_oidc.Issue.Response.{save_session, id_token_for}

-- A property of the state that is kept by each operation of the store that creates tokens.
pub record IsKept {State : Type 0} (t : TokenStore State) (P : State → Type 0) : Type 0 where
  pub by_access : (q : TokenRequest) (cnf : Cnf) → Keeps P (t.create_access_token q cnf)
  pub by_both :
      (q : TokenRequest) (current : String) (cnf : Cnf)
      → Keeps P (t.create_access_and_refresh_tokens q current cnf)
  pub by_jwt :
      (make : TokenRequest → Cnf → State → State × Result OidcError (String × (String × ℕ)))
      (q : TokenRequest) (cnf : Cnf)
      → t.create_jwt_access_token ≡ some make
      → Keeps P (make q cnf)
  pub by_refresh :
      (make : TokenRequest → (current : String) → Cnf → State → State × Result OidcError String)
      (q : TokenRequest) (current : String) (cnf : Cnf)
      → t.create_refresh_token ≡ some make
      → Keeps P (make q current cnf)
  pub by_session :
      (save : (subject client_id sid : String) → State → State) (subject client_id sid : String)
      (st : State)
      → t.record_session ≡ some save
      → P st
      → P (save subject client_id sid st)

module _ (x : TokenCrypto) {State : Type 0} (t : TokenStore State) (P : State → Type 0)
    (kept : IsKept t P) where
  mint-Keeps :
      (refresh : Bool) (q : TokenRequest) (current : String) (cnf : Cnf)
      → Keeps P (mint x t refresh q current cnf)
  mint-Keeps true q current cnf = kept.by_both q current cnf
  mint-Keeps false q current cnf =
      bind-Keeps P (t.create_access_token q cnf) _ (kept.by_access q cnf) λ plain. pure-Keeps P _

  create_opaque-Keeps :
      (q : TokenRequest) (refresh : Bool) (current : String) (cnf : Cnf) (now : ℕ)
      → Keeps P (create_opaque x t q refresh current cnf now)
  create_opaque-Keeps q refresh current cnf now =
      bind-Keeps P (mint x t refresh q current cnf) _ (mint-Keeps refresh q current cnf)
        λ made. lift-Keeps P (opaque_token x t made.0 q.subject) _ λ token. pure-Keeps P _

  refresh_for-Keeps :
      (o : Option
        (TokenRequest → (current : String) → Cnf → State → State × Result OidcError String))
      → t.create_refresh_token ≡ o
      → (q : TokenRequest) (refresh : Bool) (current : String) (cnf : Cnf)
      → Keeps P (refresh_for x t o q refresh current cnf)
  refresh_for-Keeps none e q refresh current cnf = pure-Keeps P ""
  refresh_for-Keeps (some make) e q true current cnf = kept.by_refresh make q current cnf e
  refresh_for-Keeps (some make) e q false current cnf = pure-Keeps P ""

  create_jwt-Keeps :
      (make : TokenRequest → Cnf → State → State × Result OidcError (String × (String × ℕ)))
      → t.create_jwt_access_token ≡ some make
      → (q : TokenRequest) (c : Client) (refresh : Bool) (current : String) (cnf : Cnf) (now : ℕ)
      → Keeps P (create_jwt x t make q c refresh current cnf now)
  create_jwt-Keeps make e q c refresh current cnf now =
      bind-Keeps P (make q cnf) _ (kept.by_jwt make q cnf e) λ made.
        lift-Keeps P (maybe_encrypt x c.access_token_encryption c made.1.0) _ λ token.
          bind-Keeps P (refresh_for x t t.create_refresh_token q refresh current cnf) _
            (refresh_for-Keeps t.create_refresh_token refl q refresh current cnf)
            λ refreshed. pure-Keeps P _

  by_format-Keeps :
      (o : Option (TokenRequest → Cnf → State → State × Result OidcError (String × (String × ℕ))))
      → t.create_jwt_access_token ≡ o
      → (jwt : Bool) (q : TokenRequest) (c : Client) (refresh : Bool) (current : String) (cnf : Cnf)
        (now : ℕ)
      → Keeps P (by_format x t o jwt q c refresh current cnf now)
  by_format-Keeps none e jwt q c refresh current cnf now =
      create_opaque-Keeps q refresh current cnf now
  by_format-Keeps (some make) e true q c refresh current cnf now =
      create_jwt-Keeps make e q c refresh current cnf now
  by_format-Keeps (some make) e false q c refresh current cnf now =
      create_opaque-Keeps q refresh current cnf now

  pub create_access_token-Keeps :
      (q : TokenRequest) (c : Client) (issue_refresh : Bool) (current : String) (cnf : Cnf)
      (now : ℕ)
      → Keeps P (create_access_token x t q c issue_refresh current cnf now)
  unfolding create_access_token
  create_access_token-Keeps q c issue_refresh current cnf now =
      by_format-Keeps t.create_jwt_access_token refl (holds c.jwt_access_tokens) q c
        (issue_refresh && validate_grant_type c "refresh_token") current cnf now

  save_session-Keeps :
      (o : Option ((subject client_id sid : String) → State → State))
      → t.record_session ≡ o
      → (q : TokenRequest) (a : Option AuthInfo) → Keeps P (save_session x t o q a)
  save_session-Keeps none e q a = pure-Keeps P tt
  save_session-Keeps (some save) e q none = pure-Keeps P tt
  save_session-Keeps (some save) e q (some a) = elim (Bool-cases (a.sid != "")) [
    | inl here ↦
        rw here (change-Keeps P _ λ st p. kept.by_session save q.subject q.client_id a.sid st e p)
    | inr not_here ↦ rw not_here (pure-Keeps P tt)
  ]

  pub create_token_response-Keeps :
      (cfg : Config) (request : TokenRequest) (c : Client) (r : Context) (opts : ResponseOpts)
      (now : ℕ)
      → Keeps P (create_token_response x t cfg request c r opts now)
  unfolding create_token_response
  create_token_response-Keeps cfg request c r opts now =
      let q = apply_pairwise cfg.pairwise c.id request in
      lift-Keeps P (token_cnf cfg.require_dpop cfg.require_mtls c r) _ λ cnf.
        bind-Keeps P
          (create_access_token x t q c opts.issue_refresh opts.current_refresh_token cnf now) _
          (create_access_token-Keeps q c opts.issue_refresh opts.current_refresh_token cnf now)
          λ issued.
            lift-Keeps P (id_token_for x t cfg q c now issued.access_token opts.code) _ λ id_token.
              then-Keeps P (save_session x t t.record_session q q.auth) _
                (save_session-Keeps t.record_session refl q q.auth) (pure-Keeps P _)
