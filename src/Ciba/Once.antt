-- ===== src/Ciba/Once.antt =====
-- Backchannel authentication across the token endpoint and the CIBA plugin: an auth_req_id is
-- redeemed once.
use kexcore_oidc.Base.{ℕ, String, ◌≡◌, sym, subst, ◌≢◌, Option, some, List, [], ◌∷◌, All, ok, true}
use kexcore_oidc.Grants.Binding.{Context}
use kexcore_oidc.Grants.Endpoint.{Services}
use kexcore_oidc.Issue.Host.{TokenStore, TokenCrypto}
use kexcore_oidc.Issue.Response.{Config, TokenResponse}
use kexcore_oidc.Verifier.Checks.{Codec}
use kexcore_oidc.Issue.Frame.{IsKept}
use kexcore_oidc.Grants.Plugin.{Server}
use kexcore_oidc.Ciba.Store.{consumed, CibaRequest, CibaStore}
use kexcore_oidc.Ciba.Redeem.{handle_ciba}
use kexcore_oidc.Ciba.Redeemed.{handle_ciba-IsRedeemed}
use kexcore_oidc.Ciba.Object.{CibaLibrary}
use kexcore_oidc.Ciba.Authorize.{CibaConfig, BackchannelForm, handle_backchannel_auth}
use kexcore_oidc.Ciba.Approval.{Notifier, ActionForm, handle_approval_action}
use kexcore_oidc.Ciba.Spent.{
  CibaLaws, Spent, consume-Spent, handle_ciba-Keeps, handle_approval_action-Spent,
  handle_backchannel_auth-Spent,
}

-- A request to one of the three handlers that change the store, with all that the handler reads.
pub data CibaCall (State : Type 0) : Type 0 where
  redeem : Config → Context → (auth_req_id client_id : String) → (now : ℕ) → CibaCall State
  act : (csrf : Option (Option String)) → ActionForm → (now : ℕ) → CibaCall State
  begin :
      CibaConfig → Context → BackchannelForm → (random : Option String) → (now : ℕ) → CibaCall State

-- A call does not draw the id anew.
abbrev pub DrawsOther : {State : Type 0} → (id : String) → CibaCall State → Type 0
DrawsOther id (begin cfg r form random now) = random ≢ some id
DrawsOther id (redeem cfg r i client_id now) = Unit
DrawsOther id (act csrf form now) = Unit

module _ (s : Services) (k : Codec) (l : CibaLibrary) (x : TokenCrypto) {State : Type 0}
    (t : TokenStore State) (d : CibaStore State) (n : Option (Notifier State)) where
  -- The server after a call, and after a sequence of calls.
  unfoldable pub after_call : CibaCall State → Server State → Server State
  after_call (redeem cfg r i client_id now) server =
      (handle_ciba s x t d cfg r i client_id now server).0
  after_call (act csrf form now) server =
      ((handle_approval_action s d csrf n form now server.0).0, server.1)
  after_call (begin cfg r form random now) server =
      ((handle_backchannel_auth s k l d cfg r form random now server.0).0, server.1)

  unfoldable pub after_calls : List (CibaCall State) → Server State → Server State
  after_calls [] server = server
  after_calls (call ∷ calls) server = after_calls calls (after_call call server)

  module _ (laws : CibaLaws d) (id : String) (kept : IsKept t (Spent d id))
      (tells : (m : Notifier State)
        → n ≡ some m
        → (q : CibaRequest) (st : State) → Spent d id st
        → Spent d id (m.on_status_change q st)) where
    -- Every call keeps a consumed request consumed.
    after_call-Spent :
        (call : CibaCall State) (server : Server State)
        → DrawsOther id call
        → Spent d id server.0
        → Spent d id (after_call call server).0
    unfolding after_call
    after_call-Spent (redeem cfg r i client_id now) server other spent =
        (handle_ciba-Keeps d laws id s x t kept cfg r i client_id now).kept server spent
    after_call-Spent (act csrf form now) server other spent =
        handle_approval_action-Spent d laws id s x t kept n tells csrf form now server.0 spent
    after_call-Spent (begin cfg r form random now) server other spent =
        handle_backchannel_auth-Spent d laws id s x t kept k l cfg r form random now server.0 other
          spent

    -- However many requests of whatever kind follow, a consumed request stays consumed.
    after_calls-Spent :
        (calls : List (CibaCall State)) (server : Server State)
        → All (DrawsOther id) calls
        → Spent d id server.0
        → Spent d id (after_calls calls server).0
    unfolding after_calls
    after_calls-Spent [] server others spent = spent
    after_calls-Spent (call ∷ calls) server (other, others) spent =
        after_calls-Spent calls (after_call call server) others
          (after_call-Spent call server other spent)

    -- A consumed request yields no tokens.
    Spent-handle_ciba :
        (cfg : Config) (r : Context) (client_id : String) (now : ℕ) (server server' : Server State)
        (resp : TokenResponse)
        → Spent d id server.0
        → handle_ciba s x t d cfg r id client_id now server ≢ (server', ok resp)
    Spent-handle_ciba cfg r client_id now server server' resp spent e =
        let got = handle_ciba-IsRedeemed s x t d cfg r id client_id now server server' resp e in
        let gone = spent got.request got.stored in let yes = got.was_approved in absurd (cc)

    -- When tokens were issued for an auth_req_id, then after any sequence of CIBA requests to the token
    -- endpoint, the approval page and the authentication endpoint, none of which draws the same id
    -- again, another request for tokens with it gets none: whoever asks, and whenever. That is so
    -- where the store does not fail to mark the request as consumed, which the handler only logs; where
    -- an update of the store that succeeds takes effect, and otherwise concerns no status but that of
    -- the request it names; and where the creation of tokens and the notifier leave a request that is
    -- consumed as it is.
    pub handle_ciba-once :
        (marks : (scopes : List String) (st : State)
          → (d.update_status id consumed scopes st).1 ≡ true)
        (cfg : Config) (r : Context) (client_id : String) (now : ℕ) (server server' : Server State)
        (resp : TokenResponse)
        → handle_ciba s x t d cfg r id client_id now server ≡ (server', ok resp)
        → (calls : List (CibaCall State)) → All (DrawsOther id) calls
        → (cfg2 : Config) (r2 : Context) (client2 : String) (later : ℕ) (server2 : Server State)
          (resp2 : TokenResponse)
        → handle_ciba s x t d cfg2 r2 id client2 later (after_calls calls server')
          ≢ (server2, ok resp2)
    handle_ciba-once marks cfg r client_id now server server' resp e calls others cfg2 r2 client2
          later server2 resp2 =
        let got = handle_ciba-IsRedeemed s x t d cfg r id client_id now server server' resp e in
        let spent = subst (Spent d id) (sym got.spent) (
          consume-Spent d laws id got.request.approved_scopes got.created
            (marks got.request.approved_scopes got.created)) in
        Spent-handle_ciba cfg2 r2 client2 later (after_calls calls server') server2 resp2
          (after_calls-Spent calls server' others spent)
