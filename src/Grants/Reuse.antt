-- ===== src/Grants/Reuse.antt =====
-- pkg/storm/plugins/token/token.go: a code that was presented once is refused from then on.
use kexcore_oidc.Base.{
  ℕ, String, ◌≡◌, refl, sym, ap, ◌∙◌, subst, ◌≢◌, true, Option, none, some, List, [], ◌∷◌, arith,
  eq_iff, ◌!=◌, Result, err,
}
use kexcore_oidc.Base.Action.{◌>>=◌, check_passes, bind_fails}
use kexcore_oidc.Base.Keeps.{
  Keeps, bind-Keeps, bind-reaches, then-Keeps, lift-Keeps, gets-Keeps, check-Keeps, pure-Keeps,
}
use kexcore_oidc.OidcError.{OidcError, invalid_request, invalid_grant}
use kexcore_oidc.Grants.Binding.{Context}
use kexcore_oidc.Grants.Endpoint.{Services, authenticate_client}
use kexcore_oidc.Issue.Request.{resource_aware}
use kexcore_oidc.Issue.Host.{AuthRequest, TokenStore, TokenCrypto}
use kexcore_oidc.Issue.Response.{Config, TokenResponse, create_token_response}
use kexcore_oidc.Issue.Frame.{IsKept, create_token_response-Keeps}
use kexcore_oidc.Grants.Plugin.{Server, on_store, change_store, limit_client, constrain_owner}
use kexcore_oidc.Grants.Frame.{OnStore, on_store-Keeps, change_store-Keeps, limit_client-Keeps}
use kexcore_oidc.Grants.Checks.{CodeForm, check_code}
use kexcore_oidc.Grants.Code.{
  found_code, find_code, track_token, exchange_code, handle_authorization_code,
}

-- The code leads to no authorization request.
abbrev pub Gone : {State : Type 0} → TokenStore State → (code : String) → State → Type 0
Gone t code st = (t.auth_request_by_code code st).1 ≡ none

-- What the documentation of the authorization store asks of it: a successful lookup invalidates the
-- code. And that no other operation brings a code back, a deletion that fails included.
pub record CodeLaws {State : Type 0} (t : TokenStore State) : Type 1 where
  pub invalidated :
      (code : String) (st st' : State) (q : AuthRequest)
      → t.auth_request_by_code code st ≡ (st', some q)
      → Gone t code st'
  pub looked_up :
      (code other : String) (st : State)
      → Gone t code st
      → Gone t code (t.auth_request_by_code other st).0
  pub created : (code : String) → IsKept t (Gone t code)
  pub tracked :
      (track : (auth_request_id token_id : String) → State → State) (i token_id code : String)
      (st : State)
      → t.track_token ≡ some track
      → Gone t code st
      → Gone t code (track i token_id st)
  pub deleted :
      (id code : String) (st : State) → Gone t code st → Gone t code (t.delete_auth_request id st).0
  pub revoked :
      (revoke : String → State → State) (other code : String) (st : State)
      → t.revoke_tokens_for_used_code ≡ some revoke
      → Gone t code st
      → Gone t code (revoke other st)

-- A token request with a code, with all that the handler reads.
pub record CodeCall : Type 0 where
  pub cfg : Config
  pub context : Context
  pub form : CodeForm
  pub now : ℕ

module _ (s : Services) (x : TokenCrypto) {State : Type 0} (t : TokenStore State) where
  -- The server after a sequence of token requests with codes.
  unfoldable pub after_codes : List CodeCall → Server State → Server State
  after_codes [] server = server
  after_codes (call ∷ calls) server =
      after_codes calls
        (handle_authorization_code s x t call.cfg call.context call.form call.now server).0

  module _ (laws : CodeLaws t) (code : String) where
    track_token-Gone :
        (i token_id : String) (st : State)
        (o : Option ((auth_request_id token_id : String) → State → State))
        → t.track_token ≡ o
        → Gone t code st
        → Gone t code (track_token o i token_id st)
    track_token-Gone i token_id st none e gone = gone
    track_token-Gone i token_id st (some track) e gone =
        ground (arith, gone, laws.tracked track i token_id code st e gone)

    -- What follows a lookup does not bring the code back.
    found_code-Gone :
        (other : String) (limits : _) (o : State × Option AuthRequest)
        → Gone t code o.0
        → Gone t code (found_code s x t other limits o).0.0
    found_code-Gone other limits (st, some req) gone = gone
    found_code-Gone other limits (st, none) gone = by_detector t.revoke_tokens_for_used_code refl
      where
        by_detector :
            (revoke : Option (String → State → State))
            → t.revoke_tokens_for_used_code ≡ revoke
            → Gone t code
                (elim revoke as (λ v. Server State × Result OidcError AuthRequest) [
                  | none ↦ ((st, limits), err invalid_grant)
                  | some f ↦ ((f other st, limits), err invalid_grant)
                ]).0.0
        by_detector none e = gone
        by_detector (some f) e = laws.revoked f other code st e gone

    find_code-Keeps : (other : String) → Keeps (OnStore (Gone t code)) (find_code s x t other)
    find_code-Keeps other = record {
      kept = λ server gone.
          found_code-Gone other server.1 (t.auth_request_by_code other server.0)
            (laws.looked_up code other server.0 gone);
    }

    -- After a lookup the code leads to nothing, whether it did before or not.
    find_code-Gone : (server : Server State) → Gone t code (find_code s x t code server).0.0
    find_code-Gone server =
        found_code-Gone code server.1 (t.auth_request_by_code code server.0)
          (by_result (t.auth_request_by_code code server.0) refl)
      where
        by_result :
            (o : State × Option AuthRequest)
            → t.auth_request_by_code code server.0 ≡ o
            → Gone t code o.0
        by_result (st, some req) e = laws.invalidated code server.0 st req e
        by_result (st, none) e =
            subst (Gone t code) (ap (λ (o : State × Option AuthRequest). o.0) e)
              (laws.looked_up code code server.0 (ap (λ (o : State × Option AuthRequest). o.1) e))

    exchange_code-Keeps :
        (cfg : Config) (r : Context) (form : CodeForm) (now : ℕ) (req : AuthRequest)
        → Keeps (OnStore (Gone t code)) (exchange_code s x t cfg r form now req)
    exchange_code-Keeps cfg r form now req =
        let P : Server State → Type 0 = OnStore (Gone t code) in
        lift-Keeps P (constrain_owner s cfg req.request.client_id r) _ λ u.
          lift-Keeps P (authenticate_client s cfg.require_dpop cfg.require_mtls r form.client) _
            λ c. then-Keeps P (limit_client c now) _ (limit_client-Keeps (Gone t code) c now) (
              gets-Keeps P (λ server. t.auth_request_dpop_jkt server.0 req.id) _
                λ jkt. lift-Keeps P (check_code s c req form jkt r) _ λ u1.
                  bind-Keeps P
                    (on_store (
                      create_token_response x t cfg (resource_aware req.resources req.request) c r
                        (record {
                          issue_refresh = true;
                          code = form.code;
                          current_refresh_token = "";
                        })
                        now))
                    _
                    (on_store-Keeps (Gone t code) _ (
                      create_token_response-Keeps x t (Gone t code) (laws.created code) cfg _ c r _
                        now))
                    λ issued.
                      then-Keeps P (change_store (track_token t.track_token req.id issued.1)) _
                        (change_store-Keeps (Gone t code) _
                          λ st gone. track_token-Gone req.id issued.1 st t.track_token refl gone)
                        (then-Keeps P (change_store (λ st. (t.delete_auth_request req.id st).0)) _
                          (change_store-Keeps (Gone t code) _ (laws.deleted req.id code))
                          (pure-Keeps P issued.0)))

    handle_authorization_code-Keeps :
        (cfg : Config) (r : Context) (form : CodeForm) (now : ℕ)
        → Keeps (OnStore (Gone t code)) (handle_authorization_code s x t cfg r form now)
    unfolding handle_authorization_code
    handle_authorization_code-Keeps cfg r form now =
        let P : Server State → Type 0 = OnStore (Gone t code) in
        check-Keeps P (form.code != "") invalid_request _ (
          bind-Keeps P (find_code s x t form.code) _ (find_code-Keeps form.code)
            (exchange_code-Keeps cfg r form now))

    after_codes-Gone :
        (calls : List CodeCall) (server : Server State)
        → Gone t code server.0
        → Gone t code (after_codes calls server).0
    unfolding after_codes
    after_codes-Gone [] server gone = gone
    after_codes-Gone (call ∷ calls) server gone = after_codes-Gone calls _ (
        (handle_authorization_code-Keeps call.cfg call.context call.form call.now).kept server gone)

    -- Whatever became of it, a request with the code uses it up.
    handle_authorization_code-Gone :
        (cfg : Config) (r : Context) (form : CodeForm) (now : ℕ) (server : Server State)
        → form.code ≡ code
        → code ≢ ""
        → Gone t code (handle_authorization_code s x t cfg r form now server).0.0
    unfolding handle_authorization_code
    handle_authorization_code-Gone cfg r form now server same named =
        let first : Gone t code (find_code s x t form.code server).0.0 =
          subst (λ (c : String). Gone t code (find_code s x t c server).0.0) (sym same)
            (find_code-Gone server) in
        let rest = find_code s x t form.code >>= exchange_code s x t cfg r form now in
        subst (λ (o : Server State × Result OidcError TokenResponse). Gone t code o.0.0)
          (sym (check_passes (form.code != "") invalid_request rest server (given form.code same)))
          (bind-reaches (OnStore (Gone t code)) (find_code s x t form.code) _ server first
            (exchange_code-Keeps cfg r form now))
      where
        given : (c : String) → c ≡ code → (c != "") ≡ true
        given c e = ground (arith, eq_iff c "", e, named)

    -- A code that leads to nothing is refused.
    Gone-handle_authorization_code :
        (cfg : Config) (r : Context) (form : CodeForm) (now : ℕ) (server : Server State)
        → form.code ≡ code
        → code ≢ ""
        → Gone t code server.0
        → (handle_authorization_code s x t cfg r form now server).1 ≡ err invalid_grant
    unfolding handle_authorization_code
    Gone-handle_authorization_code cfg r form now server same named gone =
        let rest = find_code s x t form.code >>= exchange_code s x t cfg r form now in
        ap (λ (o : Server State × Result OidcError TokenResponse). o.1)
          (check_passes (form.code != "") invalid_request rest server (given form.code same))
        ∙ bind_fails (find_code s x t form.code) (exchange_code s x t cfg r form now) server
            invalid_grant
            (not_found (t.auth_request_by_code form.code server.0)
              (subst (λ (c : String). Gone t c server.0) (sym same) gone))
      where
        given : (c : String) → c ≡ code → (c != "") ≡ true
        given c e = ground (arith, eq_iff c "", e, named)

        refused :
            (st : State) (revoke : Option (String → State → State))
            → (elim revoke as (λ v. Server State × Result OidcError AuthRequest) [
              | none ↦ ((st, server.1), err invalid_grant)
              | some f ↦ ((f form.code st, server.1), err invalid_grant)
            ]).1
              ≡ err invalid_grant
        refused st none = refl
        refused st (some f) = refl

        not_found :
            (o : State × Option AuthRequest)
            → o.1 ≡ none
            → (found_code s x t form.code server.1 o).1 ≡ err invalid_grant
        not_found (st, none) h = refused st t.revoke_tokens_for_used_code
        not_found (st, some req) h = absurd (cc)

    -- A code is good for one request at most: after a token request with it, whatever became of that
    -- request, and after any sequence of further token requests with codes, whoever presents the code
    -- again gets invalid_grant. That is so where a successful lookup invalidates the code, as the store's
    -- documentation asks, and no other operation of the token endpoint brings a code back.
    pub handle_authorization_code-once :
        (cfg : Config) (r : Context) (form : CodeForm) (now : ℕ) (server : Server State)
        → code ≢ ""
        → form.code ≡ code
        → (calls : List CodeCall) (cfg2 : Config) (r2 : Context) (form2 : CodeForm) (later : ℕ)
        → form2.code ≡ code
        → (handle_authorization_code s x t cfg2 r2 form2 later
            (after_codes calls (handle_authorization_code s x t cfg r form now server).0)).1
          ≡ err invalid_grant
    handle_authorization_code-once cfg r form now server named same calls cfg2 r2 form2 later
          same2 =
        Gone-handle_authorization_code cfg2 r2 form2 later _ same2 named (
          after_codes-Gone calls _
            (handle_authorization_code-Gone cfg r form now server same named))
