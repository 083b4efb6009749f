-- ===== src/EndSession/Logout.antt =====
-- pkg/storm/plugins/endsession: endsession.go and util.go (OIDC RP-Initiated Logout 1.0).
use kexcore_oidc.Base.{
  ℕ, String, Bool, true, false, ◌&&◌, Option, none, some, [], ◌∷◌, ◌==◌, ◌!=◌, if◌then◌else◌,
  contains, Result, ok, err, ◌>>=◌,
}
use kexcore_oidc.OidcError.{OidcError, invalid_request}
use kexcore_oidc.Client.{Client}
use kexcore_oidc.Grants.Endpoint.{Services}
use kexcore_oidc.Verifier.Checks.{Claims, Codec}
use kexcore_oidc.Verifier.Token.{
  IdTokenHintVerifier, HintResult, valid, hint_expired, invalid, verify_id_token_hint,
}

-- `protocol.EndSessionRequest`.
pub record EndSessionForm : Type 0 where
  pub id_token_hint : String
  pub client_id : String
  pub post_logout_redirect_uri : String
  pub state : String

-- `storm.EndSessionRequest`.
pub record EndSession : Type 0 where
  pub user_id : String
  pub client_id : String
  pub claims : Option Claims
  pub redirect_uri : String
  pub state : String
  pub invalid_redirect_uri : Bool

-- What the browser is sent.
pub data LogoutAnswer : Type 0 where
  logout_error_page logged_out_page : LogoutAnswer
  redirect_to : String → LogoutAnswer

-- `SessionStore`, the logout hook and the URL library.
pub record Logout (State : Type 0) : Type 0 where
  -- `TerminateSession`, its error as `DefaultToServerError` maps it.
  pub terminate : (user_id client_id : String) → State → State × Result OidcError (Unit {0})
  -- `PostLogout`, where there is a hook.
  pub hook : Option ((user_id client_id sid : String) → State → State)
  -- The URI with the query parameter `state`; `none` where `url.Parse` fails.
  pub with_state : (uri state : String) → Option String

-- The client of an ID token.
abbrev pub hint_client : Claims → String
hint_client c =
    if c.client_id != "" then c.client_id else elim c.audience [ [] ↦ "" | a ∷ rest ↦ a ]

-- The session of an ID token hint, which may be expired.
abbrev pub hint_session : HintResult → Result OidcError (Option Claims)
hint_session (valid c) = ok (some c)
hint_session (hint_expired c why) = ok (some c)
hint_session (invalid why) = err invalid_request

-- `validatePostLogoutRedirectURI`.
unfoldable pub validate_post_logout_redirect_uri : Client → (uri : String) → String
validate_post_logout_redirect_uri c uri = elim c.post_logout_redirect_uris [
  | none ↦ ""
  | some uris ↦ if contains uris uri then uri else ""
]

abbrev pub user_of : Option Claims → String
user_of none = ""
user_of (some c) = c.subject

abbrev pub client_of : Option Claims → String
client_of none = ""
client_of (some c) = hint_client c

abbrev pub sid_of : Option Claims → String
sid_of none = ""
sid_of (some c) = c.sid

-- The claims of the hint, where there is a hint; `none` for the verifier is a nil key store.
unfoldable pub hint_claims :
    (k : Codec) (verifier : Option IdTokenHintVerifier) (hint : String)
    → (now : ℕ) → Result OidcError (Option Claims)
hint_claims k verifier hint now = if hint == "" then ok none else elim verifier [
  | none ↦ err invalid_request
  | some v ↦ hint_session (verify_id_token_hint k hint v now)
]

-- The client of the form, which must be the one of the hint.
unfoldable pub bind_client : (form_client hinted : String) → Result OidcError String
bind_client form_client hinted =
    if form_client == ""
    then ok hinted
    else if (hinted != "") && (form_client != hinted)
    then err invalid_request
    else ok form_client

-- The redirect URI, and whether it is refused. A client that is not found leaves both open.
unfoldable pub choose_redirect : (s : Services) (client_id uri : String) → String × Bool
choose_redirect s client_id uri =
    if (uri != "") && (client_id != "")
    then elim (s.get_client client_id) [
      | err e ↦ ("", false)
      | ok c ↦
          if validate_post_logout_redirect_uri c uri != ""
          then (validate_post_logout_redirect_uri c uri, false)
          else ("", true)
    ]
    else ("", false)

-- The post-logout hook, which is called before the session is terminated.
abbrev pub call_hook :
    {State : Type 0}
    → Option ((user_id client_id sid : String) → State → State)
    → EndSession
    → State
    → State
call_hook none e st = st
call_hook (some f) e st = f e.user_id e.client_id (sid_of e.claims) st

module _ {State : Type 0} (o : Logout State) where
  -- The page or the redirect.
  unfoldable pub logout_answer : EndSession → LogoutAnswer
  logout_answer e =
      if e.redirect_uri == ""
      then logged_out_page
      else if e.state == ""
      then redirect_to e.redirect_uri
      else elim (o.with_state e.redirect_uri e.state) [
        | none ↦ redirect_to e.redirect_uri
        | some uri ↦ redirect_to uri
      ]

  abbrev pub finish :
      EndSession → State × Result OidcError (Unit {0}) → State × Result OidcError LogoutAnswer
  finish e (st, ok u) = (st, ok (logout_answer e))
  finish e (st, err why) = (st, err why)

  -- The handler over a request that was validated.
  abbrev pub end_validated :
      State → Result OidcError EndSession → State × Result OidcError LogoutAnswer
  end_validated st (err e) = (st, err e)
  end_validated st (ok e) =
      if e.invalid_redirect_uri
      then (st, ok logout_error_page)
      else finish e (o.terminate e.user_id e.client_id (call_hook o.hook e st))

-- The session to end, for these claims and this client.
abbrev pub validated : Services → EndSessionForm → Option Claims → String → EndSession
validated s form claims client_id = record {
  user_id = user_of claims;
  client_id = client_id;
  claims = claims;
  redirect_uri = (choose_redirect s client_id form.post_logout_redirect_uri).0;
  state = form.state;
  invalid_redirect_uri = (choose_redirect s client_id form.post_logout_redirect_uri).1;
}

module _ (s : Services) (k : Codec) (verifier : Option IdTokenHintVerifier) where
  -- `validateEndSessionRequest`.
  unfoldable pub validate_end_session_request :
      EndSessionForm → (now : ℕ) → Result OidcError EndSession
  validate_end_session_request form now = do
    claims ← hint_claims k verifier form.id_token_hint now
    client_id ← bind_client form.client_id (client_of claims)
    ok (validated s form claims client_id)

  -- `handle` of the end session plugin.
  unfoldable pub handle_end_session :
      {State : Type 0}
      → Logout State
      → EndSessionForm
      → (now : ℕ) → State
      → State × Result OidcError LogoutAnswer
  handle_end_session o form now st = end_validated o st (validate_end_session_request form now)
