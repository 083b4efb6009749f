-- ===== src/Grants/Exchange.antt =====
-- pkg/storm/plugins/token/token.go: handleTokenExchange (RFC 8693).
use kexcore_oidc.Base.{
  ℕ, ◌/◌, String, Bool, ◌&&◌, ◌||◌, Option, none, some, List, [], ◌∷◌, ◌==◌, ◌!=◌, if◌then◌else◌,
  contains, Result, ok, err,
}
use kexcore_oidc.Base.Action.{Action, ◌>>=◌, ◌>>◌, pure, fail, lift, check, read}
use kexcore_oidc.OidcError.{
  OidcError, invalid_request, unauthorized_client, unsupported_grant_type, server_error,
}
use kexcore_oidc.Client.{Client}
use kexcore_oidc.Grants.Binding.{Context}
use kexcore_oidc.Grants.Endpoint.{Services, validate_grant_type, authenticate_client}
use kexcore_oidc.Issue.Request.{TokenRequest, merge_audience}
use kexcore_oidc.Issue.Host.{TokenStore, TokenCrypto}
use kexcore_oidc.Issue.Response.{Config}
use kexcore_oidc.Issue.Opaque.{create_access_token, resolve_token}
use kexcore_oidc.Grants.Endpoint.{credentials}
use kexcore_oidc.Verifier.Checks.{Claims, Codec}
use kexcore_oidc.Verifier.Token.{
  AccessTokenVerifier, IdTokenHintVerifier, HintResult, valid, hint_expired, invalid,
  verify_id_token_hint,
}
use kexcore_oidc.Issue.Claims.{create_id_token}

abbrev pub access_token_type : String
access_token_type = "urn:ietf:params:oauth:token-type:access_token"

abbrev pub refresh_token_type : String
refresh_token_type = "urn:ietf:params:oauth:token-type:refresh_token"

abbrev pub id_token_type : String
id_token_type = "urn:ietf:params:oauth:token-type:id_token"

-- `AllTokenTypes`.
abbrev pub all_token_types : List String
all_token_types =
    access_token_type ∷ refresh_token_type ∷ id_token_type ∷ "urn:ietf:params:oauth:token-type:jwt"
    ∷ []

-- `protocol.TokenExchangeRequest`; an empty text is an absent member.
pub record ExchangeForm : Type 0 where
  pub subject_token : String
  pub subject_token_type : String
  pub actor_token : String
  pub actor_token_type : String
  pub requested_token_type : String
  pub audience : List String
  pub resources : List String
  pub scopes : List String

-- The subject or the actor of a token: its subject, the token id or the token, and the claims of an ID
-- token.
pub record Party : Type 0 where
  pub subject : String
  pub token : String
  pub claims : Option Claims

-- `tokenExchangeRequest`.
pub record ExchangeRequest : Type 0 where
  pub subject : Party
  pub subject_token_type : String
  pub actor : Party
  pub actor_token_type : String
  pub client_id : String
  pub audience : List String
  pub resources : List String
  pub scopes : List String
  pub requested_token_type : String

-- `TokenExchangeResponse`; `expires_in` is in seconds.
pub record ExchangeResponse : Type 0 where
  pub access_token : String
  pub id_token : String
  pub refresh_token : String
  pub issued_token_type : String
  pub token_type : String
  pub expires_in : ℕ
  pub scopes : List String

-- `TokenExchangeStore`: both operations are handed the request itself, and may change it.
pub record ExchangeStore (State : Type 0) : Type 0 where
  pub validate : ExchangeRequest → State → State × Result OidcError ExchangeRequest
  -- Its error is ignored.
  pub create : ExchangeRequest → State → State × ExchangeRequest

-- `TokenExchangeExternalVerifierStorage`, for subjects or for actors.
abbrev pub External : Type 0
External = Option ((token token_type : String) → Option Party)

abbrev pub no_party : Party
no_party = record { subject = ""; token = ""; claims = none }

-- As a `storm.TokenRequest`.
abbrev pub exchange_token_request : ExchangeRequest → TokenRequest
exchange_token_request q = record {
  subject = q.subject.subject;
  audience = merge_audience q.audience q.resources;
  client_id = q.client_id;
  scopes = q.scopes;
  nonce = none;
  auth = none;
  extra_claims = none;
}

-- `v == "" ? default : v`.
abbrev pub or_default : (default v : String) → String
or_default default v = if v == "" then default else v

-- The checks of the form, which all answer invalid_request.
unfoldable pub is_exchange_form : ExchangeForm → Bool
is_exchange_form form =
    (form.subject_token != "")
    && ((form.subject_token_type != "")
        && (contains all_token_types form.subject_token_type
            && (((form.actor_token_type == "") || contains all_token_types form.actor_token_type)
                && ((form.requested_token_type == "")
                    || contains all_token_types form.requested_token_type))))

module _ (s : Services) (x : TokenCrypto) (k : Codec) (verifier : Option AccessTokenVerifier)
    (hints : IdTokenHintVerifier) {State : Type 0} (t : TokenStore State) where
  abbrev pub by_external : External → (token token_type : String) → Option Party
  by_external none token token_type = none
  by_external (some f) token token_type = f token token_type

  -- The claims of an ID token, which may be expired; or what the external verifier says.
  abbrev pub by_hint : External → (token : String) → HintResult → Option Party
  by_hint e token (valid c) = some (record { subject = c.subject; token = token; claims = some c })
  by_hint e token (hint_expired c why) =
      some (record { subject = c.subject; token = token; claims = some c })
  by_hint e token (invalid why) = by_external e token id_token_type

  -- `resolveExchangeToken`, and `resolveExchangeActorToken` with the other external verifier.
  unfoldable pub resolve_exchange_token :
      External → (token token_type : String) → (now : ℕ) → State → Option Party
  resolve_exchange_token e token token_type now st =
      if token_type == refresh_token_type
      then elim (t.token_request_by_refresh_token st token) [
        | none ↦ none
        | some req ↦ some (record { subject = req.request.subject; token = token; claims = none })
      ]
      else if token_type == access_token_type
      then elim (resolve_token x k verifier token now) [
        | some (token_id, subject) ↦
            some (record { subject = subject; token = token_id; claims = none })
        | none ↦ by_external e token token_type
      ]
      else if token_type == id_token_type
      then by_hint e token (verify_id_token_hint k token hints now)
      else by_external e token token_type

  -- The actor, where there is an actor token.
  abbrev pub resolve_actor : External → ExchangeForm → (now : ℕ) → State → Option Party
  resolve_actor e form now st =
      if form.actor_token == ""
      then some no_party
      else resolve_exchange_token e form.actor_token
          (or_default access_token_type form.actor_token_type) now st

  -- A failure to create tokens is reported as a server error.
  abbrev pub as_server_error :
      {A : Type 0} → State × Result OidcError A → State × Result OidcError A
  as_server_error (st, ok a) = (st, ok a)
  as_server_error (st, err e) = (st, err server_error)

  abbrev pub or_server_error : {A : Type 0} → Action State OidcError A → Action State OidcError A
  or_server_error m st = as_server_error (m st)

  -- The switch over the requested token type. The tokens are created without a confirmation claim.
  unfoldable pub answer_exchange :
      Config → ExchangeRequest → Client → (now : ℕ) → Action State OidcError ExchangeResponse
  answer_exchange cfg q c now =
      if q.requested_token_type == id_token_type
      then (do
        id_token ←
            or_server_error
              (lift (create_id_token x cfg.issuer (exchange_token_request q) c now "" ""))
        pure (record {
          access_token = "";
          id_token = id_token;
          refresh_token = "";
          issued_token_type = id_token_type;
          token_type = "N_A";
          expires_in = 0;
          scopes = q.scopes;
        }))
      else (do
        issued ← or_server_error (
            create_access_token x t (exchange_token_request q) c
              (q.requested_token_type == refresh_token_type) "" (record { jkt = none; x5t = none })
              now)
        pure (record {
          access_token = issued.access_token;
          id_token = "";
          refresh_token = issued.refresh_token;
          issued_token_type = q.requested_token_type;
          token_type = "Bearer";
          expires_in = issued.validity / 1000000000;
          scopes = q.scopes;
        }))

  -- The request that the store is asked about.
  abbrev pub exchange_request : ExchangeForm → Client → (subject actor : Party) → ExchangeRequest
  exchange_request form c subject actor = record {
    subject = subject;
    subject_token_type = form.subject_token_type;
    actor = actor;
    actor_token_type =
        if (form.actor_token_type == "") && (form.actor_token != "")
        then access_token_type
        else form.actor_token_type;
    client_id = c.id;
    audience = form.audience;
    resources = form.resources;
    scopes = form.scopes;
    requested_token_type = or_default access_token_type form.requested_token_type;
  }

  -- The store's two operations; `none` is a store without token exchange.
  abbrev pub exchange_in_store :
      Option (ExchangeStore State) → ExchangeRequest → Action State OidcError ExchangeRequest
  exchange_in_store none q = fail unsupported_grant_type
  exchange_in_store (some d) q = do
    checked ← d.validate q
    (λ st. ((d.create checked st).0, ok (d.create checked st).1))

  -- `handleTokenExchange`.
  unfoldable pub handle_token_exchange :
      Option (ExchangeStore State)
      → (subjects actors : External) → Config
      → Context
      → ExchangeForm
      → (now : ℕ) → Action State OidcError ExchangeResponse
  handle_token_exchange d subjects actors cfg r form now = do
    check (is_exchange_form form) invalid_request
    given ← lift (credentials s r (record { client_id = ""; secret = "" }))
    c ← lift (authenticate_client s cfg.require_dpop cfg.require_mtls r given)
    check (validate_grant_type c "urn:ietf:params:oauth:grant-type:token-exchange")
        unauthorized_client
    subject ←
        read (resolve_exchange_token subjects form.subject_token form.subject_token_type now)
          invalid_request
    actor ← read (resolve_actor actors form now) invalid_request
    q ← exchange_in_store d (exchange_request form c subject actor)
    answer_exchange cfg q c now
