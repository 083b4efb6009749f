-- ===== src/AuthRequest/Params.antt =====
-- pkg/storm/shared/authrequest.go: validating the parameters of an authorization request, without
-- its redirect URI.
use kexcore_oidc.Base.{
  ℕ, String, Bool, true, false, ◌&&◌, ◌||◌, not, Option, none, some, List, [], ◌∷◌, ◌==◌, ◌!=◌,
  if◌then◌else◌, contains, keep, Result, ok, err, ◌>>=◌, ◌>>◌, require,
}
use kexcore_oidc.OidcError.{
  OidcError, invalid_request, invalid_scope, unauthorized_client, unsupported_response_type,
}
use kexcore_oidc.Client.{Client, holds}

-- The fields of `protocol.AuthRequest` that the validation reads or writes.
pub record AuthRequest : Type 0 where
  pub scopes : List String
  pub response_type : String
  pub redirect_uri : String
  pub nonce : String
  pub prompt : List String
  pub max_age : Option ℕ
  pub code_challenge : String
  pub code_challenge_method : String

-- The first loop of `ValidatePrompt`: whether "none" stands in the list, and anything else.
abbrev pub scan_prompt : List String → Bool × Bool
scan_prompt [] = (false, false)
scan_prompt (p ∷ ps) =
    let rest = scan_prompt ps in if p == "none" then (true, rest.1) else (rest.0, true)

-- The second loop: "login" sets max_age to 0; every other value changes nothing.
abbrev pub apply_prompt : List String → AuthRequest → AuthRequest
apply_prompt [] r = r
apply_prompt (p ∷ ps) r =
    apply_prompt ps (if p == "login" then record r { max_age = some 0 } else r)

-- `ValidatePrompt`; the request comes back as it was mutated.
unfoldable pub validate_prompt : AuthRequest → Result OidcError AuthRequest
validate_prompt r = do
  require (not ((scan_prompt r.prompt).0 && (scan_prompt r.prompt).1)) invalid_request
  ok (apply_prompt r.prompt r)

-- The scopes that lenient validation keeps for every client.
abbrev pub standard_scopes : List String
standard_scopes = "openid" ∷ "profile" ∷ "email" ∷ "phone" ∷ "address" ∷ "offline_access" ∷ []

-- `sp.IsScopeAllowed(scope)`, or false where the client has no such method.
abbrev pub scope_allowed : Client → String → Bool
scope_allowed c scope = elim c.is_scope_allowed [ none ↦ false | some f ↦ f scope ]

-- The loop of strict validation.
abbrev pub check_strict : Client → List String → Result OidcError (Unit {0})
check_strict c [] = ok tt
check_strict c (s ∷ ss) =
    let rest = check_strict c ss in
    if s == "openid" then rest else if scope_allowed c s then rest else err invalid_scope

-- The test that `slices.DeleteFunc` negates in lenient validation.
abbrev pub keep_scope : Client → String → Bool
keep_scope c scope = contains standard_scopes scope || scope_allowed c scope

-- `ValidateScopes`.
unfoldable pub validate_scopes : Client → AuthRequest → List String → Result OidcError AuthRequest
validate_scopes c r defaults = elim r.scopes [
  | [] ↦ elim defaults [ [] ↦ err invalid_request | d ∷ ds ↦ ok (record r { scopes = d ∷ ds }) ]
  | s ∷ ss ↦
      if holds c.strict_scope_validation
      then (check_strict c (s ∷ ss) >> ok r)
      else ok (record r { scopes = keep (keep_scope c) (s ∷ ss) })
]

-- `ValidatePKCE`.
unfoldable pub validate_pkce : AuthRequest → Result OidcError (Unit {0})
validate_pkce r =
    if r.code_challenge == ""
    then ok tt
    else require (contains ("" ∷ "plain" ∷ "S256" ∷ []) r.code_challenge_method) invalid_request

-- The response types of `ValidateNonce`.
abbrev pub needs_nonce : String → Bool
needs_nonce rt =
    contains ("id_token" ∷ "id_token token" ∷ "code id_token" ∷ "code id_token token" ∷ []) rt

-- `ValidateNonce`.
unfoldable pub validate_nonce : AuthRequest → Result OidcError (Unit {0})
validate_nonce r = require (not (needs_nonce r.response_type && (r.nonce == ""))) invalid_request

-- `len(allowed) > 0 && !slices.Contains(allowed, responseType)`, negated.
abbrev pub response_type_allowed : Option (List String) → String → Bool
response_type_allowed none rt = true
response_type_allowed (some []) rt = true
response_type_allowed (some (t ∷ ts)) rt = contains (t ∷ ts) rt

-- `ValidateResponseType`.
unfoldable pub validate_response_type : Client → String → Result OidcError (Unit {0})
validate_response_type c rt = do
  require (rt != "") invalid_request
  require (not (holds c.fapi_profile && (rt != "code"))) unsupported_response_type
  require (response_type_allowed c.response_types rt) unauthorized_client

-- `ValidateAuthRequestParamsExceptRedirectURI`.
unfoldable pub validate_params_except_redirect_uri :
    Client → AuthRequest → List String → Result OidcError AuthRequest
validate_params_except_redirect_uri c r defaults = do
  r1 ← validate_prompt r
  r2 ← validate_scopes c r1 defaults
  require (not (holds c.fapi_profile && (r2.code_challenge == ""))) invalid_request
  validate_pkce r2
  validate_nonce r2
  validate_response_type c r2.response_type
  ok r2
