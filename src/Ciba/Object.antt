-- ===== src/Ciba/Object.antt =====
-- pkg/storm/plugins/ciba/ciba.go: parseCIBARequestObject (CIBA Core 1.0 §4).
use kexcore_oidc.Base.{
  ℕ, ◌+◌, String, Bool, true, false, not, Option, none, some, List, [], ◌∷◌, leb, eqb, ◌==◌, ◌!=◌,
  if◌then◌else◌, contains, split, Result, ok, err, ◌>>=◌, ◌>>◌, require, expect,
}
use kexcore_oidc.OidcError.{OidcError, invalid_request}
use kexcore_oidc.Client.{Client}
use kexcore_oidc.Grants.Endpoint.{Services}
use kexcore_oidc.Keyset.{Jwk}
use kexcore_oidc.Verifier.Checks.{Codec, ns, middle_of_three}

-- `protocol.CIBARequestObject`; its times are in seconds, and 0 is an absent claim.
pub record CibaRequestObject : Type 0 where
  pub issuer : String
  pub audience : List String
  pub issued_at : ℕ
  pub not_before : ℕ
  pub expires_at : ℕ
  pub jti : String
  pub scope : String
  pub login_hint : String
  pub id_token_hint : String
  pub login_hint_token : String
  pub binding_message : String
  pub user_code : String
  pub requested_expiry : ℕ
  pub client_notification_token : String

-- What the plugin takes from the libraries.
pub record CibaLibrary : Type 0 where
  -- The JSON decoding of a request object.
  pub decode_object : String → Option CibaRequestObject
  -- `jws.Verify` of a token by a set of keys.
  pub verify_by_set : (token : String) → List Jwk → Bool
  -- `strings.TrimSpace`, `strings.Fields` and `len`.
  pub trim : String → String
  pub fields : String → List String
  pub byte_length : String → ℕ
  -- `strconv.Atoi`; a negative number is 0.
  pub atoi : String → Option ℕ

-- The skew, and how far ahead the expiry may lie, in nanoseconds.
abbrev pub object_skew : ℕ
object_skew = 10000000000

abbrev pub max_exp_future : ℕ
max_exp_future = 1800000000000

-- The checks of the time claims and of the identifier.
unfoldable pub check_object_times : CibaRequestObject → (now : ℕ) → Result OidcError (Unit {0})
check_object_times o now = do
  require (not (eqb o.expires_at 0)) invalid_request
  require (leb now (ns o.expires_at + object_skew)) invalid_request
  require (leb (ns o.expires_at) (now + (max_exp_future + object_skew))) invalid_request
  require (not (eqb o.issued_at 0)) invalid_request
  require (not (eqb o.not_before 0)) invalid_request
  require (leb (ns o.not_before) (now + object_skew)) invalid_request
  require (leb now (ns o.not_before + (max_exp_future + object_skew))) invalid_request
  require (o.jti != "") invalid_request

module _ (s : Services) (k : Codec) (l : CibaLibrary) where
  -- `ParseToken` into a request object; an error becomes invalid_request.
  abbrev pub parse_object : (token : String) → Result OidcError CibaRequestObject
  parse_object token = do
    body ← expect (middle_of_three (split b'.' token)) invalid_request
    payload ← expect (k.base64_decode body) invalid_request
    expect (l.decode_object payload) invalid_request

  -- `GetClientByClientID`, its error reported as an invalid request.
  abbrev pub object_client : (client_id : String) → Result OidcError Client
  object_client client_id = elim (s.get_client client_id) [
    | ok c ↦ ok c
    | err e ↦ err invalid_request
  ]

  -- The keys of a client that has `ClientJWKS`: those of its URI, or else its own.
  unfoldable pub object_keys : Client → Result OidcError (List Jwk)
  object_keys c = elim c.jwks [
    | none ↦ err invalid_request
    | some own ↦ elim c.jwks_uri [
      | none ↦ ok own
      | some uri ↦
          if uri == ""
          then ok own
          else elim (s.fetch_jwks uri) [ none ↦ ok own | some fetched ↦ ok fetched ]
    ]
  ]

  -- `len(clientKeys) == 0`.
  abbrev pub is_empty : List Jwk → Bool
  is_empty [] = true
  is_empty (key ∷ keys) = false

  -- `parseCIBARequestObject`.
  unfoldable pub parse_request_object :
      (issuer : String)
      → (request client_id : String) → (now : ℕ) → Result OidcError CibaRequestObject
  parse_request_object issuer request client_id now = do
    o ← parse_object request
    require (o.issuer != "") invalid_request
    require (o.issuer == client_id) invalid_request
    require (contains o.audience issuer) invalid_request
    c ← object_client client_id
    keys ← object_keys c
    require (not (is_empty keys)) invalid_request
    require (l.verify_by_set request keys) invalid_request
    check_object_times o now
    ok o
