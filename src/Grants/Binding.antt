-- ===== src/Grants/Binding.antt =====
-- pkg/storm/shared/context.go and senderconstraining.go: sender-constrained tokens.
use kexcore_oidc.Base.{
  String, Bool, true, false, ◌&&◌, ◌||◌, not, Option, none, some, ◌==◌, ◌!=◌, if◌then◌else◌, Result,
  ok, ◌>>◌, require,
}
use kexcore_oidc.OidcError.{OidcError, invalid_request}
use kexcore_oidc.Client.{Client}

-- An X.509 certificate, as far as these functions read it.
pub record Certificate : Type 0 where
  -- `CertThumbprint`: base64url of the SHA-256 of the certificate.
  pub thumbprint : String
  -- `cert.CheckSignatureFrom(cert) == nil`.
  pub is_self_signed : Bool
  -- The JWK thumbprint of its public key; `none` if the key type is not supported.
  pub key_thumbprint : Option String

-- A request with what the middlewares put into its context.
pub record Context : Type 0 where
  pub dpop_header : String
  -- `DPoPFromContext`: the proof's JWK thumbprint.
  pub dpop_proof : Option String
  -- `ClientCertFromContext`.
  pub client_cert : Option Certificate
  -- `AuthenticatedClientFromContext`: the client's id.
  pub authenticated : Option String
  pub basic_auth : Option (String × String)

-- The `cnf` claim; `none` is a missing member. An empty map and a nil map are alike to its readers.
pub record Cnf : Type 0 where
  pub jkt : Option String
  pub x5t : Option String

abbrev pub is_some {ℓ} : {A : Type ℓ} → Option A → Bool
is_some none = false
is_some (some x) = true

-- The two requirements against the two proofs, as `ValidateSenderConstraining` and
-- `createTokenResponseFromTokenRequest` check them.
abbrev pub check_proofs :
    (require_dpop require_mtls has_dpop has_mtls : Bool) → Result OidcError (Unit {0})
check_proofs require_dpop require_mtls has_dpop has_mtls =
    if require_dpop && require_mtls then require (has_dpop || has_mtls) invalid_request else do
      require (not (require_dpop && not has_dpop)) invalid_request
      require (not (require_mtls && not has_mtls)) invalid_request

-- The requirements of a client that states them; the global ones if it does not, or is nil.
abbrev pub effective : (global_dpop global_mtls : Bool) → Option Client → Bool × Bool
effective global_dpop global_mtls none = (global_dpop, global_mtls)
effective global_dpop global_mtls (some c) = elim c.sender_constraining [
  | none ↦ (global_dpop, global_mtls)
  | some own ↦ own
]

-- `ValidateSenderConstraining`; the client may be nil.
unfoldable pub validate_sender_constraining :
    Option Client → (global_dpop global_mtls : Bool) → Context → Result OidcError (Unit {0})
validate_sender_constraining client global_dpop global_mtls r =
    let (require_dpop, require_mtls) = effective global_dpop global_mtls client in
    check_proofs require_dpop require_mtls (r.dpop_header != "") (is_some r.client_cert)

abbrev pub presented : Option Certificate → Option String
presented none = none
presented (some cert) = some cert.thumbprint

-- `ResolveCNF`.
unfoldable pub resolve_cnf : Context → Cnf
resolve_cnf r = record { jkt = r.dpop_proof; x5t = presented r.client_cert }

-- `senderConstrainingRequirements`.
unfoldable pub sender_constraining_requirements :
    (global_dpop global_mtls : Bool) → Client → Bool × Bool
sender_constraining_requirements global_dpop global_mtls c =
    if global_dpop || global_mtls
    then (global_dpop, global_mtls)
    else elim c.sender_constraining [ none ↦ (false, false) | some own ↦ own ]

-- The beginning of `createTokenResponseFromTokenRequest`: the `cnf` of the tokens to be issued.
unfoldable pub token_cnf :
    (global_dpop global_mtls : Bool) → Client → Context → Result OidcError Cnf
token_cnf global_dpop global_mtls c r = do
  let (require_dpop, require_mtls) = sender_constraining_requirements global_dpop global_mtls c
  check_proofs require_dpop require_mtls (is_some r.dpop_proof) (is_some r.client_cert)
  let cnf = resolve_cnf r
  ok (record {
    jkt = if is_some r.dpop_proof then cnf.jkt else none;
    x5t = if require_mtls then cnf.x5t else none;
  })

abbrev pub or_empty_text : Option String → String
or_empty_text none = ""
or_empty_text (some s) = s

-- A proof of possession matches: it is there and has the thumbprint.
abbrev pub matches : Option String → String → Bool
matches none bound = false
matches (some thumbprint) bound = thumbprint == bound

-- `VerifyTokenBinding`.
unfoldable pub verify_token_binding : Context → Cnf → Result OidcError (Unit {0})
verify_token_binding r cnf =
    let jkt = or_empty_text cnf.jkt in
    let x5t = or_empty_text cnf.x5t in
    let dpop_ok = matches r.dpop_proof jkt in
    let mtls_ok = matches (presented r.client_cert) x5t in
    if (jkt != "") && (x5t != "") then require (dpop_ok || mtls_ok) invalid_request else do
      require (not (jkt != "") || dpop_ok) invalid_request
      require (not (x5t != "") || mtls_ok) invalid_request
