-- ===== src/Dpop/Proof.antt =====
-- pkg/storm/plugins/dpop/util.go: parsing and validating a DPoP proof (RFC 9449 §4.3). The JOSE
-- library, JSON decoding, URL parsing and SHA-256 are the parameter `Jose`.
use kexcore_oidc.Base.{
  ℕ, ◌+◌, ◌*◌, String, Bool, true, false, ◌&&◌, not, Option, none, some, List, [], ◌∷◌, leb, ◌==◌,
  ◌!=◌, Result, ok, ◌>>=◌, ◌>>◌, require, expect, cut_at,
}

-- What `jwk.Export` gives, by the type switches of the plugin. A number is a key's size in bits.
pub data RawKey : Type 0 where
  ecdsa_public : (curve : String) → RawKey
  rsa_public : (bits : ℕ) → RawKey
  ecdsa_private : (curve : String) → RawKey
  rsa_private : (bits : ℕ) → RawKey
  -- Any other key type: Ed25519 keys, public or private, and symmetric keys.
  ed25519_public ed25519_private symmetric : RawKey

-- The protected header of one signature: the fields that `ParseProof` reads.
pub record Header : Type 0 where
  pub jwk : Option String
  pub typ : Option String
  pub alg : String

-- The payload claims; `iat` is in seconds.
pub record Claims : Type 0 where
  pub htm : String
  pub htu : String
  pub ath : String
  pub iat : ℕ
  pub jti : String

pub record Proof : Type 0 where
  pub jkt : String
  pub htm : String
  pub htu : String
  pub ath : String
  pub issued_at : ℕ
  pub unique_id : String
  pub public_key : RawKey

pub data ProofError : Type 0 where
  unparsable no_signatures missing_jwk unmarshallable_jwk invalid_jwk private_jwk : ProofError
  invalid_typ unexportable_key bad_signature bad_payload missing_jti : ProofError
  htm_mismatch htu_mismatch too_old from_the_future no_thumbprint : ProofError

-- What the plugin takes from the JOSE library, encoding/json, net/url and crypto.
pub record Jose : Type 1 where
  pub Key : Type 0
  -- `jws.Parse`: the headers of the signatures.
  pub headers : String → Option (List Header)
  -- `json.Marshal` of the header's jwk value.
  pub marshal_jwk : String → Option String
  -- `jwk.ParseKey`.
  pub parse_key : String → Option Key
  -- `jwk.Export`.
  pub export : Key → Option RawKey
  -- `jws.Verify` of the compact form by an algorithm and a key.
  pub verify : String → String → Key → Bool
  -- `json.Unmarshal` of the payload.
  pub claims : String → Option Claims
  -- `key.Thumbprint(crypto.SHA256)`, in base64url.
  pub thumbprint : Key → Option String
  -- `url.Parse`, then `u.Host = u.Hostname()` and `u.String()`.
  pub drop_port : String → Option String
  -- base64url of the SHA-256 of a text.
  pub sha256 : String → String

-- Times are nanoseconds since the Unix epoch.
abbrev pub second : ℕ
second = 1000000000

-- `MaxProofAge`: five minutes.
abbrev pub max_proof_age : ℕ
max_proof_age = 300 * 1000000000

-- The type switch of `isPrivateKey`.
abbrev pub is_private_raw : RawKey → Bool
is_private_raw (ecdsa_private c) = true
is_private_raw (rsa_private n) = true
is_private_raw _ = false

-- `VerifyPublicKey`.
unfoldable pub verify_public_key : RawKey → Bool
verify_public_key (ecdsa_public c) = c == "P-256"
verify_public_key (rsa_public n) = leb 2048 n
verify_public_key _ = false

-- `sig := msg.Signatures()[0]`, where there is one.
abbrev pub first_header : List Header → Option Header
first_header [] = none
first_header (h ∷ hs) = some h

-- `typVal.(string)`: the empty string if the field is missing.
abbrev pub text_or_empty : Option String → String
text_or_empty none = ""
text_or_empty (some s) = s

module _ (j : Jose) where
  open j use {
    Key, headers, marshal_jwk, parse_key, export, verify, claims, thumbprint, drop_port, sha256,
  }

  unfoldable pub is_private_key : Key → Bool
  is_private_key key = elim (export key) [ none ↦ false | some raw ↦ is_private_raw raw ]

  unfoldable pub normalize_htu : String → String
  normalize_htu raw =
      let cut = cut_at b'?' b'#' raw in elim (drop_port cut) [ none ↦ cut | some u ↦ u ]

  unfoldable pub htu_match : String → String → Bool
  unfolding normalize_htu
  htu_match htu url = normalize_htu htu == normalize_htu url

  -- Steps 3 to 6 of `ParseProof`: the claims against the request, the age, the thumbprint.
  unfoldable pub check_claims :
      Key → RawKey → Claims → (method url : String) → (now : ℕ) → Result ProofError Proof
  check_claims key raw c method url now = do
    require (c.jti != "") missing_jti
    require (c.htm == method) htm_mismatch
    require (htu_match c.htu url) htu_mismatch
    let iat = c.iat * second
    require (leb now (iat + max_proof_age)) too_old
    require (leb iat (now + max_proof_age)) from_the_future
    jkt ← expect (thumbprint key) no_thumbprint
    ok (record {
      jkt = jkt;
      htm = c.htm;
      htu = c.htu;
      ath = c.ath;
      issued_at = iat;
      unique_id = c.jti;
      public_key = raw;
    })

  -- `ParseProof`.
  unfoldable pub parse_proof : (header method url : String) → (now : ℕ) → Result ProofError Proof
  parse_proof header method url now = do
    sigs ← expect (headers header) unparsable
    h ← expect (first_header sigs) no_signatures
    jwk_raw ← expect h.jwk missing_jwk
    jwk_bytes ← expect (marshal_jwk jwk_raw) unmarshallable_jwk
    key ← expect (parse_key jwk_bytes) invalid_jwk
    require (not (is_private_key key)) private_jwk
    require (text_or_empty h.typ == "dpop+jwt") invalid_typ
    raw ← expect (export key) unexportable_key
    require (verify header h.alg key) bad_signature
    c ← expect (claims header) bad_payload
    check_claims key raw c method url now

  -- `ValidateATH`.
  unfoldable pub validate_ath : Proof → String → Bool
  validate_ath proof access_token = (proof.ath != "") && (proof.ath == sha256 access_token)

-- `ValidateBoundToken`, over the token's cnf.jkt claim (`none` if absent or no string).
unfoldable pub validate_bound_token : Option String → Option Proof → Bool
validate_bound_token cnf none = false
validate_bound_token none (some proof) = false
validate_bound_token (some jkt) (some proof) = jkt == proof.jkt
