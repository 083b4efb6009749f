-- ===== src/Keyset.antt =====
-- pkg/protocol/keyset.go: choosing the key that a token's signature is verified with.
pub mod Choice
use kexcore_oidc.Base.{
  ℕ, zero, suc, ◌+◌, ◌-◌, ◌*◌, ◌/◌, ◌%◌, ◌≤◌, ◌<◌, String, ◌≡◌, refl, sym, ap, ◌∙◌, fun_ext, ◌≢◌,
  ◌↔◌, ◌⊎◌, inl, inr, Bool, true, false, ◌&&◌, ◌||◌, not, Option, none, some, List, [], ◌∷◌, ◌++◌,
  map, arith, eq_iff, ltb, leb, eqb, ◌==◌, ◌!=◌, if◌then◌else◌, Bool-cases, Option-cases, contains,
  Listed, contains_iff, length, get_elem?, keep, any, length-append, length-keep, keep-append,
  keep-keep, All, Map, lookup, insert, delete, retain, lookup-insert, lookup-delete, length-insert,
  length-delete, length-retain, split, filter_option, lookup-retain, sort, concat, Result, ok, err,
}
use text.Mathlib.Text.{starts_with}

-- A JSON Web Key as the matching reads it (`KeyID`, `KeyUsage`, `KeyType`), with the key itself.
pub record Jwk : Type 0 where
  pub kid : String
  pub use_for : String
  pub kty : String
  pub material : String

pub data KeyError : Type 0 where
  key_multiple key_none : KeyError

-- `KeyUseSignature`.
abbrev pub key_use_signature : String
key_use_signature = "sig"

-- `algToKeyType`.
unfoldable pub alg_to_key_type : Jwk → String → Bool
alg_to_key_type k alg =
    if starts_with alg "RS" || starts_with alg "PS"
    then k.kty == "RSA"
    else if starts_with alg "ES" || (alg == "SGD_SM3_SM2")
    then k.kty == "EC"
    else if alg == "EdDSA"
    then k.kty == "OKP"
    else false

-- The filters at the head of the loop: usage and key type.
abbrev pub is_usable : (use_for alg : String) → Jwk → Bool
is_usable use_for alg k = ((k.use_for == use_for) || (k.use_for == "")) && alg_to_key_type k alg

-- `kid == keyID && keyID != ""`.
abbrev pub is_exact : String → Jwk → Bool
is_exact key_id k = (k.kid == key_id) && (key_id != "")

-- `kid == "" || keyID == ""`.
abbrev pub is_candidate : String → Jwk → Bool
is_candidate key_id k = (k.kid == "") || (key_id == "")

-- What follows the loop.
abbrev pub pick : List Jwk → Result KeyError Jwk
pick [] = err key_none
pick (k ∷ []) = ok k
pick (k ∷ k' ∷ ks) = err key_multiple

-- The loop of `FindMatchingKey` over the keys, with `validKeys` so far.
unfoldable pub find_loop : (key_id use_for alg : String) → List Jwk → List Jwk → Result KeyError Jwk
find_loop key_id use_for alg [] valid = pick valid
find_loop key_id use_for alg (k ∷ ks) valid =
    let valid' =
      if is_usable use_for alg k && is_candidate key_id k then valid ++ k ∷ [] else valid in
    let rest = find_loop key_id use_for alg ks valid' in
    if is_usable use_for alg k && is_exact key_id k then ok k else rest

-- `FindMatchingKey`.
unfoldable pub find_matching_key : (key_id use_for alg : String) → List Jwk → Result KeyError Jwk
unfolding find_loop
find_matching_key key_id use_for alg ks = find_loop key_id use_for alg ks []
