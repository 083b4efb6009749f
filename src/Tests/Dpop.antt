-- ===== src/Tests/Dpop.antt =====
-- pkg/storm/plugins/dpop: a proof, its replay, and the nonces, on one request.
use kexcore_oidc.Base.{cut_at}
use kexcore_oidc.Base.{
  ℕ, ◌≤◌, String, ◌≡◌, refl, ◌≢◌, ◌↔◌, Bool, true, false, none, some, List, [], ◌∷◌, arith, eq_iff,
  ◌==◌, if◌then◌else◌, length, Map, lookup, insert, ok,
}
use kexcore_oidc.Dpop.Proof.{
  RawKey, ecdsa_public, Claims, Proof, Jose, is_private_key, normalize_htu, htu_match, check_claims,
  parse_proof,
}
use kexcore_oidc.Dpop.Cache.{
  Plugin, new_plugin, max_nonce_cache_size, evict_oldest, cleanup_nonce_cache, validate_nonce,
  Request, next, check_replay, middleware,
}
use kexcore_oidc.Dpop.Soundness.{IsValidProof, parse_proof_iff}
use kexcore_oidc.Dpop.Eviction.{middleware-bounded}
use kexcore_oidc.Dpop.Replay.{middleware-no_replay, middleware-replay_after_cleanup}
use kexcore_oidc.Dpop.Replay
use kexcore_oidc.Dpop.Nonce.{validate_nonce_iff, validate_nonce-once, generate_nonce-validate_nonce}
use kexcore_oidc.Dpop.Nonce

abbrev proof_claims : Claims
proof_claims = record {
  htm = "POST";
  htu = "https://op.example/token?x=1";
  ath = "";
  iat = 1000;
  jti = "id-1";
}

-- One key, one proof; the signature verifies under ES256.
abbrev jose : Jose
jose = record {
  Key = RawKey;
  headers = λ h.
      if h == "proof"
      then some ((record { jwk = some "jwk"; typ = some "dpop+jwt"; alg = "ES256" }) ∷ [])
      else none;
  marshal_jwk = λ raw. some raw;
  parse_key = λ bytes. some (ecdsa_public "P-256");
  export = λ key. some key;
  verify = λ token alg key. alg == "ES256";
  claims = λ token. some proof_claims;
  thumbprint = λ key. some "thumb";
  drop_port = λ url. some url;
  sha256 = λ text. text;
}

abbrev token_request : Request
token_request = record {
  dpop_headers = "proof" ∷ [];
  method = "POST";
  tls = true;
  host = "op.example";
  url = "/token";
}

abbrev proof_of : Proof
proof_of = record {
  jkt = "thumb";
  htm = "POST";
  htu = "https://op.example/token?x=1";
  ath = "";
  issued_at = 1000000000000;
  unique_id = "id-1";
  public_key = ecdsa_public "P-256";
}

parsed_test : parse_proof jose "proof" "POST" "https://op.example/token" 1000000000000 ≡ ok proof_of
unfolding parse_proof check_claims is_private_key htu_match normalize_htu cut_at
parsed_test = refl

passes : (middleware jose new_plugin token_request 1000000000000).1 ≡ next (some proof_of)
unfolding middleware check_replay evict_oldest new_plugin parse_proof check_claims is_private_key
    htu_match normalize_htu cut_at lookup
passes = refl

parse_proof_iff_example :
    (parse_proof jose "proof" "POST" "https://op.example/token" 1000000000000 ≡ ok proof_of)
    ↔ IsValidProof jose "proof" "POST" "https://op.example/token" 1000000000000 proof_of
parse_proof_iff_example =
    parse_proof_iff jose "proof" "POST" "https://op.example/token" 1000000000000 proof_of

abbrev between : List Replay.Event
between = Replay.cleanup 1100000000000 ∷ []

middleware-no_replay_example :
    (middleware jose
      (Replay.run (middleware jose new_plugin token_request 1000000000000).0 between)
      token_request
      1200000000000).1
    ≢ next (some proof_of)
unfolding middleware check_replay evict_oldest new_plugin parse_proof check_claims is_private_key
    htu_match normalize_htu cut_at lookup insert
middleware-no_replay_example =
    middleware-no_replay jose new_plugin token_request 1000000000000 1200000000000 proof_of proof_of
      between refl (omega arith) (omega arith, tt) (omega arith)

middleware-replay_after_cleanup_example :
    (middleware jose
      (cleanup_nonce_cache (middleware jose new_plugin token_request 800000000000).0 1150000000000)
      token_request
      1150000000000).1
    ≡ next (some proof_of)
unfolding middleware check_replay evict_oldest new_plugin parse_proof check_claims is_private_key
    htu_match normalize_htu cut_at lookup
middleware-replay_after_cleanup_example =
    middleware-replay_after_cleanup jose new_plugin token_request 800000000000 1150000000000
      proof_of refl (omega arith) (omega arith)

middleware-bounded_example :
    length (middleware jose new_plugin token_request 1000000000000).0.used_nonces
    ≤ max_nonce_cache_size
unfolding new_plugin
middleware-bounded_example =
    middleware-bounded jose new_plugin token_request 1000000000000 (omega arith)

abbrev three : Map ℕ
three = ("b", 20) ∷ ("a", 10) ∷ ("c", 30) ∷ []

abbrev named : String
named = "n"

abbrev with_nonce : Plugin
with_nonce = record { used_nonces = []; nonces = ("n", 100) ∷ [] }

validate_nonce-once_example :
    (validate_nonce (Nonce.run (validate_nonce with_nonce "n" 200).0 []) "n" 300).1 ≡ false
unfolding validate_nonce lookup
validate_nonce-once_example = validate_nonce-once with_nonce "n" 200 300 [] refl

named-nonempty : named ≢ ""
named-nonempty e = false-true ((eq_iff "n" "").1 e)
  where
    false-true : ◌≡◌ {A = Bool} false true → ⊥
    false-true h = cc
