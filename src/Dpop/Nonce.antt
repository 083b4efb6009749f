-- ===== src/Dpop/Nonce.antt =====
-- pkg/storm/plugins/dpop/dpop.go: the nonces that the server hands out (RFC 9449 §8.1).
use kexcore_oidc.Base.{
  ℕ, ◌+◌, ◌≤◌, String, ◌≡◌, ◌∙◌, ◌≢◌, ◌↔◌, true, false, ◌&&◌, not, none, some, List, [], ◌∷◌, arith,
  eq_iff, ltb, ◌==◌, ◌!=◌, if◌then◌else◌, lookup, lookup-insert, lookup-delete, lookup-retain,
}
use kexcore_oidc.Dpop.Cache.{
  Plugin, nonce_lifetime, evict_nonces, cleanup_nonce_cache, generate_nonce, validate_nonce,
}

-- A nonce is accepted exactly when it is not empty, is in the cache, and is at most five minutes old.
pub validate_nonce_iff :
    (p : Plugin) (nonce : String) (now : ℕ)
    → ((validate_nonce p nonce now).1 ≡ true)
      ↔ ((nonce ≢ "") × ((t : ℕ) × (lookup nonce p.nonces ≡ some t) × (now ≤ t + nonce_lifetime)))
unfolding validate_nonce
validate_nonce_iff p nonce now = ground (arith, eq_iff nonce "")

validate_nonce-nonces :
    (p : Plugin) (nonce k : String) (now : ℕ)
    → lookup k (validate_nonce p nonce now).0.nonces
      ≡ (if (nonce == k) && (nonce != "") then none else lookup k p.nonces)
unfolding validate_nonce
validate_nonce-nonces p nonce k now =
    ground (arith, eq_iff nonce "", eq_iff nonce k, lookup-delete nonce k p.nonces)

-- What may happen between two uses of a nonce.
pub data Event : Type 0 where
  validation : String → ℕ → Event
  cleanup : ℕ → Event

abbrev pub run : Plugin → List Event → Plugin
run p [] = p
run p (validation nonce now ∷ es) = run (validate_nonce p nonce now).0 es
run p (cleanup now ∷ es) = run (cleanup_nonce_cache p now) es

still_absent :
    (es : List Event) (p : Plugin) (nonce : String)
    → lookup nonce p.nonces ≡ none
    → lookup nonce (run p es).nonces ≡ none
still_absent [] p nonce h = h
still_absent (validation k now ∷ es) p nonce h =
    still_absent es (validate_nonce p k now).0 nonce
      (validate_nonce-nonces p k nonce now ∙ ground arith)
still_absent (cleanup now ∷ es) p nonce h = still_absent es (cleanup_nonce_cache p now) nonce (
    unfold cleanup_nonce_cache in
    lookup-retain (λ (t : ℕ). not (ltb (t + nonce_lifetime) now)) nonce p.nonces ∙ ground arith)

validate_nonce-absent :
    (p : Plugin) (nonce : String) (now : ℕ)
    → lookup nonce p.nonces ≡ none
    → (validate_nonce p nonce now).1 ≡ false
unfolding validate_nonce
validate_nonce-absent p nonce now h = ground arith

-- A nonce that was accepted is refused afterwards, at any time, through any further validations and
-- cleanups in between.
pub validate_nonce-once :
    (p : Plugin) (nonce : String) (t u : ℕ) (es : List Event)
    → (validate_nonce p nonce t).1 ≡ true
    → (validate_nonce (run (validate_nonce p nonce t).0 es) nonce u).1 ≡ false
validate_nonce-once p nonce t u es accepted =
    let ne = ((validate_nonce_iff p nonce t).0 accepted).0 in
    let gone : lookup nonce (validate_nonce p nonce t).0.nonces ≡ none =
      validate_nonce-nonces p nonce nonce t ∙ ground (arith, eq_iff nonce nonce, eq_iff nonce "") in
    validate_nonce-absent (run (validate_nonce p nonce t).0 es) nonce u
      (still_absent es (validate_nonce p nonce t).0 nonce gone)

-- A nonce that is not empty and was just handed out is accepted for five minutes.
pub generate_nonce-validate_nonce :
    (p : Plugin) (fresh : String) (t u : ℕ)
    → fresh ≢ ""
    → u ≤ t + nonce_lifetime
    → (validate_nonce (generate_nonce p fresh t).0 fresh u).1 ≡ true
unfolding generate_nonce validate_nonce
generate_nonce-validate_nonce p fresh t u ne h = ground (
  arith,
  eq_iff fresh "",
  eq_iff fresh fresh,
  lookup-insert fresh fresh t p.nonces,
  lookup-insert fresh fresh t (evict_nonces p).nonces,
)
