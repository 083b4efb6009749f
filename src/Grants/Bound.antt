-- ===== src/Grants/Bound.antt =====
-- pkg/storm/shared/context.go: what the confirmation claim of a token proves.
use kexcore_oidc.Base.{
  String, ◌≡◌, refl, sym, ap, ◌∙◌, ◌≢◌, ◌↔◌, ◌⊎◌, inl, inr, Bool, true, false, Option, none, some,
  arith, eq_iff, ◌==◌, if◌then◌else◌, Bool-cases, ok, after_bind,
}
use kexcore_oidc.Client.{Client}
use kexcore_oidc.Grants.Binding.{
  Certificate, Context, Cnf, is_some, check_proofs, presented, resolve_cnf,
  sender_constraining_requirements, token_cnf, or_empty_text, matches, verify_token_binding,
}

matches_iff : (o : Option String) (bound : String) → (matches o bound ≡ true) ↔ (o ≡ some bound)
matches_iff none bound = (λ h. cc, λ h. cc)
matches_iff (some t) bound =
    (λ h. ap some ((eq_iff t bound).0 h), λ h. (eq_iff t bound).1 (injected h))
  where
    injected : ◌≡◌ {A = Option String} (some t) (some bound) → t ≡ bound
    injected h = cc

-- The token is bound to nothing, or one of the keys it is bound to is the one that the request
-- proves to possess.
abbrev pub IsPossessed : Context → Cnf → Type 0
IsPossessed r cnf =
    ((or_empty_text cnf.jkt ≡ "") × (or_empty_text cnf.x5t ≡ ""))
    ⊎ (((or_empty_text cnf.jkt ≢ "") × (r.dpop_proof ≡ some (or_empty_text cnf.jkt)))
        ⊎ ((or_empty_text cnf.x5t ≢ "") × (presented r.client_cert ≡ some (or_empty_text cnf.x5t))))

-- A request passes the binding check of a token exactly when the token is bound to no key, or the
-- request's DPoP proof or client certificate is one that the token is bound to.
pub verify_token_binding_iff :
    (r : Context) (cnf : Cnf) → (verify_token_binding r cnf ≡ ok tt) ↔ IsPossessed r cnf
unfolding verify_token_binding
verify_token_binding_iff r cnf =
    let jkt = or_empty_text cnf.jkt in
    let x5t = or_empty_text cnf.x5t in
    let m1 = matches_iff r.dpop_proof jkt in
    let m2 = matches_iff (presented r.client_cert) x5t in
    let e1 = eq_iff jkt "" in
    let e2 = eq_iff x5t "" in
    (λ h. ground (arith, m1, m2, e1, e2), λ h. ground (arith, m1, m2, e1, e2))

only_some : (o : Option String) → (if is_some o then o else none) ≡ o
only_some none = refl
only_some (some t) = refl

-- What the claim of new tokens holds, and that the required proofs were there.
token_cnf-parts :
    (global_dpop global_mtls : Bool) (c : Client) (r : Context) (cnf : Cnf) (required : Bool × Bool)
    → sender_constraining_requirements global_dpop global_mtls c ≡ required
    → token_cnf global_dpop global_mtls c r ≡ ok cnf
    → (check_proofs required.0 required.1 (is_some r.dpop_proof) (is_some r.client_cert) ≡ ok tt)
      × ((cnf.jkt ≡ r.dpop_proof)
          × (cnf.x5t ≡ (if required.1 then presented r.client_cert else none)))
unfolding token_cnf resolve_cnf
token_cnf-parts global_dpop global_mtls c r cnf (dpop, mtls) h e =
    after_bind (check_proofs dpop mtls (is_some r.dpop_proof) (is_some r.client_cert)) _ (rw h at e)
      λ u checked e1.
        let jkt : cnf.jkt ≡ (if is_some r.dpop_proof then r.dpop_proof else none) = cc in
        (checked, (jkt ∙ only_some r.dpop_proof, cc))

empty_or_presented :
    (claimed shown : Option String)
    → (claimed ≡ shown) ⊎ (claimed ≡ none)
    → (or_empty_text claimed ≡ "")
      ⊎ ((or_empty_text claimed ≢ "") × (shown ≡ some (or_empty_text claimed)))
empty_or_presented none shown h = inl refl
empty_or_presented (some t) shown h = elim (Bool-cases (t == "")) [
  | inl e ↦ inl ((eq_iff t "").0 e)
  | inr e ↦ inr (ground (arith, eq_iff t ""), elim h [ inl same ↦ sym same | inr nothing ↦ cc ])
]

-- The tokens that a request gets pass the binding check of that request.
pub token_cnf-verify_token_binding :
    (global_dpop global_mtls : Bool) (c : Client) (r : Context) (cnf : Cnf)
    → token_cnf global_dpop global_mtls c r ≡ ok cnf
    → verify_token_binding r cnf ≡ ok tt
token_cnf-verify_token_binding global_dpop global_mtls c r cnf e =
    let (checked, (jkt, x5t)) = token_cnf-parts global_dpop global_mtls c r cnf _ refl e in
    (verify_token_binding_iff r cnf).1 (
      combine (empty_or_presented cnf.jkt r.dpop_proof (inl jkt)) (
        empty_or_presented cnf.x5t (presented r.client_cert)
          (cert_or_none (sender_constraining_requirements global_dpop global_mtls c).1 x5t)))
  where
    cert_or_none :
        (b : Bool)
        → cnf.x5t ≡ (if b then presented r.client_cert else none)
        → (cnf.x5t ≡ presented r.client_cert) ⊎ (cnf.x5t ≡ none)
    cert_or_none true h = inl h
    cert_or_none false h = inr h

    combine :
        (or_empty_text cnf.jkt ≡ "")
          ⊎ ((or_empty_text cnf.jkt ≢ "") × (r.dpop_proof ≡ some (or_empty_text cnf.jkt)))
        → (or_empty_text cnf.x5t ≡ "")
          ⊎ ((or_empty_text cnf.x5t ≢ "")
              × (presented r.client_cert ≡ some (or_empty_text cnf.x5t)))
        → IsPossessed r cnf
    combine (inr x) b = inr (inl x)
    combine (inl x) (inr y) = inr (inr y)
    combine (inl x) (inl y) = inl (x, y)

-- Tokens for a client from which a proof of possession is required are bound to a key, and tokens
-- of any request with a DPoP proof to the key of that proof.
pub token_cnf-constrained :
    (global_dpop global_mtls : Bool) (c : Client) (r : Context) (cnf : Cnf)
    → token_cnf global_dpop global_mtls c r ≡ ok cnf
    → (cnf.jkt ≡ r.dpop_proof)
      × ((sender_constraining_requirements global_dpop global_mtls c ≡ (false, false))
          ⊎ ((cnf.jkt ≢ none) ⊎ (cnf.x5t ≢ none)))
token_cnf-constrained global_dpop global_mtls c r cnf e =
    let (checked, (jkt, x5t)) = token_cnf-parts global_dpop global_mtls c r cnf _ refl e in
    (
      jkt,
      bound (sender_constraining_requirements global_dpop global_mtls c) r.dpop_proof r.client_cert
          checked jkt x5t,
    )
  where
    bound :
        (required : Bool × Bool) (p : Option String) (cert : Option Certificate)
        → check_proofs required.0 required.1 (is_some p) (is_some cert) ≡ ok tt
        → cnf.jkt ≡ p
        → cnf.x5t ≡ (if required.1 then presented cert else none)
        → (required ≡ (false, false)) ⊎ ((cnf.jkt ≢ none) ⊎ (cnf.x5t ≢ none))
    bound (false, false) p cert checked jkt x5t = inl refl
    bound (d, m) (some t) cert checked jkt x5t = inr (inl λ nothing. cc)
    bound (true, false) none cert checked jkt x5t = absurd (ground arith)
    bound (d, true) none (some x) checked jkt x5t = inr (inr λ nothing. cc)
    bound (true, true) none none checked jkt x5t = absurd (ground arith)
    bound (false, true) none none checked jkt x5t = absurd (ground arith)
