-- ===== src/Dpop/Replay.antt =====
-- pkg/storm/plugins/dpop/dpop.go: how long a jti is remembered, against how long its proof is valid.
use kexcore_oidc.Base.{
  ℕ, suc, ◌+◌, ◌*◌, ◌≤◌, ◌<◌, String, ◌≡◌, refl, sym, ap, ◌∙◌, ◌≢◌, not, none, some, List, [], ◌∷◌,
  arith, eq_iff, ltb, if◌then◌else◌, length, lookup, lookup-insert, length-insert, length-retain,
  lookup-retain, ok,
}
use kexcore_oidc.Dpop.Cache.{
  Plugin, max_nonce_cache_size, evict_oldest, cleanup_nonce_cache, Request, Response, next,
  replay_detected, full_url, check_replay, middleware,
}
use kexcore_oidc.Dpop.Proof.{Jose, Proof, Claims, second, max_proof_age, parse_proof}
use kexcore_oidc.Dpop.Soundness.{parse_proof-IsValidProof, IsValidProof-later, parse_proof_complete}

-- A proof that was let through was not in the cache, and is recorded at that time.
pub check_replay-records :
    (p : Plugin) (proof q : Proof) (now : ℕ)
    → (check_replay p proof now).1 ≡ next (some q)
    → (proof ≡ q)
      × (lookup proof.unique_id p.used_nonces ≡ none)
      × (lookup proof.unique_id (check_replay p proof now).0.used_nonces ≡ some now)
unfolding check_replay
check_replay-records p proof q now h =
    let jti = proof.unique_id in
    let here = lookup-insert jti jti now p.used_nonces in
    let there = lookup-insert jti jti now (evict_oldest p).used_nonces in
    (ground arith, ground arith, ground (arith, eq_iff jti jti, here, there))

-- A proof whose jti is in the cache is refused, and changes nothing.
pub check_replay-refuses :
    (p : Plugin) (proof : Proof) (now t : ℕ)
    → lookup proof.unique_id p.used_nonces ≡ some t
    → check_replay p proof now ≡ (p, replay_detected)
unfolding check_replay
check_replay-refuses p proof now t h = ground arith

check_replay-accepts :
    (p : Plugin) (proof : Proof) (now : ℕ)
    → lookup proof.unique_id p.used_nonces ≡ none
    → (check_replay p proof now).1 ≡ next (some proof)
unfolding check_replay
check_replay-accepts p proof now h = ground arith

-- What happens to the cache: a proof that parses arrives, or the cleanup loop ticks.
pub data Event : Type 0 where
  arrival : Proof → ℕ → Event
  cleanup : ℕ → Event

abbrev pub run : Plugin → List Event → Plugin
run p [] = p
run p (arrival proof now ∷ es) = run (check_replay p proof now).0 es
run p (cleanup now ∷ es) = run (cleanup_nonce_cache p now) es

-- Every event is at most at time `t`.
abbrev pub Until : ℕ → List Event → Type 0
Until t [] = Unit
Until t (arrival proof now ∷ es) = (now ≤ t) × Until t es
Until t (cleanup now ∷ es) = (now ≤ t) × Until t es

-- How many proofs arrive.
abbrev pub arrivals : List Event → ℕ
arrivals [] = 0
arrivals (arrival proof now ∷ es) = suc (arrivals es)
arrivals (cleanup now ∷ es) = arrivals es

length-check_replay :
    (p : Plugin) (proof : Proof) (now : ℕ)
    → length p.used_nonces < max_nonce_cache_size
    → length (check_replay p proof now).0.used_nonces ≤ length p.used_nonces + 1
unfolding check_replay
length-check_replay p proof now h = ground (arith, length-insert proof.unique_id now p.used_nonces)

-- A jti in the cache stays there when another proof arrives, if nothing is evicted.
lookup-check_replay :
    (p : Plugin) (proof : Proof) (now t : ℕ) (jti : String)
    → length p.used_nonces < max_nonce_cache_size
    → lookup jti p.used_nonces ≡ some t
    → lookup jti (check_replay p proof now).0.used_nonces ≡ some t
unfolding check_replay
lookup-check_replay p proof now t jti room h =
    ground (arith, eq_iff proof.unique_id jti, lookup-insert proof.unique_id jti now p.used_nonces)

-- The cleanup removes a jti only more than five minutes after it was recorded.
pub lookup-cleanup :
    (p : Plugin) (now t : ℕ) (jti : String)
    → lookup jti p.used_nonces ≡ some t
    → lookup jti (cleanup_nonce_cache p now).used_nonces
      ≡ (if ltb (t + max_proof_age) now then none else some t)
unfolding cleanup_nonce_cache
lookup-cleanup p now t jti h = rw (lookup-retain, h) (ground arith)

-- A recorded jti is kept for five minutes, through any arrivals and cleanups, as long as the cache
-- does not fill up.
pub lookup-run :
    (es : List Event) (p : Plugin) (jti : String) (t : ℕ)
    → lookup jti p.used_nonces ≡ some t
    → Until (t + max_proof_age) es
    → length p.used_nonces + arrivals es ≤ max_nonce_cache_size
    → lookup jti (run p es).used_nonces ≡ some t
lookup-run [] p jti t h u room = h
lookup-run (arrival proof now ∷ es) p jti t h u room =
    lookup-run es (check_replay p proof now).0 jti t
      (lookup-check_replay p proof now t jti (omega arith) h) u.1
      (omega (arith, length-check_replay p proof now))
lookup-run (cleanup now ∷ es) p jti t h u room =
    lookup-run es (cleanup_nonce_cache p now) jti t (lookup-cleanup p now t jti h ∙ ground arith)
      u.1
      (unfold cleanup_nonce_cache in
        omega (arith, length-retain (λ (x : ℕ). not (ltb (x + max_proof_age) now)) p.used_nonces))

Until-weaken : (t u : ℕ) (es : List Event) → t ≤ u → Until t es → Until u es
Until-weaken t u [] h v = tt
Until-weaken t u (arrival proof now ∷ es) h v = (omega (arith, v.0), Until-weaken t u es h v.1)
Until-weaken t u (cleanup now ∷ es) h v = (omega (arith, v.0), Until-weaken t u es h v.1)

-- The middleware on a request with one header that parses.
middleware-single :
    (j : Jose) (p : Plugin) (r : Request) (now : ℕ) (h : String) (proof : Proof)
    → r.dpop_headers ≡ h ∷ []
    → parse_proof j h r.method (full_url r) now ≡ ok proof
    → middleware j p r now ≡ check_replay p proof now
unfolding middleware
middleware-single j p r now h proof one parsed = ground arith

-- A request that is let through with a proof has exactly one header, which parses to it.
middleware-parsed :
    (j : Jose) (p : Plugin) (r : Request) (now : ℕ) (proof : Proof)
    → (middleware j p r now).1 ≡ next (some proof)
    → (h : String) × (r.dpop_headers ≡ h ∷ [])
      × (parse_proof j h r.method (full_url r) now ≡ ok proof)
unfolding middleware check_replay
middleware-parsed j p r now proof e = go r.dpop_headers refl
  where
    go :
        (hs : List String)
        → r.dpop_headers ≡ hs
        → (h : String) × (r.dpop_headers ≡ h ∷ [])
          × (parse_proof j h r.method (full_url r) now ≡ ok proof)
    go [] eq = absurd (ground arith)
    go (h ∷ []) eq = (h, eq, ground arith)
    go (h ∷ h' ∷ hs) eq = absurd (ground arith)

-- The same header at two times gives the same jti and issue time.
same_proof :
    (j : Jose) (h method url : String) (t u : ℕ) (a b : Proof)
    → parse_proof j h method url t ≡ ok a
    → parse_proof j h method url u ≡ ok b
    → (b.unique_id ≡ a.unique_id) × (b.issued_at ≡ a.issued_at) × (u ≤ b.issued_at + max_proof_age)
same_proof j h method url t u a b ea eb =
    let va = parse_proof-IsValidProof j h method url t ea in
    let vb = parse_proof-IsValidProof j h method url u eb in
    let same_claims : vb.c ≡ va.c = cc (vb.decoded, va.decoded) in
    (
      sym vb.jti_eq ∙ ap (λ (c : Claims). c.jti) same_claims ∙ va.jti_eq,
      vb.iat_eq ∙ ap (λ (c : Claims). c.iat * second) same_claims ∙ sym va.iat_eq,
      vb.not_old,
    )

-- What is in the cache after a request was let through with a proof.
middleware-records :
    (j : Jose) (p : Plugin) (r : Request) (t0 : ℕ) (proof : Proof)
    → (middleware j p r t0).1 ≡ next (some proof)
    → lookup proof.unique_id (middleware j p r t0).0.used_nonces ≡ some t0
middleware-records j p r t0 proof passed =
    let (h, one, parsed) = middleware-parsed j p r t0 proof passed in
    let e = middleware-single j p r t0 h proof one parsed in
    let answered = sym (ap (λ (a : Plugin × Response). a.1) e) ∙ passed in
    ap (λ (a : Plugin × Response). lookup proof.unique_id a.0.used_nonces) e
    ∙ (check_replay-records p proof proof t0 answered).2

-- A request whose jti is in the cache is not let through.
middleware-refuses :
    (j : Jose) (p : Plugin) (r : Request) (now t : ℕ) (q : Proof)
    → lookup q.unique_id p.used_nonces ≡ some t
    → (middleware j p r now).1 ≢ next (some q)
middleware-refuses j p r now t q known passed =
    let (h, one, parsed) = middleware-parsed j p r now q passed in
    let e = middleware-single j p r now h q one parsed ∙ check_replay-refuses p q now t known in
    let clash : replay_detected ≡ next (some q) =
      sym (ap (λ (a : Plugin × Response). a.1) e) ∙ passed in
    cc

-- A request whose proof was let through at `t0`, and was not dated ahead of it, is never let
-- through again: not at any later time `t1`, after any arrivals and cleanups in between, as long as
-- the cache does not fill up.
pub middleware-no_replay :
    (j : Jose) (p : Plugin) (r : Request) (t0 t1 : ℕ) (proof q : Proof) (es : List Event)
    → (middleware j p r t0).1 ≡ next (some proof)
    → proof.issued_at ≤ t0
    → Until t1 es
    → length (middleware j p r t0).0.used_nonces + arrivals es ≤ max_nonce_cache_size
    → (middleware j (run (middleware j p r t0).0 es) r t1).1 ≢ next (some q)
middleware-no_replay j p r t0 t1 proof q es passed dated until room again =
    let (h, one, parsed) = middleware-parsed j p r t0 proof passed in
    let (h', one', parsed') = middleware-parsed j (run (middleware j p r t0).0 es) r t1 q again in
    let same_header : h' ≡ h = cc (one, one') in
    let parsed_later =
      sym (ap (λ (x : String). parse_proof j x r.method (full_url r) t1) same_header) ∙ parsed' in
    let (same_jti, same_iat, young) =
      same_proof j h r.method (full_url r) t0 t1 proof q parsed parsed_later in
    let kept =
      lookup-run es (middleware j p r t0).0 proof.unique_id t0
        (middleware-records j p r t0 proof passed)
        (Until-weaken t1 (t0 + max_proof_age) es (omega arith) until) room in
    middleware-refuses j (run (middleware j p r t0).0 es) r t1 t0 q (rw same_jti kept) again

-- A proof may be dated up to five minutes ahead, and its jti is remembered for five minutes: a proof
-- dated ahead outlives its record. After a cleanup in that gap the same request passes once more.
pub middleware-replay_after_cleanup :
    (j : Jose) (p : Plugin) (r : Request) (t0 t1 : ℕ) (proof : Proof)
    → (middleware j p r t0).1 ≡ next (some proof)
    → t0 + max_proof_age < t1
    → t1 ≤ proof.issued_at + max_proof_age
    → (middleware j (cleanup_nonce_cache (middleware j p r t0).0 t1) r t1).1 ≡ next (some proof)
middleware-replay_after_cleanup j p r t0 t1 proof passed gap valid =
    let (h, one, parsed) = middleware-parsed j p r t0 proof passed in
    let p' = cleanup_nonce_cache (middleware j p r t0).0 t1 in
    let forgotten : lookup proof.unique_id p'.used_nonces ≡ none =
      lookup-cleanup (middleware j p r t0).0 t1 t0 proof.unique_id
        (middleware-records j p r t0 proof passed)
      ∙ ground arith in
    let v =
      IsValidProof-later j (parse_proof-IsValidProof j h r.method (full_url r) t0 parsed)
        (omega arith) valid in
    let e =
      middleware-single j p' r t1 h proof one
        (parse_proof_complete j h r.method (full_url r) t1 proof v) in
    ap (λ (a : Plugin × Response). a.1) e ∙ check_replay-accepts p' proof t1 forgotten
