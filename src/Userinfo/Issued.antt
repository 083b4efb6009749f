-- ===== src/Userinfo/Issued.antt =====
-- pkg/storm/plugins/token and userinfo: a token from its issue to the claims of its user.
use kexcore_oidc.Base.{
  ℕ, String, ◌≡◌, refl, ◌≢◌, inl, inr, Bool, true, false, Option, none, some, arith, eq_iff, ◌!=◌,
  Option-cases, ok,
}
use kexcore_oidc.Client.{Client, holds}
use kexcore_oidc.Grants.Binding.{Context, Cnf, is_some, token_cnf, verify_token_binding}
use kexcore_oidc.Grants.Bound.{token_cnf-verify_token_binding}
use kexcore_oidc.Grants.Endpoint.{Services}
use kexcore_oidc.Issue.Host.{TokenStore, TokenCrypto}
use kexcore_oidc.Issue.Request.{TokenRequest}
use kexcore_oidc.Issue.Opaque.{Issued, create_access_token, resolve_token, parse_token_parts}
use kexcore_oidc.Issue.Resolve.{CryptoLaws, create_access_token-resolve_token}
use kexcore_oidc.Verifier.Checks.{Codec}
use kexcore_oidc.Verifier.Token.{AccessTokenVerifier}
use kexcore_oidc.Userinfo.Info.{UserInfo}
use kexcore_oidc.Userinfo.Endpoint.{
  UserinfoRequest, UserinfoHost, extract_access_token, validate_dpop_proof_ath, check_binding,
  claim_source, userinfo_answer, handle_userinfo,
}

true_of : (a b : String) → a ≢ b → (a != b) ≡ true
true_of a b h = ground (arith, eq_iff a b)

-- A proof with the right hash passes.
validate_dpop_proof_ath-passes :
    (s : Services) (r : Context) (ath token : String)
    → ath ≢ ""
    → ath ≡ s.s256 token
    → validate_dpop_proof_ath s r ath token ≡ ok tt
unfolding validate_dpop_proof_ath
validate_dpop_proof_ath-passes s r ath token given same = elim (Option-cases r.dpop_proof) [
  | inl missing ↦ rw missing refl
  | inr (proof, there) ↦
      rw there (rw (true_of ath "" given) (rw ((eq_iff ath (s.s256 token)).1 same) refl))
]

-- The confirmation claim that was found decides.
check_binding-passes :
    (h : UserinfoHost) (r : Context) (token_id : String) (look : String → Option (Option Cnf))
    (cnf : Cnf)
    → h.token_cnf_lookup ≡ some look
    → look token_id ≡ some (some cnf)
    → verify_token_binding r cnf ≡ ok tt
    → check_binding h r token_id ≡ ok tt
unfolding check_binding
check_binding-passes h r token_id look cnf there found possessed = rw there (rw found possessed)

-- What a request presents: an access token, the hash that a proof needs, and a binding on record.
pub record IsPresented (s : Services) (h : UserinfoHost) (q : UserinfoRequest)
    (token token_id : String) (cnf : Cnf) : Type 0 where
  pub look : String → Option (Option Cnf)
  pub carried : extract_access_token q ≡ token
  pub not_blank : token ≢ ""
  pub ath_given : q.proof_ath ≢ ""
  pub ath : q.proof_ath ≡ s.s256 token
  pub has_lookup : h.token_cnf_lookup ≡ some look
  pub on_record : look token_id ≡ some (some cnf)

-- The handler where each of its steps succeeds.
handle_userinfo-passes :
    (s : Services) (x : TokenCrypto) (k : Codec) (verifier : Option AccessTokenVerifier)
    (h : UserinfoHost) (r : Context) (q : UserinfoRequest) (now : ℕ)
    (token token_id subject : String) (cnf : Cnf) (info : UserInfo)
    → resolve_token x k verifier token now ≡ some (token_id, subject)
    → IsPresented s h q token token_id cnf
    → verify_token_binding r cnf ≡ ok tt
    → claim_source h token_id subject q.origin ≡ some info
    → info.subject ≢ ""
    → handle_userinfo s x k verifier h r q now
      ≡ ok (userinfo_answer h q (is_some verifier) token_id info now)
unfolding handle_userinfo
handle_userinfo-passes s x k verifier h r q now token token_id subject cnf info resolved p possessed
      loaded named =
    rw p.carried (
      rw (true_of token "" p.not_blank) (
        rw resolved (
          rw (validate_dpop_proof_ath-passes s r q.proof_ath token p.ath_given p.ath) (
            rw (check_binding-passes h r token_id p.look cnf p.has_lookup p.on_record possessed)
              (rw loaded (rw (true_of info.subject "" named) refl))))))

-- A request that was given an opaque access token, and presents it to the UserInfo endpoint with the
-- same DPoP proof key or client certificate at any time, is answered with the claims that the
-- deployment has for the token's id and its subject. That is so where the deployment recorded the
-- confirmation claim of the token, the proof hashes the token, the token id has no colon, there is no
-- SM2 decryption, decryption undoes encryption, and the claims name a subject.
pub handle_userinfo-issued :
    (s : Services) (x : TokenCrypto) (laws : CryptoLaws x) {State : Type 0} (t : TokenStore State)
    (k : Codec) (verifier : Option AccessTokenVerifier) (h : UserinfoHost) (r : Context)
    (q : UserinfoRequest) (global_dpop global_mtls : Bool) (c : Client) (cnf : Cnf)
    (req : TokenRequest) (issue_refresh : Bool) (current : String) (now later : ℕ) (st st' : State)
    (issued : Issued) (info : UserInfo)
    → token_cnf global_dpop global_mtls c r ≡ ok cnf
    → create_access_token x t req c issue_refresh current cnf now st ≡ (st', ok issued)
    → holds c.jwt_access_tokens ≡ false
    → x.sm2_decrypt ≡ none
    → parse_token_parts issued.token_id ≡ none
    → IsPresented s h q issued.access_token issued.token_id cnf
    → claim_source h issued.token_id req.subject q.origin ≡ some info
    → info.subject ≢ ""
    → handle_userinfo s x k verifier h r q later
      ≡ ok (userinfo_answer h q (is_some verifier) issued.token_id info later)
handle_userinfo-issued s x laws t k verifier h r q global_dpop global_mtls c cnf req issue_refresh
      current now later st st' issued info bound created opaque no_sm2 plain presented loaded
      named =
    handle_userinfo-passes s x k verifier h r q later issued.access_token issued.token_id
      req.subject cnf info
      (create_access_token-resolve_token x t laws req c issue_refresh current cnf now st st' issued
        opaque no_sm2 created plain k verifier later)
      presented (token_cnf-verify_token_binding global_dpop global_mtls c r cnf bound) loaded named
