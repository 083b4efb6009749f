-- ===== src/Issue/Request.antt =====
-- pkg/storm/plugins/token/types.go and util.go: the requests that tokens are created for, and the
-- wrappers around them; pkg/storm/plugins/pairwise.
use kexcore_oidc.Base.{
  ℕ, String, Bool, true, false, Option, none, some, List, [], ◌∷◌, ◌++◌, if◌then◌else◌, contains,
  concat,
}

-- What an authorization request adds for the ID token; a zero time is 0.
pub record AuthInfo : Type 0 where
  pub auth_time : ℕ
  pub acr : String
  pub amr : List String
  pub sid : String

-- `storm.TokenRequest`. The optional interfaces are `none` where a request does not implement them;
-- a wrapper implements none of them, whatever it wraps.
pub record TokenRequest : Type 0 where
  pub subject : String
  pub audience : List String
  pub client_id : String
  pub scopes : List String
  -- `GetNonce()`.
  pub nonce : Option String
  -- The interface `storm.AuthRequest`.
  pub auth : Option AuthInfo
  -- `ExtraIDTokenClaims()`.
  pub extra_claims : Option (List (String × String))

-- The loop of `GetAudience` with its `seen` map: the values that were not met before.
unfoldable pub distinct : (seen values : List String) → List String
distinct seen [] = []
distinct seen (v ∷ vs) = elim (contains seen v) [
  | true ↦ distinct seen vs
  | false ↦ v ∷ distinct (v ∷ seen) vs
]

-- `resourceAwareRequest.GetAudience` and `tokenExchangeRequest.GetAudience`; the `seen` map of their
-- two loops is one.
unfoldable pub merge_audience : (audience resources : List String) → List String
merge_audience audience [] = audience
merge_audience audience (r ∷ rs) = distinct [] (audience ++ (r ∷ rs))

-- `resourceAwareRequest`, where the authorization request names resources.
unfoldable pub resource_aware : (resources : List String) → TokenRequest → TokenRequest
resource_aware [] r = r
resource_aware (x ∷ xs) r = record r {
  audience = merge_audience r.audience (x ∷ xs);
  nonce = none;
  auth = none;
  extra_claims = none;
}

-- `PairwiseTransformer`.
pub record Pairwise : Type 0 where
  pub is_pairwise_client : String → Bool
  pub transform : (client_id subject : String) → String

-- `SubjectTransformer.Transform`: `hmac` is base64url of the HMAC-SHA256 under the salt.
unfoldable pub transform_subject : (hmac : String → String) → (client_id subject : String) → String
transform_subject hmac client_id subject = hmac (concat client_id subject)

-- `applyPairwise`; `none` is no transformer.
unfoldable pub apply_pairwise : Option Pairwise → (client_id : String) → TokenRequest → TokenRequest
apply_pairwise none client_id r = r
apply_pairwise (some p) client_id r =
    if p.is_pairwise_client client_id
    then record r {
      subject = p.transform client_id r.subject;
      nonce = none;
      auth = none;
      extra_claims = none;
    }
    else r

-- `getNonce`.
abbrev pub get_nonce : TokenRequest → String
get_nonce r = elim r.nonce [ none ↦ "" | some n ↦ n ]
