-- ===== src/Userinfo/Jwt.antt =====
-- pkg/storm/plugins/userinfo/userinfo.go: what the JWT answer is about.
use kexcore_oidc.Base.{
  ℕ, ◌+◌, String, ◌≡◌, refl, ◌∙◌, inl, inr, Bool, true, false, Option, none, some, List, [], ◌∷◌,
  eqb, ◌==◌, ◌!=◌, if◌then◌else◌, Bool-cases, All, Map, lookup, insert, lookup-insert,
}
use kexcore_oidc.Issue.Host.{ClaimValue, text, number, flag, structure}
use kexcore_oidc.Issue.Claims.{put_text, unix}
use kexcore_oidc.Userinfo.Info.{
  UserInfo, put_flag, put_profile, put_contact, put_reach, put_locale, put_address, put_updated,
  put_custom, jwt_claims, jwt_lifetime,
}

abbrev pub Apart : (read key : String) → Type 0
Apart read key = (key == read) ≡ false

insert-other :
    (key read : String) (v : ClaimValue) (m : Map ClaimValue)
    → Apart read key
    → lookup read (insert key v m) ≡ lookup read m
insert-other key read v m apart = lookup-insert key read v m ∙ rw apart refl

put_text-other :
    (key read value : String) (m : Map ClaimValue)
    → Apart read key
    → lookup read (put_text key value m) ≡ lookup read m
put_text-other key read value m apart = by_flag (value != "")
  where
    by_flag : (b : Bool) → lookup read (if b then insert key (text value) m else m) ≡ lookup read m
    by_flag true = insert-other key read (text value) m apart
    by_flag false = refl

put_flag-other :
    (key read : String) (b : Bool) (m : Map ClaimValue)
    → Apart read key
    → lookup read (put_flag key b m) ≡ lookup read m
put_flag-other key read true m apart = insert-other key read (flag true) m apart
put_flag-other key read false m apart = refl

put_locale-other :
    (read : String) (o : Option String) (m : Map ClaimValue)
    → Apart read "locale"
    → lookup read (put_locale o m) ≡ lookup read m
put_locale-other read none m apart = refl
put_locale-other read (some tag) m apart = insert-other "locale" read (text tag) m apart

put_address-other :
    (read : String) (o : Option String) (m : Map ClaimValue)
    → Apart read "address"
    → lookup read (put_address o m) ≡ lookup read m
put_address-other read none m apart = refl
put_address-other read (some a) m apart = insert-other "address" read (structure a) m apart

put_updated-other :
    (read : String) (t : ℕ) (m : Map ClaimValue)
    → Apart read "updated_at"
    → lookup read (put_updated t m) ≡ lookup read m
put_updated-other read t m apart = elim (Bool-cases (eqb t 0)) [
  | inl zero_time ↦ rw zero_time refl
  | inr given ↦ rw given (insert-other "updated_at" read (number t) m apart)
]

abbrev profile_keys : List String
profile_keys =
    "website" ∷ "picture" ∷ "profile" ∷ "preferred_username" ∷ "nickname" ∷ "middle_name"
    ∷ "family_name" ∷ "given_name" ∷ "name" ∷ []

put_profile-other :
    (read : String) (u : UserInfo) (m : Map ClaimValue)
    → All (Apart read) profile_keys
    → lookup read (put_profile u m) ≡ lookup read m
put_profile-other read u m a =
    put_text-other "website" read u.about.website _ a.0
    ∙ put_text-other "picture" read u.about.picture _ a.1.0
    ∙ put_text-other "profile" read u.about.profile _ a.1.1.0
    ∙ put_text-other "preferred_username" read u.about.preferred_username _ a.1.1.1.0
    ∙ put_text-other "nickname" read u.about.nickname _ a.1.1.1.1.0
    ∙ put_text-other "middle_name" read u.about.middle_name _ a.1.1.1.1.1.0
    ∙ put_text-other "family_name" read u.about.family_name _ a.1.1.1.1.1.1.0
    ∙ put_text-other "given_name" read u.about.given_name _ a.1.1.1.1.1.1.1.0
    ∙ put_text-other "name" read u.about.name _ a.1.1.1.1.1.1.1.1.0

abbrev contact_keys : List String
contact_keys = "locale" ∷ "zoneinfo" ∷ "birthdate" ∷ "gender" ∷ "email_verified" ∷ "email" ∷ []

put_contact-other :
    (read : String) (u : UserInfo) (m : Map ClaimValue)
    → All (Apart read) contact_keys
    → lookup read (put_contact u m) ≡ lookup read m
put_contact-other read u m a =
    put_locale-other read u.about.locale _ a.0
    ∙ put_text-other "zoneinfo" read u.about.zoneinfo _ a.1.0
    ∙ put_text-other "birthdate" read u.about.birthdate _ a.1.1.0
    ∙ put_text-other "gender" read u.about.gender _ a.1.1.1.0
    ∙ put_flag-other "email_verified" read u.email_info.email_verified _ a.1.1.1.1.0
    ∙ put_text-other "email" read u.email_info.email _ a.1.1.1.1.1.0

abbrev reach_keys : List String
reach_keys = "address" ∷ "updated_at" ∷ "phone_number_verified" ∷ "phone_number" ∷ []

put_reach-other :
    (read : String) (u : UserInfo) (m : Map ClaimValue)
    → All (Apart read) reach_keys
    → lookup read (put_reach u m) ≡ lookup read m
put_reach-other read u m a =
    put_address-other read u.address _ a.0
    ∙ put_updated-other read u.about.updated_at _ a.1.0
    ∙ put_flag-other "phone_number_verified" read u.phone_info.phone_number_verified _ a.1.1.0
    ∙ put_text-other "phone_number" read u.phone_info.phone_number _ a.1.1.1.0

-- Custom claims leave a claim alone that none of them names.
put_custom-other :
    (accepts : String → ClaimValue → Bool) (read : String) (custom m : Map ClaimValue)
    → lookup read custom ≡ none
    → lookup read (put_custom accepts custom m) ≡ lookup read m
unfolding lookup
put_custom-other accepts read [] m h = refl
put_custom-other accepts read ((key, v) ∷ rest) m h = elim (Bool-cases (key == read)) [
  | inl here ↦ absurd (found (rw here at h))
  | inr apart ↦ by_flag (accepts key v) apart (put_custom-other accepts read rest) (rw apart at h)
]
  where
    found : some v ≡ none → ⊥
    found p = cc

    by_flag :
        (b : Bool)
        → (key == read) ≡ false
        → ((m1 : Map ClaimValue)
            → lookup read rest ≡ none
            → lookup read (put_custom accepts rest m1) ≡ lookup read m1)
        → lookup read rest ≡ none
        → lookup read (put_custom accepts rest (if b then insert key v m else m)) ≡ lookup read m
    by_flag true apart later g = later (insert key v m) g ∙ insert-other key read v m apart
    by_flag false apart later g = later m g

-- A claim that is none of the user's own is what it was before these were set.
jwt_claims-base :
    (accepts : String → ClaimValue → Bool) (issuer client_id read : String) (u : UserInfo) (now : ℕ)
    → All (Apart read) reach_keys
    → All (Apart read) contact_keys
    → All (Apart read) profile_keys
    → lookup read u.claims ≡ none
    → lookup read (jwt_claims accepts issuer client_id u now)
      ≡ lookup read (
          insert "exp" (number (unix (now + jwt_lifetime))) (
            insert "iat" (number (unix now)) (
              insert "sub"
                (text u.subject)
                (insert "aud" (text client_id) (insert "iss" (text issuer) [])))))
unfolding jwt_claims
jwt_claims-base accepts issuer client_id read u now reach contact profile none_named =
    put_custom-other accepts read u.claims _ none_named
    ∙ put_reach-other read u _ reach
    ∙ put_contact-other read u _ contact
    ∙ put_profile-other read u _ profile

-- The JWT names the subject, the client and the issuer, unless a custom claim has their name.
pub jwt_claims-sub :
    (accepts : String → ClaimValue → Bool) (issuer client_id : String) (u : UserInfo) (now : ℕ)
    → lookup "sub" u.claims ≡ none
    → lookup "sub" (jwt_claims accepts issuer client_id u now) ≡ some (text u.subject)
unfolding lookup insert
jwt_claims-sub accepts issuer client_id u now h =
    jwt_claims-base accepts issuer client_id "sub" u now (refl, (refl, (refl, (refl, tt))))
      (refl, (refl, (refl, (refl, (refl, (refl, tt))))))
      (refl, (refl, (refl, (refl, (refl, (refl, (refl, (refl, (refl, tt))))))))) h

pub jwt_claims-aud :
    (accepts : String → ClaimValue → Bool) (issuer client_id : String) (u : UserInfo) (now : ℕ)
    → lookup "aud" u.claims ≡ none
    → lookup "aud" (jwt_claims accepts issuer client_id u now) ≡ some (text client_id)
unfolding lookup insert
jwt_claims-aud accepts issuer client_id u now h =
    jwt_claims-base accepts issuer client_id "aud" u now (refl, (refl, (refl, (refl, tt))))
      (refl, (refl, (refl, (refl, (refl, (refl, tt))))))
      (refl, (refl, (refl, (refl, (refl, (refl, (refl, (refl, (refl, tt))))))))) h
