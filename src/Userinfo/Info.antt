-- ===== src/Userinfo/Info.antt =====
-- pkg/protocol/userinfo.go: the claims of a user; the JWT of pkg/storm/plugins/userinfo/userinfo.go.
use kexcore_oidc.Base.{
  ℕ, ◌+◌, String, Bool, true, false, Option, none, some, List, [], ◌∷◌, eqb, if◌then◌else◌,
  contains, Map, insert,
}
use kexcore_oidc.Issue.Host.{ClaimValue, text, number, flag, structure}
use kexcore_oidc.Issue.Claims.{put_text, unix}

-- `UserInfoProfile`; a locale by its tag.
pub record UserInfoProfile : Type 0 where
  pub name : String
  pub given_name : String
  pub family_name : String
  pub middle_name : String
  pub nickname : String
  pub profile : String
  pub picture : String
  pub website : String
  pub gender : String
  pub birthdate : String
  pub zoneinfo : String
  pub locale : Option String
  pub updated_at : ℕ
  pub preferred_username : String

pub record UserInfoEmail : Type 0 where
  pub email : String
  pub email_verified : Bool

pub record UserInfoPhone : Type 0 where
  pub phone_number : String
  pub phone_number_verified : Bool

-- `UserInfo`, its address as it is encoded.
pub record UserInfo : Type 0 where
  pub subject : String
  pub about : UserInfoProfile
  pub email_info : UserInfoEmail
  pub phone_info : UserInfoPhone
  pub address : Option String
  pub claims : Map ClaimValue

abbrev pub no_profile : UserInfoProfile
no_profile = record {
  name = "";
  given_name = "";
  family_name = "";
  middle_name = "";
  nickname = "";
  profile = "";
  picture = "";
  website = "";
  gender = "";
  birthdate = "";
  zoneinfo = "";
  locale = none;
  updated_at = 0;
  preferred_username = "";
}

-- `FilterByScopes`.
unfoldable pub filter_by_scopes : List String → UserInfo → UserInfo
filter_by_scopes scopes u = record u {
  about = if contains scopes "profile" then u.about else no_profile;
  email_info =
      if contains scopes "email"
      then u.email_info
      else record { email = ""; email_verified = false };
  phone_info =
      if contains scopes "phone"
      then u.phone_info
      else record { phone_number = ""; phone_number_verified = false };
  address = if contains scopes "address" then u.address else none;
}

-- `if v { token.Set(key, true) }`.
abbrev pub put_flag : (key : String) → Bool → Map ClaimValue → Map ClaimValue
put_flag key b m = if b then insert key (flag true) m else m

-- The claims that `writeJWTResponse` sets of a user's profile, in its order.
abbrev pub put_profile : UserInfo → Map ClaimValue → Map ClaimValue
put_profile u m = put_text "website" u.about.website (
    put_text "picture" u.about.picture (
      put_text "profile" u.about.profile (
        put_text "preferred_username" u.about.preferred_username (
          put_text "nickname" u.about.nickname (
            put_text "middle_name" u.about.middle_name (
              put_text "family_name" u.about.family_name
                (put_text "given_name" u.about.given_name (put_text "name" u.about.name m))))))))

abbrev pub put_locale : Option String → Map ClaimValue → Map ClaimValue
put_locale none m = m
put_locale (some tag) m = insert "locale" (text tag) m

-- The claims from the email to the locale.
abbrev pub put_contact : UserInfo → Map ClaimValue → Map ClaimValue
put_contact u m = put_locale u.about.locale (
    put_text "zoneinfo" u.about.zoneinfo (
      put_text "birthdate" u.about.birthdate (
        put_text "gender" u.about.gender (
          put_flag "email_verified" u.email_info.email_verified
            (put_text "email" u.email_info.email m)))))

abbrev pub put_address : Option String → Map ClaimValue → Map ClaimValue
put_address none m = m
put_address (some encoded) m = insert "address" (structure encoded) m

abbrev pub put_updated : ℕ → Map ClaimValue → Map ClaimValue
put_updated t m = if eqb t 0 then m else insert "updated_at" (number t) m

-- The claims from the phone number to the address.
abbrev pub put_reach : UserInfo → Map ClaimValue → Map ClaimValue
put_reach u m = put_address u.address (
    put_updated u.about.updated_at (
      put_flag "phone_number_verified" u.phone_info.phone_number_verified
        (put_text "phone_number" u.phone_info.phone_number m)))

-- The loop over the custom claims; an error of `token.Set` is ignored.
abbrev pub put_custom :
    (accepts : String → ClaimValue → Bool) → Map ClaimValue → Map ClaimValue → Map ClaimValue
put_custom accepts [] m = m
put_custom accepts ((key, v) ∷ rest) m =
    put_custom accepts rest (if accepts key v then insert key v m else m)

-- `DefaultUserInfoJWTLifetime`, in nanoseconds.
abbrev pub jwt_lifetime : ℕ
jwt_lifetime = 300000000000

-- The token of `writeJWTResponse` before it is signed.
unfoldable pub jwt_claims :
    (accepts : String → ClaimValue → Bool)
    → (issuer client_id : String) → UserInfo
    → (now : ℕ) → Map ClaimValue
jwt_claims accepts issuer client_id u now = put_custom accepts u.claims (
    put_reach u (
      put_contact u (
        put_profile u (
          insert "exp" (number (unix (now + jwt_lifetime))) (
            insert "iat" (number (unix now)) (
              insert "sub" (text u.subject)
                (insert "aud" (text client_id) (insert "iss" (text issuer) []))))))))
