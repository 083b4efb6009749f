-- ===== src/AuthRequest/Registered.antt =====
-- pkg/storm/shared/authrequest.go: which redirect URIs the validation accepts.
use kexcore_oidc.Base.{
  String, subst, ◌≡◌, refl, sym, ap, ◌∙◌, ◌≢◌, ◌↔◌, ◌⊎◌, inl, inr, Bool, true, false, ◌&&◌, ◌||◌,
  Option, none, some, List, [], ◌∷◌, arith, eq_iff, ◌==◌, ◌!=◌, Bool-cases, Option-cases, contains,
  Listed, contains_iff, Result, ok, err, require, after_require, after_expect,
}
use kexcore_oidc.OidcError.{OidcError, invalid_request_redirect_uri}
use kexcore_oidc.Client.{Client, basic, private_key_jwt, holds}
use kexcore_oidc.AuthRequest.Redirect.{
  Url, Net, is_localhost, same_base, equal_uri, is_legacy_confidential, http_loopback_or_localhost,
  base_matches, matches_registered, check_globs, check_redirect_uri_against_client,
  web_scheme_allowed, validate_redirect_uri_web, loopback_registered, native_registered,
  native_unregistered, validate_redirect_uri_native, validate_redirect_uri,
}
use kexcore_oidc.AuthRequest.Loopback.{
  HasBase, same_base_iff, local_hosts, is_localhost-Listed, is_legacy_confidential-method,
  IsLoopback, local_url-IsLoopback, local_flag-IsLoopback,
}

module _ (n : Net) where
  open n use {query_unescape, parse_url, glob_match, is_loopback_ip}

  -- Some registered URI without query has the scheme, host and path of the requested one.
  abbrev pub SharesBase : Url → List String → Type 0
  SharesBase req [] = ⊥
  SharesBase req (r ∷ rs) =
      ((reg : Url) × (parse_url r ≡ some reg) × HasBase reg req) ⊎ SharesBase req rs

  base_matches-SharesBase :
      (req : Url) (rs : List String) → (base_matches n req rs ≡ true) ↔ SharesBase req rs
  base_matches-SharesBase req [] = (λ h. cc, λ h. absurd h)
  base_matches-SharesBase req (r ∷ rs) = elim (Option-cases (parse_url r)) [
    | inl e ↦ (
      λ h. inr ((base_matches-SharesBase req rs).0 (rw (e, base_matches) at h)),
      λ h. elim h [
        | inl (reg, found, s) ↦ absurd (missing (sym found ∙ e))
        | inr m ↦ rw (e, base_matches) ((base_matches-SharesBase req rs).1 m)
      ],
    )
    | inr (reg, e) ↦ (
      λ h. elim (Bool-cases (same_base reg req)) [
        | inl s ↦ inl (reg, e, (same_base_iff reg req).0 s)
        | inr s ↦ inr ((base_matches-SharesBase req rs).0 (ground arith))
      ],
      λ h. elim h [
        | inl (reg', found, s) ↦
            let same : reg' ≡ reg = cc in
            let base : same_base reg req ≡ true =
              subst (λ (v : Url). same_base v req ≡ true) same ((same_base_iff reg' req).1 s) in
            ground arith
        | inr m ↦ let later = (base_matches-SharesBase req rs).1 m in ground arith
      ],
    )
  ]
    where
      missing : {u : Url} → some u ≡ none → ⊥
      missing p = cc

  -- A glob pattern of the list matches, and none before it is malformed.
  abbrev pub MatchesGlob : String → List String → Type 0
  MatchesGlob uri [] = ⊥
  MatchesGlob uri (p ∷ ps) =
      (glob_match p uri ≡ some true) ⊎ ((glob_match p uri ≡ some false) × MatchesGlob uri ps)

  check_globs-MatchesGlob :
      (uri : String) (ps : List String) → (check_globs n uri ps ≡ ok tt) ↔ MatchesGlob uri ps
  check_globs-MatchesGlob uri [] = (λ h. cc, λ h. absurd h)
  check_globs-MatchesGlob uri (p ∷ ps) = elim (Option-cases (glob_match p uri)) [
    | inl e ↦ (λ h. ground arith, λ h. ground arith)
    | inr (true, e) ↦ (λ h. inl e, λ h. ground arith)
    | inr (false, e) ↦ (
      λ h. inr (e, (check_globs-MatchesGlob uri ps).0 (rw (e, check_globs) at h)),
      λ h. elim h [
        | inl hit ↦ absurd (ground arith)
        | inr (_, m) ↦ rw (e, check_globs) ((check_globs-MatchesGlob uri ps).1 m)
      ],
    )
  ]

  -- The URI is registered: literally, or by a registered URI without query that has its scheme,
  -- host and path, or else by a glob pattern.
  abbrev pub IsRegistered : Client → String → Type 0
  IsRegistered c uri =
      ((uris : List String) × (c.redirect_uris ≡ some uris)
        × (Listed uri uris ⊎ ((req : Url) × (parse_url uri ≡ some req) × SharesBase req uris)))
      ⊎ ((globs : List String) × (c.redirect_uri_globs ≡ some globs) × MatchesGlob uri globs)

  matches_registered_sound :
      (uri : String) (uris : List String)
      → matches_registered n uri (some uris) ≡ true
      → Listed uri uris ⊎ ((req : Url) × (parse_url uri ≡ some req) × SharesBase req uris)
  matches_registered_sound uri uris h = elim (Bool-cases (contains uris uri)) [
    | inl listed ↦ inl ((contains_iff uris uri).0 listed)
    | inr unlisted ↦ elim (Option-cases (parse_url uri)) [
      | inl e ↦ absurd (ground arith)
      | inr (req, e) ↦ inr (req, e, (base_matches-SharesBase req uris).0 (ground arith))
    ]
  ]

  check_redirect_uri-IsRegistered :
      (c : Client) (uri : String)
      → check_redirect_uri_against_client n c uri ≡ ok tt
      → IsRegistered c uri
  unfolding check_redirect_uri_against_client
  check_redirect_uri-IsRegistered c uri e =
      elim (Bool-cases (matches_registered n uri c.redirect_uris)) [
        | inl m ↦ by_uris c.redirect_uris refl m
        | inr m ↦ elim (Option-cases c.redirect_uri_globs) [
          | inl g ↦ absurd (ground arith)
          | inr (globs, g) ↦ inr (globs, g, (check_globs-MatchesGlob uri globs).0 (ground arith))
        ]
      ]
    where
      by_uris :
          (o : Option (List String))
          → c.redirect_uris ≡ o
          → matches_registered n uri c.redirect_uris ≡ true
          → IsRegistered c uri
      by_uris none o h = absurd (ground arith)
      by_uris (some uris) o h = inl (uris, o, matches_registered_sound uri uris (rw o at h))

  -- Accepted by the client's registration, over a transport that the client may use.
  abbrev pub IsWebRedirect : Client → String → (response_type : String) → Type 0
  IsWebRedirect c uri response_type =
      ((u : Url) × (parse_url uri ≡ some u)
        × ((u.scheme ≡ "https")
            ⊎ ((u.scheme ≡ "http")
                × (Listed u.hostname local_hosts
                    ⊎ ((holds c.dev_mode ≡ true)
                        ⊎ ((response_type ≡ "code")
                            × ((c.auth_method ≡ basic) ⊎ (c.auth_method ≡ private_key_jwt))))))))
      × IsRegistered c uri

  web_scheme :
      (c : Client) (u : Url) (response_type : String)
      → web_scheme_allowed n c u response_type ≡ true
      → (u.scheme ≡ "https")
        ⊎ ((u.scheme ≡ "http")
            × (Listed u.hostname local_hosts
                ⊎ ((holds c.dev_mode ≡ true)
                    ⊎ ((response_type ≡ "code")
                        × ((c.auth_method ≡ basic) ⊎ (c.auth_method ≡ private_key_jwt))))))
  web_scheme c u response_type e =
      by_tests (u.scheme == "https") (u.scheme == "http") (is_localhost u.hostname)
        (holds c.dev_mode) (response_type == "code") (is_legacy_confidential c.auth_method)
        (eq_iff u.scheme "https").0 (eq_iff u.scheme "http").0 (is_localhost-Listed u.hostname)
        (eq_iff response_type "code").0 (is_legacy_confidential-method c.auth_method) e
    where
      by_tests :
          (https http local dev code legacy : Bool) {A B L R M : Type 0}
          → (https ≡ true → A)
          → (http ≡ true → B)
          → (local ≡ true → L)
          → (code ≡ true → R)
          → (legacy ≡ true → M)
          → (https || (http && (local || (dev || (code && legacy))))) ≡ true
          → A ⊎ (B × (L ⊎ ((dev ≡ true) ⊎ (R × M))))
      by_tests true http local dev code legacy a b l r m h = inl (a refl)
      by_tests false true true dev code legacy a b l r m h = inr (b refl, inl (l refl))
      by_tests false true false true code legacy a b l r m h = inr (b refl, inr (inl refl))
      by_tests false true false false true true a b l r m h =
          inr (b refl, inr (inr (r refl, m refl)))
      by_tests false true false false true false a b l r m h = absurd (cc)
      by_tests false true false false false legacy a b l r m h = absurd (cc)
      by_tests false false local dev code legacy a b l r m h = absurd (cc)

  web-IsWebRedirect :
      (c : Client) (uri response_type : String)
      → validate_redirect_uri_web n c uri response_type ≡ ok tt
      → IsWebRedirect c uri response_type
  unfolding validate_redirect_uri_web
  web-IsWebRedirect c uri response_type e =
      after_expect (parse_url uri) invalid_request_redirect_uri _ e λ u parsed e1.
        after_require ((u.scheme == "http") || (u.scheme == "https")) invalid_request_redirect_uri _
          e1
          λ known e2.
            after_require (web_scheme_allowed n c u response_type) invalid_request_redirect_uri _ e2
              λ allowed e3. (
                (u, parsed, web_scheme c u response_type allowed),
                check_redirect_uri-IsRegistered c uri e3,
              )

  -- A loopback URI of any port: some registered loopback URI has its path and query.
  abbrev pub SharesLoopback : Url → List String → Type 0
  SharesLoopback u [] = ⊥
  SharesLoopback u (r ∷ rs) =
      ((reg : Url) × IsLoopback n r reg × ((u.path ≡ reg.path) × (u.raw_query ≡ reg.raw_query)))
      ⊎ SharesLoopback u rs

  loopback_registered-SharesLoopback :
      (u : Url) (rs : List String) → loopback_registered n (some u) rs ≡ true → SharesLoopback u rs
  unfolding equal_uri
  loopback_registered-SharesLoopback u [] h = absurd (ground arith)
  loopback_registered-SharesLoopback u (r ∷ rs) h =
      by_result (loopback_registered-SharesLoopback u rs) (http_loopback_or_localhost n r) refl
    where
      by_result :
          (loopback_registered n (some u) rs ≡ true → SharesLoopback u rs)
          → (x : Option Url × Bool) → http_loopback_or_localhost n r ≡ x
          → SharesLoopback u (r ∷ rs)
      by_result later (none, b) e = inr (later (ground arith))
      by_result later (some reg, b) e = elim (Bool-cases (b && equal_uri u reg)) [
        | inl hit ↦
            let looped : b ≡ true = ground arith in
            inl (
              reg,
              local_url-IsLoopback n r reg (e ∙ ap (λ (x : Bool). (some reg, x)) looped),
              ground (arith, eq_iff u.path reg.path, eq_iff u.raw_query reg.raw_query),
            )
        | inr miss ↦ inr (later (ground arith))
      ]

  -- The URI is a loopback one, registered but for its host and port.
  abbrev pub IsLoopbackRedirect : Client → String → Type 0
  IsLoopbackRedirect c uri =
      (v : Url) × IsLoopback n uri v
      × ((uris : List String) × (c.redirect_uris ≡ some uris) × SharesLoopback v uris)

  not_https : (s : String) → s ≡ "http" → (s == "https") ≡ false
  not_https s h = rw h refl

  -- A native client's URI is registered, and secure, loopback or of a custom scheme unless in
  -- development, or it is loopback and registered but for host and port.
  abbrev pub IsNativeRedirect : Client → String → Type 0
  IsNativeRedirect c uri =
      (u : Url) × (parse_url uri ≡ some u)
      × ((IsRegistered c uri
            × ((holds c.dev_mode ≡ true) ⊎ (IsLoopback n uri u ⊎ (u.scheme ≢ "http"))))
          ⊎ IsLoopbackRedirect c uri)

  native-IsNativeRedirect :
      (c : Client) (uri : String)
      → validate_redirect_uri_native n c uri ≡ ok tt
      → IsNativeRedirect c uri
  unfolding validate_redirect_uri_native
  native-IsNativeRedirect c uri e =
      after_expect (parse_url uri) invalid_request_redirect_uri _ e λ u parsed e1.
        by_check u parsed (http_loopback_or_localhost n uri) refl
          (check_redirect_uri_against_client n c uri) refl e1
    where
      by_check :
          (u : Url)
          → parse_url uri ≡ some u
          → (x : Option Url × Bool) → http_loopback_or_localhost n uri ≡ x
          → (y : Result OidcError (Unit {0})) → check_redirect_uri_against_client n c uri ≡ y
          → elim y [
            | ok matched ↦ native_registered n c u x.1
            | err z ↦ native_unregistered n c x.0 x.1
          ]
            ≡ ok tt
          → IsNativeRedirect c uri
      by_check u parsed (v, b) hx (ok matched) hy e1 =
          let loop : (http_loopback_or_localhost n uri).1 ≡ b =
            ap (λ (x : Option Url × Bool). x.1) hx in
          elim (Bool-cases (u.scheme == "http")) [
            | inl h ↦
                let other = not_https u.scheme ((eq_iff u.scheme "http").0 h) in
                let allowed : (holds c.dev_mode ≡ true) ⊎ (b ≡ true) = ground arith in
                (
                  u,
                  parsed,
                  inl (
                    check_redirect_uri-IsRegistered c uri hy,
                    elim allowed [
                      | inl dev ↦ inl dev
                      | inr looped ↦
                          inr (inl (local_flag-IsLoopback n uri u parsed (loop ∙ looped)))
                    ],
                  ),
                )
            | inr h ↦ (
              u,
              parsed,
              inl (
                check_redirect_uri-IsRegistered c uri hy,
                ground (arith, eq_iff u.scheme "http"),
              ),
            )
          ]
      by_check u parsed (v, b) hx (err z) hy e1 =
          after_require b invalid_request_redirect_uri _ e1 λ looped e2.
            after_expect c.redirect_uris invalid_request_redirect_uri _ e2 λ uris given e3.
              (u, parsed, inr (by_url v (hx ∙ ap (λ (x : Bool). (v, x)) looped) uris given e3))
        where
          by_url :
              (v : Option Url)
              → http_loopback_or_localhost n uri ≡ (v, true)
              → (uris : List String) → c.redirect_uris ≡ some uris
              → require (loopback_registered n v uris) invalid_request_redirect_uri ≡ ok tt
              → IsLoopbackRedirect c uri
          by_url none hv uris given e3 = absurd (ground arith)
          by_url (some w) hv uris given e3 = (
            w,
            local_url-IsLoopback n uri w hv,
            (uris, given, loopback_registered-SharesLoopback w uris (ground arith)),
          )

  -- A redirect URI that passes is not empty, and unescapes to one that is right for the client's
  -- application type: registered, over an allowed transport, loopback ports aside.
  pub validate_redirect_uri_sound :
      (c : Client) (uri response_type : String)
      → validate_redirect_uri n c uri response_type ≡ ok tt
      → (uri ≢ "")
        × ((plain : String) × (query_unescape uri ≡ some plain)
            × (((holds c.is_native ≡ true) × IsNativeRedirect c plain)
                ⊎ ((holds c.is_native ≡ false) × IsWebRedirect c plain response_type)))
  unfolding validate_redirect_uri
  validate_redirect_uri_sound c uri response_type e =
      after_require (uri != "") invalid_request_redirect_uri _ e λ given e1.
        after_expect (query_unescape uri) invalid_request_redirect_uri _ e1 λ plain unescaped e2. (
          ground (arith, eq_iff uri ""),
          (
            plain,
            unescaped,
            elim (Bool-cases (holds c.is_native)) [
              | inl h ↦ inl (h, native-IsNativeRedirect c plain (rw h at e2))
              | inr h ↦ inr (h, web-IsWebRedirect c plain response_type (rw h at e2))
            ],
          ),
        )
