-- ===== src/EndSession/Redirect.antt =====
-- pkg/storm/plugins/endsession: where the browser is sent after a logout, and whose session ends.
use kexcore_oidc.Base.{
  ℕ, String, ◌≡◌, refl, sym, ap, ◌∙◌, subst, ◌≢◌, ◌⊎◌, inl, inr, Bool, true, false, ◌&&◌, Option,
  none, some, List, arith, eq_iff, ◌==◌, ◌!=◌, if◌then◌else◌, Bool-cases, Option-cases, contains,
  Listed, contains_iff, Result, ok, err, Result-cases, ok-injective, after_bind,
}
use kexcore_oidc.OidcError.{OidcError, invalid_request}
use kexcore_oidc.Client.{Client}
use kexcore_oidc.Grants.Endpoint.{Services}
use kexcore_oidc.Verifier.Checks.{Claims, Codec}
use kexcore_oidc.Verifier.Token.{IdTokenHintVerifier}
use kexcore_oidc.EndSession.Logout.{
  EndSessionForm, EndSession, LogoutAnswer, logout_error_page, logged_out_page, redirect_to, Logout,
  validate_post_logout_redirect_uri, user_of, client_of, hint_claims, bind_client, choose_redirect,
  validate_end_session_request, validated, call_hook, logout_answer, finish, end_validated,
  handle_end_session,
}

-- That a URI is one that the client registered.
pub record IsLogoutUri (s : Services) (client_id uri : String) : Type 0 where
  pub client : Client
  pub uris : List String
  pub known : s.get_client client_id ≡ ok client
  pub has_uris : client.post_logout_redirect_uris ≡ some uris
  pub registered : Listed uri uris

-- The answer is blank, or the URI itself, which is then registered.
validate_post_logout_redirect_uri-cases :
    (c : Client) (uri : String)
    → (validate_post_logout_redirect_uri c uri ≡ "")
      ⊎ ((validate_post_logout_redirect_uri c uri ≡ uri)
          × ((uris : List String) × (c.post_logout_redirect_uris ≡ some uris) × Listed uri uris))
unfolding validate_post_logout_redirect_uri
validate_post_logout_redirect_uri-cases c uri = elim (Option-cases c.post_logout_redirect_uris) [
  | inl e ↦ inl (rw e refl)
  | inr (uris, e) ↦ elim (Bool-cases (contains uris uri)) [
    | inl l ↦ inr (rw e (rw l refl), (uris, e, (contains_iff uris uri).0 l))
    | inr l ↦ inl (rw e (rw l refl))
  ]
]

and-left : (a b : Bool) → (a && b) ≡ true → a ≡ true
and-left true b h = refl
and-left false b h = cc

-- A redirect URI is chosen only where the client registered the one of the form.
choose_redirect-IsLogoutUri :
    (s : Services) (client_id uri : String)
    → (choose_redirect s client_id uri).0 ≢ ""
    → ((choose_redirect s client_id uri).0 ≡ uri) × IsLogoutUri s client_id uri
unfolding choose_redirect
choose_redirect-IsLogoutUri s client_id uri h =
    elim (Bool-cases ((uri != "") && (client_id != ""))) [
      | inl given ↦ elim (Result-cases (s.get_client client_id)) [
        | inl (c, known) ↦ elim (validate_post_logout_redirect_uri-cases c uri) [
          | inl blank ↦ absurd (h (rw given (rw known (rw blank refl))))
          | inr (same, (uris, has_uris, registered)) ↦ (
            rw given (rw known (rw same (rw (and-left (uri != "") (client_id != "") given) refl))),
            record {
              client = c;
              uris = uris;
              known = known;
              has_uris = has_uris;
              registered = registered;
            },
          )
        ]
        | inr (e, unknown) ↦ absurd (h (rw given (rw unknown refl)))
      ]
      | inr missing ↦ absurd (h (rw missing refl))
    ]

same_or_blank :
    (form_client hinted : String)
    → ((hinted != "") && (form_client != hinted)) ≡ false
    → (hinted ≡ "") ⊎ (form_client ≡ hinted)
same_or_blank form_client hinted h = ground (arith, eq_iff hinted "", eq_iff form_client hinted)

-- The client is that of the hint, and that of the form, where either is given.
bind_client-eq :
    (form_client hinted client_id : String)
    → bind_client form_client hinted ≡ ok client_id
    → ((hinted ≡ "") ⊎ (client_id ≡ hinted)) × ((form_client ≡ "") ⊎ (client_id ≡ form_client))
unfolding bind_client
bind_client-eq form_client hinted client_id h = elim (Bool-cases (form_client == "")) [
  | inl e ↦ (inr (sym (ok-injective (rw e at h))), inl ((eq_iff form_client "").0 e))
  | inr e ↦ elim (Bool-cases ((hinted != "") && (form_client != hinted))) [
    | inl other ↦ absurd (refused (rw other at rest e))
    | inr fits ↦
        let same : form_client ≡ client_id = ok-injective (rw fits at rest e) in
        (
          elim (same_or_blank form_client hinted fits) [
            | inl n ↦ inl n
            | inr m ↦ inr (sym same ∙ m)
          ],
          inr (sym same),
        )
  ]
]
  where
    refused : ◌≡◌ {A = Result OidcError String} (err invalid_request) (ok client_id) → ⊥
    refused p = cc

    rest :
        (form_client == "") ≡ false
        → (if (hinted != "") && (form_client != hinted)
            then err invalid_request
            else ok form_client)
          ≡ ok client_id
    rest e = rw e at h

module _ (s : Services) (k : Codec) (verifier : Option IdTokenHintVerifier) {State : Type 0}
    (o : Logout State) where
  -- What holds when the browser is redirected after a logout.
  pub record IsLoggedOut (form : EndSessionForm) (now : ℕ) (before after_it : State) (uri : String)
      : Type 0 where
    pub claims : Option Claims
    pub ended : EndSession
    pub hinted : hint_claims k verifier form.id_token_hint now ≡ ok claims
    pub user : ended.user_id ≡ user_of claims
    pub of_hint : (client_of claims ≡ "") ⊎ (ended.client_id ≡ client_of claims)
    pub of_form : (form.client_id ≡ "") ⊎ (ended.client_id ≡ form.client_id)
    pub allowed : IsLogoutUri s ended.client_id form.post_logout_redirect_uri
    pub shown :
        (uri ≡ form.post_logout_redirect_uri)
        ⊎ (o.with_state form.post_logout_redirect_uri form.state ≡ some uri)
    pub terminated :
        o.terminate ended.user_id ended.client_id (call_hook o.hook ended before)
        ≡ (after_it, ok tt)

  -- A validated request carries the hint's user, and a client that fits the hint and the form.
  validate_end_session_request-shape :
      {C : Type 0} (form : EndSessionForm) (now : ℕ) (e : EndSession)
      → validate_end_session_request s k verifier form now ≡ ok e
      → ((claims : Option Claims) (client_id : String)
          → hint_claims k verifier form.id_token_hint now ≡ ok claims
          → bind_client form.client_id (client_of claims) ≡ ok client_id
          → validated s form claims client_id ≡ e
          → C)
      → C
  unfolding validate_end_session_request
  validate_end_session_request-shape form now e h use_it =
      after_bind (hint_claims k verifier form.id_token_hint now) _ h λ claims hinted h1.
        after_bind (bind_client form.client_id (client_of claims)) _ h1
          λ client_id bound h2. use_it claims client_id hinted bound (ok-injective h2)

  -- The answers that redirect.
  logout_answer-shown :
      (e : EndSession) (uri : String)
      → logout_answer o e ≡ redirect_to uri
      → (e.redirect_uri ≢ "")
        × ((uri ≡ e.redirect_uri) ⊎ (o.with_state e.redirect_uri e.state ≡ some uri))
  unfolding logout_answer
  logout_answer-shown e uri h = elim (Bool-cases (e.redirect_uri == "")) [
    | inl blank ↦ absurd (page (rw blank at h))
    | inr there ↦ (
      λ blank. false_true (sym there ∙ (eq_iff e.redirect_uri "").1 blank),
      elim (Bool-cases (e.state == "")) [
        | inl plain ↦ inl (same (rw plain at with_uri there))
        | inr stated ↦ elim (Option-cases (o.with_state e.redirect_uri e.state)) [
          | inl broken ↦ inl (same (rw broken at rw stated at with_uri there))
          | inr (u, made) ↦
              inr (made ∙ ap some (sym (same (rw made at rw stated at with_uri there))))
        ]
      ],
    )
  ]
    where
      page : logged_out_page ≡ redirect_to uri → ⊥
      page p = cc

      false_true : false ≡ true → ⊥
      false_true p = cc

      same : {u : String} → redirect_to u ≡ redirect_to uri → uri ≡ u
      same p = cc

      with_uri :
          (e.redirect_uri == "") ≡ false
          → (if e.state == ""
              then redirect_to e.redirect_uri
              else elim (o.with_state e.redirect_uri e.state) [
                | none ↦ redirect_to e.redirect_uri
                | some u ↦ redirect_to u
              ])
            ≡ redirect_to uri
      with_uri there = rw there at h

  -- A redirect is the answer only after the session was terminated.
  end_validated-redirect :
      (e : EndSession) (st st' : State) (uri : String)
      → end_validated o st (ok e) ≡ (st', ok (redirect_to uri))
      → (logout_answer o e ≡ redirect_to uri)
        × (o.terminate e.user_id e.client_id (call_hook o.hook e st) ≡ (st', ok tt))
  end_validated-redirect e st st' uri h = by_flag e.invalid_redirect_uri h
    where
      page :
          ◌≡◌ {A = State × Result OidcError LogoutAnswer}
            (st, ok logout_error_page)
            (st', ok (redirect_to uri))
          → ⊥
      page p = cc

      finished :
          (r : State × Result OidcError (Unit {0}))
          → finish o e r ≡ (st', ok (redirect_to uri))
          → (logout_answer o e ≡ redirect_to uri) × (r ≡ (st', ok tt))
      finished (st1, ok u) p = (cc, cc)
      finished (st1, err why) p = absurd (cc)

      by_flag :
          (b : Bool)
          → (if b
              then (st, ok logout_error_page)
              else finish o e (o.terminate e.user_id e.client_id (call_hook o.hook e st)))
            ≡ (st', ok (redirect_to uri))
          → (logout_answer o e ≡ redirect_to uri)
            × (o.terminate e.user_id e.client_id (call_hook o.hook e st) ≡ (st', ok tt))
      by_flag true p = absurd (page p)
      by_flag false p = finished (o.terminate e.user_id e.client_id (call_hook o.hook e st)) p

  -- The browser is redirected only to the post-logout redirect URI of the form, which the client
  -- registered, or to that URI with the state; the session that was terminated is of the user of the
  -- verified ID token hint, and of a client that is the one of the hint and of the form where these
  -- name one.
  pub handle_end_session-IsLoggedOut :
      (form : EndSessionForm) (now : ℕ) (st st' : State) (uri : String)
      → handle_end_session s k verifier o form now st ≡ (st', ok (redirect_to uri))
      → IsLoggedOut form now st st' uri
  unfolding handle_end_session
  handle_end_session-IsLoggedOut form now st st' uri h =
      elim (Result-cases (validate_end_session_request s k verifier form now)) [
        | inl (e, good) ↦
            validate_end_session_request-shape form now e good
              λ claims client_id hinted bound shape.
                let (answer, terminated) =
                  end_validated-redirect (validated s form claims client_id) st st' uri (
                    subst
                      (λ (r : EndSession). end_validated o st (ok r) ≡ (st', ok (redirect_to uri)))
                      (sym shape) (rw good at h)) in
                let (chosen, shown) =
                  logout_answer-shown (validated s form claims client_id) uri answer in
                let (same, allowed) =
                  choose_redirect-IsLogoutUri s client_id form.post_logout_redirect_uri chosen in
                let (of_hint, of_form) =
                  bind_client-eq form.client_id (client_of claims) client_id bound in
                record {
                  claims = claims;
                  ended = validated s form claims client_id;
                  hinted = hinted;
                  user = refl;
                  of_hint = of_hint;
                  of_form = of_form;
                  allowed = allowed;
                  shown =
                      subst (λ (u : String). (uri ≡ u) ⊎ (o.with_state u form.state ≡ some uri))
                        same shown;
                  terminated = terminated;
                }
        | inr (why, bad) ↦ absurd (refused why (rw bad at h))
      ]
    where
      refused :
          (why : OidcError)
          → ◌≡◌ {A = State × Result OidcError LogoutAnswer}
              (st, err why)
              (st', ok (redirect_to uri))
          → ⊥
      refused why p = cc
