-- ===== src/Auth/Routes/Laws.antt =====
-- Who is let in once the page has started, and where a user who was sent to sign in arrives.
use safebucket.Prelude.{
  ◌≡◌, ◌≢◌, ◌↔◌, ◌⊎◌, ◌∙◌, refl, ap, true, false, Option-cases, inl, inr, Option, none, some, List,
  String, arith, present, present_of_ne,
}
use safebucket.Auth.Platform.{Platform, Store, Session, Config, ok, Failure}
use safebucket.Auth.Session.{get_current_session, get_current_session_iff, HasSession, require_auth}
use safebucket.Auth.Refresh.Laws.{IsIdle, IsMonotone, get_current_session_with_refresh_agrees}
use safebucket.Auth.Login.{LoginForm, login_with_credentials, login_local, refresh_session}
use safebucket.Auth.Pages.{Provider, LoginPage, submit_login, handle_local_login, or_home}
use safebucket.Auth.Routes.{
  validate_search, Screen, shows, shows_login, root_component, initialize_app, visit,
}

-- What the login page is told.
abbrev pub redirect_of : Screen → Option String
redirect_of (shows href) = none
redirect_of (shows_login redirect) = redirect

module _ (p : Platform) where
  initialize_app-session :
      (s : Store p.Jar)
      → IsIdle s
      → IsMonotone p p.now
      → get_current_session p (initialize_app p s) ≡ (initialize_app p s).session
  unfolding initialize_app get_current_session
  initialize_app-session s idle mono = get_current_session_with_refresh_agrees p s idle mono

  visit-shows :
      (carry : String → Option String) (href : String) (s : Store p.Jar) (x : Session)
      → s.session ≡ some x
      → visit p carry href s ≡ shows href
  unfolding visit require_auth
  visit-shows carry href s x there = rw there refl

  visit-login :
      (carry : String → Option String) (href : String) (s : Store p.Jar)
      → s.session ≡ none
      → visit p carry href s ≡ shows_login (present (carry href))
  unfolding visit require_auth validate_search
  visit-login carry href s gone = rw gone refl

  has_sidebar_none :
      (config : Config) (o : Option Session)
      → o ≡ none
      → (root_component o config).has_sidebar ≡ false
  unfolding root_component
  has_sidebar_none config o gone = rw gone refl

  has_sidebar_some :
      (config : Config) (o : Option Session) {x : Session}
      → o ≡ some x
      → (root_component o config).has_sidebar ≡ true
  unfolding root_component
  has_sidebar_some config o there = rw there refl

  -- Once the page has started, with nothing under way before and a clock that does not run
  -- backwards, a guarded address is shown exactly when the cookies hold a live session, and so is
  -- the sidebar; otherwise the login page is shown without it, and is told the address.
  pub initialize_app_guards :
      (carry : String → Option String) (config : Config) (href : String) (s : Store p.Jar)
      → IsIdle s
      → IsMonotone p p.now
      → let s' = initialize_app p s in
        let screen = visit p carry href s' in
        let frame = root_component s'.session config in
        ((screen ≡ shows href) ↔ ((x : Session) × HasSession p s' x))
        × ((frame.has_sidebar ≡ true) ↔ ((x : Session) × HasSession p s' x))
        × ((screen ≡ shows href) ⊎ (screen ≡ shows_login (present (carry href))))
  initialize_app_guards carry config href s idle mono =
      let s' = initialize_app p s in
      let held = initialize_app-session s idle mono in
      elim (Option-cases s'.session) [
        | inl gone ↦
            let login = visit-login carry href s' gone in
            let unheld : ¬ ((x : Session) × HasSession p s' x) =
              λ (x, has). absurd (cc ((get_current_session_iff p s').1 has, held, gone)) in
            (
              ((λ shown. absurd (cc)), (λ has. absurd (unheld has))),
              (
                (λ e. absurd (cc (has_sidebar_none config s'.session gone))),
                (λ has. absurd (unheld has)),
              ),
              inr login,
            )
        | inr (x, there) ↦
            let has : (y : Session) × HasSession p s' y =
              (x, (get_current_session_iff p s').0 (held ∙ there)) in
            let shown = visit-shows carry href s' x there in
            (
              ((λ _. has), (λ _. shown)),
              ((λ _. has), (λ _. has_sidebar_some config s'.session there)),
              inl shown,
            )
      ]

  login_local-ok :
      (form : LoginForm) (s u : Store p.Jar)
      → login_with_credentials p form s ≡ (ok tt, u)
      → login_local p form s ≡ (ok tt, refresh_session p u)
  unfolding login_local
  login_local-ok form s u accepted = ground arith

  or_home-some : (href : String) → href ≢ "" → or_home (some href) ≡ href
  or_home-some href given = rw (present_of_ne href given, or_home) refl

  submitted :
      (lower : String → String) (message_of : Failure → String) (href : String)
      (providers : List Provider) (form : LoginForm) (l : LoginPage) (s u : Store p.Jar)
      → href ≢ ""
      → l.show_password ≡ true
      → login_with_credentials p form s ≡ (ok tt, u)
      → submit_login p lower message_of providers (some href) form l s ≡ (
        record l { error = none; is_loading = false },
        record (refresh_session p u) { location = href },
      )
  unfolding submit_login handle_local_login
  submitted lower message_of href providers form l s u given asked accepted =
      ground (arith, login_local-ok form s u accepted, or_home-some href given)

  -- A user who opens a guarded address without a session is shown the login page, and, once signed
  -- in there with a password, is at that address and is let in, if the session is live and the
  -- router carries the address.
  pub visit-submit_login :
      (lower : String → String) (message_of : Failure → String) (carry : String → Option String)
      (href : String) (providers : List Provider) (form : LoginForm) (l : LoginPage)
      (s u : Store p.Jar) (x : Session)
      → s.session ≡ none
      → href ≢ ""
      → carry href ≡ some href
      → l.show_password ≡ true
      → login_with_credentials p form s ≡ (ok tt, u)
      → get_current_session p u ≡ some x
      → let screen = visit p carry href s in
        let (l', s') = submit_login p lower message_of providers (redirect_of screen) form l s in
        (screen ≡ shows_login (some href))
        × (s'.location ≡ href)
        × (visit p carry href s' ≡ shows href)
        × (l'.error ≡ none)
  unfolding refresh_session
  visit-submit_login lower message_of carry href providers form l s u x gone given carried asked
        accepted live =
      let told =
        visit-login carry href s gone
        ∙ ap shows_login (ap present carried ∙ present_of_ne href given) in
      (
        told,
        rw told
            (rw (submitted lower message_of href providers form l s u given asked accepted) refl),
        rw told (
            rw (submitted lower message_of href providers form l s u given asked accepted)
              (visit-shows carry href (record (refresh_session p u) { location = href }) x live)),
        rw told
            (rw (submitted lower message_of href providers form l s u given asked accepted) refl),
      )
