-- ===== src/Auth/Routes/Examples.antt =====
-- Examples of the start of the page and of the way through the login page.
use safebucket.Prelude.{
  arith, ◌≡◌, ◌↔◌, ◌⊎◌, refl, true, false, none, some, Option, [], String, present,
}
use safebucket.Auth.Platform.{Session, Store, Config, production, Failure}
use safebucket.Auth.Cookies.{set_all}
use safebucket.Auth.Session.{HasSession, decode_token, get_current_session}
use safebucket.Auth.Login.{login_with_credentials}
use safebucket.Auth.Api.{fetch_api, request_of, read_response}
use safebucket.Auth.Pages.{LoginPage, submit_login}
use safebucket.Auth.Routes.{shows, shows_login, root_component, initialize_app, visit}
use safebucket.Auth.Routes.Laws.{initialize_app_guards, redirect_of, visit-submit_login}
use safebucket.Auth.Examples.{Jar, generous, page, cookies, login_form, ada}

abbrev config : Config
config = record { api_url = "https://api"; environment = production }

abbrev carry : String → Option String
carry s = some s

initialize_app_guards_example :
    let s' = initialize_app generous (page (cookies "old")) in
    let screen = visit generous carry "/buckets/b1" s' in
    let frame = root_component s'.session config in
    ((screen ≡ shows "/buckets/b1") ↔ ((x : Session) × HasSession generous s' x))
    × ((frame.has_sidebar ≡ true) ↔ ((x : Session) × HasSession generous s' x))
    × ((screen ≡ shows "/buckets/b1") ⊎ (screen ≡ shows_login (present (carry "/buckets/b1"))))
initialize_app_guards_example =
    initialize_app_guards generous carry config "/buckets/b1" (page (cookies "old")) refl
      (λ n. omega arith)

abbrev login_page : LoginPage
login_page = record { show_password = true; error = none; is_loading = false }

abbrev message_of : Failure → String
message_of f = "failure"

-- the page once the API has accepted the password
abbrev accepted : Store Jar
accepted = (login_with_credentials generous login_form (page [])).1

visit-submit_login_example :
    let screen = visit generous carry "/buckets/b1" (page []) in
    let (l', s') =
      submit_login generous
        (λ s. s)
        message_of
        []
        (redirect_of screen)
        login_form
        login_page
        (page []) in
    (screen ≡ shows_login (some "/buckets/b1"))
    × (s'.location ≡ "/buckets/b1")
    × (visit generous carry "/buckets/b1" s' ≡ shows "/buckets/b1")
    × (l'.error ≡ none)
unfolding login_with_credentials set_all fetch_api request_of read_response get_current_session
    decode_token
visit-submit_login_example =
    visit-submit_login generous (λ s. s) message_of carry "/buckets/b1" [] login_form login_page
      (page []) accepted ada refl (λ e. cc) refl refl refl refl
