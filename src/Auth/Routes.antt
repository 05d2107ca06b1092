-- ===== src/Auth/Routes.antt =====
-- The start of the page and its guarded routes: `initializeApp` of web/src/main.tsx, the root route
-- web/src/routes/__root.tsx, web/src/routes/_authenticated.tsx, and `validateSearch` of
-- web/src/routes/auth/login/index.tsx. The router writes the search parameters into the address and
-- reads them from there: `carry` is what becomes of a text on that way.
pub mod Laws
mod Examples
use safebucket.Prelude.{Bool, true, false, Option, none, some, String, present}
use safebucket.Auth.Platform.{
  Platform, Store, Session, Config, Environment, development, production,
}
use safebucket.Auth.Session.{require_auth}
use safebucket.Auth.Refresh.{get_current_session_with_refresh}

-- `validateSearch`
pub validate_search : Option String → Option String
validate_search redirect = present redirect

-- What the router shows for an address below `/_authenticated`: the page, or the login page with its
-- `redirect`.
pub data Screen : Type 0 where
  shows : (href : String) → Screen
  shows_login : (redirect : Option String) → Screen

-- What `RootComponent` puts around a page.
pub record Frame : Type 0 where
  pub has_sidebar : Bool
  pub has_devtools : Bool

-- `RootComponent`
pub root_component : Option Session → Config → Frame
root_component session config = record {
  has_sidebar = elim session [ none ↦ false | some _ ↦ true ];
  has_devtools = elim config.environment [ development ↦ true | production ↦ false ];
}

module _ (p : Platform) where
  -- `initializeApp`
  pub initialize_app : Store p.Jar → Store p.Jar
  unfolding get_current_session_with_refresh
  initialize_app s =
      let (session, s') = get_current_session_with_refresh p s in record s' { session = session }

  -- the route `/_authenticated`, whose `beforeLoad` is `requireAuth`
  pub visit : (String → Option String) → String → Store p.Jar → Screen
  unfolding require_auth validate_search
  visit carry href s = elim (require_auth p href s) [
    | none ↦ shows href
    | some redirect ↦ shows_login (validate_search (carry redirect))
  ]
