-- ===== src/Auth/Cookies.antt =====
-- The three cookies of the session: `authCookies` of web/src/lib/auth-service.ts.
use safebucket.Prelude.{◌≡◌, Option, none, some, String}
use safebucket.Auth.Platform.{Platform}

abbrev pub cookie_access_token : String
cookie_access_token = "safebucket_access_token"

abbrev pub cookie_refresh_token : String
cookie_refresh_token = "safebucket_refresh_token"

abbrev pub cookie_auth_provider : String
cookie_auth_provider = "safebucket_auth_provider"

module _ (p : Platform) where
  abbrev pub get_access_token : p.Jar → Option String
  get_access_token = p.get cookie_access_token

  abbrev pub get_refresh_token : p.Jar → Option String
  get_refresh_token = p.get cookie_refresh_token

  abbrev pub get_auth_provider : p.Jar → Option String
  get_auth_provider = p.get cookie_auth_provider

  abbrev pub set_access_token : String → p.Jar → p.Jar
  set_access_token = p.set cookie_access_token

  abbrev pub set_refresh_token : String → p.Jar → p.Jar
  set_refresh_token = p.set cookie_refresh_token

  abbrev pub set_auth_provider : String → p.Jar → p.Jar
  set_auth_provider = p.set cookie_auth_provider

  pub clear_all : p.Jar → p.Jar
  clear_all jar =
      p.remove cookie_auth_provider
        (p.remove cookie_refresh_token (p.remove cookie_access_token jar))

  unfoldable pub set_all : String → String → String → p.Jar → p.Jar
  set_all access_token refresh_token provider jar =
      set_auth_provider provider
        (set_refresh_token refresh_token (set_access_token access_token jar))

  -- `setAll` is read back by the three getters.
  pub get-set_all :
      (a r v : String) (jar : p.Jar)
      → (get_access_token (set_all a r v jar) ≡ some a)
        × (get_refresh_token (set_all a r v jar) ≡ some r)
        × (get_auth_provider (set_all a r v jar) ≡ some v)
  unfolding set_all
  get-set_all a r v jar = (simp (p.get-set), simp (p.get-set), simp (p.get-set))

  pub get-clear_all :
      (jar : p.Jar)
      → (get_access_token (clear_all jar) ≡ none)
        × (get_refresh_token (clear_all jar) ≡ none)
        × (get_auth_provider (clear_all jar) ≡ none)
  unfolding clear_all
  get-clear_all jar = (simp (p.get-remove), simp (p.get-remove), simp (p.get-remove))

  -- A new access token changes no other cookie.
  pub get-set_access_token :
      (a : String) (jar : p.Jar)
      → (get_access_token (set_access_token a jar) ≡ some a)
        × (get_refresh_token (set_access_token a jar) ≡ get_refresh_token jar)
        × (get_auth_provider (set_access_token a jar) ≡ get_auth_provider jar)
  get-set_access_token a jar = (simp (p.get-set), simp (p.get-set), simp (p.get-set))
