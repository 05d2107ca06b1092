-- ===== src/Auth/Refresh/Stuck.antt =====
-- A refresh that is asked for while there is no refresh token.
use safebucket.Prelude.{◌≡◌, ◌∙◌, Bool, false, none, some, arith, present}
use safebucket.Auth.Platform.{Platform, Store, settled}
use safebucket.Auth.Cookies.{get_refresh_token}
use safebucket.Auth.Refresh.{refresh_access_token}
use safebucket.Auth.Refresh.Laws.{IsIdle}

module _ (p : Platform) where
  refresh_access_token_settled :
      (b : Bool) (s : Store p.Jar)
      → s.refresh_promise ≡ some (settled b)
      → refresh_access_token p s ≡ (b, s)
  unfolding refresh_access_token
  refresh_access_token_settled b s e = ground arith

  leaves_settled :
      (s : Store p.Jar)
      → IsIdle s
      → present (get_refresh_token p s.jar) ≡ none
      → (refresh_access_token p s).1.refresh_promise ≡ some (settled false)
  unfolding refresh_access_token
  leaves_settled s idle missing = ground arith

  -- One refresh without a refresh token disables refreshing for good: in every later state `u`
  -- that keeps the promise which it leaves, whatever the cookies are by then, a refresh answers
  -- `false`, sends nothing and changes nothing.
  pub refresh_stuck :
      (s u : Store p.Jar)
      → IsIdle s
      → present (get_refresh_token p s.jar) ≡ none
      → u.refresh_promise ≡ (refresh_access_token p s).1.refresh_promise
      → refresh_access_token p u ≡ (false, u)
  refresh_stuck s u idle missing kept =
      refresh_access_token_settled false u (kept ∙ leaves_settled s idle missing)
