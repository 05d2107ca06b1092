-- ===== src/Auth/Refresh.antt =====
-- Refreshing the access token: `refreshAccessToken` and `getCurrentSessionWithRefresh` of
-- web/src/lib/auth-service.ts. A function is cut where it first waits: `start_refresh` runs up to
-- the call of `fetch`, and `finish_refresh` runs when the answer is there.
pub mod Laws
pub mod Stuck
pub mod Flights
use safebucket.Prelude.{
  ℕ, suc, Bool, true, false, Option, none, some, List, [], ◌∷◌, String, if◌then◌else◌, length,
  present,
}
use Prim.Native.String
use safebucket.Auth.Platform.{
  Json, str, obj, field, end, get_field, Request, Response, Platform, Store, Session, Flight,
  pending, settled, clock,
}
use safebucket.Auth.Config.{get_api_url, is_ok}
use safebucket.Auth.Cookies.{
  get_access_token, get_refresh_token, get_auth_provider, set_access_token,
}
use safebucket.Auth.Session.{DecodedToken, decode_token, session_of}

abbrev token_text : Option Json → Option String
token_text (some (str token)) = present (some token)
token_text _ = none

-- `data.access_token`, where it is a text that is not empty; reading a field of `null` throws, and
-- the `catch` answers as for a missing token. The API sends a text here: the source would store
-- the text of any other truthy value.
abbrev pub new_token : Option Json → Option String
new_token (some (obj fields)) = token_text (get_field "access_token" fields)
new_token _ = none

-- The token in an answer of `/auth/refresh`, if the answer is one that renews the session.
abbrev pub renewed : Option Response → Option String
renewed none = none
renewed (some response) = if is_ok response.status then new_token response.body else none

module _ (p : Platform) where
  -- the POST of `/auth/refresh`
  abbrev pub refresh_request : String → Store p.Jar → Request
  refresh_request token s = record {
    method = "POST";
    url = String.◌++◌ (get_api_url s.config) "/auth/refresh";
    headers = ("Content-Type", "application/json") ∷ [];
    body = some (obj (field "refresh_token" (str token) end));
  }

  -- The synchronous part of `refreshAccessToken`. With no refresh token the inner function runs to
  -- its end before the assignment to `refreshPromise`: its `finally` writes `null` first, and then
  -- the settled promise is stored.
  unfoldable pub start_refresh : Store p.Jar → Flight × Store p.Jar
  start_refresh s = elim s.refresh_promise [
    | some flight ↦ (flight, s)
    | none ↦ elim (present (get_refresh_token p s.jar)) [
      | none ↦ (settled false, record s { refresh_promise = some (settled false) })
      | some token ↦ (
        pending,
        record s { refresh_promise = some pending; sent = refresh_request token s ∷ s.sent },
      )
    ]
  ]

  -- What follows the `await` of the answer, and the `finally`.
  unfoldable pub finish_refresh : Option Response → Store p.Jar → Bool × Store p.Jar
  finish_refresh reply s = elim (renewed reply) [
    | none ↦ (false, record s { refresh_promise = none })
    | some token ↦ (true, record s { refresh_promise = none; jar = set_access_token p token s.jar })
  ]

  -- The answer to the request that was sent last.
  abbrev pub last_reply : List Request → Option Response
  last_reply [] = none
  last_reply (r ∷ sent) = p.fetch (suc (length sent)) r

  -- `refreshAccessToken` where nothing else runs while it waits.
  unfoldable pub refresh_access_token : Store p.Jar → Bool × Store p.Jar
  unfolding start_refresh finish_refresh
  refresh_access_token s =
      let (flight, s') = start_refresh s in
      elim flight [
        | settled result ↦ (result, s')
        | pending ↦ finish_refresh (last_reply s'.sent) s'
      ]

  -- `decodeToken` of the stored token and the tests that follow it, at a time
  abbrev live_session : String → ℕ → p.Jar → Option Session
  live_session provider now jar = elim (present (get_access_token p jar)) [
    | none ↦ none
    | some token ↦ elim (decode_token p now token) [
      | none ↦ none
      | some d ↦ if d.is_expired then none else some (session_of provider d)
    ]
  ]

  -- The two steps of `getCurrentSessionWithRefresh` that follow the decoding.
  abbrev resume : String → Option DecodedToken → Store p.Jar → Option Session × Store p.Jar
  resume provider none s = (none, s)
  resume provider (some d) s =
      if d.is_expired
      then (let (refreshed, s') = refresh_access_token s in
          (if refreshed then live_session provider (clock p s') s'.jar else none, s'))
      else (some (session_of provider d), s)

  unfoldable pub get_current_session_with_refresh : Store p.Jar → Option Session × Store p.Jar
  unfolding refresh_access_token decode_token
  get_current_session_with_refresh s = elim (present (get_access_token p s.jar)) [
    | none ↦ (none, s)
    | some access_token ↦ elim (present (get_auth_provider p s.jar)) [
      | none ↦ (none, s)
      | some auth_provider ↦ resume auth_provider (decode_token p (clock p s) access_token) s
    ]
  ]
