-- ===== src/Auth/Examples.antt =====
-- Examples of authentication, on a browser whose cookies are a list and whose answers are given.
use safebucket.Prelude.{
  ℕ, ◌≡◌, ◌≢◌, refl, true, false, not, ◌==◌, eq_iff, Option, none, some, List, [], ◌∷◌, String,
  filter, if◌then◌else◌, arith, eqb, text_length, ◌↔◌, ◌⊎◌, ◌≤◌, ◌+◌,
}
use safebucket.Auth.Platform.{
  Json, Fields, user, Payload, Session, Request, Response, Platform, Store, err, Failure, settled,
}
use safebucket.Auth.Cookies.{get_access_token, get_refresh_token, get_auth_provider}
use safebucket.Auth.Session.{decode_token, get_current_session, HasSession, get_current_session_iff}
use safebucket.Auth.Refresh.{
  start_refresh, finish_refresh, refresh_access_token, get_current_session_with_refresh,
  refresh_request,
}
use safebucket.Auth.Refresh.Laws.{get_current_session_with_refresh_agrees}
use safebucket.Auth.Refresh.Stuck.{refresh_stuck}
use safebucket.Auth.Refresh.Flights as F
use safebucket.Auth.Api.{no_options, read_response, request_of, fetch_api}
use safebucket.Auth.Api.Laws.{
  fetch_api_signs_out, retry_of, fetch_api_retries, fetch_api_requests, first_reply, asked,
  IsForbidden, RenewsOnce,
}
use safebucket.Auth.Login.{submit_challenge, password_reset_texts, FormState, LoginForm}
use safebucket.Auth.Login.Laws.{IsAccepted, submit_challenge_sound}

abbrev pub Jar : Type 0
Jar = List (String × String)

abbrev pub get : String → Jar → Option String
get k [] = none
get k (c ∷ jar) = if c.0 == k then some c.1 else get k jar

abbrev pub remove : String → Jar → Jar
remove k = filter (λ c. not (c.0 == k))

pub get-remove_lem :
    (k j : String) (jar : Jar) → get j (remove k jar) ≡ (if k == j then none else get j jar)
get-remove_lem k j [] = ground arith
get-remove_lem k j (c ∷ jar) =
    ground (arith, get-remove_lem k j jar, eq_iff c.0 k, eq_iff c.0 j, eq_iff k j)

abbrev pub payload : ℕ → Payload
payload exp = record { user_id = "u1"; email = "ada@example.com"; role = user; exp = exp }

-- `live` expires at 2000 s and `old` at 1000 s; the clock stands at 1000 s.
abbrev pub decode : String → Option Payload
decode token =
    if token == "live"
    then some (payload 2000)
    else (if token == "old" then some (payload 1000) else none)

abbrev pub browser : (ℕ → Request → Option Response) → Platform
browser fetch = record {
  Jar = Jar;
  get = get;
  set = λ k v jar. (k, v) ∷ jar;
  remove = remove;
  jwt_decode = decode;
  fetch = fetch;
  now = λ _. 1000000;
  query = λ _. "q=1";
  get-set = λ k j v jar. refl;
  get-remove = get-remove_lem;
}

-- An answer of the API: its status, and the two tokens.
abbrev pub tokens : ℕ → Response
tokens status = record {
  status = status;
  content_length = none;
  body = some (
      Json.obj (
        Fields.field "access_token" (Json.str "live")
          (Fields.field "refresh_token" (Json.str "r2") Fields.end)));
}

abbrev pub refusal : Response
refusal = record {
  status = 403;
  content_length = none;
  body = some (Json.obj (Fields.field "error" (Json.str "FORBIDDEN") Fields.end));
}

abbrev pub page : Jar → Store Jar
page jar = record {
  jar = jar;
  refresh_promise = none;
  config = none;
  session = none;
  location = "/";
  sent = [];
}

-- the cookies of a user with a token
abbrev pub cookies : String → Jar
cookies token =
    ("safebucket_access_token", token)
    ∷ ("safebucket_refresh_token", "r1")
    ∷ ("safebucket_auth_provider", "local")
    ∷ []

abbrev pub ada : Session
ada = record { user_id = "u1"; email = "ada@example.com"; role = user; auth_provider = "local" }

-- every request is answered with fresh tokens
abbrev pub generous : Platform
generous = browser (λ _ _. some (tokens 200))

-- the first call is refused, the next ones are not
abbrev strict : Platform
strict = browser (λ n _. if eqb n 1 then some refusal else some (tokens 200))

-- every call is refused
abbrev closed : Platform
closed = browser (λ _ _. some refusal)

agrees_example :
    get_current_session generous
      (get_current_session_with_refresh generous (page (cookies "old"))).1
    ≡ some ada
unfolding get_current_session get_current_session_with_refresh refresh_access_token start_refresh
    finish_refresh decode_token
agrees_example =
    get_current_session_with_refresh_agrees generous (page (cookies "old")) refl (λ n. omega arith)

session_iff_example :
    (get_current_session generous (page (cookies "live")) ≡ some ada)
    ↔ HasSession generous (page (cookies "live")) ada
session_iff_example = get_current_session_iff generous (page (cookies "live"))

abbrev refreshed : Store Jar
refreshed = (refresh_access_token generous (page (cookies "old"))).1

-- Without cookies a refresh leaves its promise; after a sign-in the next one is still refused.
refresh_stuck_example :
    refresh_access_token generous
      (record (page (cookies "old")) { refresh_promise = some (settled false) })
    ≡ (false, record (page (cookies "old")) { refresh_promise = some (settled false) })
unfolding refresh_access_token start_refresh finish_refresh
refresh_stuck_example =
    refresh_stuck generous (page [])
      (record (page (cookies "old")) { refresh_promise = some (settled false) }) refl refl refl

abbrev quiet : F.Page Jar
quiet = record { store = page (cookies "old"); waiting = []; answers = []; posted = 0; replied = 0 }

-- Two callers share one request.
single_flight_example :
    let g = F.call generous 2 (F.call generous 1 quiet) in
    (g.posted ≤ g.replied + 1) × (g.waiting ≢ [] → g.posted ≡ g.replied + 1)
single_flight_example =
    F.single_flight generous {g = quiet} refl refl refl
      (F.next (F.next F.here (F.calls 1 quiet)) (F.calls 2 (F.call generous 1 quiet)))

signs_out_example :
    let (result, s') = fetch_api closed "/buckets" no_options (page (cookies "live")) in
    ((e : Failure) × (result ≡ err e))
    × (get_current_session closed s' ≡ none)
    × (get_access_token closed s'.jar ≡ none)
    × (get_refresh_token closed s'.jar ≡ none)
    × (get_auth_provider closed s'.jar ≡ none)
unfolding refresh_access_token start_refresh finish_refresh request_of
signs_out_example =
    fetch_api_signs_out closed "/buckets" no_options (page (cookies "live")) refl refl refl

-- A call that is refused with the old token is made again with the fresh one.
retries_example :
    let s = page (cookies "old") in
    let (result, s') = fetch_api strict "/buckets" no_options s in
    let before = refresh_request strict "r1" s ∷ request_of strict "/buckets" no_options s ∷ [] in
    (s'.sent ≡ retry_of strict "/buckets" no_options "live" s ∷ before)
    × (get_access_token strict s'.jar ≡ some "live")
    × (result ≡ read_response (tokens 200))
retries_example =
    fetch_api_retries strict "/buckets" no_options (page (cookies "old")) refl refl refl refl refl

requests_example :
    let s = page (cookies "old") in
    let sent = (fetch_api strict "/buckets" no_options s).1.sent in
    let reply = first_reply strict "/buckets" no_options s in
    let (refreshed, u) = refresh_access_token strict (asked strict "/buckets" no_options s) in
    ((¬ IsForbidden strict "/buckets" no_options reply)
      × (sent ≡ (asked strict "/buckets" no_options s).sent))
    ⊎ (IsForbidden strict "/buckets" no_options reply
        × RenewsOnce strict "/buckets" no_options s u
        × (((refreshed ≡ false) × (sent ≡ u.sent))
            ⊎ ((refreshed ≡ true) × (sent ≡ request_of strict "/buckets" no_options u ∷ u.sent))))
requests_example = fetch_api_requests strict "/buckets" no_options (page (cookies "old")) (λ e. cc)

abbrev secret : String
secret = "secret"

abbrev form_state : FormState
form_state = record { error = none; is_validated = false }

challenge_example :
    let r =
      submit_challenge generous password_reset_texts "/auth/reset-password/c1/validate" "123456"
        secret secret form_state
        (page []) in
    (r.0.is_validated ≡ true
      → IsAccepted generous password_reset_texts "/auth/reset-password/c1/validate" "123456" secret
          secret form_state r)
    × ((text_length "123456" ≢ 6) ⊎ (secret ≢ secret) → r.1 ≡ page [])
challenge_example =
    submit_challenge_sound generous password_reset_texts "/auth/reset-password/c1/validate" "123456"
      secret secret form_state (page []) refl

abbrev pub login_form : LoginForm
login_form = record { email = "ada@example.com"; password = "secret" }
