-- ===== src/Auth/Api.antt =====
-- Requests to the API: web/src/lib/api.ts.
pub mod Laws
pub mod Reads
use Prim.Native.String
use safebucket.Prelude.{
  ℕ, Bool, true, false, not, ◌||◌, ◌==◌, Option, none, some, List, [], ◌∷◌, ◌++◌, String, eqb,
  if◌then◌else◌, present, filter,
}
use safebucket.Auth.Platform.{
  Json, Items, Fields, Param, Request, Response, Platform, Store, Async, Result, ok, err, bad_json,
  network, type_error, api_error, send, get_field,
}
use safebucket.Auth.Config.{get_api_url, is_ok}
use safebucket.Auth.Cookies.{get_access_token}
use safebucket.Auth.Session.{logout}
use safebucket.Auth.Refresh.{refresh_access_token}

-- `RequestOptions`; `cookie` is read by nothing
pub record RequestOptions : Type 0 where
  pub method : Option String
  pub headers : List (String × String)
  pub body : Option Json
  pub params : Option (List (String × Param))

abbrev pub no_options : RequestOptions
no_options = record { method = none; headers = []; body = none; params = none }

-- `value !== undefined && value !== null`
abbrev is_given : Param → Bool
is_given Param.undefined = false
is_given Param.null = false
is_given _ = true

abbrev with_query : (List (String × Param) → String) → String → List (String × Param) → String
with_query query url [] = url
with_query query url (e ∷ es) = String.◌++◌ url (String.◌++◌ "?" (query (e ∷ es)))

-- `buildUrlWithParams`
pub build_url_with_params :
    (List (String × Param) → String) → String → Option (List (String × Param)) → String
build_url_with_params query url none = url
build_url_with_params query url (some params) =
    with_query query url (filter (λ e. is_given e.1) params)

-- `res.error[0]`: indexing `undefined` or `null` throws
abbrev item_0 : Option Json → Result (Option Json)
item_0 none = err type_error
item_0 (some Json.null) = err type_error
item_0 (some (Json.arr Items.nil)) = ok none
item_0 (some (Json.arr (Items.cons j _))) = ok (some j)
item_0 (some (Json.str String.[])) = ok none
item_0 (some (Json.str (String.◌∷◌ c _))) = ok (some (Json.str (String.◌∷◌ c String.[])))
item_0 (some (Json.obj fields)) = ok (get_field "0" fields)
item_0 (some (Json.num _)) = ok none
item_0 (some (Json.bool _)) = ok none

-- `throw new Error(res.error[0])`, after `await response.json()`
abbrev thrown : {A : Type 0} → Result (Option Json) → Result A
thrown (ok message) = err (api_error message)
thrown (err e) = err e

unfoldable pub read_error : {A : Type 0} → Option Json → Result A
read_error none = err bad_json
read_error (some Json.null) = err type_error
read_error (some (Json.obj fields)) = thrown (item_0 (get_field "error" fields))
read_error (some _) = thrown (item_0 none)

abbrev is_zero : Option String → Bool
is_zero none = false
is_zero (some length) = length == "0"

-- What `fetchApi` makes of an answer that it does not retry: `null` for an answer without content.
unfoldable pub read_response : Response → Result Json
unfolding read_error
read_response r =
    if not (is_ok r.status)
    then read_error r.body
    else (if eqb r.status 204 || is_zero r.content_length
        then ok Json.null
        else elim r.body [ none ↦ err bad_json | some json ↦ ok json ])

abbrev method_or_get : Option String → String
method_or_get none = "GET"
method_or_get (some method) = method

abbrev bearer : Option String → List (String × String)
bearer none = []
bearer (some token) = ("Authorization", String.◌++◌ "Bearer " token) ∷ []

module _ (p : Platform) where
  -- The request of `fetchApi`, with the access token that the cookies hold.
  unfoldable pub request_of : String → RequestOptions → Store p.Jar → Request
  unfolding build_url_with_params
  request_of url options s = record {
    method = method_or_get options.method;
    url = build_url_with_params p.query (String.◌++◌ (get_api_url s.config) url) options.params;
    headers =
        ("Content-Type", "application/json") ∷ ("Accept", "application/json") ∷ options.headers
        ++ bearer (present (get_access_token p s.jar));
    body = options.body;
  }

  -- `fetchApi` with `retry` false: the branch on 403 is not taken.
  pub fetch_api_last : String → RequestOptions → Async (Store p.Jar) Json
  unfolding request_of read_response
  fetch_api_last url options s =
      let (reply, s₁) = send p (request_of url options s) s in
      elim reply [ none ↦ (err network, s₁) | some response ↦ (read_response response, s₁) ]

  -- On 403 the token is refreshed and the request made once more, or the user is signed out.
  abbrev retried : String → RequestOptions → Response → Store p.Jar → Result Json × Store p.Jar
  retried url options response s =
      let (refreshed, s') = refresh_access_token p s in
      if refreshed then fetch_api_last url options s' else (read_response response, logout p s')

  -- `fetchApi` with `retry` true, its default
  unfoldable pub fetch_api : String → RequestOptions → Async (Store p.Jar) Json
  unfolding fetch_api_last refresh_access_token logout
  fetch_api url options s =
      let (reply, s₁) = send p (request_of url options s) s in
      elim reply [
        | none ↦ (err network, s₁)
        | some response ↦
            if eqb response.status 403
            then retried url options response s₁
            else (read_response response, s₁)
      ]

  -- `api.get`, `api.post`, `api.put`, `api.patch`, `api.delete`
  abbrev pub api_get : String → Async (Store p.Jar) Json
  api_get url = fetch_api url (record no_options { method = some "GET" })

  abbrev pub api_post : String → Option Json → Async (Store p.Jar) Json
  api_post url body = fetch_api url (record no_options { method = some "POST"; body = body })

  abbrev pub api_put : String → Option Json → Async (Store p.Jar) Json
  api_put url body = fetch_api url (record no_options { method = some "PUT"; body = body })

  abbrev pub api_patch : String → Option Json → Async (Store p.Jar) Json
  api_patch url body = fetch_api url (record no_options { method = some "PATCH"; body = body })

  abbrev pub api_delete : String → Async (Store p.Jar) Json
  api_delete url = fetch_api url (record no_options { method = some "DELETE" })
