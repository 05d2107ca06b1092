-- ===== src/Auth/Login.antt =====
-- Signing in and out: `loginWithProvider` and `loginWithCredentials` of
-- web/src/lib/auth-service.ts, the hooks of web/src/hooks/useAuth.ts, and the forms of
-- web/src/routes/auth/login/index.tsx (`handleLocalLogin`), PasswordResetValidateForm.tsx and
-- InviteAcceptForm.tsx (`handleFormSubmit`).
pub mod Laws
use Prim.Native.String
use safebucket.Prelude.{
  ℕ, Bool, true, false, not, ◌&&◌, ◌==◌, Option, none, some, List, [], ◌∷◌, String, eqb,
  if◌then◌else◌, text_length,
}
use safebucket.Auth.Platform.{
  Json, Fields, Platform, Store, Async, Result, ok, err, Failure, type_error, get_field, Session,
}
use safebucket.Auth.Config.{get_api_url}
use safebucket.Auth.Cookies.{set_all}
use safebucket.Auth.Session.{get_current_session, logout}
use safebucket.Auth.Api.{api_post}

-- `encodeURIComponent` of a value that is not there
abbrev text_or_undefined : Option Json → Option String
text_or_undefined none = some "undefined"
text_or_undefined (some (Json.str s)) = some s
text_or_undefined (some other) = none

-- `ILoginResponse`: the two tokens of an answer. The answer is `null` where it has no content, and
-- reading a field of `null` throws. A token that is absent, as in an answer that is no object, is
-- stored as the text of `undefined`; the API sends no token that is not a text, which stands here
-- with what throws.
pub tokens_of : Json → Result (String × String)
tokens_of (Json.obj fields) = elim (text_or_undefined (get_field "access_token" fields)) [
  | none ↦ err type_error
  | some access ↦ elim (text_or_undefined (get_field "refresh_token" fields)) [
    | none ↦ err type_error
    | some refresh ↦ ok (access, refresh)
  ]
]
tokens_of Json.null = err type_error
tokens_of other = ok ("undefined", "undefined")

-- `{ email, password }`
pub record LoginForm : Type 0 where
  pub email : String
  pub password : String

abbrev pub credentials : LoginForm → Json
credentials c = Json.obj (
    Fields.field "email" (Json.str c.email)
      (Fields.field "password" (Json.str c.password) Fields.end))

module _ (p : Platform) where
  -- `authCookies.setAll(response.access_token, response.refresh_token, "local")`
  pub store_tokens : Result Json → Store p.Jar → Result Unit × Store p.Jar
  unfolding tokens_of
  store_tokens (err e) s = (err e, s)
  store_tokens (ok json) s = elim (tokens_of json) [
    | err e ↦ (err e, s)
    | ok (access, refresh) ↦ (ok tt, record s { jar = set_all p access refresh "local" s.jar })
  ]

  -- A POST whose answer signs the user in; each caller catches its failures.
  pub sign_in_by : String → Json → Async (Store p.Jar) Unit
  unfolding store_tokens
  sign_in_by url body s = let (answer, s') = api_post p url (some body) s in store_tokens answer s'

  -- `loginWithProvider`
  abbrev pub login_with_provider : String → Store p.Jar → Store p.Jar
  login_with_provider provider s = record s {
    location =
        String.◌++◌ (get_api_url s.config)
          (String.◌++◌ "/auth/providers/" (String.◌++◌ provider "/begin"));
  }

  -- `loginWithCredentials`: `ok` is `{ success: true }`, `err` is `{ success: false, error }`.
  unfoldable pub login_with_credentials : LoginForm → Async (Store p.Jar) Unit
  unfolding sign_in_by
  login_with_credentials form = sign_in_by "/auth/login" (credentials form)

  -- `router.update` with the session that the cookies hold: the callback of `useRefreshSession`
  unfoldable pub refresh_session : Store p.Jar → Store p.Jar
  unfolding get_current_session
  refresh_session s = record s { session = get_current_session p s }

  -- `loginLocal` of `useLogin`
  unfoldable pub login_local : LoginForm → Async (Store p.Jar) Unit
  unfolding login_with_credentials refresh_session
  login_local form s =
      let (result, s') = login_with_credentials form s in
      elim result [ err e ↦ (err e, s') | ok _ ↦ (ok tt, refresh_session s') ]

  -- the callback of `useLogout`
  pub sign_out : Store p.Jar → Store p.Jar
  unfolding logout
  sign_out s = record (logout p s) { session = none; location = "/auth/login" }

-- What the page of a form shows: an error's key, or that the code was accepted.
pub record FormState : Type 0 where
  pub error : Option String
  pub is_validated : Bool

-- `{ code, new_password }`
abbrev pub challenge_body : String → String → Json
challenge_body code new_password = Json.obj (
    Fields.field "code" (Json.str code)
      (Fields.field "new_password" (Json.str new_password) Fields.end))

-- The error keys of one of the two forms.
pub record FormTexts : Type 0 where
  pub code_length : String
  pub password_mismatch : String
  pub validation_failed : String

abbrev pub password_reset_texts : FormTexts
password_reset_texts = record {
  code_length = "auth.password_reset.validate.error_code_length";
  password_mismatch = "auth.password_reset.validate.error_password_mismatch";
  validation_failed = "auth.password_reset.validate.error_validation_failed";
}

abbrev pub invite_texts : FormTexts
invite_texts = record {
  code_length = "invites.accept.error_code_length";
  password_mismatch = "invites.accept.error_password_mismatch";
  validation_failed = "invites.accept.error_validation_failed";
}

-- What a form shows once its POST has ended.
abbrev pub report : {S : Type 0} → FormTexts → FormState → Result Unit × S → FormState × S
report texts f (ok _, s) = (record f { error = none; is_validated = true }, s)
report texts f (err _, s) = (record f { error = some texts.validation_failed }, s)

module _ (p : Platform) where
  -- The two forms differ in the address and the texts alone: the guards, then the POST.
  unfoldable pub submit_challenge :
      FormTexts
      → String
      → String
      → String
      → String
      → FormState
      → Store p.Jar
      → FormState × Store p.Jar
  submit_challenge texts url code new_password confirm_password f s =
      if not (eqb (text_length code) 6)
      then (record f { error = some texts.code_length }, s)
      else (if not (new_password == confirm_password)
          then (record f { error = some texts.password_mismatch }, s)
          else report texts f (sign_in_by p url (challenge_body code new_password) s))

  -- `handleFormSubmit` of `PasswordResetValidateForm`
  unfoldable pub submit_password_reset :
      String → String → String → String → FormState → Store p.Jar → FormState × Store p.Jar
  unfolding submit_challenge
  submit_password_reset challenge_id =
      submit_challenge password_reset_texts
        (String.◌++◌ "/auth/reset-password/" (String.◌++◌ challenge_id "/validate"))

  -- `handleFormSubmit` of `InviteAcceptForm`
  unfoldable pub submit_invite :
      String → String → String → String → String → FormState → Store p.Jar → FormState × Store p.Jar
  unfolding submit_challenge
  submit_invite invitation_id challenge_id = submit_challenge invite_texts (
      String.◌++◌ "/invites/" (
        String.◌++◌ invitation_id
          (String.◌++◌ "/challenges/" (String.◌++◌ challenge_id "/validate"))))

  -- What both do 2000 ms after a success: `refreshSession`, and on to the start page.
  unfoldable pub enter : Store p.Jar → Store p.Jar
  unfolding refresh_session
  enter s = record (refresh_session p s) { location = "/" }
