-- ===== src/Auth/Pages.antt =====
-- The pages that sign a user in: web/src/routes/auth/login/index.tsx,
-- web/src/routes/auth/complete/index.tsx,
-- PasswordResetRequestForm.tsx and helpers/utils.ts of web/src/components/reset-password, and
-- InviteFormSmartEnrollment.tsx of web/src/components/invites. `lower` is `toLowerCase`, and `t`
-- the translation of a key.
pub mod Laws
pub mod Forms
mod Examples
use Prim.Native.String
use Prim.Native.Char.{Char, code}
use safebucket.Prelude.{
  ℕ, Bool, true, false, not, ◌&&◌, ◌||◌, ◌==◌, Option, none, some, List, [], ◌∷◌, ◌++◌, String, eqb,
  find, filter, any, map, present, if◌then◌else◌,
}
use safebucket.Auth.Platform.{Json, Fields, field, Platform, Store, Async, Result, ok, err, Failure}
use safebucket.Auth.Api.{api_post, api_get}
use safebucket.Auth.Login.{LoginForm, login_with_provider, login_local, refresh_session}
use safebucket.Bucket.Email.{trim}

pub data ProviderType : Type 0 where
  local oidc : ProviderType

-- `IProvider`
pub record Provider : Type 0 where
  pub id : String
  pub name : String
  pub provider_type : ProviderType
  pub domains : List String

-- `email.includes("@")`
abbrev pub has_at : String → Bool
has_at String.[] = false
has_at (String.◌∷◌ c s) = eqb (code c) b'@' || has_at s

-- the text up to the next `@`
abbrev pub up_to_at : String → String
up_to_at String.[] = String.[]
up_to_at (String.◌∷◌ c s) =
    let rest = up_to_at s in if eqb (code c) b'@' then String.[] else String.◌∷◌ c rest

-- `email.split("@")[1]`, of a text that has an `@`
abbrev pub domain_of : String → String
domain_of String.[] = String.[]
domain_of (String.◌∷◌ c s) =
    let rest = domain_of s in if eqb (code c) b'@' then up_to_at s else rest

module _ (lower : String → String) where
  -- The two loops of `checkEmailDomain`.
  pub provider_of : String → List Provider → Option Provider
  provider_of domain [] = none
  provider_of domain (p ∷ ps) =
      if any (λ d. lower d == domain) p.domains then some p else provider_of domain ps

  -- `checkEmailDomain`
  pub check_email_domain : String → List Provider → Option Provider
  unfolding provider_of
  check_email_domain email providers =
      if not (has_at email) then none else provider_of (lower (domain_of email)) providers

abbrev pub is_oidc : Provider → Bool
is_oidc p = elim p.provider_type [ local ↦ false | oidc ↦ true ]

abbrev pub is_local : Provider → Bool
is_local p = elim p.provider_type [ local ↦ true | oidc ↦ false ]

-- The state of the page `Login`.
pub record LoginPage : Type 0 where
  pub show_password : Bool
  pub error : Option String
  pub is_loading : Bool

-- The state of `PasswordResetRequestForm`, and of `InviteFormSmartEnrollment`.
pub record RequestForm : Type 0 where
  pub is_success : Bool
  pub error : Option String

-- whether the button of the login form is disabled
pub is_submit_disabled : LoginForm → LoginPage → Bool
is_submit_disabled form s =
    s.is_loading || (trim form.email == "") || (s.show_password && (form.password == ""))

-- and its text
pub submit_label : LoginPage → String
submit_label s =
    if s.is_loading
    then "auth.signing_in"
    else (if s.show_password then "auth.sign_in" else "auth.continue")

abbrev pub or_home : Option String → String
or_home redirect = elim (present redirect) [ none ↦ "/" | some to ↦ to ]

abbrev pub or_key : String → String → String
or_key message key = if message == "" then key else message

module _ (p : Platform) (lower : String → String) (message_of : Failure → String) where
  -- `handleContinue` of the page `Login`
  pub handle_continue : List Provider → String → LoginPage → Store p.Jar → LoginPage × Store p.Jar
  handle_continue providers email s st =
      if (email == "") || not (has_at email)
      then (s, st)
      else elim (check_email_domain lower email providers) [
        | some provider ↦ (s, login_with_provider p provider.id st)
        | none ↦ (record s { show_password = true }, st)
      ]

  -- `handleLocalLogin`
  unfoldable pub handle_local_login :
      Option String → LoginForm → LoginPage → Store p.Jar → LoginPage × Store p.Jar
  handle_local_login redirect form s st =
      let (result, st') = login_local p form st in
      elim result [
        | ok _ ↦ (
          record s { error = none; is_loading = false },
          record st' { location = or_home redirect },
        )
        | err e ↦ (
          record s { error = some (or_key (message_of e) "auth.login_error"); is_loading = false },
          st',
        )
      ]

  -- the submission of the login form
  unfoldable pub submit_login :
      List Provider → Option String → LoginForm → LoginPage → Store p.Jar → LoginPage × Store p.Jar
  unfolding handle_continue handle_local_login
  submit_login providers redirect form s =
      if s.show_password
      then handle_local_login redirect form s
      else handle_continue providers form.email s

  -- the effect of `CompleteAuthComponent`
  unfoldable pub complete_auth : Option String → Store p.Jar → Store p.Jar
  complete_auth redirect st =
      let st' = refresh_session p st in
      elim st.session [ none ↦ st' | some _ ↦ record st' { location = or_home redirect } ]

  -- `api_requestPasswordReset`, and `api_createChallenge`
  pub request_password_reset : String → Async (Store p.Jar) Json
  request_password_reset email =
      api_post p "/auth/reset-password"
        (some (Json.obj (field "email" (Json.str email) Fields.end)))

  pub create_challenge : String → String → Async (Store p.Jar) Json
  create_challenge invitation_id email =
      api_post p (String.◌++◌ "/invites/" (String.◌++◌ invitation_id "/challenges"))
        (some (Json.obj (field "email" (Json.str email) Fields.end)))

  -- what a form shows once its request has ended
  abbrev requested : String → RequestForm → Result Json × Store p.Jar → RequestForm × Store p.Jar
  requested key s (ok _, st) = (record s { is_success = true; error = none }, st)
  requested key s (err _, st) = (record s { error = some key }, st)

  -- `handleFormSubmit` of `PasswordResetRequestForm`
  unfoldable pub submit_reset_request :
      String → RequestForm → Store p.Jar → RequestForm × Store p.Jar
  unfolding request_password_reset
  submit_reset_request email s st =
      requested "auth.password_reset.error_message" s (request_password_reset email st)

  -- `handleContinue` of `InviteFormSmartEnrollment`
  unfoldable pub enroll :
      List Provider → String → String → RequestForm → Store p.Jar → RequestForm × Store p.Jar
  unfolding create_challenge
  enroll providers invitation_id email s st = elim (check_email_domain lower email providers) [
    | some provider ↦ (record s { error = none }, login_with_provider p provider.id st)
    | none ↦
        requested "invites.smart_enrollment.send_error" s (create_challenge invitation_id email st)
  ]

  -- `authProvidersQueryOptions`: its key and its request
  pub auth_providers_query : List String × Async (Store p.Jar) Json
  auth_providers_query = ("auth" ∷ "providers" ∷ [], api_get p "/auth/providers")
