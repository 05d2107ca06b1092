-- ===== src/Auth/Pages/Forms.antt =====
-- What the pages that sign a user in show: web/src/routes/auth/login/index.tsx,
-- web/src/components/auth-providers-buttons, PasswordResetRequestForm.tsx of
-- web/src/components/reset-password, and InviteFormSmartEnrollment.tsx of
-- web/src/components/invites. The values of the fields and the messages of their rules are what
-- react-hook-form gives.
mod Controls
pub mod Laws
pub mod Challenge
use Prim.Native.String
use safebucket.Prelude.{
  ℕ, Bool, true, false, not, ◌||◌, ◌==◌, Option, none, some, List, [], ◌∷◌, ◌++◌, String, eqb, find,
  filter, present, if◌then◌else◌, text_length,
}
use safebucket.Ui.{Element, text, icon, link, button, input}
use safebucket.Auth.Login.{LoginForm, FormState, FormTexts, password_reset_texts, invite_texts}
use safebucket.Auth.Pages.{
  Provider, is_oidc, is_local, LoginPage, RequestForm, is_submit_disabled, submit_label,
}
use safebucket.Bucket.Email.{trim}

-- What a user does at a form; `begins` is `loginOAuth`.
pub data FormAction : Type 0 where
  begins : (provider_id : String) → FormAction
  types_email types_code types_password types_confirmation : String → FormAction
  submits : FormAction

-- `AuthProvidersButtons`
pub auth_providers_buttons : List Provider → List (Element FormAction)
auth_providers_buttons [] = []
auth_providers_buttons (p ∷ ps) =
    icon (String.◌++◌ "/" (String.◌++◌ p.id ".svg"))
    ∷ button (String.◌++◌ "auth.continue_with " p.name) false (begins p.id)
    ∷ auth_providers_buttons ps

-- what stands between the providers' buttons, if there are any, and the form
abbrev pub divider : List Provider → List (Element FormAction)
divider [] = []
divider (p ∷ ps) = text "auth.or_continue_with" ∷ []

-- The providers' buttons, and the form of the local provider where there is one.
pub ways_in : List Provider → List (Element FormAction) → List (Element FormAction)
unfolding auth_providers_buttons
ways_in providers local_form =
    auth_providers_buttons (filter is_oidc providers) ++ elim (find is_local providers) [
      | none ↦ []
      | some _ ↦ divider (filter is_oidc providers) ++ local_form
    ]

-- `errors.<field>`: its message
abbrev pub hint : Option String → List (Element FormAction)
hint none = []
hint (some message) = text message ∷ []

-- `error`, above the fields
abbrev pub alert : Option String → List (Element FormAction)
alert none = []
alert (some error) = icon "AlertCircle" ∷ text error ∷ []

-- the password of the page `Login`
pub password_fields : LoginForm → LoginPage → List (Element FormAction)
password_fields form s =
    if s.show_password
    then text "auth.password"
      ∷ link "auth.forgot_password" false "/auth/reset-password"
      ∷ input form.password s.is_loading types_password
      ∷ []
    else []

-- the form of the page `Login`
pub login_fields : LoginForm → LoginPage → List (Element FormAction)
unfolding password_fields is_submit_disabled submit_label
login_fields form s =
    text "auth.email"
    ∷ input form.email s.is_loading types_email
    ∷ (password_fields form s
        ++ (hint (present s.error)
            ++ (button (submit_label s) (is_submit_disabled form s) submits ∷ [])))

-- the page `Login`
pub login_view : List Provider → LoginForm → LoginPage → List (Element FormAction)
unfolding ways_in login_fields
login_view providers form s =
    icon "LogIn"
    ∷ text "auth.sign_in_title"
    ∷ text "auth.sign_in_subtitle"
    ∷ ways_in providers (login_fields form s)

-- the end of the form of `PasswordResetRequestForm`
pub reset_request_foot : Bool → List (Element FormAction)
reset_request_foot is_submitting =
    button
      (if is_submitting
        then "auth.password_reset.sending"
        else "auth.password_reset.send_reset_code")
      is_submitting submits
    ∷ link "auth.password_reset.back_to_login" false "/auth/login"
    ∷ []

-- `PasswordResetRequestForm`
pub reset_request_view :
    String → Bool → (email_error : Option String) → RequestForm → List (Element FormAction)
unfolding reset_request_foot
reset_request_view email is_submitting email_error s =
    if s.is_success
    then icon "Mail"
      ∷ text "auth.password_reset.success_title"
      ∷ text "auth.password_reset.success_message"
      ∷ text "auth.password_reset.success_description"
      ∷ link "auth.password_reset.back_to_login" false "/auth/login"
      ∷ []
    else icon "Key"
        ∷ text "auth.password_reset.title"
        ∷ text "auth.password_reset.subtitle"
        ∷ alert (present s.error)
      ++ (text "auth.email"
          ∷ input email false types_email
          ∷ (hint email_error ++ reset_request_foot is_submitting))

-- the end of the form of `InviteFormSmartEnrollment`
pub enroll_foot : String → Bool → List (Element FormAction)
enroll_foot email is_submitting =
    button (if is_submitting then "invites.smart_enrollment.sending_button" else "auth.continue")
      (is_submitting || (trim email == "")) submits
    ∷ text "invites.smart_enrollment.footer_text"
    ∷ []

-- the form of `InviteFormSmartEnrollment`
pub enroll_fields :
    String → Bool → (email_error : Option String) → RequestForm → List (Element FormAction)
unfolding enroll_foot
enroll_fields email is_submitting email_error s =
    alert (present s.error)
    ++ (text "invites.smart_enrollment.email_label"
        ∷ input email false types_email
        ∷ (hint email_error ++ enroll_foot email is_submitting))

-- `InviteFormSmartEnrollment`
pub enroll_view :
    List Provider
    → String
    → Bool
    → (email_error : Option String) → RequestForm
    → List (Element FormAction)
unfolding ways_in enroll_fields
enroll_view providers email is_submitting email_error s =
    if s.is_success
    then icon "CheckCircle"
      ∷ text "invites.smart_enrollment.success_title"
      ∷ text "invites.smart_enrollment.success_message"
      ∷ text "invites.smart_enrollment.success_description"
      ∷ []
    else icon "Mail"
      ∷ text "invites.smart_enrollment.title"
      ∷ text "invites.smart_enrollment.description"
      ∷ ways_in providers (enroll_fields email is_submitting email_error s)
