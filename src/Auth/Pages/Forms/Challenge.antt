-- ===== src/Auth/Pages/Forms/Challenge.antt =====
-- The two forms that send a code and a new password: PasswordResetValidateForm.tsx of
-- web/src/components/reset-password, and InviteAcceptForm.tsx of web/src/components/invites. The
-- messages of the fields' rules are what react-hook-form gives.
use Prim.Native.String
use safebucket.Prelude.{
  ℕ, ◌≡◌, refl, Bool, true, false, not, ◌||◌, ◌==◌, Bool-cases, inl, inr, Option, none, some, List,
  [], ◌∷◌, ◌++◌, String, eqb, if◌then◌else◌, present, text_length, arith, eq_iff, All, All-append,
}
use safebucket.Ui.{Element, Can, text, icon, input, button}
use safebucket.Auth.Platform.{Platform, Store}
use safebucket.Auth.Login.{
  FormState, FormTexts, password_reset_texts, invite_texts, challenge_body, report, sign_in_by,
  submit_challenge,
}
use safebucket.Auth.Pages.Forms.{
  FormAction, begins, submits, types_password, types_code, types_confirmation, hint, alert,
}
use safebucket.Auth.Pages.Forms.Controls.{hint-Can, alert-Can}

-- The keys of one of the two forms that a code and a new password are sent with.
pub record ChallengeTexts : Type 0 where
  pub prefix : String
  pub submit : String
  pub submitting : String
  pub errors : FormTexts

abbrev pub password_reset_challenge : ChallengeTexts
password_reset_challenge = record {
  prefix = "auth.password_reset.validate.";
  submit = "auth.password_reset.validate.reset_button";
  submitting = "auth.password_reset.validate.resetting";
  errors = password_reset_texts;
}

abbrev pub invite_challenge : ChallengeTexts
invite_challenge = record {
  prefix = "invites.accept.";
  submit = "invites.accept.accept_button";
  submitting = "invites.accept.accepting";
  errors = invite_texts;
}

-- `errors` of the two fields, and whether the form is being submitted
pub record ChallengeForm : Type 0 where
  pub code : String
  pub new_password : String
  pub confirm_password : String
  pub new_password_error : Option String
  pub confirm_password_error : Option String
  pub is_submitting : Bool

-- What a field is registered with; `validate` gives the message of what is wrong.
pub record Rules : Type 0 where
  pub required : String
  pub min_length : Option (ℕ × String)
  pub validate : String → Option String

-- the rules of `newPassword`
pub new_password_rules : ChallengeTexts → Rules
new_password_rules texts = record {
  required = String.◌++◌ texts.prefix "error_new_password_required";
  min_length = some (8, String.◌++◌ texts.prefix "error_new_password_min_length");
  validate = λ value. none;
}

-- the rules of `confirmPassword`, given the new password
unfoldable pub confirm_password_rules : ChallengeTexts → String → Rules
confirm_password_rules texts new_password = record {
  required = String.◌++◌ texts.prefix "error_confirm_password_required";
  min_length = none;
  validate = λ value.
      if value == new_password
      then none
      else some (String.◌++◌ texts.prefix "error_confirm_password_mismatch");
}

-- the end of the form, from the confirmation of the password on
pub challenge_foot : ChallengeTexts → ChallengeForm → List (Element FormAction)
challenge_foot texts form =
    text (String.◌++◌ texts.prefix "confirm_password_label")
      ∷ input form.confirm_password false types_confirmation
      ∷ hint form.confirm_password_error
    ++ button (if form.is_submitting then texts.submitting else texts.submit)
        (form.is_submitting || not (eqb (text_length form.code) 6)) submits
      ∷ text (String.◌++◌ texts.prefix "footer_text")
      ∷ []

-- the form
pub challenge_fields : ChallengeTexts → ChallengeForm → List (Element FormAction)
unfolding challenge_foot
challenge_fields texts form =
    text (String.◌++◌ texts.prefix "code_label")
      ∷ input form.code false types_code
      ∷ text (String.◌++◌ texts.prefix "new_password_label")
      ∷ input form.new_password false types_password
      ∷ hint form.new_password_error
    ++ challenge_foot texts form

-- `PasswordResetValidateForm` and `InviteAcceptForm`, which differ in their texts alone
pub challenge_view : ChallengeTexts → ChallengeForm → FormState → List (Element FormAction)
unfolding challenge_fields
challenge_view texts form s =
    if s.is_validated
    then icon "CheckCircle"
      ∷ text (String.◌++◌ texts.prefix "success_title")
      ∷ text (String.◌++◌ texts.prefix "success_message")
      ∷ []
    else icon "Shield"
        ∷ text (String.◌++◌ texts.prefix "title")
        ∷ text (String.◌++◌ texts.prefix "subtitle")
        ∷ alert (present s.error)
      ++ challenge_fields texts form

-- `PasswordResetValidateForm`
abbrev pub password_reset_view : ChallengeForm → FormState → List (Element FormAction)
password_reset_view = challenge_view password_reset_challenge

-- `InviteAcceptForm`
abbrev pub invite_accept_view : ChallengeForm → FormState → List (Element FormAction)
invite_accept_view = challenge_view invite_challenge

module _ (P : FormAction → Type 0) (typed : (e : String) → P (types_code e)) where
  challenge_fields-Can :
      (texts : ChallengeTexts) (form : ChallengeForm)
      → ((e : String) → P (types_password e))
      → ((e : String) → P (types_confirmation e))
      → ((form.is_submitting || not (eqb (text_length form.code) 6)) ≡ false → P submits)
      → All (Can P) (challenge_fields texts form)
  unfolding challenge_fields challenge_foot
  challenge_fields-Can texts form h k submit =
      let foot =
        All-append (Can P) (hint form.confirm_password_error)
          (button (if form.is_submitting then texts.submitting else texts.submit)
              (form.is_submitting || not (eqb (text_length form.code) 6)) submits
            ∷ text (String.◌++◌ texts.prefix "footer_text")
            ∷ [])
          (hint-Can P form.confirm_password_error) (submit, (tt, tt)) in
      (
        tt,
        (
          (λ enabled. typed),
          (
            tt,
            (
              (λ enabled. h),
              All-append (Can P) (hint form.new_password_error) (challenge_foot texts form)
                  (hint-Can P form.new_password_error) (tt, ((λ enabled. k), foot)),
            ),
          ),
        ),
      )

  challenge_view-Can :
      (texts : ChallengeTexts) (form : ChallengeForm) (s : FormState)
      → All (Can P) (challenge_fields texts form)
      → All (Can P) (challenge_view texts form s)
  unfolding challenge_view
  challenge_view-Can texts form s h = elim (Bool-cases s.is_validated) [
    | inl accepted ↦ rw accepted (tt, (tt, (tt, tt)))
    | inr asked ↦ rw asked (
      tt,
      (
        tt,
        (
          tt,
          All-append (Can P) (alert (present s.error)) (challenge_fields texts form)
              (alert-Can P (present s.error)) h,
        ),
      ),
    )
  ]

-- Submitting sends the request, whatever the form shows.
abbrev pub Sends :
    (p : Platform)
    → ChallengeTexts
    → String
    → ChallengeForm
    → FormState
    → Store p.Jar
    → FormAction
    → Type 0
Sends p texts url form s st submits =
    submit_challenge p texts.errors url form.code form.new_password form.confirm_password s st
    ≡ report texts.errors s (sign_in_by p url (challenge_body form.code form.new_password) st)
Sends p texts url form s st (begins id) = ⊥
Sends p texts url form s st _ = Unit

enabled-six : (b : Bool) (n : ℕ) → (b || not (eqb n 6)) ≡ false → eqb n 6 ≡ true
enabled-six b n enabled = ground arith

valid-same :
    (a b message : String) → (if a == b then none else some message) ≡ none → (b == a) ≡ true
valid-same a b message valid = ground (arith, eq_iff a b, eq_iff b a)

sends :
    (p : Platform) (texts : ChallengeTexts) (url : String) (form : ChallengeForm) (s : FormState)
    (st : Store p.Jar)
    → (confirm_password_rules texts form.new_password).validate form.confirm_password ≡ none
    → (form.is_submitting || not (eqb (text_length form.code) 6)) ≡ false
    → Sends p texts url form s st submits
unfolding submit_challenge confirm_password_rules
sends p texts url form s st valid enabled =
    rw (enabled-six form.is_submitting (text_length form.code) enabled)
      (rw (valid-same form.confirm_password form.new_password _ valid) refl)

-- If the new password's confirmation has passed its rules, which react-hook-form asks before it
-- submits, then a form with a code and a new password, as long as it has not been accepted, can be
-- submitted only so that the request is sent: the checks that the handler makes itself never fail.
pub challenge_view-Sends :
    (p : Platform) (accepts : Rules → String → Bool)
    → ((r : Rules) (value : String) → accepts r value ≡ true → r.validate value ≡ none)
    → (texts : ChallengeTexts) (url : String) (form : ChallengeForm) (s : FormState)
      (st : Store p.Jar)
    → accepts (confirm_password_rules texts form.new_password) form.confirm_password ≡ true
    → All (Can (Sends p texts url form s st)) (challenge_view texts form s)
challenge_view-Sends p accepts checks texts url form s st accepted =
    let P = Sends p texts url form s st in
    let valid =
      checks (confirm_password_rules texts form.new_password) form.confirm_password accepted in
    challenge_view-Can P (λ e. tt) texts form s
      (challenge_fields-Can P (λ e. tt) texts form (λ e. tt) (λ e. tt)
        (sends p texts url form s st valid))
