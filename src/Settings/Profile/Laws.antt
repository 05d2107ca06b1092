-- ===== src/Settings/Profile/Laws.antt =====
-- When the profile is sent, and what is kept otherwise.
use safebucket.Prelude.{
  ◌≡◌, ◌≢◌, ◌≤◌, refl, true, false, ◌==◌, eq_iff, eq_refl, Option, none, String, text_length, arith,
  All,
}
use safebucket.Ui.{Can}
use safebucket.Auth.Platform.{Json, Fields, field, Platform, Failure}
use safebucket.Bucket.Email.{trim}
use safebucket.Bucket.Requests.{View}
use safebucket.Settings.Profile.{
  Field, saves, save_field, editable_field, PasswordField, update_user, on_save_field,
  save_profile_field,
}

-- The passwords that can be sent.
abbrev pub IsAcceptable : PasswordField → Type 0
IsAcceptable s =
    (s.old_password ≢ "") × (8 ≤ text_length s.new_password) × (s.new_password ≡ s.confirm_password)

-- The form is not acceptable: nothing is handed on, and of the form only the error changes, which is then not empty.
abbrev pub IsRefused : PasswordField → Option (String × String) × PasswordField → Type 0
IsRefused s r =
    (¬ IsAcceptable s) × (r.0 ≡ none) × (r.1 ≡ record s { error = r.1.error }) × (r.1.error ≢ "")

differs : (s t : String) → s ≢ t → (s == t) ≡ false
differs s t other = ground (arith, eq_iff s t)

module _ (p : Platform) (message_of : Failure → String) where
  -- A field is sent, without the blanks around it, exactly when that differs from what is stored;
  -- and a field that the button lets the user save is never sent empty.
  pub save_profile_field-cases :
      (user_id name value : String) (s : Field) (v : View p.Jar)
      → (trim s.edit_value ≡ value → (save_profile_field p message_of user_id name value s v).1 ≡ v)
        × (trim s.edit_value ≢ value
            → (save_profile_field p message_of user_id name value s v).1
              ≡ update_user p message_of user_id
                  (field name (Json.str (trim s.edit_value)) Fields.end)
                  v)
        × (s.is_editing ≡ true
            → All
                (Can (λ a. a ≡ saves → trim s.edit_value ≢ ""))
                (editable_field name value false false s))
  unfolding save_profile_field on_save_field save_field editable_field
  save_profile_field-cases user_id name value s v = (
    (λ same. rw same (rw (eq_refl value) refl)),
    (λ other. rw (differs (trim s.edit_value) value other) refl),
    (λ on. rw on (
      tt,
      (
        (λ e u q z. cc),
        (
          (λ enabled a empty. absurd (ground (arith, eq_iff (trim s.edit_value) ""))),
          ((λ e q z. cc), tt),
        ),
      ),
    )),
  )
