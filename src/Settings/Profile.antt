-- ===== src/Settings/Profile.antt =====
-- The profile of the user: ProfileForm.tsx, EditableField.tsx and EditablePasswordField.tsx of
-- web/src/components/settings-view/components, and the queries of web/src/queries/user.ts.
pub mod Laws
use Prim.Native.String
use safebucket.Prelude.{
  ℕ, Bool, true, false, not, ◌==◌, ◌&&◌, ◌||◌, Option, none, some, List, [], ◌∷◌, ◌++◌, String,
  present, text_length, ltb, if◌then◌else◌,
}
use safebucket.Ui.{Element, text, icon, button, input}
use safebucket.Auth.Platform.{Json, Fields, field, Platform, Store, Session, Result, Async, Failure}
use safebucket.Auth.Api.{api_patch, fetch_api, no_options}
use safebucket.Bucket.Email.{trim}
use safebucket.Bucket.Requests.{View, mutate, invalidate, succeed}

-- The state of `EditableField`.
pub record Field : Type 0 where
  pub is_editing : Bool
  pub edit_value : String

-- `handleSave`, with what is handed to `onSave`, if anything
pub save_field : String → Field → Option String × Field
save_field value s = (
  if not (trim s.edit_value == value) then some (trim s.edit_value) else none,
  record s { is_editing = false },
)

-- `handleCancel`
unfoldable pub cancel_field : String → Field → Field
cancel_field value s = record { is_editing = false; edit_value = value }

pub data FieldAction : Type 0 where
  edits : FieldAction
  types : (value : String) → FieldAction
  saves : FieldAction
  cancels : FieldAction

-- `EditableField`
pub editable_field : String → String → Bool → Bool → Field → List (Element FieldAction)
editable_field label value disabled is_loading s =
    text label
    ∷ (if s.is_editing
        then input s.edit_value is_loading types
          ∷ button "Check" (is_loading || (trim s.edit_value == "")) saves
          ∷ button "X" is_loading cancels
          ∷ []
        else input value true types
          ∷ (if not disabled then button "Edit2" false edits ∷ [] else []))

-- The state of `EditablePasswordField`.
pub record PasswordField : Type 0 where
  pub is_editing : Bool
  pub old_password : String
  pub new_password : String
  pub confirm_password : String
  pub error : String

-- `handleCancel`
pub cancel_password : PasswordField → PasswordField
cancel_password s = record {
  is_editing = false;
  old_password = "";
  new_password = "";
  confirm_password = "";
  error = "";
}

-- `handleSave`, with what is handed to `onSave`, if anything
pub save_password : PasswordField → Option (String × String) × PasswordField
unfolding cancel_password
save_password s =
    if s.old_password == ""
    then (none, record s { error = "settings.profile.old_password_required" })
    else (if ltb (text_length s.new_password) 8
        then (none, record s { error = "settings.profile.password_min_length" })
        else (if not (s.new_password == s.confirm_password)
            then (none, record s { error = "settings.profile.password_mismatch" })
            else (some (s.old_password, s.new_password), cancel_password s)))

pub data PasswordAction : Type 0 where
  edits : PasswordAction
  types_old types_new types_confirm : (value : String) → PasswordAction
  saves : PasswordAction
  cancels : PasswordAction

-- `EditablePasswordField`
unfoldable pub editable_password_field :
    String → Bool → PasswordField → List (Element PasswordAction)
editable_password_field label is_loading s =
    text label
    ∷ (if s.is_editing
        then input s.old_password is_loading types_old
          ∷ input s.new_password is_loading types_new
          ∷ input s.confirm_password is_loading types_confirm
          ∷ button "Check"
              (is_loading
                || (s.old_password == "")
                || (s.new_password == "")
                || (s.confirm_password == ""))
              PasswordAction.saves
          ∷ button "X" is_loading PasswordAction.cancels
          ∷ (if s.error == "" then [] else text s.error ∷ [])
        else input "••••••••" true types_old ∷ button "Edit2" false PasswordAction.edits ∷ [])

module _ (p : Platform) (message_of : Failure → String) where
  -- `useUpdateUserMutation`
  unfoldable pub update_user : String → Fields → View p.Jar → View p.Jar
  update_user user_id payload =
      mutate p message_of (api_patch p (String.◌++◌ "/users/" user_id) (some (Json.obj payload)))
        (λ v. succeed "Profile updated successfully" (invalidate ("users" ∷ user_id ∷ []) v))

  -- `onSave` of a field; `name` is `first_name` or `last_name`
  pub on_save_field : String → String → Option String → View p.Jar → View p.Jar
  on_save_field user_id name none v = v
  on_save_field user_id name (some value) v =
      update_user user_id (field name (Json.str value) Fields.end) v

  -- a field of `ProfileForm` is saved
  pub save_profile_field : String → String → String → Field → View p.Jar → Field × View p.Jar
  unfolding on_save_field
  save_profile_field user_id name value s v =
      let r = save_field value s in (r.1, on_save_field user_id name r.0 v)

  -- `onSave` of the password
  pub on_save_password : String → Option (String × String) → View p.Jar → View p.Jar
  on_save_password user_id none v = v
  on_save_password user_id (some (old, new)) v =
      update_user user_id
        (field "old_password" (Json.str old) (field "new_password" (Json.str new) Fields.end)) v

  -- the password of `ProfileForm` is saved
  pub save_profile_password : String → PasswordField → View p.Jar → PasswordField × View p.Jar
  unfolding on_save_password
  save_profile_password user_id s v =
      let r = save_password s in (r.1, on_save_password user_id r.0 v)

  -- `useCurrentUser`: the key of the query, whether it is enabled, and its request
  pub current_user_query : Option Session → List (Option String) × Bool × Async (Store p.Jar) Json
  current_user_query none =
      (some "users" ∷ none ∷ [], false, fetch_api p "/users/undefined" no_options)
  current_user_query (some s) = (
    some "users" ∷ some s.user_id ∷ [],
    not (s.user_id == ""),
    fetch_api p (String.◌++◌ "/users/" s.user_id) no_options,
  )

  -- `useUserStatsQuery`
  pub user_stats_query : String → List String × Bool × Async (Store p.Jar) Json
  user_stats_query user_id = (
    "users" ∷ user_id ∷ "stats" ∷ [],
    not (user_id == ""),
    fetch_api p (String.◌++◌ "/users/" (String.◌++◌ user_id "/stats")) no_options,
  )
