-- ===== src/Bucket/Page.antt =====
-- The page of a bucket: BucketView.tsx with the header, the choice of a view and the settings of
-- web/src/components/bucket-view/components, and web/src/components/bucket-members.
-- `upper` is `toUpperCase` of the first character.
pub mod Laws
pub mod Deletion
mod Examples
use Prim.Native.String
use safebucket.Prelude.{
  ◌≡◌, Bool, true, false, not, ◌==◌, ◌&&◌, ◌||◌, Option, none, some, List, [], ◌∷◌, ◌++◌, String,
  present, filter, map, if◌then◌else◌,
}
use safebucket.Ui.{Element, text, icon, separator, button, input, select, form, files}
use safebucket.Bucket.Email.{is_email, trim}
use safebucket.Bucket.Items.{BucketItem}
use safebucket.Bucket.Members.{MemberState, Form, has_changes}
use safebucket.Bucket.Requests.{expected_delete_text}

-- `BucketViewMode`
pub data BucketViewMode : Type 0 where
  grid_view activity_view trash_view settings_view list_view : BucketViewMode

-- What the handlers of the page do.
pub data PageAction : Type 0 where
  sets_view : BucketViewMode → PageAction
  opens_share_file : PageAction
  opens_new_folder : PageAction
  starts_upload : (names : List String) → PageAction
  creates_folder : (name : String) → PageAction
  copies : (what field : String) → PageAction
  edits_name : PageAction
  sets_name : (name : String) → PageAction
  saves_name : PageAction
  cancels_name : PageAction
  sets_confirmation : (what : String) → PageAction
  deletes_bucket : PageAction
  sets_new_email : (email : String) → PageAction
  sets_new_group : (group : String) → PageAction
  adds_member : PageAction
  sets_role : (email group : String) → PageAction
  updates_members : PageAction

abbrev pub when : {A : Type 0} → Bool → List A → List A
when b es = if b then es else []

-- `bucketGroups`: the ids and the names
unfoldable pub bucket_groups : List (String × String)
bucket_groups = ("viewer", "Viewer") ∷ ("contributor", "Contributor") ∷ ("owner", "Owner") ∷ []

abbrev pub is_settings : BucketViewMode → Bool
is_settings settings_view = true
is_settings _ = false

-- `options`: the views, with their tooltips
unfoldable pub view_options : List (BucketViewMode × String)
view_options =
    (list_view, "bucket.header.list_view")
    ∷ (grid_view, "bucket.header.grid_view")
    ∷ (activity_view, "bucket.header.activity")
    ∷ (trash_view, "bucket.header.trash")
    ∷ (settings_view, "bucket.header.settings")
    ∷ []

-- `BucketViewOptions`
unfoldable pub bucket_view_options : Bool → List (Element PageAction)
unfolding view_options
bucket_view_options is_owner =
    map (λ (o : BucketViewMode × String). button o.1 false (sets_view o.0))
      (filter (λ (o : BucketViewMode × String). not (is_settings o.0 && not is_owner)) view_options)

-- `BucketHeader`, below the name; the two dialogs stand here whether they are open or not.
unfoldable pub bucket_header : Bool → Bool → List (Element PageAction)
unfolding bucket_view_options
bucket_header is_owner is_contributor =
    bucket_view_options is_owner
    ++ when is_contributor (text "upload.uploads" ∷ [])
    ++ (if is_contributor
        then button "bucket.header.upload_file" false opens_share_file
          ∷ button "file_actions.new_folder" false opens_new_folder
          ∷ files "bucket.header.upload_file" ("files" ∷ []) "bucket.header.upload" starts_upload
          ∷ form "file_actions.new_folder_dialog.title" ("name" ∷ [])
              "file_actions.new_folder_dialog.create" creates_folder
          ∷ []
        else text "bucket.header.view_only" ∷ [])

-- The state of `useBucketInformation`.
pub record Information : Type 0 where
  pub is_editing_name : Bool
  pub bucket_name : String
  pub copied_field : Option String

-- `handleCopy`, once the clipboard has the text; and the timer of 2000 ms that it sets
pub copied : String → Information → Information
copied field s = record s { copied_field = some field }

pub forget_copied : Information → Information
forget_copied s = record s { copied_field = none }

-- `handleCancelName`
pub handle_cancel_name : String → Information → Information
handle_cancel_name name s = record s { is_editing_name = false; bucket_name = name }

-- `BucketInformation`
pub bucket_information : Bool → String → String → Information → List (Element PageAction)
bucket_information is_owner name url s =
    text "bucket.settings.information.title"
    ∷ text "bucket.settings.information.bucket_url"
    ∷ input url true sets_name
    ∷ button
        (if elim s.copied_field [ none ↦ false | some f ↦ f == "Bucket URL" ]
          then "Check"
          else "Copy")
        false (copies url "Bucket URL")
    ∷ text "bucket.settings.information.bucket_name"
    ∷ (if s.is_editing_name
        then input s.bucket_name false sets_name
          ∷ button "Check" false saves_name
          ∷ button "X" false cancels_name
          ∷ []
        else input name true sets_name ∷ when is_owner (button "Edit2" false edits_name ∷ []))

-- `BucketDeletion`, given the text of the confirmation
pub bucket_deletion : String → String → List (Element PageAction)
bucket_deletion name confirmation =
    text "bucket.settings.deletion.title"
    ∷ text "bucket.settings.deletion.description"
    ∷ text "bucket.settings.deletion.type_to_confirm"
    ∷ text (expected_delete_text name)
    ∷ text "bucket.settings.deletion.to_confirm"
    ∷ input confirmation false sets_confirmation
    ∷ button "bucket.settings.deletion.delete" (not (confirmation == expected_delete_text name))
        deletes_bucket
    ∷ []

-- the title of a member
pub member_title : Bool → MemberState → String
member_title is_current_user m = elim (present m.first_name) [
  | none ↦ m.email
  | some first ↦ elim (present m.last_name) [
    | none ↦ m.email
    | some last ↦
        String.◌++◌ first
          (String.◌++◌ " " (String.◌++◌ last (if is_current_user then " (you)" else "")))
  ]
]

-- the roles that a member can be given, and the entry that removes him
abbrev pub role_options : Bool → Bool → List (String × String)
role_options is_current_user is_owner =
    bucket_groups ++ when (not is_current_user && is_owner) (("remove", "Remove") ∷ [])

-- `BucketMember`
pub bucket_member : (String → String) → Bool → Bool → MemberState → List (Element PageAction)
unfolding bucket_groups
bucket_member upper is_current_user is_owner m =
    text (upper m.email)
      ∷ text (member_title is_current_user m)
      ∷ text m.email
      ∷ when m.is_new (text "New member" ∷ [])
    ++ select m.group (is_current_user || not is_owner) (role_options is_current_user is_owner)
        (sets_role m.email)
      ∷ []

-- whether the button that adds a member is disabled
unfoldable pub is_add_disabled : String → Bool
is_add_disabled email = (trim email == "") || not (is_email email)

pub member_rows :
    (String → String) → Bool → Option String → List MemberState → List (Element PageAction)
member_rows upper is_owner current [] = []
member_rows upper is_owner current (m ∷ ms) =
    bucket_member upper (elim current [ none ↦ false | some e ↦ m.email == e ]) is_owner m
    ++ member_rows upper is_owner current ms

-- `BucketMembers`, once its members are loaded
pub bucket_members : (String → String) → Bool → Option String → Form → List (Element PageAction)
unfolding bucket_groups is_add_disabled member_rows
bucket_members upper is_owner current f =
    text "bucket.settings.members.title"
      ∷ text "bucket.settings.members.description"
      ∷ when is_owner (
          text "bucket.settings.members.add_member"
          ∷ input f.new_member_email false sets_new_email
          ∷ select f.new_member_group false bucket_groups sets_new_group
          ∷ button "Add member" (is_add_disabled f.new_member_email) adds_member
          ∷ [])
    ++ text "bucket.settings.members.members" ∷ member_rows upper is_owner current f.members_state
    ++ when is_owner
        (button "common.save" (not (has_changes f) || f.is_submitting) updates_members ∷ [])

-- `BucketSettings`
pub bucket_settings :
    (String → String)
    → Bool
    → Option String
    → String
    → String
    → String
    → Information
    → Form
    → List (Element PageAction)
unfolding bucket_information bucket_deletion bucket_members
bucket_settings upper is_owner current name url confirmation s f =
    bucket_information is_owner name url s
    ++ (bucket_deletion name confirmation ++ bucket_members upper is_owner current f)

-- The state of `BucketViewProvider`.
pub record PageView : Type 0 where
  pub view : BucketViewMode
  pub selected : Option BucketItem

-- `setView`, and `setSelected`
unfoldable pub set_view : BucketViewMode → PageView → PageView
set_view mode s = record s { view = mode }

unfoldable pub set_selected : BucketItem → PageView → PageView
set_selected item s = record s { selected = some item }

-- `BucketView`: the header and the view that is chosen; what the list, the cards, the activity and
-- the trash show is an argument.
unfoldable pub bucket_view :
    Bool
    → Bool
    → (BucketViewMode → List (Element PageAction))
    → List (Element PageAction)
    → PageView
    → List (Element PageAction)
unfolding bucket_header
bucket_view is_owner is_contributor views settings s =
    bucket_header is_owner is_contributor ++ (if is_settings s.view then settings else views s.view)
