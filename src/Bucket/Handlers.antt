-- ===== src/Bucket/Handlers.antt =====
-- What the handlers of the page of a bucket do to the states of its components and hooks:
-- BucketViewProvider.tsx, useBucketInformation.ts, useBucketDeletion.ts, useTrashActions.ts and
-- BucketTrashView.tsx of web/src/components/bucket-view, useBucketMembersData.ts of
-- web/src/components/bucket-members, useFileActions.ts and FileActions.tsx of
-- web/src/components/FileActions.
use Prim.Native.String
use safebucket.Prelude.{
  ℕ, Bool, true, false, ◌==◌, Option, none, some, List, [], ◌∷◌, String, map, if◌then◌else◌,
}
use safebucket.Auth.Platform.{Platform, Failure, ok, err}
use safebucket.Drop.{Upload, upload_all}
use safebucket.Drop.Folders as Dropped
use safebucket.Bucket.Members.{Form, add_member, update_member_role, handle_update_members, updated}
use safebucket.Bucket.Items.{BucketItem, Folder, item_id, open_folder}
use safebucket.Bucket.Cells.{DialogAction, confirms, cancels}
use safebucket.Bucket.Requests.{
  View, invalidate, succeed, mutated, restore_item, purge_item, update_members,
  handle_delete_bucket, handle_save_name, Dialog, handle_open_delete_dialog, handle_confirm_delete,
}
use safebucket.Bucket.Uploads.{start_uploads}
use safebucket.Bucket.FileActions.{create_folder_here, trash_item, download_file}
use safebucket.Bucket.Menu.{MenuAction, TrashedItem, TrashAction, trash_callback}
use safebucket.Bucket.Menu as Menu
use safebucket.Bucket.Page.{
  BucketViewMode, grid_view, activity_view, trash_view, settings_view, list_view, PageAction,
  Information, copied, handle_cancel_name, bucket_settings, PageView, set_view, set_selected,
  bucket_view,
}
use safebucket.Bucket.Page as Page
use safebucket.Bucket.Views.{
  ViewAction, selects, opens, menu, trash, trash_menu, dialog, MenuDialogs,
}

-- What a user does on the page.
pub data Action : Type 0 where
  around : PageAction → Action
  inside : ViewAction → Action

-- What the API has answered about the bucket, and the user's part in it.
pub record Bucket : Type 0 where
  pub id : String
  pub name : String
  pub url : String
  pub is_owner : Bool
  pub is_contributor : Bool
  pub current : Option String
  pub folder_id : Option String
  pub folders : List Folder
  pub items : List BucketItem
  pub trashed : List TrashedItem

-- The states of the components and of the hooks.
pub record Run (Jar : Type 0) : Type 0 where
  pub page : PageView
  pub information : Information
  pub confirmation : String
  pub form : Form
  pub dialog : Dialog
  pub context : String → MenuDialogs
  pub dropdown : String → MenuDialogs
  pub view : View Jar

-- The functions of packages, and what comes from without: `create` has the ids that the API gives to
-- the folders of a drop, `size_of` the sizes of the files that the user picks, and `lasts` tells
-- whether what is dropped can be read after the first wait.
pub record Outside (Jar : Type 0) : Type 0 where
  pub upper : String → String
  pub format_size : ℕ → String
  pub fuel : ℕ
  pub message_of : Failure → String
  pub t : String → String → String
  pub create : ℕ → Dropped.Call → Option String
  pub size_of : String → ℕ
  pub lasts : Bool

abbrev pub showing : {Jar : Type 0} → (View Jar → View Jar) → Run Jar → Run Jar
showing f r = record r { view = f r.view }

module _ (p : Platform) (o : Outside p.Jar) (b : Bucket) where
  abbrev save_members : Run p.Jar → Run p.Jar
  save_members r =
      let (sent, form) = handle_update_members r.form in
      elim sent [
        | none ↦ r
        | some list ↦
            let (answer, store) =
              update_members p b.id
                (map (λ (m : String × String). record { email = m.0; group = m.1 }) list)
                r.view.store in
            record r {
              form = updated (elim answer [ ok _ ↦ true | err _ ↦ false ]) form;
              view =
                  mutated p o.message_of
                    (λ v.
                      succeed "bucket.settings.members.updated_successfully"
                        (invalidate ("buckets" ∷ b.id ∷ "members" ∷ []) v))
                    r.view (answer, store);
            }
      ]

  abbrev save_name : Run p.Jar → Run p.Jar
  save_name r =
      let (editing, view) =
        handle_save_name p o.message_of b.id b.name r.information.bucket_name
          r.information.is_editing_name r.view in
      record r { information = record r.information { is_editing_name = editing }; view = view }

  -- The files that the dialog of the header hands to `startUpload`.
  abbrev pub picked : List String → List Upload
  picked names =
      upload_all b.folder_id (map (λ (n : String). record { name = n; size = o.size_of n }) names)

  -- The handlers of the header and of the settings.
  unfoldable pub act_around : PageAction → Run p.Jar → Run p.Jar
  act_around (Page.sets_view mode) r = record r { page = set_view mode r.page }
  act_around Page.opens_share_file r = r
  act_around Page.opens_new_folder r = r
  act_around (Page.starts_upload names) r = showing (start_uploads p b.id (picked names)) r
  act_around (Page.creates_folder name) r =
      showing (create_folder_here p o.message_of b.id b.folder_id name) r
  act_around (Page.copies what field) r = record r {
    information = copied field r.information;
    view = succeed (String.◌++◌ field " has been copied.") r.view;
  }
  act_around Page.edits_name r = record r {
    information = record r.information { is_editing_name = true };
  }
  act_around (Page.sets_name name) r = record r {
    information = record r.information { bucket_name = name };
  }
  act_around Page.saves_name r = save_name r
  act_around Page.cancels_name r = record r {
    information = handle_cancel_name b.name r.information;
  }
  act_around (Page.sets_confirmation what) r = record r { confirmation = what }
  act_around Page.deletes_bucket r =
      showing (handle_delete_bucket p o.message_of b.id b.name r.confirmation) r
  act_around (Page.sets_new_email email) r = record r {
    form = record r.form { new_member_email = email };
  }
  act_around (Page.sets_new_group group) r = record r {
    form = record r.form { new_member_group = group };
  }
  act_around Page.adds_member r = record r { form = add_member r.form }
  act_around (Page.sets_role email group) r = record r {
    form = update_member_role b.current email group r.form;
  }
  act_around Page.updates_members r = save_members r

  -- `useDialog` of the menu of an item: the two dialogs, kept by the id of the item
  abbrev pub set_dialogs :
      (in_column : Bool) → BucketItem → (MenuDialogs → MenuDialogs) → Run p.Jar → Run p.Jar
  set_dialogs in_column item f r =
      if in_column
      then record r { dropdown = λ j. if j == item_id item then f (r.dropdown j) else r.dropdown j }
      else record r { context = λ j. if j == item_id item then f (r.context j) else r.context j }

  -- The handlers of an item's menu and of its dialogs; outside the trash it has no callbacks.
  unfoldable pub act_menu : (in_column : Bool) → BucketItem → MenuAction → Run p.Jar → Run p.Jar
  act_menu c item (Menu.restores id name) r = r
  act_menu c item (Menu.purges id name) r = r
  act_menu c item (Menu.downloads id name) r =
      showing (λ v. (download_file p o.message_of b.id id name v).1) r
  act_menu c item Menu.opens_new_folder r =
      set_dialogs c item (λ d. record d { new_folder_open = true }) r
  act_menu c item Menu.opens_delete r = set_dialogs c item (λ d. record d { delete_open = true }) r
  act_menu c item (Menu.creates_folder name) r =
      set_dialogs c item (λ d. record d { new_folder_open = false })
        (showing (create_folder_here p o.message_of b.id b.folder_id name) r)
  act_menu c item (Menu.deletes id name is_folder) r =
      set_dialogs c item (λ d. record d { delete_open = false })
        (showing (trash_item p o.message_of b.id id name is_folder) r)

  -- `restoreItem`, and `handleOpenDeleteDialog`
  unfoldable pub act_trash : TrashAction → Run p.Jar → Run p.Jar
  act_trash (TrashAction.restores id name kind) r =
      showing (restore_item p o.message_of o.t b.id id name kind) r
  act_trash (TrashAction.opens_delete_dialog id name kind) r = record r {
    dialog = handle_open_delete_dialog id name kind r.dialog;
  }

  -- The dialog of the trash; either button closes it.
  unfoldable pub act_dialog : DialogAction → Run p.Jar → Run p.Jar
  act_dialog cancels r = record r { dialog = record r.dialog { delete_dialog_open = false } }
  act_dialog confirms r =
      let (item, d) = handle_confirm_delete r.dialog in
      elim item [
        | none ↦ record r { dialog = record d { delete_dialog_open = false } }
        | some (id, name, kind) ↦ record r {
          dialog = record d { delete_dialog_open = false };
          view = purge_item p o.message_of o.t b.id id name kind r.view;
        }
      ]

  -- The handlers of the views; `openFolder` leaves what is no folder alone.
  unfoldable pub act_inside : ViewAction → Run p.Jar → Run p.Jar
  unfolding act_menu act_trash act_dialog
  act_inside (selects item) r = record r { page = set_selected item r.page }
  act_inside (opens item) r = elim (open_folder b.id item) [
    | none ↦ r
    | some to ↦ record r { view = record r.view { store = record r.view.store { location = to } } }
  ]
  act_inside (menu in_column item a) r = act_menu in_column item a r
  act_inside (trash a) r = act_trash a r
  act_inside (trash_menu a) r = elim (trash_callback b.trashed a) [
    | none ↦ r
    | some c ↦ act_trash c r
  ]
  act_inside (dialog a) r = act_dialog a r

  unfoldable pub act : Action → Run p.Jar → Run p.Jar
  unfolding act_around act_inside
  act (around a) r = act_around a r
  act (inside a) r = act_inside a r
