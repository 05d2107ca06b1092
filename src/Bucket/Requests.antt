-- ===== src/Bucket/Requests.antt =====
-- What the pages of a bucket ask of the API: web/src/components/upload/helpers/api.ts,
-- web/src/components/bucket-members/helpers/api.ts, and the hooks useTrashActions.ts,
-- useBucketDeletion.ts and useBucketInformation.ts, with the dialog of BucketTrashView.tsx.
-- A mutation of the query library is run to its end; `invalidated` lists the keys given to
-- `invalidateQueries`, the latest first. `message_of` is `error.message`, and `t` the translation of
-- a key with its one option.
use Prim.Native.String
use safebucket.Prelude.{
  ◌≡◌, ◌≢◌, inl, inr, refl, Bool, true, false, ◌==◌, eq_iff, Bool-cases, Option, none, some, List,
  [], ◌∷◌, ◌++◌, String, map, if◌then◌else◌,
}
use safebucket.Auth.Platform.{Json, Items, Fields, Platform, Store, Async, Result, ok, err, Failure}
use safebucket.Auth.Api.{api_post, api_put, api_patch, api_delete}
use safebucket.Toast as Toast
use safebucket.Bucket.Email.{trim}
use safebucket.Bucket.Items as Items_of
use safebucket.Bucket.Sharing.{Member}

-- `TrashedItem`, and its mark
pub data ItemType : Type 0 where
  file folder : ItemType

-- `trashedItems`: the ids, with the kinds
unfoldable pub trashed_items :
    Option (List Items_of.File × List Items_of.Folder) → List (ItemType × Items_of.BucketItem)
trashed_items none = []
trashed_items (some (files, folders)) =
    map (λ f. (file, Items_of.file f)) files ++ map (λ f. (folder, Items_of.folder f)) folders

pub record View (Jar : Type 0) : Type 0 where
  pub store : Store Jar
  pub toasts : Toast.Store
  pub invalidated : List (List String)

abbrev pub notify_user : {Jar : Type 0} → Toast.Toast → View Jar → View Jar
notify_user props v = record v { toasts = (Toast.toast props v.toasts).1 }

abbrev pub invalidate : {Jar : Type 0} → List String → View Jar → View Jar
invalidate key v = record v { invalidated = key ∷ v.invalidated }

abbrev pub succeed : {Jar : Type 0} → String → View Jar → View Jar
succeed message v = record v { toasts = Toast.success_toast message v.toasts }

-- `/buckets/${bucketId}/files/${itemId}`, and the same of folders
unfoldable pub item_path : String → ItemType → String → String
item_path bucket_id file id =
    String.◌++◌ "/buckets/" (String.◌++◌ bucket_id (String.◌++◌ "/files/" id))
item_path bucket_id folder id =
    String.◌++◌ "/buckets/" (String.◌++◌ bucket_id (String.◌++◌ "/folders/" id))

abbrev pub status_body : String → Option Json
status_body status = some (Json.obj (Fields.field "status" (Json.str status) Fields.end))

-- A key that is `undefined` is left out of the text that is sent.
abbrev folder_field : Option String → Fields
folder_field none = Fields.end
folder_field (some id) = Fields.field "folder_id" (Json.str id) Fields.end

abbrev members_json : List Member → Items
members_json [] = Items.nil
members_json (m ∷ ms) =
    Items.cons
      (Json.obj (
        Fields.field "email" (Json.str m.email)
          (Fields.field "group" (Json.str m.group) Fields.end)))
      (members_json ms)

module _ (p : Platform) where
  -- `api_createFile`
  unfoldable pub create_file :
      String → String → Prim.Native.Nat.ℕ → Option String → Async (Store p.Jar) Json
  create_file name bucket_id size folder_id =
      api_post p (String.◌++◌ "/buckets/" (String.◌++◌ bucket_id "/files")) (
        some (
          Json.obj (
            Fields.field "name" (Json.str name)
              (Fields.field "size" (Json.num size) (folder_field folder_id)))))

  -- `createFolderMutationFn`
  unfoldable pub create_folder : String → Option String → String → Async (Store p.Jar) Json
  create_folder name folder_id bucket_id =
      api_post p (String.◌++◌ "/buckets/" (String.◌++◌ bucket_id "/folders"))
        (some (Json.obj (Fields.field "name" (Json.str name) (folder_field folder_id))))

  -- `deleteFileMutationFn`
  unfoldable pub delete_file : String → String → Bool → Async (Store p.Jar) Json
  unfolding item_path
  delete_file bucket_id file_id is_folder =
      api_patch p (item_path bucket_id (if is_folder then folder else file) file_id)
        (status_body "deleted")

  -- `api_updateMembers`
  unfoldable pub update_members : String → List Member → Async (Store p.Jar) Json
  update_members bucket_id members =
      api_put p (String.◌++◌ "/buckets/" (String.◌++◌ bucket_id "/members"))
        (some (Json.obj (Fields.field "members" (Json.arr (members_json members)) Fields.end)))

-- `expectedDeleteText`
abbrev pub expected_delete_text : String → String
expected_delete_text name = String.◌++◌ "delete " name

module _ (p : Platform) (message_of : Failure → String) where
  -- `onSuccess` and `onError`
  abbrev pub mutated :
      (View p.Jar → View p.Jar) → View p.Jar → Result Json × Store p.Jar → View p.Jar
  mutated on_success v (ok a, s) = on_success (record v { store = s })
  mutated on_success v (err e, s) = record v {
    store = s;
    toasts = Toast.error_toast (message_of e) v.toasts;
  }

  abbrev pub mutate :
      (Store p.Jar → Result Json × Store p.Jar)
      → (View p.Jar → View p.Jar)
      → View p.Jar
      → View p.Jar
  mutate call on_success v = mutated on_success v (call v.store)

  -- `restoreItem`
  unfoldable pub restore_item :
      (String → String → String) → String → String → String → ItemType → View p.Jar → View p.Jar
  unfolding item_path
  restore_item t bucket_id id name kind =
      mutate (api_patch p (item_path bucket_id kind id) (status_body "uploaded")) (λ v.
        succeed (t "bucket.trash_view.restore_success" name) (
          invalidate ("buckets" ∷ bucket_id ∷ [])
            (invalidate ("buckets" ∷ bucket_id ∷ "trash" ∷ []) v)))

  -- `purgeItem`
  unfoldable pub purge_item :
      (String → String → String) → String → String → String → ItemType → View p.Jar → View p.Jar
  unfolding item_path
  purge_item t bucket_id id name kind = mutate (api_delete p (item_path bucket_id kind id)) (λ v.
      succeed (t "bucket.trash_view.purge_success" name)
        (invalidate ("buckets" ∷ bucket_id ∷ "trash" ∷ []) v))

  -- `handleDeleteBucket`, given the text of the confirmation
  pub handle_delete_bucket : String → String → String → View p.Jar → View p.Jar
  handle_delete_bucket id name confirmation v =
      if confirmation == expected_delete_text name
      then mutate (api_delete p (String.◌++◌ "/buckets/" id))
          (λ w.
            succeed (String.◌++◌ "Bucket " (String.◌++◌ name " has been deleted"))
              (record (invalidate ("buckets" ∷ []) w) {
                store = record w.store { location = "/" };
              }))
          v
      else notify_user
          (record {
            title = some "Invalid confirmation";
            description = some (
                String.◌++◌ "Please type \""
                  (String.◌++◌ (expected_delete_text name) "\" to confirm deletion"));
            variant = Toast.destructive;
          })
          v

  -- `handleSaveName`: whether the name is still being edited, and the page
  pub handle_save_name : String → String → String → Bool → View p.Jar → Bool × View p.Jar
  handle_save_name id name new_name editing v =
      if trim new_name == ""
      then (
        editing,
        notify_user
            (record {
              title = some "Invalid name";
              description = some "Bucket name cannot be empty";
              variant = Toast.destructive;
            })
            v,
      )
      else (if new_name == name then (false, v) else (
        elim (api_patch p (String.◌++◌ "/buckets/" id)
            (some (Json.obj (Fields.field "name" (Json.str new_name) Fields.end))) v.store).0 [
              | ok _ ↦ false
              | err _ ↦ editing
            ],
        mutate
            (api_patch p (String.◌++◌ "/buckets/" id)
              (some (Json.obj (Fields.field "name" (Json.str new_name) Fields.end))))
            (λ w. succeed "Bucket name updated successfully" (invalidate ("buckets" ∷ []) w)) v,
      ))

  -- Unless the user has typed `delete` and the bucket's name, nothing is sent, no cookie changes and
  -- no query is invalidated.
  pub handle_delete_bucket-confirmed :
      (id name confirmation : String) (v : View p.Jar)
      → confirmation ≢ expected_delete_text name
      → ((handle_delete_bucket id name confirmation v).store ≡ v.store)
        × ((handle_delete_bucket id name confirmation v).invalidated ≡ v.invalidated)
  unfolding handle_delete_bucket
  handle_delete_bucket-confirmed id name confirmation v other =
      elim (Bool-cases (confirmation == expected_delete_text name)) [
        | inl typed ↦ absurd (other ((eq_iff confirmation (expected_delete_text name)).0 typed))
        | inr untyped ↦ rw (handle_delete_bucket, untyped) (refl, refl)
      ]

-- The dialog of BucketTrashView: whether it is open, and the item that it asks about.
pub record Dialog : Type 0 where
  pub delete_dialog_open : Bool
  pub selected_item : Option (String × String × ItemType)

-- `handleOpenDeleteDialog`
pub handle_open_delete_dialog : String → String → ItemType → Dialog → Dialog
handle_open_delete_dialog id name kind d = record {
  delete_dialog_open = true;
  selected_item = some (id, name, kind);
}

-- `handleConfirmDelete`: what is handed to `onPermanentDelete`, if anything
unfoldable pub handle_confirm_delete : Dialog → Option (String × String × ItemType) × Dialog
handle_confirm_delete d = elim d.selected_item [
  | none ↦ (none, d)
  | some item ↦ (some item, record { delete_dialog_open = false; selected_item = none })
]
