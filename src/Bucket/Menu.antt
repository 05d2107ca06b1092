-- ===== src/Bucket/Menu.antt =====
-- The menus of an item: web/src/components/FileActions/FileActions.tsx, the column `actions` and the
-- callbacks of web/src/components/bucket-view/components/BucketTrashView.tsx.
pub mod Laws
use safebucket.Prelude.{
  ◌≡◌, ◌≢◌, refl, Bool, true, false, not, ◌==◌, Option, none, some, List, [], ◌∷◌, ◌++◌, String,
  find, if◌then◌else◌,
}
use safebucket.Ui.{Element, text, icon, separator, button, form}
use safebucket.Bucket.Items.{FileStatus, BucketItem, is_file, item_id}
use safebucket.Bucket.Items as Items
use safebucket.Bucket.Requests.{ItemType}

abbrev pub item_name : BucketItem → String
item_name (Items.file f) = f.name
item_name (Items.folder f) = f.name

abbrev pub item_status : BucketItem → Option FileStatus
item_status (Items.file f) = f.status
item_status (Items.folder f) = f.status

-- What the handlers of the menus do; `restores` and `purges` are the callbacks `onRestore` and
-- `onPermanentDelete`, and the two `opens` the triggers of the dialogs.
pub data MenuAction : Type 0 where
  restores : (id name : String) → MenuAction
  purges : (id name : String) → MenuAction
  downloads : (id name : String) → MenuAction
  opens_new_folder : MenuAction
  opens_delete : MenuAction
  creates_folder : (name : String) → MenuAction
  deletes : (id name : String) → Bool → MenuAction

-- `isFileTrashed`
unfoldable pub is_file_trashed : BucketItem → Bool
is_file_trashed item = elim (item_status item) [ some FileStatus.deleted ↦ true | _ ↦ false ]

abbrev when : {A : Type 0} → Bool → List A → List A
when b es = if b then es else []

-- the content of the menu
unfoldable pub menu_content : Bool → Bool → BucketItem → List (Element MenuAction)
unfolding is_file_trashed is_file
menu_content trash_mode is_contributor item =
    if trash_mode
    then when is_contributor (
        button "bucket.trash_view.restore" false (restores (item_id item) (item_name item))
        ∷ separator
        ∷ button "bucket.trash_view.delete_permanently" false
            (purges (item_id item) (item_name item))
        ∷ [])
    else when (is_file item) (
        button "file_actions.download" (is_file_trashed item)
          (downloads (item_id item) (item_name item))
        ∷ [])
      ++ when is_contributor (
          separator
          ∷ button "file_actions.new_folder" false opens_new_folder
          ∷ separator
          ∷ button "file_actions.move_to_trash" false opens_delete
          ∷ [])

-- the dialogs, while they are open
unfoldable pub menu_dialogs : Bool → Bool → Bool → Bool → BucketItem → List (Element MenuAction)
unfolding is_file
menu_dialogs trash_mode is_contributor new_folder_open delete_open item =
    if not trash_mode
    then when is_contributor (
        when new_folder_open (
          form "file_actions.new_folder_dialog.title" ("name" ∷ [])
            "file_actions.new_folder_dialog.create" creates_folder
          ∷ [])
        ++ when delete_open (
            text "file_actions.delete_dialog.title"
            ∷ text "file_actions.delete_dialog.description"
            ∷ button "file_actions.delete_dialog.confirm" false
                (deletes (item_id item) (item_name item) (not (is_file item)))
            ∷ []))
    else []

-- `TrashedItem`
pub record TrashedItem : Type 0 where
  pub item : BucketItem
  pub item_type : ItemType

-- What the trash does with an item: `onRestore`, and `handleOpenDeleteDialog`.
pub data TrashAction : Type 0 where
  restores : (id name : String) → ItemType → TrashAction
  opens_delete_dialog : (id name : String) → ItemType → TrashAction

-- the column `actions` of the trash
pub trash_actions : Bool → TrashedItem → List (Element TrashAction)
trash_actions is_contributor t =
    if not is_contributor
    then []
    else button "bucket.trash_view.restore" false
        (TrashAction.restores (item_id t.item) (item_name t.item) t.item_type)
      ∷ separator
      ∷ button "bucket.trash_view.delete_permanently" false
          (opens_delete_dialog (item_id t.item) (item_name t.item) t.item_type)
      ∷ []

-- the callbacks that the trash hands to its table, which look the item up by its id
pub trash_callback : List TrashedItem → MenuAction → Option TrashAction
trash_callback items (restores id name) = elim (find (λ i. item_id i.item == id) items) [
  | none ↦ none
  | some i ↦ some (TrashAction.restores id name i.item_type)
]
trash_callback items (purges id name) = elim (find (λ i. item_id i.item == id) items) [
  | none ↦ none
  | some i ↦ some (opens_delete_dialog id name i.item_type)
]
trash_callback items _ = none
