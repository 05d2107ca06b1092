-- ===== src/Bucket/Cells.antt =====
-- What the page of a bucket shows of an item: FileIconView.tsx, the columns of BucketListView.tsx and
-- of BucketTrashView.tsx, and FileGridCard.tsx, all in
-- web/src/components/bucket-view/components. `format_size` and `format_date` are the texts that
-- web/src/lib/utils.ts makes; a badge is its icon and the key of its text.
pub mod Tags
use safebucket.Prelude.{
  ℕ, ◌≡◌, refl, Bool, true, false, ◌==◌, Option, none, some, List, [], ◌∷◌, String, present, any,
  if◌then◌else◌, inl, inr, ◌⊎◌,
}
use safebucket.Ui.{Element, text, icon, button}
use safebucket.Bucket.Items.{FileStatus, File, Folder, BucketItem, file, folder, is_folder}
use safebucket.Bucket.Items as Items
use safebucket.Bucket.Trash.{build_folder_path}
use safebucket.Bucket.Requests.{ItemType}
use safebucket.Bucket.Menu.{TrashedItem}

pub data FileIcon : Type 0 where
  folder_closed plain_folder file_text file_chart_column file_chart_pie file_image file_audio :
      FileIcon
  file_video file_code file_terminal file_icon : FileIcon

is_one_of : String → List String → Bool
is_one_of extension names = any (λ n. n == extension) names

-- `FileIconView`; `extension` may be missing
pub file_icon_view : Option String → Bool → FileIcon
unfolding is_one_of
file_icon_view extension true = folder_closed
file_icon_view none false = file_icon
file_icon_view (some e) false =
    if is_one_of e ("txt" ∷ "md" ∷ "pdf" ∷ [])
    then file_text
    else (if is_one_of e ("xls" ∷ "xlsx" ∷ "numbers" ∷ [])
        then file_chart_column
        else (if is_one_of e ("ppt" ∷ "pptx" ∷ "pages" ∷ [])
            then file_chart_pie
            else (if is_one_of e ("jpg" ∷ "jpeg" ∷ "png" ∷ "gif" ∷ "bmp" ∷ "svg" ∷ "webp" ∷ [])
                then file_image
                else (if is_one_of e ("mp3" ∷ "wav" ∷ "ogg" ∷ "flac" ∷ "aac" ∷ [])
                    then file_audio
                    else (if is_one_of e ("mp4" ∷ "avi" ∷ "mkv" ∷ "mov" ∷ "webm" ∷ [])
                        then file_video
                        else (if is_one_of e ("py" ∷ "ts" ∷ "tsx" ∷ "java" ∷ [])
                            then file_code
                            else (if is_one_of e ("exe" ∷ "sh" ∷ "bat" ∷ "jar" ∷ [])
                                then file_terminal
                                else file_icon)))))))

pub record Badge : Type 0 where
  pub badge_icon : String
  pub badge_label : String

-- the column `status` of the list; `none` is the text `-`
unfoldable pub list_status : Option FileStatus → Option Badge
list_status none = none
list_status (some FileStatus.uploaded) =
    some (record { badge_icon = "CheckCircle"; badge_label = "bucket.list_view.uploaded" })
list_status (some FileStatus.uploading) =
    some (record { badge_icon = "LoaderCircle"; badge_label = "bucket.list_view.uploading" })
list_status (some FileStatus.deleting) =
    some (record { badge_icon = "LoaderCircle"; badge_label = "bucket.list_view.deleting" })
list_status (some FileStatus.deleted) =
    some (record { badge_icon = "Trash2"; badge_label = "bucket.trash_view.trashed" })
list_status (some FileStatus.restoring) =
    some (record { badge_icon = "LoaderCircle"; badge_label = "bucket.trash_view.restoring" })

-- `renderStatusBadge` of a card; `none` is nothing
pub render_status_badge : Option FileStatus → Option Badge
render_status_badge none = none
render_status_badge (some FileStatus.uploaded) =
    some (record { badge_icon = "CheckCircle"; badge_label = "bucket.grid_view.uploaded" })
render_status_badge (some FileStatus.uploading) =
    some (record { badge_icon = "LoaderCircle"; badge_label = "bucket.grid_view.uploading" })
render_status_badge (some FileStatus.deleting) =
    some (record { badge_icon = "LoaderCircle"; badge_label = "bucket.grid_view.deleting" })
render_status_badge (some FileStatus.deleted) =
    some (record { badge_icon = "Trash2"; badge_label = "bucket.trash_view.trashed" })
render_status_badge (some FileStatus.restoring) =
    some (record { badge_icon = "LoaderCircle"; badge_label = "bucket.trash_view.restoring" })

-- the column `status` of the trash
pub trash_status : Option FileStatus → Option Badge
trash_status (some FileStatus.deleted) =
    some (record { badge_icon = "Trash2"; badge_label = "bucket.trash_view.trashed" })
trash_status (some FileStatus.restoring) =
    some (record { badge_icon = "LoaderCircle"; badge_label = "bucket.trash_view.restoring" })
trash_status _ = none

-- the icon in the column `name` of the list, and on a card
pub item_icon : BucketItem → FileIcon
unfolding is_folder file_icon_view
item_icon (file f) = file_icon_view (some f.extension) false
item_icon (folder f) = file_icon_view none true

-- the column `size` of the list, and the size on a card
pub item_size : (ℕ → String) → BucketItem → String
unfolding is_folder
item_size format_size (file f) = format_size f.size
item_size format_size (folder f) = "-"

-- the column `type` of the list, and the badge on a card
pub item_type : BucketItem → String
unfolding is_folder
item_type (file f) = f.extension
item_type (folder f) = "folder"

-- the column `type` of the trash
pub trash_icon : TrashedItem → FileIcon
unfolding file_icon_view
trash_icon t = elim t.item_type [
  | ItemType.folder ↦ plain_folder
  | ItemType.file ↦ elim t.item [
    | file f ↦ file_icon_view (some f.extension) false
    | folder f ↦ file_icon_view (some "") false
  ]
]

-- the column `size` of the trash
pub trash_size : (ℕ → String) → TrashedItem → String
trash_size format_size t = elim t.item_type [
  | ItemType.folder ↦ "-"
  | ItemType.file ↦ elim t.item [ file f ↦ format_size f.size | folder f ↦ "-" ]
]

abbrev original_path : BucketItem → Option String
original_path (file f) = f.original_path
original_path (folder f) = f.original_path

-- the column `original_location` of the trash; the fuel is that of `buildFolderPath`
pub original_location : ℕ → List Folder → TrashedItem → Option String
unfolding build_folder_path
original_location fuel folders t = elim (present (original_path t.item)) [
  | some path ↦ some path
  | none ↦ build_folder_path fuel (Items.item_folder_id t.item) folders
]

abbrev pub icon_of : Option Badge → Option String
icon_of none = none
icon_of (some b) = some b.badge_icon

-- The list and the cards show the same icon for a status, and both show one for every status; what
-- the trash shows for a status is what the list shows, and it shows only items that are deleted or
-- on their way back.
pub statuses_agree :
    (status : Option FileStatus)
    → (icon_of (list_status status) ≡ icon_of (render_status_badge status))
      × ((list_status status ≡ none) → (status ≡ none))
      × ((trash_status status ≡ none) ⊎ (trash_status status ≡ list_status status))
unfolding list_status render_status_badge trash_status
statuses_agree none = (refl, (λ h. refl), inl refl)
statuses_agree (some FileStatus.uploading) = (refl, (λ h. absurd (cc)), inl refl)
statuses_agree (some FileStatus.uploaded) = (refl, (λ h. absurd (cc)), inl refl)
statuses_agree (some FileStatus.deleting) = (refl, (λ h. absurd (cc)), inl refl)
statuses_agree (some FileStatus.deleted) = (refl, (λ h. absurd (cc)), inr refl)
statuses_agree (some FileStatus.restoring) = (refl, (λ h. absurd (cc)), inr refl)

-- What the dialog of the trash does: `handleConfirmDelete`, or closing it.
pub data DialogAction : Type 0 where
  confirms cancels : DialogAction

-- `BucketTrashView` around its table: what is said of an empty trash, or the notice and the dialog,
-- given whether that is open
unfoldable pub bucket_trash_view : Bool → List TrashedItem → List (Element DialogAction)
bucket_trash_view delete_dialog_open [] =
    icon "Trash2" ∷ text "bucket.trash_view.empty" ∷ text "bucket.trash_view.empty_description" ∷ []
bucket_trash_view delete_dialog_open (t ∷ ts) =
    text "bucket.trash_view.retention_notice"
    ∷ (if delete_dialog_open
        then text "bucket.trash_view.confirm_delete_title"
          ∷ text "bucket.trash_view.confirm_delete_description"
          ∷ button "bucket.trash_view.cancel" false cancels
          ∷ button "bucket.trash_view.delete_permanently" false confirms
          ∷ []
        else [])
