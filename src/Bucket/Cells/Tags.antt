-- ===== src/Bucket/Cells/Tags.antt =====
-- The tags of the items of the trash, and what follows them: `trashedItems` of
-- web/src/components/bucket-view/hooks/useTrashActions.ts with the columns of BucketTrashView.tsx.
use Prim.Native.String
use safebucket.Prelude.{
  ℕ, ◌≡◌, refl, Option, none, some, List, [], ◌∷◌, String, map, All, All-append, if◌then◌else◌,
}
use safebucket.Bucket.Items.{BucketItem, File, Folder, file, folder, is_folder, item_id}
use safebucket.Bucket.Requests.{ItemType, trashed_items, item_path}
use safebucket.Bucket.Menu.{TrashedItem}
use safebucket.Bucket.Cells.{plain_folder, item_icon, item_size, trash_icon, trash_size}

abbrev tagged : ItemType × BucketItem → TrashedItem
tagged (kind, item) = record { item = item; item_type = kind }

-- The tag is read as what the item is: its address in the API, its size and its icon are those of a
-- folder where it is one, and else those that the list of files shows.
abbrev pub IsTyped : (ℕ → String) → ItemType × BucketItem → Type 0
IsTyped format_size t =
    ((bucket_id : String)
      → item_path bucket_id t.0 (item_id t.1)
        ≡ String.◌++◌ "/buckets/" (
            String.◌++◌ bucket_id
              (String.◌++◌ (if is_folder t.1 then "/folders/" else "/files/") (item_id t.1))))
    × (trash_size format_size (tagged t) ≡ item_size format_size t.1)
    × (trash_icon (tagged t) ≡ (if is_folder t.1 then plain_folder else item_icon t.1))

module _ (format_size : ℕ → String) where
  files-IsTyped :
      (fs : List File) → All (IsTyped format_size) (map (λ f. (ItemType.file, file f)) fs)
  unfolding item_path trash_size trash_icon item_size item_icon
  files-IsTyped [] = tt
  files-IsTyped (f ∷ fs) = (((λ b. refl), refl, refl), files-IsTyped fs)

  folders-IsTyped :
      (fs : List Folder) → All (IsTyped format_size) (map (λ f. (ItemType.folder, folder f)) fs)
  unfolding item_path trash_size trash_icon item_size item_icon
  folders-IsTyped [] = tt
  folders-IsTyped (f ∷ fs) = (((λ b. refl), refl, refl), folders-IsTyped fs)

  -- Whatever the API has answered, each item of the trash carries the tag of what it is: its
  -- requests go to `folders` where it is a folder and to `files` where it is a file, its size is the
  -- one that the list shows of it, and so is its icon unless it is a folder, which has its own.
  pub trashed_items-IsTyped :
      (answer : Option (List File × List Folder)) → All (IsTyped format_size) (trashed_items answer)
  unfolding trashed_items
  trashed_items-IsTyped none = tt
  trashed_items-IsTyped (some (fs, ds)) =
      All-append (IsTyped format_size) (map (λ f. (ItemType.file, file f)) fs) _ (files-IsTyped fs)
        (folders-IsTyped ds)
