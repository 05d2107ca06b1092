-- ===== src/Bucket/Views.antt =====
-- What the views of a bucket show and offer of its items: BucketListView.tsx, BucketGridView.tsx,
-- FileGridCard.tsx and BucketTrashView.tsx of web/src/components/bucket-view/components, with
-- DataTable.tsx and DataTableRowActions.tsx of web/src/components/common and the menus of
-- web/src/components/FileActions. A row or a card is a button for each of what a click, a double
-- click and the opening of its context menu do; the order of a table's rows is that of its items,
-- as long as no column is sorted. Dates, the icons of files and the mark of the selected item are left
-- out.
pub mod Laws
use safebucket.Prelude.{ℕ, Bool, true, false, Option, none, some, List, [], ◌∷◌, ◌++◌, String, map}
use safebucket.Ui.{Element, text, icon, button, embed}
use safebucket.Bucket.Items.{BucketItem, Folder, item_id}
use safebucket.Bucket.Items as Items
use safebucket.Bucket.Cells.{
  Badge, list_status, render_status_badge, trash_status, item_size, item_type, trash_size,
  original_location, DialogAction, bucket_trash_view,
}
use safebucket.Bucket.Menu.{
  MenuAction, menu_content, menu_dialogs, item_name, item_status, TrashedItem, TrashAction,
  trash_actions,
}

-- What the handlers of the views do; `menu` is an action of the menu or of a dialog of an item, of
-- the one in the last column of the table, or of the one around its row or card.
pub data ViewAction : Type 0 where
  selects opens : BucketItem → ViewAction
  menu : (in_column : Bool) → BucketItem → MenuAction → ViewAction
  trash : TrashAction → ViewAction
  trash_menu : MenuAction → ViewAction
  dialog : DialogAction → ViewAction

-- Which dialogs of an item are open: `newFolderDialog`, `deleteFileDialog`.
pub record MenuDialogs : Type 0 where
  pub new_folder_open : Bool
  pub delete_open : Bool

abbrev badge : Option Badge → List (Element ViewAction)
badge none = []
badge (some b) = icon b.badge_icon ∷ text b.badge_label ∷ []

abbrev badge_or_dash : Option Badge → List (Element ViewAction)
badge_or_dash none = text "-" ∷ []
badge_or_dash (some b) = icon b.badge_icon ∷ text b.badge_label ∷ []

-- `FileActions` around a row, a card or a button: the menu and the dialogs of the item
unfoldable pub file_actions :
    (in_column is_contributor : Bool) → MenuDialogs → BucketItem → List (Element ViewAction)
file_actions in_column is_contributor d item =
    map (embed (menu in_column item)) (menu_content false is_contributor item)
    ++ map (embed (menu in_column item))
        (menu_dialogs false is_contributor d.new_folder_open d.delete_open item)

-- a row of `BucketListView`: `DataTable` with `DataTableRowActions` in its last column
unfoldable pub list_row :
    (ℕ → String) → Bool → (context dropdown : MenuDialogs) → BucketItem → List (Element ViewAction)
unfolding file_actions
list_row format_size is_contributor context dropdown item =
    button (item_name item) false (selects item)
    ∷ button (item_name item) false (opens item)
    ∷ button (item_name item) false (selects item)
    ∷ text (item_size format_size item)
    ∷ text (item_type item)
    ∷ (badge_or_dash (list_status (item_status item))
        ++ (file_actions true is_contributor dropdown item
            ++ file_actions false is_contributor context item))

-- `FileGridCard`
pub grid_card : (ℕ → String) → Bool → MenuDialogs → BucketItem → List (Element ViewAction)
unfolding file_actions
grid_card format_size is_contributor context item =
    button (item_name item) false (selects item)
    ∷ button (item_name item) false (opens item)
    ∷ text (item_size format_size item)
    ∷ (badge (render_status_badge (item_status item))
        ++ (text (item_type item) ∷ file_actions false is_contributor context item))

-- the text of the column `original_location`
abbrev location : Option String → List (Element ViewAction)
location none = []
location (some path) = text path ∷ []

-- a row of `BucketTrashView`, whose clicks do nothing
pub trash_row : (ℕ → String) → ℕ → List Folder → Bool → TrashedItem → List (Element ViewAction)
trash_row format_size fuel folders is_contributor t =
    text (item_name t.item)
    ∷ (location (original_location fuel folders t)
        ++ text (trash_size format_size t)
          ∷ (badge_or_dash (trash_status (item_status t.item))
              ++ (map (embed trash) (trash_actions is_contributor t)
                  ++ map (embed trash_menu) (menu_content true is_contributor t.item))))

-- the rows of a table, or the cards
unfoldable pub each : {A B : Type 0} → (A → List B) → List A → List B
each f [] = []
each f (x ∷ xs) = f x ++ each f xs

-- The dialogs of an item are those of its row or card, and those of the last column.
module _ (format_size : ℕ → String) (is_contributor : Bool)
    (context dropdown : String → MenuDialogs) where
  -- `BucketListView`
  unfoldable pub bucket_list_view : List BucketItem → List (Element ViewAction)
  unfolding list_row each
  bucket_list_view [] = text "bucket.list_view.empty_folder" ∷ []
  bucket_list_view (i ∷ is) =
      each (λ j. list_row format_size is_contributor (context (item_id j)) (dropdown (item_id j)) j)
        (i ∷ is)

  -- `BucketGridView`
  pub bucket_grid_view : List BucketItem → List (Element ViewAction)
  unfolding grid_card each
  bucket_grid_view [] =
      icon "FolderOpen"
      ∷ text "bucket.grid_view.empty_folder"
      ∷ text "bucket.grid_view.empty_description"
      ∷ text "bucket.grid_view.drag_drop_hint"
      ∷ []
  bucket_grid_view (i ∷ is) =
      each (λ j. grid_card format_size is_contributor (context (item_id j)) j) (i ∷ is)

-- `BucketTrashView`, with the rows of its table
pub bucket_trash_table :
    (ℕ → String) → ℕ → List Folder → Bool → Bool → List TrashedItem → List (Element ViewAction)
unfolding trash_row each bucket_trash_view
bucket_trash_table format_size fuel folders is_contributor delete_dialog_open items =
    map (embed dialog) (bucket_trash_view delete_dialog_open items)
    ++ each (trash_row format_size fuel folders is_contributor) items
