-- ===== src/Bucket/Menu/Laws.antt =====
-- Who may do what from the menus of an item.
use safebucket.Prelude.{
  ◌≡◌, ◌≢◌, refl, Bool, true, false, ◌==◌, Option, none, some, List, [], find, arith, All, map,
}
use safebucket.Ui.{Element, button, Can}
use safebucket.Bucket.Items.{FileStatus, BucketItem, file, folder, is_file, item_id}
use safebucket.Bucket.Menu.{
  MenuAction, downloads, menu_content, menu_dialogs, TrashedItem, trash_actions, trash_callback,
  item_status, is_file_trashed,
}

-- The action reads: it is the download of a file that is not in the trash.
abbrev pub IsReading : BucketItem → MenuAction → Type 0
IsReading item (downloads id name) =
    (id ≡ item_id item) × (is_file item ≡ true) × (item_status item ≢ some FileStatus.deleted)
IsReading item _ = ⊥

status_of_enabled :
    (item : BucketItem) → is_file_trashed item ≡ false → item_status item ≢ some FileStatus.deleted
unfolding is_file_trashed
status_of_enabled item h e = absurd (ground arith)

-- A user who is no contributor can only download, and only what is a file and not in the trash:
-- neither the menu of an item, in a folder or in the trash, nor its dialogs let him do more, and the
-- trash shows him no actions.
pub viewer_only_reads :
    (trash_mode new_folder_open delete_open : Bool) (item : BucketItem) (t : TrashedItem)
    → All (Can (IsReading item)) (menu_content trash_mode false item)
      × (menu_dialogs trash_mode false new_folder_open delete_open item ≡ [])
      × (trash_actions false t ≡ [])
unfolding menu_content menu_dialogs trash_actions is_file
viewer_only_reads true n d item t = (tt, refl, refl)
viewer_only_reads false n d (file f) t =
    (((λ enabled. (refl, refl, status_of_enabled (file f) enabled)), tt), refl, refl)
viewer_only_reads false n d (folder f) t = (tt, refl, refl)

pub no_trash_menu : (item : BucketItem) → menu_content true false item ≡ []
unfolding menu_content
no_trash_menu item = refl

-- The trash lists the item, and none before it under the same id.
abbrev pub Listed : TrashedItem → List TrashedItem → Type 0
Listed t items = find (λ i. item_id i.item == item_id t.item) items ≡ some t

-- What a button of the menu does, where it is one.
abbrev pub action_of : {A : Type 0} → Element A → Option A
action_of (button label disabled a) = some a
action_of _ = none

abbrev pub via : {A B : Type 0} → (A → Option B) → Option A → Option B
via f none = none
via f (some a) = f a

-- Of an item that the trash lists first under its id, the context menu of its row offers what the
-- column of actions offers: restoring it and asking whether to delete it for ever, as the kind of
-- item that it is.
pub trash_menu_agrees :
    (items : List TrashedItem) (t : TrashedItem) (is_contributor : Bool)
    → Listed t items
    → map (λ e. via (trash_callback items) (action_of e)) (menu_content true is_contributor t.item)
      ≡ map action_of (trash_actions is_contributor t)
unfolding menu_content trash_actions trash_callback
trash_menu_agrees items t true listed = rw (trash_callback, listed) refl
trash_menu_agrees items t false listed = refl
