-- ===== src/Bucket/Run.antt =====
-- The page of a bucket under the hands of a user: what it shows (Bucket/Page and Bucket/Views), with
-- BucketView.tsx of web/src/components/bucket-view, the drop zone of web/src/components/upload, and
-- the steps that the page can take.
pub mod Offers
pub mod Viewer
pub mod Kept
pub mod Shared
mod Examples
use Prim.Native.String
use safebucket.Prelude.{
  ℕ, Bool, true, false, ◌==◌, Option, none, some, List, [], ◌∷◌, ◌++◌, String, map, if◌then◌else◌,
}
use safebucket.Ui.{Element, embed, Offered}
use safebucket.Auth.Platform.{Platform, Failure, ok, err}
use safebucket.Auth.Api.{api_get}
use safebucket.Toast as Toast
use safebucket.Drop as Drop
use safebucket.Drop.{handle_drop, Outcome, denied, failed, uploads, waits}
use safebucket.Drop.Walk.{Item}
use safebucket.Drop.Folders as Dropped
use safebucket.Bucket.Sharing.{Member}
use safebucket.Bucket.Members.{
  MemberState, Form, add_member, update_member_role, handle_update_members, updated,
}
use safebucket.Bucket.Items.{BucketItem, Folder, item_id, open_folder, is_file}
use safebucket.Bucket.Cells.{DialogAction, confirms, cancels}
use safebucket.Bucket.Requests.{
  View, notify_user, invalidate, succeed, mutated, ItemType, restore_item, purge_item,
  update_members, handle_delete_bucket, handle_save_name, Dialog, handle_open_delete_dialog,
  handle_confirm_delete,
}
use safebucket.Bucket.Uploads.{take_drop}
use safebucket.Bucket.FileActions.{create_folder_here, trash_item, download_file}
use safebucket.Bucket.Menu.{MenuAction, TrashedItem, TrashAction, trash_callback}
use safebucket.Bucket.Menu as Menu
use safebucket.Bucket.Page.{
  BucketViewMode, grid_view, activity_view, trash_view, settings_view, list_view, PageAction,
  Information, copied, handle_cancel_name, bucket_settings, PageView, set_view, set_selected,
  bucket_view,
}
use safebucket.Bucket.Page as Page
use safebucket.Bucket.Views.{
  ViewAction, selects, opens, menu, trash, trash_menu, dialog, MenuDialogs, bucket_list_view,
  bucket_grid_view, bucket_trash_table,
}
use safebucket.Bucket.Handlers.{Action, around, inside, Bucket, Run, Outside, showing, act}

module _ (p : Platform) (o : Outside p.Jar) (b : Bucket) where
  abbrev shown_view : BucketViewMode → Run p.Jar → List (Element ViewAction)
  shown_view list_view r =
      bucket_list_view o.format_size b.is_contributor r.context r.dropdown b.items
  shown_view grid_view r =
      bucket_grid_view o.format_size b.is_contributor r.context r.dropdown b.items
  shown_view trash_view r =
      bucket_trash_table o.format_size o.fuel b.folders b.is_contributor r.dialog.delete_dialog_open
        b.trashed
  shown_view activity_view r = []
  shown_view settings_view r = []

  -- The page: `BucketView`, with the view that is chosen below its header.
  pub rendered : Run p.Jar → List (Element Action)
  rendered r =
      map (embed around) (
        bucket_view b.is_owner b.is_contributor (λ mode. [])
          (bucket_settings o.upper b.is_owner b.current b.name b.url r.confirmation r.information
            r.form)
          r.page)
      ++ map (embed inside) (shown_view r.page.view r)

  -- What is told of a drop, or made of it.
  abbrev pub dropped : Outcome → List Dropped.Call → Run p.Jar → Run p.Jar
  dropped denied calls r =
      showing
        (notify_user (record {
          title = none;
          description = some "upload.permission_denied";
          variant = Toast.destructive;
        }))
        r
  dropped waits calls r = r
  dropped failed calls r = showing (take_drop p b.id failed calls) r
  dropped (uploads us) calls r = showing (take_drop p b.id (uploads us) calls) r

  -- `handleDrop` of the zone around the list and the cards
  unfoldable pub drop : List Item → List Dropped.File → Drop.DragState → Run p.Jar → Run p.Jar
  unfolding handle_drop
  drop items files s r =
      let (_, outcome, calls) =
        handle_drop o.create o.lasts b.is_contributor b.folder_id items files s in
      dropped outcome calls r

-- What can happen on the page: the user does what is offered, or drops something, in whatever view;
-- dialogs or fields are left, and may begin anew when they are shown again; uploads, transfers and
-- timers change the notifications and invalidate queries; or a query asks the API, and what it says,
-- of whatever folder, is shown, a new name in its field too.
module _ (p : Platform) (o : Outside p.Jar) where
  pub data Step : Bucket × Run p.Jar → Bucket × Run p.Jar → Type 0 where
    acts :
        (b : Bucket) (r : Run p.Jar) (a : Action)
        → Offered a (rendered p o b r)
        → Step (b, r) (b, act p o b a r)
    drops :
        (b : Bucket) (r : Run p.Jar) (items : List Item) (files : List Dropped.File)
        (s : Drop.DragState)
        → Step (b, r) (b, drop p o b items files s r)
    leaves :
        (b : Bucket) (r : Run p.Jar) (context dropdown : String → MenuDialogs) (i : Information)
        → Step
            (b, r)
            (
              b,
              record r {
                context = context;
                dropdown = dropdown;
                information = i;
                dialog = record r.dialog { delete_dialog_open = false };
              },
            )
    tells :
        (b : Bucket) (r : Run p.Jar) (toasts : Toast.Store) (invalidated : List (List String))
        → Step
            (b, r)
            (b, record r { view = record r.view { toasts = toasts; invalidated = invalidated } })
    answers :
        (b : Bucket) (r : Run p.Jar) (url name : String) (folder_id : Option String)
        (folders : List Folder) (items : List BucketItem) (trashed : List TrashedItem) (form : Form)
        → Step
            (b, r)
            (
              record b {
                name = name;
                folder_id = folder_id;
                folders = folders;
                items = items;
                trashed = trashed;
              },
              record r {
                information =
                    if name == b.name
                    then r.information
                    else record r.information { bucket_name = name };
                form = form;
                view = record r.view { store = (api_get p url r.view.store).1 };
              },
            )

  pub data Reach (x : Bucket × Run p.Jar) : Bucket × Run p.Jar → Type 0 where
    here : Reach x x
    next : {y z : Bucket × Run p.Jar} → Reach x y → Step y z → Reach x z
