-- ===== src/Bucket/Run/Kept.antt =====
-- What the handlers of the views of a bucket ask of the API, and that they leave the view as it is.
pub mod Uploads
use Prim.Native.String
use safebucket.Prelude.{
  ◌≡◌, ◌⊎◌, refl, Bool, true, false, inl, inr, some, ◌==◌, Bool-cases, Option-cases, [], ◌∷◌,
  String, if◌then◌else◌,
}
use safebucket.Auth.Platform.{Platform, Store, Request, Json, Result, ok, err}
use safebucket.Auth.Api.{RequestOptions, no_options, request_of, fetch_api}
use safebucket.Auth.Api.Reads.{IsHarmless, Adds, Adds-refl, fetch_api-Adds}
use safebucket.Bucket.Items.{BucketItem, open_folder}
use safebucket.Bucket.Cells.{DialogAction, confirms, cancels}
use safebucket.Bucket.Requests.{
  View, succeed, invalidate, ItemType, item_path, mutated, create_folder, delete_file, restore_item,
  purge_item, handle_confirm_delete,
}
use safebucket.Bucket.FileActions.{
  create_folder_here, trash_item, on_trashed, download_file, download_url, sent-download_file,
}
use safebucket.Bucket.Menu.{MenuAction, TrashAction, trash_callback}
use safebucket.Bucket.Menu as Menu
use safebucket.Bucket.Page.{set_selected}
use safebucket.Bucket.Views.{
  ViewAction, selects, opens, menu, trash, trash_menu, dialog, MenuDialogs,
}
use safebucket.Bucket.Handlers.{
  Bucket, Run, Outside, set_dialogs, act_menu, act_trash, act_dialog, act_inside,
}

-- A folder or a file is created in the bucket, or one of them is changed or deleted.
abbrev pub CallsItems : String → String → RequestOptions → Type 0
CallsItems id path options =
    ((options.method ≡ some "POST")
      × ((path ≡ String.◌++◌ "/buckets/" (String.◌++◌ id "/folders"))
          ⊎ (path ≡ String.◌++◌ "/buckets/" (String.◌++◌ id "/files"))))
    ⊎ ((kind : ItemType) × (item : String) × (path ≡ item_path id kind item))

-- The request reads, or it renews the access token, or it is about the items of that bucket.
abbrev pub IsShared : (p : Platform) → String → Request → Type 0
IsShared p id r =
    IsHarmless p r
    ⊎ ((path : String) × (options : RequestOptions) × (s : Store p.Jar) × (r
          ≡ request_of p path options s)
        × CallsItems id path options)

module _ (p : Platform) (o : Outside p.Jar) where
  store-mutated :
      (f : View p.Jar → View p.Jar) (v : View p.Jar) (x : Result Json × Store p.Jar)
      → ((w : View p.Jar) → (f w).store ≡ w.store)
      → (mutated p o.message_of f v x).store ≡ x.1
  store-mutated f v (ok a, s) keeps = keeps (record v { store = s })
  store-mutated f v (err e, s) keeps = refl

  -- What happens leaves the view that is chosen, and adds only such requests.
  module _ (b : Bucket) where
    abbrev pub Keeps : Run p.Jar → Run p.Jar → Type 0
    Keeps r s =
        (s.page.view ≡ r.page.view) × Adds (IsShared p b.id) r.view.store.sent s.view.store.sent

    pub Keeps-refl : (r : Run p.Jar) → Keeps r r
    Keeps-refl r = (refl, Adds-refl (IsShared p b.id) r.view.store.sent)

    call-Adds :
        (path : String) (options : RequestOptions) (s : Store p.Jar)
        → CallsItems b.id path options
        → Adds (IsShared p b.id) s.sent (fetch_api p path options s).1.sent
    call-Adds path options s c =
        fetch_api-Adds p (IsShared p b.id) (λ token u. inl (inr (token, u, refl))) path options
          (λ u. inr (path, options, u, refl, c)) s

    pub get-Adds :
        (path : String) (s : Store p.Jar)
        → Adds
            (IsShared p b.id)
            s.sent
            (fetch_api p path (record no_options { method = some "GET" }) s).1.sent
    unfolding request_of
    get-Adds path s =
        fetch_api-Adds p (IsShared p b.id) (λ token u. inl (inr (token, u, refl))) path _
          (λ u. inl (inl refl)) s

    download-Keeps :
        (id name : String) (r : Run p.Jar)
        → Keeps r (record r { view = (download_file p o.message_of b.id id name r.view).1 })
    download-Keeps id name r = (
      refl,
      rw (sent-download_file p o.message_of b.id id name r.view)
          (get-Adds (download_url p o.message_of b.id id) r.view.store),
    )

    mutated-Adds :
        (path : String) (options : RequestOptions) (f : View p.Jar → View p.Jar) (v : View p.Jar)
        → CallsItems b.id path options
        → ((w : View p.Jar) → (f w).store ≡ w.store)
        → Adds
            (IsShared p b.id)
            v.store.sent
            (mutated p o.message_of f v (fetch_api p path options v.store)).store.sent
    mutated-Adds path options f v c keeps =
        rw (store-mutated f v (fetch_api p path options v.store) keeps)
          (call-Adds path options v.store c)

    pub folder-Keeps :
        (name : String) (r : Run p.Jar)
        → Keeps r
            (record r { view = create_folder_here p o.message_of b.id b.folder_id name r.view })
    unfolding create_folder_here create_folder
    folder-Keeps name r = (
      refl,
      mutated-Adds (String.◌++◌ "/buckets/" (String.◌++◌ b.id "/folders")) _
          (λ v.
            succeed (String.◌++◌ "Folder " (String.◌++◌ name " has been created."))
              (invalidate ("buckets" ∷ []) v))
          r.view (inl (refl, inl refl)) (λ w. refl),
    )

    on_trashed-store : (name : String) (w : View p.Jar) → (on_trashed name w).store ≡ w.store
    unfolding on_trashed
    on_trashed-store name w = elim (Bool-cases (name == "")) [
      | inl empty ↦ rw (on_trashed, empty) refl
      | inr given ↦ rw (on_trashed, given) refl
    ]

    trash-Keeps :
        (id name : String) (is_folder : Bool) (r : Run p.Jar)
        → Keeps r (record r { view = trash_item p o.message_of b.id id name is_folder r.view })
    unfolding trash_item delete_file
    trash-Keeps id name is_folder r = (
      refl,
      mutated-Adds (item_path b.id (if is_folder then ItemType.folder else ItemType.file) id) _
          (on_trashed name) r.view (inr (_, id, refl)) (on_trashed-store name),
    )

    restore-Keeps :
        (id name : String) (kind : ItemType) (r : Run p.Jar)
        → Keeps r (record r { view = restore_item p o.message_of o.t b.id id name kind r.view })
    unfolding restore_item
    restore-Keeps id name kind r = (
      refl,
      mutated-Adds (item_path b.id kind id) _
          (λ v.
            succeed (o.t "bucket.trash_view.restore_success" name)
              (invalidate ("buckets" ∷ b.id ∷ []) (invalidate ("buckets" ∷ b.id ∷ "trash" ∷ []) v)))
          r.view (inr (kind, id, refl)) (λ w. refl),
    )

    purge-Keeps :
        (id name : String) (kind : ItemType) (r : Run p.Jar)
        → Keeps r (record r { view = purge_item p o.message_of o.t b.id id name kind r.view })
    unfolding purge_item
    purge-Keeps id name kind r = (
      refl,
      mutated-Adds (item_path b.id kind id) _
          (λ v.
            succeed (o.t "bucket.trash_view.purge_success" name)
              (invalidate ("buckets" ∷ b.id ∷ "trash" ∷ []) v))
          r.view (inr (kind, id, refl)) (λ w. refl),
    )

    dialogs-Keep :
        (c : Bool) (item : BucketItem) (f : MenuDialogs → MenuDialogs) (r s : Run p.Jar)
        → Keeps r s
        → Keeps r (set_dialogs p o b c item f s)
    dialogs-Keep true item f r s h = h
    dialogs-Keep false item f r s h = h

    menu-Keeps :
        (c : Bool) (item : BucketItem) (a : MenuAction) (r : Run p.Jar)
        → Keeps r (act_menu p o b c item a r)
    unfolding act_menu
    menu-Keeps c item (Menu.restores id name) r = Keeps-refl r
    menu-Keeps c item (Menu.purges id name) r = Keeps-refl r
    menu-Keeps c item (Menu.downloads id name) r = download-Keeps id name r
    menu-Keeps c item Menu.opens_new_folder r =
        dialogs-Keep c item (λ d. record d { new_folder_open = true }) r r (Keeps-refl r)
    menu-Keeps c item Menu.opens_delete r =
        dialogs-Keep c item (λ d. record d { delete_open = true }) r r (Keeps-refl r)
    menu-Keeps c item (Menu.creates_folder name) r =
        dialogs-Keep c item (λ d. record d { new_folder_open = false }) r
          (record r { view = create_folder_here p o.message_of b.id b.folder_id name r.view })
          (folder-Keeps name r)
    menu-Keeps c item (Menu.deletes id name is_folder) r =
        dialogs-Keep c item (λ d. record d { delete_open = false }) r
          (record r { view = trash_item p o.message_of b.id id name is_folder r.view })
          (trash-Keeps id name is_folder r)

    trash_action-Keeps : (a : TrashAction) (r : Run p.Jar) → Keeps r (act_trash p o b a r)
    unfolding act_trash
    trash_action-Keeps (TrashAction.restores id name kind) r = restore-Keeps id name kind r
    trash_action-Keeps (TrashAction.opens_delete_dialog id name kind) r = Keeps-refl r

    dialog-Keeps : (a : DialogAction) (r : Run p.Jar) → Keeps r (act_dialog p o b a r)
    unfolding act_dialog handle_confirm_delete
    dialog-Keeps cancels r = Keeps-refl r
    dialog-Keeps confirms r = elim (Option-cases r.dialog.selected_item) [
      | inl nothing ↦ rw (act_dialog, handle_confirm_delete, nothing) (Keeps-refl r)
      | inr ((id, name, kind), chosen) ↦
          rw (act_dialog, handle_confirm_delete, chosen) (purge-Keeps id name kind r)
    ]

    pub inside-Keeps : (a : ViewAction) (r : Run p.Jar) → Keeps r (act_inside p o b a r)
    unfolding act_inside set_selected
    inside-Keeps (selects item) r = Keeps-refl r
    inside-Keeps (opens item) r = elim (Option-cases (open_folder b.id item)) [
      | inl is_no_folder ↦ rw (is_no_folder, act_inside) (Keeps-refl r)
      | inr (to, goes) ↦ rw (goes, act_inside) (Keeps-refl r)
    ]
    inside-Keeps (menu c item a) r = menu-Keeps c item a r
    inside-Keeps (trash a) r = trash_action-Keeps a r
    inside-Keeps (trash_menu a) r = elim (Option-cases (trash_callback b.trashed a)) [
      | inl none_such ↦ rw (none_such, act_inside) (Keeps-refl r)
      | inr (c, found) ↦ rw (found, act_inside) (trash_action-Keeps c r)
    ]
    inside-Keeps (dialog a) r = dialog-Keeps a r
