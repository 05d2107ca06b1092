-- ===== src/Bucket/Run/Viewer.antt =====
-- What a user who may only read a bucket makes the page ask of the API.
use mathlib.Core.Path.{subst}
use safebucket.Prelude.{sym, ◌≡◌, ◌≢◌, refl, false, inl, inr, Option-cases, List, String}
use safebucket.Ui.{Offered, Offered-Can}
use safebucket.Auth.Platform.{Platform, Store, Request}
use safebucket.Auth.Api.Reads.{IsHarmless, Adds, Adds-refl, Adds-trans, api_get-Adds}
use safebucket.Drop as Drop
use safebucket.Drop.{handle_drop, denied}
use safebucket.Drop.Walk.{Item}
use safebucket.Drop.Folders as Dropped
use safebucket.Bucket.Items.{open_folder}
use safebucket.Bucket.Requests.{View}
use safebucket.Bucket.FileActions.{download_file, download_url, sent-download_file}
use safebucket.Bucket.Menu as Menu
use safebucket.Bucket.Page.{
  BucketViewMode, grid_view, activity_view, trash_view, settings_view, list_view, PageAction,
  PageView, bucket_view, set_view, set_selected,
}
use safebucket.Bucket.Page as Page
use safebucket.Bucket.Page.Laws.{IsReading}
use safebucket.Bucket.Views.{ViewAction, selects, opens, menu, trash, trash_menu, dialog}
use safebucket.Bucket.Views.Laws.{ViewIsReading}
use safebucket.Bucket.Handlers.{
  Action, around, inside, Bucket, Run, Outside, act_around, act_menu, act_inside, act,
}
use safebucket.Bucket.Run.{
  rendered, drop, Step, acts, drops, leaves, tells, answers, Reach, here, next,
}
use safebucket.Bucket.Run.Offers.{ActionIsReading, IsViewing, rendered-Reads}

module _ (p : Platform) (o : Outside p.Jar) where
  download-Adds :
      (id file_id name : String) (v : View p.Jar)
      → Adds
          (IsHarmless p)
          v.store.sent
          (download_file p o.message_of id file_id name v).1.store.sent
  download-Adds id file_id name v =
      rw (sent-download_file p o.message_of id file_id name v)
        (api_get-Adds p (download_url p o.message_of id file_id) v.store)

  module _ (start : List Request) (b : Bucket) where
    -- What keeps the other views and the dialog closed, and adds only such requests.
    later :
        (r s : Run p.Jar)
        → IsViewing p o start (b, r)
        → s.page.view ≢ settings_view
        → s.dialog.delete_dialog_open ≡ false
        → Adds (IsHarmless p) r.view.store.sent s.view.store.sent
        → IsViewing p o start (b, s)
    later r s v away closed more = record {
      no_owner = v.no_owner;
      no_contributor = v.no_contributor;
      elsewhere = away;
      closed = closed;
      harmless =
          Adds-trans (IsHarmless p) start r.view.store.sent s.view.store.sent v.harmless more;
    }

    nothing_more : (r : Run p.Jar) → Adds (IsHarmless p) r.view.store.sent r.view.store.sent
    nothing_more r = Adds-refl (IsHarmless p) r.view.store.sent

    around-IsViewing :
        (a : PageAction) (r : Run p.Jar)
        → IsReading a
        → IsViewing p o start (b, r)
        → IsViewing p o start (b, act_around p o b a r)
    unfolding act_around set_view
    around-IsViewing (Page.sets_view mode) r away v =
        later r (act_around p o b (Page.sets_view mode) r) v away v.closed (nothing_more r)
    around-IsViewing (Page.copies what field) r h v =
        later r (act_around p o b (Page.copies what field) r) v v.elsewhere v.closed
          (nothing_more r)
    around-IsViewing Page.opens_share_file r h v = absurd h
    around-IsViewing Page.opens_new_folder r h v = absurd h
    around-IsViewing (Page.starts_upload names) r h v = absurd h
    around-IsViewing (Page.creates_folder name) r h v = absurd h
    around-IsViewing Page.edits_name r h v = absurd h
    around-IsViewing (Page.sets_name name) r h v = absurd h
    around-IsViewing Page.saves_name r h v = absurd h
    around-IsViewing Page.cancels_name r h v = absurd h
    around-IsViewing (Page.sets_confirmation what) r h v = absurd h
    around-IsViewing Page.deletes_bucket r h v = absurd h
    around-IsViewing (Page.sets_new_email email) r h v = absurd h
    around-IsViewing (Page.sets_new_group group) r h v = absurd h
    around-IsViewing Page.adds_member r h v = absurd h
    around-IsViewing (Page.sets_role email group) r h v = absurd h
    around-IsViewing Page.updates_members r h v = absurd h

    inside-IsViewing :
        (a : ViewAction) (r : Run p.Jar)
        → ViewIsReading a
        → IsViewing p o start (b, r)
        → IsViewing p o start (b, act_inside p o b a r)
    unfolding act_inside act_menu set_selected
    inside-IsViewing (selects item) r h v =
        later r (act_inside p o b (selects item) r) v v.elsewhere v.closed (nothing_more r)
    inside-IsViewing (opens item) r h v = elim (Option-cases (open_folder b.id item)) [
      | inl is_no_folder ↦ rw (is_no_folder, act_inside) v
      | inr (to, goes) ↦
          rw (goes, act_inside)
            (later r
              (record r { view = record r.view { store = record r.view.store { location = to } } })
              v v.elsewhere v.closed (nothing_more r))
    ]
    inside-IsViewing (menu c item (Menu.downloads id name)) r h v =
        later r (act_menu p o b c item (Menu.downloads id name) r) v v.elsewhere v.closed
          (download-Adds b.id id name r.view)
    inside-IsViewing (menu c item (Menu.restores id name)) r h v = absurd h
    inside-IsViewing (menu c item (Menu.purges id name)) r h v = absurd h
    inside-IsViewing (menu c item Menu.opens_new_folder) r h v = absurd h
    inside-IsViewing (menu c item Menu.opens_delete) r h v = absurd h
    inside-IsViewing (menu c item (Menu.creates_folder name)) r h v = absurd h
    inside-IsViewing (menu c item (Menu.deletes id name is_folder)) r h v = absurd h
    inside-IsViewing (trash a) r h v = absurd h
    inside-IsViewing (trash_menu a) r h v = absurd h
    inside-IsViewing (dialog a) r h v = absurd h

    act-IsViewing :
        (a : Action) (r : Run p.Jar)
        → Offered a (rendered p o b r)
        → IsViewing p o start (b, r)
        → IsViewing p o start (b, act p o b a r)
    unfolding act
    act-IsViewing (around a) r h v =
        around-IsViewing a r
          (Offered-Can ActionIsReading (around a) (rendered p o b r)
            (rendered-Reads p o start b r v) h)
          v
    act-IsViewing (inside a) r h v =
        inside-IsViewing a r
          (Offered-Can ActionIsReading (inside a) (rendered p o b r)
            (rendered-Reads p o start b r v) h)
          v

    sent-drop :
        (items : List Item) (files : List Dropped.File) (s : Drop.DragState) (r : Run p.Jar)
        → b.is_contributor ≡ false
        → drop p o b items files s r ≡ record r { view = (drop p o b items files s r).view }
          × (drop p o b items files s r).view.store ≡ r.view.store
    unfolding drop handle_drop
    sent-drop items files s r h = rw h (refl, refl)

    drop-IsViewing :
        (items : List Item) (files : List Dropped.File) (s : Drop.DragState) (r : Run p.Jar)
        → IsViewing p o start (b, r)
        → IsViewing p o start (b, drop p o b items files s r)
    drop-IsViewing items files s r v =
        let (same, sent) = sent-drop items files s r v.no_contributor in
        subst (λ x. IsViewing p o start (b, x)) (sym same)
          (later r (record r { view = (drop p o b items files s r).view }) v v.elsewhere v.closed
            (subst (λ (x : Store p.Jar). Adds (IsHarmless p) r.view.store.sent x.sent) (sym sent)
              (nothing_more r)))

  Step-IsViewing :
      (start : List Request) {x y : Bucket × Run p.Jar}
      → Step p o x y
      → IsViewing p o start x
      → IsViewing p o start y
  Step-IsViewing start (acts b r a offered) v = act-IsViewing start b a r offered v
  Step-IsViewing start (drops b r items files s) v = drop-IsViewing start b items files s r v
  Step-IsViewing start (leaves b r context dropdown i) v = record {
    no_owner = v.no_owner;
    no_contributor = v.no_contributor;
    elsewhere = v.elsewhere;
    closed = refl;
    harmless = v.harmless;
  }
  Step-IsViewing start (tells b r toasts invalidated) v = record {
    no_owner = v.no_owner;
    no_contributor = v.no_contributor;
    elsewhere = v.elsewhere;
    closed = v.closed;
    harmless = v.harmless;
  }
  Step-IsViewing start (answers b r url name folder_id folders items trashed form) v = record {
    no_owner = v.no_owner;
    no_contributor = v.no_contributor;
    elsewhere = v.elsewhere;
    closed = v.closed;
    harmless =
        Adds-trans (IsHarmless p) start r.view.store.sent _ v.harmless
          (api_get-Adds p url r.view.store);
  }

  Reach-IsViewing :
      (start : List Request) {x y : Bucket × Run p.Jar}
      → IsViewing p o start x
      → Reach p o x y
      → IsViewing p o start y
  Reach-IsViewing start v here = v
  Reach-IsViewing start v (next run step) = Step-IsViewing start step (Reach-IsViewing start v run)

  -- A user who is neither owner nor contributor opens the page away from its settings, with no
  -- question about a deletion open. Whatever he does of what the page offers, whatever he drops on
  -- it and whatever the queries answer, the requests that the page adds to those sent before all
  -- read, or renew the access token, and the settings are never shown.
  pub viewer_run :
      (b c : Bucket) (r s : Run p.Jar)
      → b.is_owner ≡ false
      → b.is_contributor ≡ false
      → r.page.view ≢ settings_view
      → r.dialog.delete_dialog_open ≡ false
      → Reach p o (b, r) (c, s)
      → Adds (IsHarmless p) r.view.store.sent s.view.store.sent × (s.page.view ≢ settings_view)
  viewer_run b c r s no_owner no_contributor elsewhere closed run =
      let v =
        Reach-IsViewing r.view.store.sent
          (record {
            no_owner = no_owner;
            no_contributor = no_contributor;
            elsewhere = elsewhere;
            closed = closed;
            harmless = Adds-refl (IsHarmless p) r.view.store.sent;
          })
          run in
      (v.harmless, v.elsewhere)
