-- ===== src/Bucket/Run/Offers.antt =====
-- What the page of a bucket offers to a user who may only read it.
use safebucket.Prelude.{◌≡◌, ◌≢◌, Bool, true, false, List, [], map, All, All-append}
use safebucket.Ui.{Element, Can, embed, All-embed}
use safebucket.Auth.Platform.{Platform, Request}
use safebucket.Auth.Api.Reads.{IsHarmless, Adds}
use safebucket.Bucket.Page.{
  BucketViewMode, grid_view, activity_view, trash_view, settings_view, list_view, PageAction,
  PageView, bucket_view,
}
use safebucket.Bucket.Page.Laws.{IsReading, viewer_page_only_reads}
use safebucket.Bucket.Views.Laws.{
  ViewIsReading, bucket_list_view-Reads, bucket_grid_view-Reads, bucket_trash_table-Reads,
}
use safebucket.Bucket.Handlers.{Action, around, inside, Bucket, Run, Outside}
use safebucket.Bucket.Run.{rendered, shown_view}

abbrev pub ActionIsReading : Action → Type 0
ActionIsReading (around a) = IsReading a
ActionIsReading (inside a) = ViewIsReading a

module _ (p : Platform) (o : Outside p.Jar) where
  -- The user may only read, the settings are not shown, nobody is asked whether to delete something
  -- for ever, and only requests that read, or renew the access token, have been added.
  pub record IsViewing (start : List Request) (x : Bucket × Run p.Jar) : Type 0 where
    pub no_owner : x.0.is_owner ≡ false
    pub no_contributor : x.0.is_contributor ≡ false
    pub elsewhere : x.1.page.view ≢ settings_view
    pub closed : x.1.dialog.delete_dialog_open ≡ false
    pub harmless : Adds (IsHarmless p) start x.1.view.store.sent

  header-Reads :
      (is_owner is_contributor : Bool) (settings : List (Element PageAction)) (s : PageView)
      → is_owner ≡ false
      → is_contributor ≡ false
      → s.view ≢ settings_view
      → All (Can IsReading) (bucket_view is_owner is_contributor (λ mode. []) settings s)
  header-Reads true c settings s h k away = absurd (cc)
  header-Reads false true settings s h k away = absurd (cc)
  header-Reads false false settings s h k away =
      viewer_page_only_reads (λ mode. []) settings s away (λ mode. tt)

  view-Reads :
      (b : Bucket) (mode : BucketViewMode) (r : Run p.Jar)
      → b.is_contributor ≡ false
      → r.dialog.delete_dialog_open ≡ false
      → All (Can ViewIsReading) (shown_view p o b mode r)
  view-Reads b list_view r h k =
      rw h (bucket_list_view-Reads o.format_size r.context r.dropdown b.items)
  view-Reads b grid_view r h k =
      rw h (bucket_grid_view-Reads o.format_size r.context r.dropdown b.items)
  view-Reads b trash_view r h k =
      rw h (rw k (bucket_trash_table-Reads o.format_size o.fuel b.folders b.trashed))
  view-Reads b activity_view r h k = tt
  view-Reads b settings_view r h k = tt

  pub rendered-Reads :
      (start : List Request) (b : Bucket) (r : Run p.Jar)
      → IsViewing start (b, r)
      → All (Can ActionIsReading) (rendered p o b r)
  unfolding rendered
  rendered-Reads start b r v =
      All-append (Can ActionIsReading)
        (map (embed around) (bucket_view b.is_owner b.is_contributor (λ mode. []) _ r.page)) _
        (All-embed ActionIsReading around _ (
          header-Reads b.is_owner b.is_contributor _ r.page v.no_owner v.no_contributor
            v.elsewhere))
        (All-embed ActionIsReading inside (shown_view p o b r.page.view r)
          (view-Reads b r.page.view r v.no_contributor v.closed))
