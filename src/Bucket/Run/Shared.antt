-- ===== src/Bucket/Run/Shared.antt =====
-- What a user who does not own a bucket makes its page ask of the API.
use mathlib.Core.Path.{subst}
use safebucket.Bucket.Run.Kept.{IsShared, Keeps, Keeps-refl, get-Adds, folder-Keeps, inside-Keeps}
use safebucket.Bucket.Run.Kept.Uploads.{start_uploads-Adds, take_drop-Adds}
use safebucket.Prelude.{
  ◌≡◌, ◌≢◌, ◌∙◌, sym, refl, Bool, true, false, List, [], String, map, All, All-append,
  if◌then◌else◌,
}
use safebucket.Ui.{Element, Can, Offered, embed, Offered-Can, All-embed, All-Can}
use safebucket.Auth.Platform.{Platform, Request}
use safebucket.Auth.Api.Reads.{Adds, Adds-refl, Adds-trans}
use safebucket.Drop.{Outcome, denied, failed, uploads, waits}
use safebucket.Drop.Folders as Dropped
use safebucket.Bucket.Page.{
  BucketViewMode, grid_view, activity_view, trash_view, settings_view, list_view, is_settings,
  PageAction, PageView, bucket_header, bucket_view, bucket_view_options, view_options, set_view,
  set_selected,
}
use safebucket.Bucket.Page as Page
use safebucket.Bucket.Handlers.{
  Action, around, inside, Bucket, Run, Outside, picked, act_around, act_inside, act,
}
use safebucket.Bucket.Run.{
  rendered, shown_view, dropped, drop, Step, acts, drops, leaves, tells, answers, Reach, here, next,
}

-- The action belongs to the page away from its settings.
abbrev IsCommon : PageAction → Type 0
IsCommon (Page.sets_view mode) = mode ≢ settings_view
IsCommon Page.opens_share_file = Unit
IsCommon Page.opens_new_folder = Unit
IsCommon (Page.starts_upload names) = Unit
IsCommon (Page.creates_folder name) = Unit
IsCommon (Page.copies what field) = Unit
IsCommon _ = ⊥

abbrev Common : Action → Type 0
Common (around a) = IsCommon a
Common (inside a) = Unit

header-Common : (is_contributor : Bool) → All (Can IsCommon) (bucket_header false is_contributor)
unfolding bucket_header bucket_view_options view_options
header-Common true = (
  (λ e q. cc),
  (
    (λ e q. cc),
    ((λ e q. cc), ((λ e q. cc), (tt, ((λ e. tt), ((λ e. tt), ((λ l. tt), ((λ s. tt), tt))))))),
  ),
)
header-Common false = ((λ e q. cc), ((λ e q. cc), ((λ e q. cc), ((λ e q. cc), (tt, tt)))))

away-Common :
    (mode : BucketViewMode) (settings : List (Element PageAction))
    → mode ≢ settings_view
    → All (Can IsCommon) (if is_settings mode then settings else [])
away-Common settings_view settings away = absurd (away refl)
away-Common grid_view settings away = tt
away-Common list_view settings away = tt
away-Common activity_view settings away = tt
away-Common trash_view settings away = tt

page-Common :
    (is_owner is_contributor : Bool) (settings : List (Element PageAction)) (s : PageView)
    → is_owner ≡ false
    → s.view ≢ settings_view
    → All (Can IsCommon) (bucket_view is_owner is_contributor (λ mode. []) settings s)
unfolding bucket_view
page-Common true c settings s h away = absurd (cc)
page-Common false c settings s h away =
    All-append (Can IsCommon) (bucket_header false c) _ (header-Common c)
      (away-Common s.view settings away)

module _ (p : Platform) (o : Outside p.Jar) where
  rendered-Common :
      (b : Bucket) (r : Run p.Jar)
      → b.is_owner ≡ false
      → r.page.view ≢ settings_view
      → All (Can Common) (rendered p o b r)
  unfolding rendered
  rendered-Common b r h away =
      All-append (Can Common)
        (map (embed around) (bucket_view b.is_owner b.is_contributor (λ mode. []) _ r.page)) _
        (All-embed Common around _ (page-Common b.is_owner b.is_contributor _ r.page h away))
        (All-embed Common inside (shown_view p o b r.page.view r)
          (All-Can (shown_view p o b r.page.view r)))

  module _ (b : Bucket) where
    around-Keeps :
        (a : PageAction) (r : Run p.Jar)
        → IsCommon a
        → r.page.view ≢ settings_view
        → ((act_around p o b a r).page.view ≢ settings_view)
          × Adds (IsShared p b.id) r.view.store.sent (act_around p o b a r).view.store.sent
    unfolding act_around set_view
    around-Keeps (Page.sets_view mode) r h away = (h, Adds-refl (IsShared p b.id) r.view.store.sent)
    around-Keeps Page.opens_share_file r h away =
        (away, Adds-refl (IsShared p b.id) r.view.store.sent)
    around-Keeps Page.opens_new_folder r h away =
        (away, Adds-refl (IsShared p b.id) r.view.store.sent)
    around-Keeps (Page.starts_upload names) r h away =
        (away, start_uploads-Adds p o b (picked p o b names) r.view)
    around-Keeps (Page.creates_folder name) r h away = (away, (folder-Keeps p o b name r).1)
    around-Keeps (Page.copies what field) r h away =
        (away, Adds-refl (IsShared p b.id) r.view.store.sent)
    around-Keeps Page.edits_name r h away = absurd h
    around-Keeps (Page.sets_name name) r h away = absurd h
    around-Keeps Page.saves_name r h away = absurd h
    around-Keeps Page.cancels_name r h away = absurd h
    around-Keeps (Page.sets_confirmation what) r h away = absurd h
    around-Keeps Page.deletes_bucket r h away = absurd h
    around-Keeps (Page.sets_new_email email) r h away = absurd h
    around-Keeps (Page.sets_new_group group) r h away = absurd h
    around-Keeps Page.adds_member r h away = absurd h
    around-Keeps (Page.sets_role email group) r h away = absurd h
    around-Keeps Page.updates_members r h away = absurd h

    dropped-Keeps :
        (x : Outcome) (calls : List Dropped.Call) (r : Run p.Jar)
        → Keeps p o b r (dropped p o b x calls r)
    dropped-Keeps denied calls r = Keeps-refl p o b r
    dropped-Keeps waits calls r = Keeps-refl p o b r
    dropped-Keeps failed calls r = (refl, take_drop-Adds p o b failed calls r.view)
    dropped-Keeps (uploads us) calls r = (refl, take_drop-Adds p o b (uploads us) calls r.view)

  -- The user does not own the bucket, the settings are not shown, and only requests that read, renew
  -- the access token, or are about the items of the bucket have been added.
  record IsElsewhere (id : String) (start : List Request) (x : Bucket × Run p.Jar) : Type 0 where
    same : x.0.id ≡ id
    no_owner : x.0.is_owner ≡ false
    elsewhere : x.1.page.view ≢ settings_view
    shared : Adds (IsShared p x.0.id) start x.1.view.store.sent

  module _ (id : String) (start : List Request) where
    later :
        (b : Bucket) (r s : Run p.Jar)
        → IsElsewhere id start (b, r)
        → s.page.view ≢ settings_view
        → Adds (IsShared p b.id) r.view.store.sent s.view.store.sent
        → IsElsewhere id start (b, s)
    later b r s h away more = record {
      same = h.same;
      no_owner = h.no_owner;
      elsewhere = away;
      shared = Adds-trans (IsShared p b.id) start r.view.store.sent s.view.store.sent h.shared more;
    }

    act-IsElsewhere :
        (b : Bucket) (r : Run p.Jar) (a : Action)
        → Offered a (rendered p o b r)
        → IsElsewhere id start (b, r)
        → IsElsewhere id start (b, act p o b a r)
    unfolding act
    act-IsElsewhere b r (around a) offered h =
        let common =
          Offered-Can Common (around a) (rendered p o b r)
            (rendered-Common b r h.no_owner h.elsewhere) offered in
        let (away, more) = around-Keeps b a r common h.elsewhere in
        later b r (act_around p o b a r) h away more
    act-IsElsewhere b r (inside a) offered h =
        let (view, more) = inside-Keeps p o b a r in
        later b r (act_inside p o b a r) h (λ e. h.elsewhere (sym view ∙ e)) more

    Step-IsElsewhere :
        {x y : Bucket × Run p.Jar} → Step p o x y → IsElsewhere id start x → IsElsewhere id start y
    unfolding drop
    Step-IsElsewhere (acts b r a offered) h = act-IsElsewhere b r a offered h
    Step-IsElsewhere (drops b r items files s) h =
        let (view, more) = dropped-Keeps b _ _ r in
        later b r (drop p o b items files s r) h (λ e. h.elsewhere (sym view ∙ e)) more
    Step-IsElsewhere (leaves b r context dropdown i) h = record {
      same = h.same;
      no_owner = h.no_owner;
      elsewhere = h.elsewhere;
      shared = h.shared;
    }
    Step-IsElsewhere (tells b r toasts invalidated) h = record {
      same = h.same;
      no_owner = h.no_owner;
      elsewhere = h.elsewhere;
      shared = h.shared;
    }
    Step-IsElsewhere (answers b r url name folder_id folders items trashed form) h = record {
      same = h.same;
      no_owner = h.no_owner;
      elsewhere = h.elsewhere;
      shared =
          Adds-trans (IsShared p b.id) start r.view.store.sent _ h.shared
            (get-Adds p o b url r.view.store);
    }

    Reach-IsElsewhere :
        {x y : Bucket × Run p.Jar} → IsElsewhere id start x → Reach p o x y → IsElsewhere id start y
    Reach-IsElsewhere h here = h
    Reach-IsElsewhere h (next run step) = Step-IsElsewhere step (Reach-IsElsewhere h run)

  -- A user who does not own the bucket, a contributor or not, opens its page away from the settings.
  -- Whatever he does of what the page offers, uploads included, whatever he drops on it and whatever
  -- the queries answer, the settings are never shown, and each request that the page adds reads,
  -- renews the access token, creates a folder or a file in that bucket, or is about one of its files
  -- or folders.
  pub shared_run :
      (b c : Bucket) (r s : Run p.Jar)
      → b.is_owner ≡ false
      → r.page.view ≢ settings_view
      → Reach p o (b, r) (c, s)
      → Adds (IsShared p b.id) r.view.store.sent s.view.store.sent × (s.page.view ≢ settings_view)
  shared_run b c r s no_owner elsewhere run =
      let h =
        Reach-IsElsewhere b.id r.view.store.sent
          (record {
            same = refl;
            no_owner = no_owner;
            elsewhere = elsewhere;
            shared = Adds-refl (IsShared p b.id) r.view.store.sent;
          })
          run in
      (
        subst (λ id. Adds (IsShared p id) r.view.store.sent s.view.store.sent) h.same h.shared,
        h.elsewhere,
      )
