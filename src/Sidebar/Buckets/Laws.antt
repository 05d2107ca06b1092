-- ===== src/Sidebar/Buckets/Laws.antt =====
-- What the creation of a bucket leaves behind.
use Prim.Native.String
use safebucket.Prelude.{
  ◌≡◌, refl, ap, ◌∙◌, false, Option, none, some, List, [], ◌∷◌, String, map, All, All-append,
}
use safebucket.Ui.{separator, link, button, Can}
use safebucket.Auth.Platform.{Json, Fields, field, Platform, Store, Result, ok, err, Failure, guest}
use safebucket.Auth.Api.{api_post}
use safebucket.Toast as Toast
use safebucket.Bucket.Requests.{View, mutated, invalidate, succeed, update_members}
use safebucket.Bucket.Sharing.{Member}
use safebucket.Sidebar.Buckets.{
  bucket_id_of, create_bucket_request, shared, share_bucket, then_share, create_bucket, dismiss,
  Sidebar, submit_new_bucket, SidebarAction, logs_out, nav_rows, user_label, app_sidebar,
  starts_with,
}

module _ (p : Platform) (message_of : Failure → String) where
  members_refused :
      (name : String) (st : Store p.Jar) (m : Member) (ms : List Member) {bucket : Json}
      {id : String} {e : Failure} {s₁ s₂ : Store p.Jar}
      → api_post p "/buckets" (some (Json.obj (field "name" (Json.str name) Fields.end))) st
        ≡ (ok bucket, s₁)
      → bucket_id_of bucket ≡ some id
      → update_members p id (m ∷ ms) s₁ ≡ (err e, s₂)
      → create_bucket_request p message_of name (m ∷ ms) st ≡ (err e, s₂)
  unfolding create_bucket_request share_bucket
  members_refused name st m ms {bucket} created named refused =
      ap (then_share p message_of (m ∷ ms)) created
      ∙ rw (then_share, share_bucket, named) (ap (shared p message_of bucket) refused)

  -- A bucket that the API has created stays unseen when its members are refused: the page tells the
  -- failure, does not ask for the buckets again, and the list of people to invite is lost.
  pub half_created_bucket :
      (name : String) (s : Sidebar) (v : View p.Jar) {m : Member} {ms : List Member} {bucket : Json}
      {id : String} {e : Failure} {s₁ s₂ : Store p.Jar}
      → s.share_with ≡ m ∷ ms
      → api_post p "/buckets" (some (Json.obj (field "name" (Json.str name) Fields.end))) v.store
        ≡ (ok bucket, s₁)
      → bucket_id_of bucket ≡ some id
      → update_members p id (m ∷ ms) s₁ ≡ (err e, s₂)
      → submit_new_bucket p message_of name s v ≡ (
        record { is_open = false; share_with = [] },
        record v { store = s₂; toasts = Toast.error_toast (message_of e) v.toasts },
      )
  unfolding submit_new_bucket create_bucket dismiss
  half_created_bucket name s v {m} {ms} people created named refused = rw people (
      ap
        (λ (r : Result Json × Store p.Jar). (
          record { is_open = false; share_with = [] },
          mutated p message_of
              (λ w. succeed "The bucket has been created" (invalidate ("buckets" ∷ []) w)) v r,
        ))
        (members_refused name v.store m ms created named refused))

abbrev IsLogout : SidebarAction → Type 0
IsLogout a = a ≡ logs_out

links_only :
    (pathname : String) (buckets : List (String × String))
    → All (Can IsLogout) (
        map
          (λ (b : String × String).
            link b.1
              (starts_with (String.◌++◌ "/buckets/" b.0) pathname)
              (String.◌++◌ "/buckets/" b.0))
          buckets)
links_only pathname [] = tt
links_only pathname (b ∷ bs) = (tt, links_only pathname bs)

label_only :
    (first : String → String) (full_name : String) (email : Option String)
    → All (Can IsLogout) (user_label first full_name email)
unfolding user_label
label_only first full_name none = (tt, tt)
label_only first full_name (some email) = (tt, (tt, (tt, tt)))

-- A guest cannot create a bucket from the sidebar: all that he can do there is to log out.
pub guest_sidebar :
    (first : String → String) (pathname : String) (email : Option String) (full_name : String)
    (buckets : List (String × String))
    → All (Can IsLogout) (app_sidebar first pathname (some guest) email full_name buckets)
unfolding app_sidebar nav_rows
guest_sidebar first pathname email full_name buckets =
    let label = label_only first full_name email in
    let foot = All-append (Can IsLogout) (user_label first full_name email) _ label (
      All-append (Can IsLogout) (user_label first full_name email)
        (separator ∷ button "common.logout" false logs_out ∷ []) label (tt, ((λ e. refl), tt))) in
    (
      tt,
      (
        tt,
        (
          tt,
          (
            tt,
            (
              tt,
              All-append (Can IsLogout) (map _ buckets) _ (links_only pathname buckets)
                  (tt, (tt, (tt, (tt, (tt, (tt, foot)))))),
            ),
          ),
        ),
      ),
    )
