-- ===== src/Sidebar/Examples.antt =====
-- Examples of the sidebar.
use safebucket.Prelude.{
  ◌≡◌, refl, true, false, ◌==◌, eq_iff, none, some, [], ◌∷◌, String, arith, if◌then◌else◌,
}
use safebucket.Auth.Platform.{Json, Fields, field, Platform, Response}
use safebucket.Auth.Api.{fetch_api, request_of, read_response, read_error}
use safebucket.Auth.Examples.{Jar, browser, page}
use safebucket.Toast as Toast
use safebucket.Bucket.Items.{Folder, folder, open_folder, is_folder}
use safebucket.Bucket.Trash.{folder_names}
use safebucket.Bucket.Requests.{View, update_members}
use safebucket.Sidebar.Trail.{segments, place_of, build_folder_trail}
use safebucket.Sidebar.Trail.Laws.{place_of-open_folder, names_of, names_of-build_folder_trail}
use safebucket.Sidebar.Buckets.{Sidebar, submit_new_bucket, bucket_id_of}
use safebucket.Sidebar.Buckets.Laws.{half_created_bucket}

abbrev docs : Folder
docs = record { id = "f1"; name = "docs"; folder_id = none; status = none; original_path = none }

abbrev drafts : Folder
drafts = record docs { id = "f2"; name = "drafts"; folder_id = some "f1" }

place_of-open_folder_example :
    (address : String) × (open_folder "b1" (folder drafts) ≡ some address)
    × ((place_of (segments address)).bucket_id ≡ some "b1")
    × ((place_of (segments address)).folder_id ≡ some "f2")
unfolding is_folder
place_of-open_folder_example =
    place_of-open_folder "b1" (folder drafts)
      ((refl, (refl, tt)), (λ e. absurd (ground (arith, eq_iff "b1" ""))))
      ((refl, (refl, tt)), (λ e. absurd (ground (arith, eq_iff "f2" "")))) refl

names_of-build_folder_trail_example :
    names_of (build_folder_trail 3 (docs ∷ drafts ∷ []) "f2")
    ≡ folder_names 3 (docs ∷ drafts ∷ []) (some "f2") []
names_of-build_folder_trail_example =
    names_of-build_folder_trail 3 (docs ∷ drafts ∷ []) "f2"
      (λ e. absurd (ground (arith, eq_iff "f2" "")))

abbrev created : Response
created = record {
  status = 201;
  content_length = none;
  body = some (Json.obj (field "id" (Json.str "b1") Fields.end));
}

abbrev failed : Response
failed = record { status = 500; content_length = none; body = some (Json.obj Fields.end) }

-- a server that creates buckets and refuses members
abbrev unshared : Platform
unshared = browser (λ _ r. if r.method == "POST" then some created else some failed)

abbrev view : View Jar
view = record { store = page []; toasts = Toast.initial; invalidated = [] }

abbrev sidebar : Sidebar
sidebar = record { is_open = true; share_with = record { email = "a@b.c"; group = "viewer" } ∷ [] }

half_created_bucket_example : submit_new_bucket unshared (λ _. "failure") "docs" sidebar view ≡ (
  record { is_open = false; share_with = [] },
  record view {
    store =
        (update_members unshared "b1" sidebar.share_with
          (fetch_api unshared "/buckets"
            (record {
              method = some "POST";
              headers = [];
              body = some (Json.obj (field "name" (Json.str "docs") Fields.end));
              params = none;
            })
            (page [])).1).1;
    toasts = Toast.error_toast "failure" Toast.initial;
  },
)
unfolding fetch_api request_of read_response read_error bucket_id_of update_members
half_created_bucket_example =
    half_created_bucket unshared (λ _. "failure") "docs" sidebar view refl refl refl refl
