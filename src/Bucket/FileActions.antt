-- ===== src/Bucket/FileActions.antt =====
-- The actions on the items of a bucket: web/src/components/FileActions/hooks/useFileActions.ts and
-- web/src/components/FileActions/helpers/api.ts.
use Prim.Native.String
use safebucket.Prelude.{
  arith, ℕ, ◌≡◌, Bool, ◌==◌, ◌&&◌, Option, none, some, [], ◌∷◌, String, eqb, if◌then◌else◌,
}
use safebucket.Auth.Platform.{Json, Platform, ok, err, Failure, get_field}
use safebucket.Auth.Api.{api_get}
use safebucket.Toast as Toast
use safebucket.Bucket.Requests.{
  View, notify_user, invalidate, succeed, mutate, create_folder, delete_file,
}

-- `res.url`: `none` where reading it throws; a missing field is requested as `undefined`.
pub url_of : Json → Option String
url_of Json.null = none
url_of (Json.obj fields) = elim (get_field "url" fields) [
  | some (Json.str url) ↦ some url
  | _ ↦ some "undefined"
]
url_of _ = some "undefined"

-- `downloadFromStorage`: the request that it sends, which is told as started at once
download_from_storage : {Jar : Type 0} → String → String → View Jar → Option String × View Jar
download_from_storage url filename v = (
  some url,
  notify_user
      (record {
        variant = Toast.success;
        title = some "Success";
        description = some (String.◌++◌ "Download started for file " filename);
      })
      v,
)

-- `onreadystatechange`: whether the file is saved
pub is_saved : ℕ → ℕ → Bool
is_saved ready_state status = eqb ready_state 4 && eqb status 200

-- `onSuccess` of `deleteFileMutation`
unfoldable pub on_trashed : {Jar : Type 0} → String → View Jar → View Jar
on_trashed filename v =
    if filename == ""
    then invalidate ("buckets" ∷ []) v
    else succeed (String.◌++◌ "File \"" (String.◌++◌ filename "\" has been moved to trash."))
        (invalidate ("buckets" ∷ []) v)

module _ (p : Platform) (message_of : Failure → String) where
  -- `createFolder`
  unfoldable pub create_folder_here : String → Option String → String → View p.Jar → View p.Jar
  create_folder_here bucket_id folder_id name =
      mutate p message_of (create_folder p name folder_id bucket_id) (λ v.
        succeed (String.◌++◌ "Folder " (String.◌++◌ name " has been created."))
          (invalidate ("buckets" ∷ []) v))

  -- `deleteFile`
  unfoldable pub trash_item : String → String → String → Bool → View p.Jar → View p.Jar
  unfolding on_trashed
  trash_item bucket_id file_id filename is_folder =
      mutate p message_of (delete_file p bucket_id file_id is_folder) (on_trashed filename)

  -- `downloadFile`: nothing catches a refusal.
  unfoldable pub download_file : String → String → String → View p.Jar → Option String × View p.Jar
  unfolding url_of download_from_storage
  download_file bucket_id file_id filename v =
      let (r, s) =
        api_get p
          (String.◌++◌ "/buckets/"
            (String.◌++◌ bucket_id (String.◌++◌ "/files/" (String.◌++◌ file_id "/download"))))
          v.store in
      let v' = record v { store = s } in
      elim r [
        | err e ↦ (none, v')
        | ok res ↦ elim (url_of res) [
          | none ↦ (none, v')
          | some url ↦ download_from_storage url filename v'
        ]
      ]

  -- the address that `api_downloadFile` asks for
  abbrev pub download_url : String → String → String
  download_url bucket_id file_id =
      String.◌++◌ "/buckets/"
        (String.◌++◌ bucket_id (String.◌++◌ "/files/" (String.◌++◌ file_id "/download")))

  pub sent-download_file :
      (bucket_id file_id filename : String) (v : View p.Jar)
      → (download_file bucket_id file_id filename v).1.store.sent
        ≡ (api_get p (download_url bucket_id file_id) v.store).1.sent
  unfolding download_file download_from_storage
  sent-download_file bucket_id file_id filename v = ground arith
