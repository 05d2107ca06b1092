-- ===== src/Bucket/Uploads.antt =====
-- What uploads and drops ask of the API on the page of a bucket: `startUpload` of
-- web/src/components/upload/context/UploadProvider.tsx up to the answer of `api_createFile`, and the
-- rest of `handleDrop` of web/src/components/upload/components/DragDropZone.tsx. What follows that
-- answer is sent to the storage and not to the API: Upload/Life has it, with what it tells.
use safebucket.Prelude.{List, [], ◌∷◌, String}
use safebucket.Auth.Platform.{Platform, ok, err}
use safebucket.Drop.{Upload, Outcome, denied, failed, uploads, waits}
use safebucket.Drop.Folders.{Call}
use safebucket.Bucket.Requests.{View, invalidate, create_file, create_folder}

module _ (p : Platform) (bucket_id : String) where
  -- the mutation of one file: a refusal is shown in the list of uploads
  unfoldable pub start_file : Upload → View p.Jar → View p.Jar
  start_file u v =
      let (answer, store) = create_file p u.file.name bucket_id u.file.size u.folder_id v.store in
      elim answer [
        | err e ↦ record v { store = store }
        | ok json ↦ invalidate ("buckets" ∷ bucket_id ∷ []) (record v { store = store })
      ]

  -- `startUpload`
  unfoldable pub start_uploads : List Upload → View p.Jar → View p.Jar
  unfolding start_file
  start_uploads [] v = v
  start_uploads (u ∷ us) v = start_uploads us (start_file u v)

  -- the calls of `createFolderMutationFn`
  unfoldable pub make_folders : List Call → View p.Jar → View p.Jar
  make_folders [] v = v
  make_folders (c ∷ calls) v =
      make_folders calls
        (record v { store = (create_folder p c.name c.folder_id bucket_id v.store).1 })

  -- What a drop that is not denied goes on to do, given how it ends and the folders it asks for.
  unfoldable pub take_drop : Outcome → List Call → View p.Jar → View p.Jar
  unfolding start_uploads make_folders
  take_drop denied calls v = v
  take_drop waits calls v = v
  take_drop failed calls v = make_folders calls v
  take_drop (uploads us) [] v = start_uploads us v
  take_drop (uploads us) (c ∷ calls) v =
      start_uploads us (invalidate ("buckets" ∷ bucket_id ∷ []) (make_folders (c ∷ calls) v))
