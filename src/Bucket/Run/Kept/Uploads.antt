-- ===== src/Bucket/Run/Kept/Uploads.antt =====
-- What uploads and drops ask of the API.
use Prim.Native.String
use mathlib.Core.Path.{subst}
use safebucket.Prelude.{◌≡◌, refl, sym, inl, inr, List, [], ◌∷◌, String}
use safebucket.Auth.Platform.{Platform, Store, Json, Result, ok, err}
use safebucket.Auth.Api.Reads.{Adds, Adds-refl, Adds-trans}
use safebucket.Drop.{Upload, Outcome, denied, failed, uploads, waits}
use safebucket.Drop.Folders.{Call}
use safebucket.Bucket.Requests.{View, invalidate, create_file, create_folder}
use safebucket.Bucket.Uploads.{start_file, start_uploads, make_folders, take_drop}
use safebucket.Bucket.Handlers.{Bucket, Outside}
use safebucket.Bucket.Run.Kept.{IsShared, call-Adds}

module _ (p : Platform) where
  start_file-answer :
      (id : String) (v : View p.Jar) (x : Result Json × Store p.Jar)
      → (elim x.0 as (λ _. View p.Jar) [
        | err e ↦ record v { store = x.1 }
        | ok json ↦ invalidate ("buckets" ∷ id ∷ []) (record v { store = x.1 })
      ]).store
        ≡ x.1
  start_file-answer id v (ok a, s) = refl
  start_file-answer id v (err e, s) = refl

module _ (p : Platform) (o : Outside p.Jar) (b : Bucket) where
  abbrev pub AddsShared : View p.Jar → View p.Jar → Type 0
  AddsShared v w = Adds (IsShared p b.id) v.store.sent w.store.sent

  start_file-store :
      (u : Upload) (v : View p.Jar)
      → (start_file p b.id u v).store
        ≡ (create_file p u.file.name b.id u.file.size u.folder_id v.store).1
  unfolding start_file
  start_file-store u v =
      start_file-answer p b.id v (create_file p u.file.name b.id u.file.size u.folder_id v.store)

  start_file-Adds : (u : Upload) (v : View p.Jar) → AddsShared v (start_file p b.id u v)
  unfolding create_file
  start_file-Adds u v =
      subst (λ (s : Store p.Jar). Adds (IsShared p b.id) v.store.sent s.sent)
        (sym (start_file-store u v))
        (call-Adds p o b (String.◌++◌ "/buckets/" (String.◌++◌ b.id "/files")) _ v.store
          (inl (refl, inr refl)))

  pub start_uploads-Adds :
      (us : List Upload) (v : View p.Jar) → AddsShared v (start_uploads p b.id us v)
  unfolding start_uploads
  start_uploads-Adds [] v = Adds-refl (IsShared p b.id) v.store.sent
  start_uploads-Adds (u ∷ us) v =
      Adds-trans (IsShared p b.id) v.store.sent (start_file p b.id u v).store.sent _
        (start_file-Adds u v) (start_uploads-Adds us (start_file p b.id u v))

  make_folders-Adds :
      (calls : List Call) (v : View p.Jar) → AddsShared v (make_folders p b.id calls v)
  unfolding make_folders create_folder
  make_folders-Adds [] v = Adds-refl (IsShared p b.id) v.store.sent
  make_folders-Adds (c ∷ calls) v =
      let s = (create_folder p c.name c.folder_id b.id v.store).1 in
      Adds-trans (IsShared p b.id) v.store.sent s.sent _
        (call-Adds p o b (String.◌++◌ "/buckets/" (String.◌++◌ b.id "/folders")) _ v.store
          (inl (refl, inl refl)))
        (make_folders-Adds calls (record v { store = s }))

  pub take_drop-Adds :
      (x : Outcome) (calls : List Call) (v : View p.Jar) → AddsShared v (take_drop p b.id x calls v)
  unfolding take_drop
  take_drop-Adds denied calls v = Adds-refl (IsShared p b.id) v.store.sent
  take_drop-Adds waits calls v = Adds-refl (IsShared p b.id) v.store.sent
  take_drop-Adds failed calls v = make_folders-Adds calls v
  take_drop-Adds (uploads us) [] v = start_uploads-Adds us v
  take_drop-Adds (uploads us) (c ∷ calls) v =
      let w = make_folders p b.id (c ∷ calls) v in
      Adds-trans (IsShared p b.id) v.store.sent w.store.sent _ (make_folders-Adds (c ∷ calls) v)
        (start_uploads-Adds us (invalidate ("buckets" ∷ b.id ∷ []) w))
