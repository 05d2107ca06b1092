-- ===== src/Upload/Provider.antt =====
-- The list of uploads, and the events that change it: `UploadProvider` of
-- web/src/components/upload/context/UploadProvider.tsx. An event is a call of the component or
-- what a promise or a timer runs later; in which order they come is left open.
pub mod Laws
use safebucket.Prelude.{
  ℕ, Bool, true, false, not, ◌==◌, Option, none, some, List, [], ◌∷◌, ◌++◌, String, map, filter,
  any, if◌then◌else◌,
}

-- `UploadStatus`, and the default branch that the functions on it also have
pub data UploadStatus : Type 0 where
  uploading success error : UploadStatus

-- `IUpload`; `error` is the message of its error
pub record Upload : Type 0 where
  pub id : String
  pub name : String
  pub path : String
  pub progress : ℕ
  pub status : UploadStatus
  pub message : Option String

-- `controllers` has the keys of `abortControllersRef`; `aborted` are those that were aborted.
pub record Provider : Type 0 where
  pub uploads : List Upload
  pub controllers : List String
  pub aborted : List String

abbrev pub empty : Provider
empty = record { uploads = []; controllers = []; aborted = [] }

-- `prev.map((u) => (u.id === uploadId ? change(u) : u))`
unfoldable pub change_upload : String → (Upload → Upload) → List Upload → List Upload
change_upload id change = map (λ u. if u.id == id then change u else u)

-- `Map.delete`
abbrev pub delete_controller : String → List String → List String
delete_controller id = filter (λ k. not (k == id))

-- `startUpload` of one file: the entry, and `mutate`, which sets the controller before it waits.
-- `id` is the random text that it has drawn.
unfoldable pub start_upload : String → String → Provider → Provider
start_upload id name s = record s {
  uploads =
      s.uploads
      ++ record {
        id = id;
        name = name;
        path = name;
        progress = 0;
        status = uploading;
        message = none;
      }
        ∷ [];
  controllers = delete_controller id s.controllers ++ id ∷ [];
}

-- the callback of `uploadToStorage`
unfoldable pub on_progress : String → ℕ → Provider → Provider
unfolding change_upload
on_progress id progress s = record s {
  uploads = change_upload id (λ u. record u { progress = progress }) s.uploads;
}

-- the `finally` of the mutation
unfoldable pub settle : String → Provider → Provider
settle id s = record s { controllers = delete_controller id s.controllers }

-- `onSuccess`
unfoldable pub on_success : String → Provider → Provider
unfolding change_upload
on_success id s = record s {
  uploads = change_upload id (λ u. record u { status = success }) s.uploads;
}

-- the timer of 3000 ms that `onSuccess` sets
unfoldable pub forget : String → Provider → Provider
forget id s = record s { uploads = filter (λ u. not (u.id == id)) s.uploads }

-- `onError`
unfoldable pub on_error : String → String → Provider → Provider
unfolding change_upload
on_error id message s = record s {
  uploads = change_upload id (λ u. record u { status = error; message = some message }) s.uploads;
}

-- `cancelUpload`
unfoldable pub cancel_upload : String → Provider → Provider
cancel_upload id s =
    let kept = filter (λ u. not (u.id == id)) s.uploads in
    if any (λ k. k == id) s.controllers
    then record {
      uploads = kept;
      controllers = delete_controller id s.controllers;
      aborted = id ∷ s.aborted;
    }
    else record s { uploads = kept }

abbrev pub is_uploading : Upload → Bool
is_uploading u = elim u.status [ uploading ↦ true | _ ↦ false ]

-- `hasActiveUploads`; while it is true, `handleBeforeUnload` asks before the page is left
pub has_active_uploads : Provider → Bool
has_active_uploads s = any is_uploading s.uploads

pub data Event : Type 0 where
  starts : String → String → Event
  progresses : String → ℕ → Event
  settles : String → Event
  succeeds : String → Event
  forgets : String → Event
  fails : String → String → Event
  cancels : String → Event

unfoldable pub handle : Event → Provider → Provider
unfolding start_upload on_progress settle on_success forget on_error cancel_upload
handle (starts id name) = start_upload id name
handle (progresses id n) = on_progress id n
handle (settles id) = settle id
handle (succeeds id) = on_success id
handle (forgets id) = forget id
handle (fails id message) = on_error id message
handle (cancels id) = cancel_upload id

unfoldable pub run : List Event → Provider → Provider
unfolding handle
run [] s = s
run (e ∷ es) s = run es (handle e s)
