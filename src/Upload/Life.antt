-- ===== src/Upload/Life.antt =====
-- One upload from its start to the end of its timers: the mutation of `UploadProvider`
-- (web/src/components/upload/context/UploadProvider.tsx), which creates the file, hands it to
-- `uploadToStorage` (web/src/components/upload/helpers/api.ts) and reports. Between two waits
-- anything may come: the answer of the API, a signal of the browser, the user who cancels, a timer.
-- `message_of` is `error.message`, and `digits` the decimal text of a number.
pub mod Laws
pub mod Cancel
pub mod Complete
pub mod Controllers
pub mod Frame
pub mod Listed
pub mod Succeeded
mod Examples
use Prim.Native.String
use safebucket.Prelude.{
  ℕ, Bool, true, false, ◌==◌, Option, none, some, List, [], ◌∷◌, String, any, if◌then◌else◌,
}
use safebucket.Auth.Platform.{Json, Result, ok, err, Failure, type_error, get_field}
use safebucket.Toast as Toast
use safebucket.Upload.Provider.{
  Provider, start_upload, on_progress, settle, on_success, forget, on_error, cancel_upload,
}
use safebucket.Upload.Transfer as Transfer
use safebucket.Upload.Transfer.{
  Signal, cancelled, progress, loadend, failed, aborted, Settled, resolved, upload_cancelled,
  network_error, failed_with_status, on_signal, percentage,
}

-- What `mutate` is called with.
pub record Job : Type 0 where
  pub upload_id : String
  pub file_name : String
  pub bucket_id : String

-- Where the mutation waits: for `api_createFile`, or for `uploadToStorage`, which has a promise of
-- its own; `refused` is a file that was not created.
pub data Phase : Type 0 where
  creating : Phase
  transferring : Transfer.Transfer → Phase
  refused : Phase

-- The provider, the notifications, the keys given to `invalidateQueries`, and the mutation.
pub record Life : Type 0 where
  pub phase : Phase
  pub provider : Provider
  pub toasts : Toast.Store
  pub invalidated : List (List String)

-- What may happen next. `told` and `over` are the timers of 1000 ms and 3000 ms.
pub data Input : Type 0 where
  cancels : Input
  created : Result Json → Input
  hears : Signal → Input
  told : Input
  over : Input

-- The answer has a `body`, whose entries `uploadToStorage` appends to its form; without one, or with
-- `null`, it throws.
pub is_presigned : Json → Bool
is_presigned (Json.obj fields) = elim (get_field "body" fields) [
  | none ↦ false
  | some Json.null ↦ false
  | some _ ↦ true
]
is_presigned _ = false

abbrev pub fresh : Transfer.Transfer
fresh = record { outcome = none; shown = [] }

pub succeeded : Phase → Bool
succeeded (transferring x) = elim x.outcome [ some resolved ↦ true | _ ↦ false ]
succeeded _ = false

module _ (message_of : Failure → String) (digits : ℕ → String) (job : Job) where
  -- the error that `uploadToStorage` rejects with, if it rejects
  pub rejection : Settled → Option String
  rejection resolved = none
  rejection upload_cancelled = some "Upload cancelled"
  rejection network_error = some "Network error during upload"
  rejection (failed_with_status status) =
      some (String.◌++◌ "Upload failed with status " (digits status))

  -- the `finally`, and then `onSuccess` or `onError`
  unfoldable pub finish : Option String → Provider → Provider
  finish none s = on_success job.upload_id (settle job.upload_id s)
  finish (some message) s = on_error job.upload_id message (settle job.upload_id s)

  -- `startUpload` of the file, up to the first wait of the mutation
  unfoldable pub begin : Life → Life
  begin l = record l {
    phase = creating;
    provider = start_upload job.upload_id job.file_name l.provider;
  }

  -- What follows the answer of `api_createFile`.
  pub on_created : Result Json → Life → Life
  unfolding finish is_presigned
  on_created (err e) l = record l {
    phase = refused;
    provider = finish (some (message_of e)) l.provider;
  }
  on_created (ok json) l =
      if is_presigned json
      then record l {
        phase = transferring fresh;
        toasts =
            (Toast.toast
              (record {
                title = some "Uploading";
                description = some (String.◌++◌ "Upload started for " job.file_name);
                variant = Toast.success;
              })
              l.toasts).1;
        invalidated = ("buckets" ∷ job.bucket_id ∷ []) ∷ l.invalidated;
      }
      else record l {
        phase = refused;
        provider = finish (some (message_of type_error)) l.provider;
        invalidated = ("buckets" ∷ job.bucket_id ∷ []) ∷ l.invalidated;
      }

  -- the callback that `uploadToStorage` is given
  pub reported : Signal → Provider → Provider
  reported (progress true loaded total) s = on_progress job.upload_id (percentage loaded total) s
  reported _ s = s

  -- The mutation goes on once the promise of the transfer is settled.
  pub resumed : Option Settled → Option Settled → Provider → Provider
  unfolding finish rejection
  resumed none (some r) s = finish (rejection r) s
  resumed _ _ s = s

  pub hear : Signal → Transfer.Transfer → Life → Life
  unfolding reported resumed
  hear e x l =
      let x' = on_signal e x in
      record l {
        phase = transferring x';
        provider = resumed x.outcome x'.outcome (reported e l.provider);
      }

  -- `cancelUpload`; where a controller is left, the listeners of its signal are told. Before the
  -- transfer there are none, and one that is added later is not told.
  pub on_cancel : Phase → Life → Life
  unfolding hear
  on_cancel (transferring x) l =
      let l' = record l { provider = cancel_upload job.upload_id l.provider } in
      if any (λ k. k == job.upload_id) l.provider.controllers then hear cancelled x l' else l'
  on_cancel _ l = record l { provider = cancel_upload job.upload_id l.provider }

  -- A signal of the request; that of the controller comes by `cancels` alone.
  pub on_hears : Signal → Phase → Life → Life
  unfolding hear
  on_hears cancelled phase l = l
  on_hears e (transferring x) l = hear e x l
  on_hears e _ l = l

  -- the answer of `api_createFile`, which comes while it is awaited
  pub answered : Result Json → Phase → Life → Life
  unfolding on_created
  answered answer creating l = on_created answer l
  answered answer _ l = l

  pub step : Input → Life → Life
  unfolding on_cancel answered on_hears succeeded
  step cancels l = on_cancel l.phase l
  step (created answer) l = answered answer l.phase l
  step (hears e) l = on_hears e l.phase l
  step told l =
      if succeeded l.phase
      then record l {
        toasts = Toast.success_toast (String.◌++◌ "Upload completed for " job.file_name) l.toasts;
        invalidated = ("buckets" ∷ job.bucket_id ∷ []) ∷ l.invalidated;
      }
      else l
  step over l =
      if succeeded l.phase then record l { provider = forget job.upload_id l.provider } else l

  pub steps : List Input → Life → Life
  unfolding step
  steps [] l = l
  steps (i ∷ is) l = steps is (step i l)
