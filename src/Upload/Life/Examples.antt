-- ===== src/Upload/Life/Examples.antt =====
-- Examples of an upload's life.
use Prim.Native.String
use safebucket.Prelude.{ℕ, ◌≡◌, refl, true, [], ◌∷◌, String, arith}
use safebucket.Auth.Platform.{Json, Fields, field, Failure, ok}
use safebucket.Toast as Toast
use safebucket.Upload.Provider.{empty, start_upload}
use safebucket.Upload.Provider.Laws.{IsGone}
use safebucket.Upload.Transfer.{progress, loadend, failed}
use safebucket.Upload.Life.{
  Job, Life, creating, transferring, cancels, created, hears, told, over, is_presigned, fresh,
  begin, succeeded, step, steps,
}
use safebucket.Upload.Life.Frame.{KeepsOthers}
use safebucket.Upload.Life.Listed.{KeepsListed, steps_frame}
use safebucket.Upload.Life.Cancel.{
  steps_cancels-IsGone, steps_cancels-IsSilent, cancel_while_creating, HasStopped,
}
use safebucket.Upload.Life.Complete.{upload_completes, stored}
use safebucket.Upload.Life.Controllers.{IsClean, steps-IsClean}

abbrev message_of : Failure → String
message_of f = "failure"

abbrev digits : ℕ → String
digits n = "503"

abbrev job : Job
job = record { upload_id = "u3"; file_name = "c.txt"; bucket_id = "b1" }

abbrev answer : Json
answer = Json.obj (field "id" (Json.str "f9") (field "body" (Json.obj Fields.end) Fields.end))

abbrev idle : Life
idle = record {
  phase = creating;
  provider = start_upload "u2" "b.txt" (start_upload "u1" "a.txt" empty);
  toasts = Toast.initial;
  invalidated = [];
}

abbrev started : Life
started = record idle { provider = start_upload "u3" "c.txt" idle.provider }

abbrev under_way : Life
under_way = record started { phase = transferring fresh }

steps_frame_example :
    let is = created (ok answer) ∷ hears (progress true 1 4) ∷ hears failed ∷ told ∷ over ∷ [] in
    let m = steps message_of digits job is started in
    KeepsOthers "u3" started.provider m.provider × KeepsListed message_of digits job is started m
steps_frame_example =
    steps_frame message_of digits job
      (created (ok answer) ∷ hears (progress true 1 4) ∷ hears failed ∷ told ∷ over ∷ []) started

steps_cancels-IsGone_example :
    IsGone "u3"
      (steps message_of digits job
        (cancels ∷ created (ok answer) ∷ hears (progress true 1 4) ∷ hears failed ∷ [])
        started).provider
steps_cancels-IsGone_example =
    steps_cancels-IsGone message_of digits job
      (created (ok answer) ∷ hears (progress true 1 4) ∷ hears failed ∷ []) started

steps_cancels-IsSilent_example :
    let m = steps message_of digits job (cancels ∷ hears (loadend 4 204) ∷ told ∷ []) under_way in
    HasStopped m.phase × (m.toasts ≡ under_way.toasts) × (m.invalidated ≡ under_way.invalidated)
unfolding start_upload
steps_cancels-IsSilent_example =
    steps_cancels-IsSilent message_of digits job (hears (loadend 4 204) ∷ told ∷ []) under_way refl
      refl refl

cancel_while_creating_example :
    let m =
      steps message_of digits job
        (cancels ∷ created (ok answer) ∷ hears (loadend 4 204) ∷ [])
        started in
    (succeeded m.phase ≡ true)
    × IsGone "u3" m.provider
    × ((step message_of digits job told m).toasts
        ≡ Toast.success_toast (String.◌++◌ "Upload completed for " "c.txt") m.toasts)
unfolding is_presigned
cancel_while_creating_example =
    cancel_while_creating message_of digits job answer 204 started refl refl (omega arith)
      (omega arith)

upload_completes_example :
    let m =
      steps message_of digits job
        (stored answer (progress true 1 4 ∷ []) 204)
        (begin message_of digits job idle) in
    ((step message_of digits job told m).toasts
      ≡ Toast.success_toast (String.◌++◌ "Upload completed for " "c.txt") m.toasts)
    × ((step message_of digits job over m).provider.uploads ≡ idle.provider.uploads)
unfolding is_presigned start_upload
upload_completes_example =
    upload_completes message_of digits job answer (progress true 1 4 ∷ []) 204 idle refl (tt, tt)
      (omega arith) (omega arith) refl

steps-IsClean_example :
    let m =
      steps message_of digits job
        (created (ok answer) ∷ hears (loadend 4 204) ∷ [])
        (begin message_of digits job idle) in
    IsClean message_of digits job m.phase m.provider
steps-IsClean_example =
    steps-IsClean message_of digits job (created (ok answer) ∷ hears (loadend 4 204) ∷ []) idle
