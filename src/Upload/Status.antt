-- ===== src/Upload/Status.antt =====
-- How an upload is shown: web/src/components/upload/helpers/utils.tsx. An icon or a colour stands
-- for the element or the class with its size and hue.
use safebucket.Prelude.{ℕ, Option, none, some, String, eqb, if◌then◌else◌}
use safebucket.Upload.Provider.{UploadStatus, uploading, success, error}

pub data Icon : Type 0 where
  circle_check alert_circle clock upload : Icon

unfoldable pub get_status_icon : UploadStatus → ℕ → Icon
get_status_icon success progress = circle_check
get_status_icon error progress = alert_circle
get_status_icon uploading progress = if eqb progress 0 then clock else upload

-- `t` is a parameter that may be missing; `percent` is the decimal text of a number and `%`.
unfoldable pub get_status_text : (ℕ → String) → UploadStatus → ℕ → Option (String → String) → String
get_status_text percent success progress t = elim t [
  | none ↦ "Completed"
  | some translate ↦ translate "upload.status.completed"
]
get_status_text percent error progress t = elim t [
  | none ↦ "Failed"
  | some translate ↦ translate "upload.status.failed"
]
get_status_text percent uploading progress t =
    if eqb progress 0
    then elim t [ none ↦ "Preparing..." | some translate ↦ translate "upload.status.preparing" ]
    else percent progress

pub get_progress_color : UploadStatus → String
get_progress_color success = "bg-green-500"
get_progress_color error = "bg-red-500"
get_progress_color uploading = "bg-blue-500"
