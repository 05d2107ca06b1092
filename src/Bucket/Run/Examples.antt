-- ===== src/Bucket/Run/Examples.antt =====
-- Examples of a run of the page of a bucket, with the API of the examples of authentication.
use safebucket.Prelude.{◌≢◌, refl, inl, inr, true, false, none, some, [], ◌∷◌}
use safebucket.Ui.{embed}
use safebucket.Auth.Examples.{Jar, generous, page}
use safebucket.Auth.Api.Reads.{IsHarmless, Adds}
use safebucket.Toast as Toast
use safebucket.Drop as Drop
use safebucket.Drop.Folders as Dropped
use safebucket.Bucket.Cells.{list_status}
use safebucket.Bucket.Members.{Form}
use safebucket.Bucket.Page.{
  settings_view, trash_view, list_view, bucket_view, bucket_header, bucket_view_options,
  view_options, sets_view, creates_folder, starts_upload,
}
use safebucket.Bucket.Items.{BucketItem, FileStatus, file, is_file}
use safebucket.Bucket.Menu.{downloads, menu_content, is_file_trashed}
use safebucket.Bucket.Views.{MenuDialogs, menu, bucket_list_view, each, list_row, file_actions}
use safebucket.Bucket.Handlers.{
  Action, around, inside, act_around, act_inside, act_menu, Bucket, Run, Outside, act,
}
use safebucket.Bucket.Run.{rendered, drop, here, next, acts, drops}
use safebucket.Bucket.Run.Viewer.{viewer_run}
use safebucket.Bucket.Run.Kept.{IsShared}
use safebucket.Bucket.Run.Shared.{shared_run}

abbrev outside : Outside Jar
outside = record {
  upper = λ s. s;
  format_size = λ n. "0 B";
  fuel = 3;
  message_of = λ f. "failure";
  t = λ k n. n;
  create = λ n c. none;
  size_of = λ n. 10;
  lasts = false;
}

abbrev report : BucketItem
report = file (record {
  id = "f1";
  name = "report";
  size = 10;
  extension = "pdf";
  folder_id = none;
  status = some FileStatus.uploaded;
  original_path = none;
})

abbrev bucket : Bucket
bucket = record {
  id = "b1";
  name = "docs";
  url = "https://safe/buckets/b1";
  is_owner = false;
  is_contributor = false;
  current = none;
  folder_id = none;
  folders = [];
  items = report ∷ [];
  trashed = [];
}

abbrev form : Form
form = record {
  data_given = some [];
  members_state = [];
  new_member_email = "";
  new_member_group = "viewer";
  is_submitting = false;
  refused = false;
}

abbrev closed : MenuDialogs
closed = record { new_folder_open = false; delete_open = false }

abbrev run : Run Jar
run = record {
  page = record { view = list_view; selected = none };
  information = record { is_editing_name = false; bucket_name = "docs"; copied_field = none };
  confirmation = "";
  form = form;
  dialog = record { delete_dialog_open = false; selected_item = none };
  context = λ id. closed;
  dropdown = λ id. closed;
  view = record { store = page []; toasts = Toast.initial; invalidated = [] };
}

abbrev drag : Drop.DragState
drag = record { is_drag_over = true; counter = 1 }

abbrev dropped : Run Jar
dropped = drop generous outside bucket [] [] drag run

abbrev download : Action
download = inside (menu true report (downloads "f1" "report"))

abbrev downloaded : Run Jar
downloaded = act generous outside bucket download dropped

abbrev in_trash : Run Jar
in_trash = act generous outside bucket (around (sets_view trash_view)) downloaded

viewer_run_example :
    Adds (IsHarmless generous) run.view.store.sent in_trash.view.store.sent
    × (in_trash.page.view ≢ settings_view)
unfolding rendered bucket_view bucket_header bucket_view_options view_options drop embed act
    act_inside act_menu bucket_list_view each list_row file_actions menu_content is_file
    is_file_trashed list_status
viewer_run_example =
    viewer_run generous outside bucket bucket run in_trash refl refl (λ e. cc) refl
      (next
        (next (next here (drops bucket run [] [] drag)) (
          acts bucket dropped download (
            inr (
              inr (inr (inr (inr (inr (inr (inr (inr (inr (inr (inr (inl (refl, refl))))))))))))))))
        (acts bucket downloaded (around (sets_view trash_view))
          (inr (inr (inr (inl (refl, refl)))))))

abbrev notes : Dropped.File
notes = record { name = "notes.txt"; size = 10 }

-- the same page for a contributor, who creates a folder, uploads a file and drops another
abbrev contributed : Bucket
contributed = record bucket { is_contributor = true }

abbrev with_folder : Run Jar
with_folder = act generous outside contributed (around (creates_folder "new")) run

abbrev with_file : Run Jar
with_file = act generous outside contributed (around (starts_upload ("a.txt" ∷ []))) with_folder

abbrev with_drop : Run Jar
with_drop = drop generous outside contributed [] (notes ∷ []) drag with_file

shared_run_example :
    Adds (IsShared generous "b1") run.view.store.sent with_drop.view.store.sent
    × (with_drop.page.view ≢ settings_view)
unfolding rendered bucket_view bucket_header bucket_view_options view_options drop embed act
    act_around
shared_run_example =
    shared_run generous outside contributed contributed run with_drop refl (λ e. cc)
      (next
        (next
          (next here (
            acts contributed run (around (creates_folder "new"))
              (inr (inr (inr (inr (inr (inr (inr (inr (inl ("new", refl))))))))))))
          (acts contributed with_folder (around (starts_upload ("a.txt" ∷ [])))
            (inr (inr (inr (inr (inr (inr (inr (inl ("a.txt" ∷ [], refl)))))))))))
        (drops contributed with_file [] (notes ∷ []) drag))
