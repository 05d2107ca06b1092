-- ===== src/Bucket/Page/Examples.antt =====
-- Examples of the page of a bucket and of its settings.
use safebucket.Prelude.{◌↔◌, ◌≡◌, false, none, some, []}
use safebucket.Bucket.Members.{Form}
use safebucket.Bucket.Page.{
  BucketViewMode, deletes_bucket, Information, PageView, bucket_view, bucket_settings,
}
use safebucket.Ui.{Offered}
use safebucket.Bucket.Requests.{expected_delete_text}
use safebucket.Bucket.Page.Deletion.{deletion-Offered}

abbrev information : Information
information = record { is_editing_name = false; bucket_name = "docs"; copied_field = none }

abbrev members_form : Form
members_form = record {
  data_given = some [];
  members_state = [];
  new_member_email = "";
  new_member_group = "viewer";
  is_submitting = false;
  refused = false;
}

abbrev in_settings : PageView
in_settings = record { view = BucketViewMode.settings_view; selected = none }

deletion-Offered_example :
    Offered deletes_bucket (
      bucket_view false false
        (λ mode. [])
        (bucket_settings
          (λ s. s)
          false
          none
          "docs"
          "https://safe/buckets/b1"
          "delete docs"
          information
          members_form)
        in_settings)
    ↔ ((in_settings.view ≡ BucketViewMode.settings_view)
        × ("delete docs" ≡ expected_delete_text "docs"))
deletion-Offered_example =
    deletion-Offered (λ s. s) false false none "docs" "https://safe/buckets/b1" "delete docs"
      information members_form in_settings
