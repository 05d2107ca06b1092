-- ===== src/Sidebar/Sharing/Examples.antt =====
-- Examples of the form that shares a bucket.
use safebucket.Prelude.{◌≡◌, false, ◌==◌, String, any, [], ◌∷◌, All}
use safebucket.Bucket.Sharing.{Member, has_email}
use safebucket.Bucket.Page.{bucket_groups}
use safebucket.Sidebar.Sharing.{regroups, removes, new_member_row, Sheet, perform}
use safebucket.Sidebar.Sharing.Laws.{Chooses, remove_option_keeps}

abbrev ada : Member
ada = record { email = "a@b.c"; group = "viewer" }

abbrev sheet : Sheet
sheet = record {
  invite = record { email = ""; group = "viewer" };
  share = record { email = ""; share_with = ada ∷ [] };
  member_changes = [];
}

remove_option_keeps_example :
    (any (λ (g : String × String). g.0 == "remove") bucket_groups ≡ false)
    × Chooses "remove" (regroups "a@b.c" "remove") (new_member_row (λ s. s) ada)
    × (has_email "a@b.c" (perform (regroups "a@b.c" "remove") sheet).share.share_with
        ≡ has_email "a@b.c" sheet.share.share_with)
    × All
        (λ (k : Member). k.email ≡ "a@b.c" → k.group ≡ "remove")
        (perform (regroups "a@b.c" "remove") sheet).share.share_with
    × (has_email "a@b.c" (perform (removes "a@b.c") sheet).share.share_with ≡ false)
remove_option_keeps_example = remove_option_keeps (λ s. s) ada sheet
