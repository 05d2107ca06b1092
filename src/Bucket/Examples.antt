-- ===== src/Bucket/Examples.antt =====
-- Examples of members, permissions, items and the trash of a bucket.
use Prim.Native.String
use safebucket.Prelude.{
  ℕ, ◌<◌, ◌≡◌, ◌↔◌, ◌⊎◌, false, any, All, inl, inr, refl, true, false, ◌==◌, eq_iff, Option, none,
  some, List, [], ◌∷◌, String, arith, join, find, present, Bool-cases, if◌then◌else◌,
}
use mathlib.Core.Path.{subst}
use safebucket.Auth.Platform.{Session, user}
use safebucket.Bucket.Permissions as Permissions
use safebucket.Bucket.Permissions.{IsMember, bucket_permissions, bucket_permissions_sound}
use safebucket.Bucket.Items.{Folder}
use safebucket.Bucket.Trash.{build_folder_path, Ancestors, build_folder_path-Ancestors}
use safebucket.Bucket.Members.{
  BucketMember, MemberState, Form, active, has_email, has_changes, members_list,
}
use safebucket.Bucket.Members.Keys.{get}
use safebucket.Bucket.Members.Changes.{has_changes_iff}
use safebucket.Bucket.Members.Stored.{stored}
use safebucket.Bucket.Requests.{trashed_items}
use safebucket.Bucket.Cells.Tags.{IsTyped, trashed_items-IsTyped}
use safebucket.Bucket.Members.Laws.{IsUnique}

abbrev ada : Session
ada = record { user_id = "u1"; email = "ada@example.com"; role = user; auth_provider = "local" }

abbrev listed : List Permissions.BucketMember
listed =
    record { email = "ada@example.com"; group = "contributor"; status = Permissions.active } ∷ []

permissions_example :
    let p = bucket_permissions (some ada) (some listed) in
    (p.is_owner ≡ true → IsMember (some ada) (some listed) "owner" × (p.is_contributor ≡ true))
    × (p.is_contributor ≡ true
        → (IsMember (some ada) (some listed) "owner"
            ⊎ IsMember (some ada) (some listed) "contributor")
          × (p.is_viewer ≡ true))
    × (p.is_viewer ≡ true → (group : String) × IsMember (some ada) (some listed) group)
permissions_example = bucket_permissions_sound (some ada) (some listed)

abbrev folder_of : String → String → Option String → Folder
folder_of id name parent = record {
  id = id;
  name = name;
  folder_id = parent;
  status = none;
  original_path = none;
}

abbrev folders : List Folder
folders = folder_of "f1" "docs" none ∷ folder_of "f2" "2024" (some "f1") ∷ []

-- how far a folder lies below the top
abbrev rank : Option String → ℕ
rank none = 0
rank (some id) = if id == "f2" then 2 else (if id == "f1" then 1 else 0)

rank-falls :
    (id : String) (f : Folder) (p : Option String)
    → present p ≡ some id
    → find (λ g. g.id == id) folders ≡ some f
    → rank f.folder_id < rank p
rank-falls id f none given found = cc
rank-falls id f (some s) given found = elim (Bool-cases ("f1" == id)) [
  | inl at_docs ↦
      let same : folder_of "f1" "docs" none ≡ f = ground arith in
      subst (λ (g : Folder). rank g.folder_id < rank (some s)) same
        (ground
          (arith, eq_iff "f1" id, eq_iff s "", eq_iff s "f1", eq_iff s "f2", eq_iff "f1" "f2"))
  | inr below ↦ elim (Bool-cases ("f2" == id)) [
    | inl at_2024 ↦
        let same : folder_of "f2" "2024" (some "f1") ≡ f = ground arith in
        subst (λ (g : Folder). rank g.folder_id < rank (some s)) same
          (ground
            (arith, eq_iff "f2" id, eq_iff s "", eq_iff s "f1", eq_iff s "f2", eq_iff "f1" "f2"))
    | inr neither ↦ absurd (ground arith)
  ]
]

path_example :
    (names : List String) × Ancestors folders (some "f2") names
    × (build_folder_path 3 (some "f2") folders ≡ some (String.◌++◌ "/" (join names)))
path_example =
    build_folder_path-Ancestors rank 3 folders "f2" rank-falls
      (λ e. absurd (ground (arith, eq_iff "f2" ""))) (omega arith)

abbrev member : String → MemberState
member email = record {
  email = email;
  group = "viewer";
  first_name = none;
  last_name = none;
  status = active;
  is_new = false;
}

abbrev given : String → BucketMember
given email = record {
  email = email;
  group = "viewer";
  first_name = none;
  last_name = none;
  status = active;
}

abbrev form : Form
form = record {
  data_given = none;
  members_state = member "ada@example.com" ∷ member "bob@example.com" ∷ [];
  new_member_email = "eve@example.com";
  new_member_group = "contributor";
  is_submitting = false;
  refused = false;
}

form-IsUnique : IsUnique form.members_state
unfolding has_email
form-IsUnique = (refl, (refl, tt))

abbrev listing : List BucketMember
listing = given "ada@example.com" ∷ given "bob@example.com" ∷ []

abbrev with_listing : Form
with_listing = record form { data_given = some listing }

has_changes_iff_example : (has_changes with_listing ≡ false) ↔ (
    (any (λ m. m.is_new) with_listing.members_state ≡ false)
    × ((k : String) → get k (members_list with_listing) ≡ stored k (some listing)))
has_changes_iff_example = has_changes_iff with_listing form-IsUnique

-- `form` with Bob made a contributor
abbrev edited : Form
edited = record form {
  members_state =
      member "ada@example.com" ∷ record (member "bob@example.com") { group = "contributor" } ∷ [];
}

abbrev after : List BucketMember
after = given "ada@example.com" ∷ record (given "bob@example.com") { group = "contributor" } ∷ []

trashed_items-IsTyped_example :
    All (IsTyped (λ n. "0 B")) (trashed_items (some ([], folder_of "f1" "docs" none ∷ [])))
trashed_items-IsTyped_example =
    trashed_items-IsTyped (λ n. "0 B") (some ([], folder_of "f1" "docs" none ∷ []))
