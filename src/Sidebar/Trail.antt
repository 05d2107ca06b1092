-- ===== src/Sidebar/Trail.antt =====
-- Where the page is: the breadcrumbs of
-- web/src/components/app-sidebar/components/AppSidebarInset.tsx.
pub mod Laws
use Prim.Native.String
use safebucket.Prelude.{
  ℕ, zero, suc, Bool, true, false, not, ◌==◌, ◌&&◌, Option, none, some, List, [], ◌∷◌, ◌++◌, String,
  present, filter, find, map, split, join, if◌then◌else◌,
}
use safebucket.Bucket.Items.{Folder}

-- `path`
pub segments : String → List String
segments pathname = filter (λ s. not (s == "")) (split pathname)

-- `rootPath`, `pathShort`, `bucketId` and `folderId`; `isBucketRoute` is that there is a bucket.
pub record Place : Type 0 where
  pub root_path : String
  pub path_short : List String
  pub bucket_id : Option String
  pub folder_id : Option String

abbrev first : List String → Option String
first [] = none
first (s ∷ ss) = some s

pub place_of : List String → Place
place_of [] = record { root_path = "/"; path_short = []; bucket_id = none; folder_id = none }
place_of (a ∷ []) = record { root_path = "/"; path_short = []; bucket_id = none; folder_id = none }
place_of (a ∷ b ∷ rest) = record {
  root_path = String.◌++◌ "/" (String.◌++◌ a (String.◌++◌ "/" b));
  path_short = rest;
  bucket_id = if a == "buckets" then some b else none;
  folder_id = if a == "buckets" then first rest else none;
}

-- `bucket.folders.find((f) => f.id === id)`, of an id that may be missing
abbrev pub lookup : List Folder → Option String → Option Folder
lookup folders o = elim (present o) [ none ↦ none | some id ↦ find (λ f. f.id == id) folders ]

-- The loop of `buildFolderPath`: the trail, or `none` where the fuel runs out first.
pub climb : ℕ → List Folder → Option Folder → List Folder → Option (List Folder)
climb zero folders current trail = none
climb (suc fuel) folders none trail = some trail
climb (suc fuel) folders (some f) trail =
    climb fuel folders (lookup folders f.folder_id) (f ∷ trail)

-- `buildFolderPath`, of a bucket whose folders are loaded
pub build_folder_trail : ℕ → List Folder → String → Option (List Folder)
unfolding climb
build_folder_trail fuel folders id = climb fuel folders (find (λ f. f.id == id) folders) []

-- A breadcrumb; the last one has no link.
pub record Crumb : Type 0 where
  pub name : String
  pub link : Option String

-- the breadcrumbs of a trail
pub trail_crumbs : String → List Folder → List Crumb
trail_crumbs bucket_id [] = []
trail_crumbs bucket_id (f ∷ []) = record { name = f.name; link = none } ∷ []
trail_crumbs bucket_id (f ∷ g ∷ fs) =
    record {
      name = f.name;
      link = some (String.◌++◌ "/buckets/" (String.◌++◌ bucket_id (String.◌++◌ "/" f.id)));
    }
    ∷ trail_crumbs bucket_id (g ∷ fs)

-- the breadcrumbs of another page; `before` is the part of the path above them
pub path_crumbs : List String → List String → List Crumb
path_crumbs before [] = []
path_crumbs before (s ∷ []) = record { name = s; link = none } ∷ []
path_crumbs before (s ∷ t ∷ ss) =
    record { name = s; link = some (String.◌++◌ "/" (join (before ++ s ∷ []))) }
    ∷ path_crumbs (before ++ s ∷ []) (t ∷ ss)

abbrev or_empty : Option (List Folder) → List Folder
or_empty none = []
or_empty (some fs) = fs

-- `AppSidebarInset`: the breadcrumbs after the root. `folders` are those of the bucket, once they
-- are loaded.
pub breadcrumbs : ℕ → Option (List Folder) → String → List Crumb
unfolding segments place_of build_folder_trail trail_crumbs path_crumbs
breadcrumbs fuel folders pathname =
    let path = segments pathname in
    let place = place_of path in
    elim place.bucket_id [
      | none ↦ elim path [ a ∷ b ∷ rest ↦ path_crumbs (a ∷ b ∷ []) rest | _ ↦ [] ]
      | some bucket_id ↦ elim place.folder_id [
        | none ↦ []
        | some id ↦ elim folders [
          | none ↦ []
          | some fs ↦ trail_crumbs bucket_id (or_empty (build_folder_trail fuel fs id))
        ]
      ]
    ]
