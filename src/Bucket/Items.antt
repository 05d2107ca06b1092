-- ===== src/Bucket/Items.antt =====
-- What a folder shows: web/src/components/bucket-view/helpers/utils.ts, with `IFile` and `IFolder`
-- of web/src/types, and `openFolder` of BucketViewProvider.tsx.
use Prim.Native.String
use safebucket.Prelude.{
  ℕ, ◌≡◌, refl, ap, ◌⊎◌, inl, inr, Bool, true, false, ◌==◌, eq_iff, ◌&&◌, ◌||◌, Bool-cases, Option,
  none, some, List, [], ◌∷◌, ◌++◌, String, map, filter, present, if◌then◌else◌, arith, All,
  All-append,
}

pub data FileStatus : Type 0 where
  uploading uploaded deleting deleted restoring : FileStatus

-- `IFile` and `IFolder`, with the fields that are read; `status` may be `null`
pub record File : Type 0 where
  pub id : String
  pub name : String
  pub size : ℕ
  pub extension : String
  pub folder_id : Option String
  pub status : Option FileStatus
  pub original_path : Option String

pub record Folder : Type 0 where
  pub id : String
  pub name : String
  pub folder_id : Option String
  pub status : Option FileStatus
  pub original_path : Option String

-- `BucketItem`: `isFile` tells the two apart by the field `extension`
pub data BucketItem : Type 0 where
  file : File → BucketItem
  folder : Folder → BucketItem

unfoldable pub is_folder : BucketItem → Bool
is_folder (file f) = false
is_folder (folder f) = true

unfoldable pub is_file : BucketItem → Bool
is_file (file f) = true
is_file (folder f) = false

abbrev pub item_id : BucketItem → String
item_id (file f) = f.id
item_id (folder f) = f.id

abbrev pub item_folder_id : BucketItem → Option String
item_folder_id (file f) = f.folder_id
item_folder_id (folder f) = f.folder_id

-- `===` of two texts that may be `undefined`
abbrev pub same_text : Option String → Option String → Bool
same_text none none = true
same_text (some s) (some t) = s == t
same_text none (some t) = false
same_text (some s) none = false

abbrev pub is_falsy : Option String → Bool
is_falsy o = elim (present o) [ none ↦ true | some _ ↦ false ]

-- `(!folderId && !item.folder_id) || item.folder_id === folderId`
abbrev pub is_in : Option String → Option String → Bool
is_in folder_id parent = (is_falsy folder_id && is_falsy parent) || same_text parent folder_id

-- `itemsToShow`
pub items_to_show : List File → List Folder → Option String → List BucketItem
items_to_show files folders folder_id =
    map folder (filter (λ f. is_in folder_id f.folder_id) folders)
    ++ map file (filter (λ f. is_in folder_id f.folder_id) files)

-- `openFolder`: where the page goes, if anywhere
unfoldable pub open_folder : String → BucketItem → Option String
unfolding is_folder
open_folder bucket_id item =
    if is_folder item
    then some (String.◌++◌ "/buckets/" (String.◌++◌ bucket_id (String.◌++◌ "/" (item_id item))))
    else none

-- The tests of `===` and of falsiness, as statements.
same_text-eq : (o u : Option String) → same_text o u ≡ true → o ≡ u
same_text-eq none none h = refl
same_text-eq (some s) (some t) h = ap some ((eq_iff s t).0 h)
same_text-eq none (some t) h = cc
same_text-eq (some s) none h = cc

-- The items of a folder: its own, where a folder is named; at the top, those without a folder.
abbrev pub Belongs : Option String → BucketItem → Type 0
Belongs folder_id item =
    (item_folder_id item ≡ folder_id)
    ⊎ ((present folder_id ≡ none) × (present (item_folder_id item) ≡ none))

is_in_sound :
    (folder_id : Option String) (item : BucketItem)
    → is_in folder_id (item_folder_id item) ≡ true
    → Belongs folder_id item
is_in_sound folder_id item h = elim (Bool-cases (same_text (item_folder_id item) folder_id)) [
  | inl same ↦ inl (same_text-eq (item_folder_id item) folder_id same)
  | inr other ↦ inr (ground arith)
]

shown_folders :
    (folder_id : Option String) (folders : List Folder)
    → All (Belongs folder_id) (map folder (filter (λ f. is_in folder_id f.folder_id) folders))
shown_folders folder_id [] = tt
shown_folders folder_id (f ∷ fs) = elim (Bool-cases (is_in folder_id f.folder_id)) [
  | inl here ↦ rw here (is_in_sound folder_id (folder f) here, shown_folders folder_id fs)
  | inr elsewhere ↦ rw elsewhere (shown_folders folder_id fs)
]

shown_files :
    (folder_id : Option String) (files : List File)
    → All (Belongs folder_id) (map file (filter (λ f. is_in folder_id f.folder_id) files))
shown_files folder_id [] = tt
shown_files folder_id (f ∷ fs) = elim (Bool-cases (is_in folder_id f.folder_id)) [
  | inl here ↦ rw here (is_in_sound folder_id (file f) here, shown_files folder_id fs)
  | inr elsewhere ↦ rw elsewhere (shown_files folder_id fs)
]

-- A folder shows only items that lie in it, and the top only those that lie in no folder.
pub items_to_show-Belongs :
    (files : List File) (folders : List Folder) (folder_id : Option String)
    → All (Belongs folder_id) (items_to_show files folders folder_id)
unfolding items_to_show
items_to_show-Belongs files folders folder_id =
    All-append (Belongs folder_id) (map folder (filter (λ f. is_in folder_id f.folder_id) folders))
      _ (shown_folders folder_id folders) (shown_files folder_id files)
