-- ===== src/Bucket/Trash.antt =====
-- The trash of a bucket: web/src/components/bucket-view/hooks/useTrashActions.ts and
-- web/src/components/bucket-view/components/BucketTrashView.tsx.
use Prim.Native.String
use safebucket.Prelude.{
  ℕ, suc, zero, ◌<◌, ◌≡◌, ◌≢◌, refl, ap, ◌∙◌, sym, inl, inr, ◌==◌, Option, none, some, Option-cases,
  List, [], ◌∷◌, ◌++◌, String, find, present, arith, join, present_of_ne,
}
use mathlib.Core.List.{append_assoc, append-nil}
use safebucket.Bucket.Items.{Folder}

-- The loop of `buildFolderPath`: the names, or `none` where the fuel runs out first. The loop ends
-- when there is no id to follow, or no folder under it.
unfoldable pub folder_names : ℕ → List Folder → Option String → List String → Option (List String)
folder_names zero folders current path = none
folder_names (suc fuel) folders current path = elim (present current) [
  | none ↦ some path
  | some id ↦ elim (find (λ f. f.id == id) folders) [
    | none ↦ some path
    | some f ↦ folder_names fuel folders f.folder_id (f.name ∷ path)
  ]
]

abbrev rooted : Option (List String) → Option String
rooted none = none
rooted (some path) = some (String.◌++◌ "/" (join path))

-- `buildFolderPath`
unfoldable pub build_folder_path : ℕ → Option String → List Folder → Option String
unfolding folder_names
build_folder_path fuel folder_id folders = elim (present folder_id) [
  | none ↦ some "/"
  | some id ↦ rooted (folder_names fuel folders (some id) [])
]

-- The names of the folders on the way down to an id: the specification of the path.
pub data Ancestors (folders : List Folder) : Option String → List String → Type 0 where
  top : {o : Option String} → present o ≡ none → Ancestors folders o []
  missing :
      {o : Option String} (id : String)
      → present o ≡ some id
      → find (λ f. f.id == id) folders ≡ none
      → Ancestors folders o []
  inside :
      {o : Option String} {names all : List String} (id : String) (f : Folder)
      → present o ≡ some id
      → find (λ f. f.id == id) folders ≡ some f
      → Ancestors folders f.folder_id names
      → all ≡ names ++ f.name ∷ []
      → Ancestors folders o all

folder_names-Ancestors :
    (fuel : ℕ) (folders : List Folder) (o : Option String) (path : List String) {r : List String}
    → folder_names fuel folders o path ≡ some r
    → (names : List String) × Ancestors folders o names × (r ≡ names ++ path)
unfolding folder_names
folder_names-Ancestors zero folders o path {r} e = absurd (ground arith)
folder_names-Ancestors (suc fuel) folders o path {r} e = elim (Option-cases (present o)) [
  | inl none_given ↦ ([], top none_given, ground arith)
  | inr (id, given) ↦ elim (Option-cases (find (λ f. f.id == id) folders)) [
    | inl unknown ↦ ([], missing id given unknown, ground arith)
    | inr (f, found) ↦
        let (names, way, same) =
          folder_names-Ancestors fuel folders f.folder_id (f.name ∷ path) {r = r} (ground arith) in
        (
          names ++ f.name ∷ [],
          inside id f given found way refl,
          same ∙ sym (append_assoc names (f.name ∷ []) path),
        )
  ]
]

folder_names-ends :
    (rank : Option String → ℕ) (fuel : ℕ) (folders : List Folder) (o : Option String)
    (path : List String)
    → ((id : String) (f : Folder) (p : Option String)
        → present p ≡ some id
        → find (λ g. g.id == id) folders ≡ some f
        → rank f.folder_id < rank p)
    → rank o < fuel
    → (r : List String) × (folder_names fuel folders o path ≡ some r)
unfolding folder_names
folder_names-ends rank zero folders o path falls le = absurd (omega arith)
folder_names-ends rank (suc fuel) folders o path falls le = elim (Option-cases (present o)) [
  | inl none_given ↦ (path, ground arith)
  | inr (id, given) ↦ elim (Option-cases (find (λ f. f.id == id) folders)) [
    | inl unknown ↦ (path, ground arith)
    | inr (f, found) ↦
        let less = falls id f o given found in
        let (r, same) =
          folder_names-ends rank fuel folders f.folder_id (f.name ∷ path) falls (omega arith) in
        (r, ground arith)
  ]
]

-- Where a rank falls from every folder to the one it lies in, as it does in a tree, fuel above the
-- rank is enough: the path of a folder is then `/` and the names of the folders on the way down to
-- it, joined by slashes.
pub build_folder_path-Ancestors :
    (rank : Option String → ℕ) (fuel : ℕ) (folders : List Folder) (id : String)
    → ((id : String) (f : Folder) (p : Option String)
        → present p ≡ some id
        → find (λ g. g.id == id) folders ≡ some f
        → rank f.folder_id < rank p)
    → id ≢ ""
    → rank (some id) < fuel
    → (names : List String) × Ancestors folders (some id) names
      × (build_folder_path fuel (some id) folders ≡ some (String.◌++◌ "/" (join names)))
unfolding build_folder_path
build_folder_path-Ancestors rank fuel folders id falls given le =
    let (r, same) = folder_names-ends rank fuel folders (some id) [] falls le in
    let (names, way, eq) = folder_names-Ancestors fuel folders (some id) [] same in
    (
      names,
      way,
      rw (build_folder_path, present_of_ne id given, same)
          (ap (λ l. some (String.◌++◌ "/" (join l))) (eq ∙ append-nil names)),
    )

-- A folder that lies in itself has no path: the loop goes on for ever.
pub build_folder_path-cyclic :
    (fuel : ℕ) (folders : List Folder) (f : Folder) (path : List String)
    → f.id ≢ ""
    → f.folder_id ≡ some f.id
    → find (λ g. g.id == f.id) folders ≡ some f
    → folder_names fuel folders (some f.id) path ≡ none
unfolding folder_names
build_folder_path-cyclic zero folders f path given cycle found = refl
build_folder_path-cyclic (suc fuel) folders f path given cycle found =
    rw (folder_names, present_of_ne f.id given, found, cycle)
      (build_folder_path-cyclic fuel folders f (f.name ∷ path) given cycle found)
