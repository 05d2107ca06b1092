-- ===== src/Drop/Placed.antt =====
-- Where the files of a drop end up: the paths that are listed, the folders that are created, and the
-- uploads, taken together.
use mathlib.Core.Path.{subst}
use mathlib.Core.List.{append_assoc}
use safebucket.Prelude.{
  ℕ, suc, ◌≡◌, ◌≢◌, refl, sym, ◌⊎◌, inl, inr, true, false, not, ◌==◌, eq_iff, Bool-cases,
  Option-cases, Option, none, List, [], ◌∷◌, ◌++◌, String, map, any, arith, All, split,
}
use safebucket.Drop.{Upload, uploads, upload_into, drop_items}
use safebucket.Drop.Folders.{
  FileWithPath, IdMap, Call, get, add, below, add_parts, collect, extract_folder_paths,
  create_folders,
}
use safebucket.Drop.Folders.Order.{Has, All-add}
use safebucket.Drop.Folders.Depth.{All-sort_by_depth, extract_folder_paths-IsOrdered}
use safebucket.Drop.Folders.Complete.{
  IsNested, IsRelative, slash-ne-empty, below_of_ne, extract_folder_paths-Has,
}
use safebucket.Drop.Folders.Created.{IsPlaced, create_folders-IsPlaced}

-- The file lies in no folder, or its path does not begin with a slash.
abbrev pub IsPathed : FileWithPath → Type 0
IsPathed f = (f.relative_path ≡ "") ⊎ IsNested f

abbrev IsGiven : String → Type 0
IsGiven path = path ≢ ""

add_parts-All-IsGiven :
    (current : String) (parts set : List String)
    → IsGiven current
    → All IsGiven set
    → All IsGiven (add_parts current parts set)
unfolding add_parts
add_parts-All-IsGiven current [] set h k = k
add_parts-All-IsGiven current (part ∷ parts) set h k =
    let further : IsGiven (below current part) =
      rw (below_of_ne current part h) (slash-ne-empty current part) in
    add_parts-All-IsGiven (below current part) parts (add (below current part) set) further
      (All-add IsGiven set (below current part) k further)

relative-All-IsGiven :
    (parts set : List String)
    → IsRelative parts
    → All IsGiven set
    → All IsGiven (add_parts "" parts set)
unfolding add_parts
relative-All-IsGiven [] set h k = absurd h
relative-All-IsGiven (part ∷ parts) set h k =
    add_parts-All-IsGiven part parts (add part set) h (All-add IsGiven set part k h)

collect-All-IsGiven :
    (files : List FileWithPath) (set : List String)
    → All IsPathed files
    → All IsGiven set
    → All IsGiven (collect files set)
unfolding collect
collect-All-IsGiven [] set h k = k
collect-All-IsGiven (f ∷ fs) set (inl top, h) k =
    let test : (f.relative_path == "") ≡ true = (eq_iff f.relative_path "").1 top in
    rw test (collect-All-IsGiven fs set h k)
collect-All-IsGiven (f ∷ fs) set (inr (given, relative), h) k =
    let test : (f.relative_path == "") ≡ false = ground (arith, eq_iff f.relative_path "") in
    rw test (
      collect-All-IsGiven fs (add_parts "" (split f.relative_path) set) h
        (relative-All-IsGiven (split f.relative_path) set relative k))

placed-get :
    (create : ℕ → Call → Option String) (root : Option String) (m : IdMap) (n : ℕ)
    (paths : List String) (calls : List Call) (q : String)
    → IsPlaced create root m n paths calls
    → Has q paths
    → get q m ≢ none
placed-get create root m n [] calls q h has = absurd (ground arith)
placed-get create root m n (path ∷ paths) [] q h has = absurd h
placed-get create root m n (path ∷ paths) (c ∷ calls) q (name, under, own, found, h) has =
    elim (Bool-cases (path == q)) [
      | inl same ↦ subst (λ (r : String). get r m ≢ none) ((eq_iff path q).0 same) found
      | inr other ↦ placed-get create root m (suc n) paths calls q h (ground arith)
    ]

All-Has :
    (before after : List FileWithPath)
    → All IsPathed after
    → All
        (λ f. f.relative_path ≢ "" → Has f.relative_path (extract_folder_paths (before ++ after)))
        after
All-Has before [] h = tt
All-Has before (f ∷ after) (p, h) = (
  λ given. elim p [
    | inl top ↦ absurd (given top)
    | inr nested ↦ extract_folder_paths-Has f before after nested
  ],
  subst
      (λ (l : List FileWithPath).
        All (λ f. f.relative_path ≢ "" → Has f.relative_path (extract_folder_paths l)) after)
      (append_assoc before (f ∷ []) after) (All-Has (before ++ f ∷ []) after h),
)

All-placed :
    (create : ℕ → Call → Option String) (root : Option String) (m : IdMap) (paths : List String)
    (calls : List Call) (files : List FileWithPath)
    → IsPlaced create root m 0 paths calls
    → All (λ f. f.relative_path ≢ "" → Has f.relative_path paths) files
    → All (λ f. f.relative_path ≢ "" → get f.relative_path m ≢ none) files
All-placed create root m paths calls [] h k = tt
All-placed create root m paths calls (f ∷ fs) h (has, k) = (
  λ given. placed-get create root m 0 paths calls f.relative_path h (has given),
  All-placed create root m paths calls fs h k,
)

-- If a drop with folders ends in uploads, there is a map from paths to ids such that each file is
-- uploaded into the folder whose id its path has there, which is one for a file that lies in a
-- folder. The paths of the folders have been created once each, in the order of the calls: the call
-- names the last part of the path, is made under the id of the parent path, or under the folder
-- dropped on where that is empty, and the id of the path is the one that this call has returned.
-- This is for files whose path does not begin with a slash.
pub drop_items-IsPlaced :
    (create : ℕ → Call → Option String) (root : Option String) (files : List FileWithPath)
    (us : List Upload)
    → All IsPathed files
    → any (λ f. not (f.relative_path == "")) files ≡ true
    → (drop_items create root files).0 ≡ uploads us
    → (m : IdMap) × (us
        ≡ map
            (λ (f : FileWithPath). record { file = f.file; folder_id = get f.relative_path m })
            files)
      × IsPlaced create root m 0 (extract_folder_paths files) (drop_items create root files).1
      × All (λ f. f.relative_path ≢ "" → get f.relative_path m ≢ none) files
unfolding drop_items extract_folder_paths
drop_items-IsPlaced create root files us pathed nested e =
    elim (Option-cases (create_folders create (extract_folder_paths files) root).0) [
      | inl thrown ↦ absurd (ground arith)
      | inr (m, made) ↦
          let same : upload_into m files ≡ us = ground arith in
          let (ordered, once) = extract_folder_paths-IsOrdered files in
          let given : All IsGiven (extract_folder_paths files) =
            All-sort_by_depth IsGiven (collect files []) (collect-All-IsGiven files [] pathed tt) in
          let placed : IsPlaced create root m 0 (extract_folder_paths files)
              (create_folders create (extract_folder_paths files) root).1 =
            create_folders-IsPlaced create root (extract_folder_paths files) m ordered once given
              made in
          let calls : (drop_items create root files).1
              ≡ (create_folders create (extract_folder_paths files) root).1 =
            rw (drop_items, nested) refl in
          (
            m,
            sym same,
            subst (IsPlaced create root m 0 (extract_folder_paths files)) (sym calls) placed,
            All-placed create root m (extract_folder_paths files)
                (create_folders create (extract_folder_paths files) root).1 files placed
                (All-Has [] files pathed),
          )
    ]
