-- ===== src/Drop/Folders.antt =====
-- The folders that a drop needs: `extractFolderPaths` and `createFolders`.
pub mod Order
pub mod Depth
pub mod Complete
pub mod Created
use Prim.Native.String
use safebucket.Prelude.{
  ℕ, suc, ◌+◌, Bool, true, false, ◌==◌, Option, none, some, List, [], ◌∷◌, ◌++◌, String, leb,
  if◌then◌else◌, any, length, split, join, init, last, parent, text_length,
}

-- A dropped file: its content stands for the `File` object.
pub record File : Type 0 where
  pub name : String
  pub size : ℕ

pub record FileWithPath : Type 0 where
  pub file : File
  pub relative_path : String

-- `Set.add`, in insertion order
abbrev pub add : String → List String → List String
add path set = if any (λ q. q == path) set then set else set ++ path ∷ []

-- `currentPath ? `${currentPath}/${part}` : part`
abbrev pub below : String → String → String
below current part = if current == "" then part else String.◌++◌ current (String.◌++◌ "/" part)

-- the loop over `pathParts`
unfoldable pub add_parts : String → List String → List String → List String
add_parts current [] set = set
add_parts current (part ∷ parts) set =
    add_parts (below current part) parts (add (below current part) set)

-- the loop over the files
unfoldable pub collect : List FileWithPath → List String → List String
collect [] set = set
collect (f ∷ fs) set =
    collect fs (if f.relative_path == "" then set else add_parts "" (split f.relative_path) set)

-- `a.split("/").length`
abbrev pub depth : String → ℕ
depth path = length (split path)

-- `sort((a, b) => depth(a) - depth(b))`, which is stable
unfoldable pub insert : String → List String → List String
insert path [] = path ∷ []
insert path (q ∷ qs) = if leb (depth path) (depth q) then path ∷ q ∷ qs else q ∷ insert path qs

unfoldable pub sort_by_depth : List String → List String
sort_by_depth [] = []
sort_by_depth (p ∷ ps) = insert p (sort_by_depth ps)

-- `extractFolderPaths`
unfoldable pub extract_folder_paths : List FileWithPath → List String
unfolding collect sort_by_depth
extract_folder_paths files = sort_by_depth (collect files [])

-- `Map<string, string | undefined>`, the latest entry first
abbrev pub IdMap : Type 0
IdMap = List (String × Option String)

-- `map.get(path) ?? undefined`
unfoldable pub get : String → IdMap → Option String
get path [] = none
get path ((q, id) ∷ m) = if q == path then id else get path m

-- What `createFolderMutationFn` is called with, besides the bucket.
pub record Call : Type 0 where
  pub name : String
  pub folder_id : Option String

-- The loop of `createFolders`: the map, or `none` where a call has thrown, and the calls in order.
-- `create n c` is the id of the folder that the n-th call creates, `none` if it throws.
unfoldable pub create_each :
    (ℕ → Call → Option String) → ℕ → List String → IdMap → Option IdMap × List Call
create_each create n [] m = (some m, [])
create_each create n (path ∷ paths) m =
    let c : Call = record { name = last (split path); folder_id = get (parent path) m } in
    elim (create n c) [
      | none ↦ (none, c ∷ [])
      | some id ↦
          let (r, calls) = create_each create (suc n) paths ((path, some id) ∷ m) in (r, c ∷ calls)
    ]

-- `createFolders`
unfoldable pub create_folders :
    (ℕ → Call → Option String) → List String → Option String → Option IdMap × List Call
unfolding create_each
create_folders create paths parent_folder_id =
    create_each create 0 paths (("", parent_folder_id) ∷ [])
