-- ===== src/Drop.antt =====
-- Dropping files and folders on a bucket: web/src/components/upload/components/DragDropZone.tsx.
pub mod Folders
pub mod Walk
pub mod Laws
pub mod Placed
mod Examples
use safebucket.Prelude.{
  ℕ, ◌+◌, ◌-◌, Bool, true, false, not, ◌==◌, Option, none, some, List, [], ◌∷◌, String, map, eqb,
  if◌then◌else◌, any,
}
use safebucket.Drop.Folders.{
  File, FileWithPath, IdMap, get, Call, extract_folder_paths, create_folders,
}
use safebucket.Drop.Walk.{Item, process_dropped_items}

-- `isDragOver` and `dragCounterRef`
pub record DragState : Type 0 where
  pub is_drag_over : Bool
  pub counter : ℕ

-- `handleDragEnter`; the flag is `e.dataTransfer.types.includes("Files")`
pub handle_drag_enter : Bool → DragState → DragState
handle_drag_enter has_files s = record {
  is_drag_over = if has_files then true else s.is_drag_over;
  counter = s.counter + 1;
}

-- `handleDragLeave`: a counter that would fall below 0 is put back to 0, as `-` does
pub handle_drag_leave : DragState → DragState
handle_drag_leave s = record {
  is_drag_over = if eqb (s.counter - 1) 0 then false else s.is_drag_over;
  counter = s.counter - 1;
}

-- One call of `startUpload` with one file and its folder.
pub record Upload : Type 0 where
  pub file : File
  pub folder_id : Option String

-- How a drop ends: the toast `upload.permission_denied`, an error that is logged, or uploads; or it
-- waits for ever, for what is dropped cannot be read.
pub data Outcome : Type 0 where
  denied : Outcome
  failed : Outcome
  uploads : List Upload → Outcome
  waits : Outcome

-- `startUpload(files, bucketId, folderId)` of several files
abbrev pub upload_all : Option String → List File → List Upload
upload_all folder_id = map (λ f. record { file = f; folder_id = folder_id })

abbrev pub upload_into : IdMap → List FileWithPath → List Upload
upload_into m = map (λ f. record { file = f.file; folder_id = get f.relative_path m })

-- The part of `handleDrop` inside its `try`.
pub drop_items :
    (ℕ → Call → Option String) → Option String → List FileWithPath → Outcome × List Call
drop_items create folder_id files =
    if any (λ f. not (f.relative_path == "")) files
    then (let (r, calls) = create_folders create (extract_folder_paths files) folder_id in
        (elim r [ none ↦ failed | some m ↦ uploads (upload_into m files) ], calls))
    else (uploads (map (λ f. record { file = f.file; folder_id = folder_id }) files), [])

-- `handleDrop`: the state, how it ends, and the folders that it asked the server to create
unfoldable pub handle_drop :
    (ℕ → Call → Option String)
    → (lasts : Bool) → (is_contributor : Bool) → Option String
    → List Item
    → List File
    → DragState
    → DragState × Outcome × List Call
unfolding drop_items
handle_drop create lasts is_contributor folder_id items files s =
    let s' : DragState = record { is_drag_over = false; counter = 0 } in
    if not is_contributor then (s', denied, []) else elim items [
      | [] ↦ (s', uploads (upload_all folder_id files), [])
      | i ∷ is ↦ elim (process_dropped_items lasts (i ∷ is)) [
        | none ↦ (s', waits, [])
        | some found ↦ let (o, calls) = drop_items create folder_id found in (s', o, calls)
      ]
    ]
