-- ===== src/Drop/Laws.antt =====
-- What a drop uploads.
use safebucket.Prelude.{
  ℕ, ◌≡◌, refl, ap, inl, inr, not, ◌==◌, Bool-cases, Option, Option-cases, List, [], ◌∷◌, String,
  map, arith, any,
}
use safebucket.Drop.Folders.{File, FileWithPath, IdMap, Call, extract_folder_paths, create_folders}
use safebucket.Drop.{Upload, uploads, upload_into, drop_items}

map-upload_into :
    (m : IdMap) (files : List FileWithPath)
    → map (λ (u : Upload). u.file) (upload_into m files) ≡ map (λ (f : FileWithPath). f.file) files
map-upload_into m [] = refl
map-upload_into m (f ∷ fs) = ap (λ (l : List File). f.file ∷ l) (map-upload_into m fs)

map-upload_flat :
    (folder_id : Option String) (files : List FileWithPath)
    → map
        (λ (u : Upload). u.file)
        (map (λ (f : FileWithPath). record { file = f.file; folder_id = folder_id }) files)
      ≡ map (λ (f : FileWithPath). f.file) files
map-upload_flat folder_id [] = refl
map-upload_flat folder_id (f ∷ fs) =
    ap (λ (l : List File). f.file ∷ l) (map-upload_flat folder_id fs)

module _ (create : ℕ → Call → Option String) (folder_id : Option String) where
  -- The uploads of a drop are its files, each once and in order, whether folders are created or
  -- not.
  pub drop_items-files :
      (files : List FileWithPath) (us : List Upload)
      → (drop_items create folder_id files).0 ≡ uploads us
      → map (λ (u : Upload). u.file) us ≡ map (λ (f : FileWithPath). f.file) files
  unfolding drop_items
  drop_items-files files us e = elim (Bool-cases (any (λ f. not (f.relative_path == "")) files)) [
    | inl nested ↦
        elim (Option-cases (create_folders create (extract_folder_paths files) folder_id).0) [
          | inl thrown ↦ ground arith
          | inr (m, made) ↦
              let same : upload_into m files ≡ us = ground arith in
              rw (← same) (map-upload_into m files)
        ]
    | inr flat ↦
        let same : map (λ f. record { file = f.file; folder_id = folder_id }) files ≡ us =
          ground arith in
        rw (← same) (map-upload_flat folder_id files)
  ]
