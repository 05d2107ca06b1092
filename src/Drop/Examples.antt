-- ===== src/Drop/Examples.antt =====
-- Examples of drops: a folder `a` with a file and a folder `b` that holds another one.
use safebucket.Prelude.{
  ℕ, zero, suc, ◌≡◌, refl, false, eq_iff, All, ◌≢◌, none, Option, some, List, [], ◌∷◌, String, map,
  inr, arith, split, join, init,
}
use safebucket.Drop.{Upload, drop_items}
use safebucket.Drop.Placed.{IsPathed, drop_items-IsPlaced}
use safebucket.Drop.Folders.{
  File, FileWithPath, IdMap, Call, extract_folder_paths, create_folders, create_each, collect,
  add_parts, sort_by_depth, insert, get,
}
use safebucket.Drop.Folders.Order.{IsOrdered, IsNodup}
use safebucket.Drop.Folders.Depth.{extract_folder_paths-IsOrdered}
use safebucket.Drop.Folders.Created.{IsPlaced}
use safebucket.Drop.Walk.{Entry, file, directory, done, batch, nil, cons, process_entry, hangs}
use safebucket.Drop.Walk.Laws.{process_entry_complete, place, files_of, IsRead}

abbrev notes : File
notes = record { name = "notes.txt"; size = 10 }

abbrev photo : File
photo = record { name = "photo.png"; size = 2000 }

abbrev dropped : List FileWithPath
dropped =
    record { file = notes; relative_path = "a/b" }
    ∷ record { file = photo; relative_path = "a" }
    ∷ []

abbrev numbered : ℕ → Call → Option String
numbered zero c = some "id0"
numbered (suc n) c = some "id1"

IsOrdered_example :
    IsOrdered [] (extract_folder_paths dropped) × IsNodup (extract_folder_paths dropped)
IsOrdered_example = extract_folder_paths-IsOrdered dropped

abbrev made : IdMap
made = ("a/b", some "id1") ∷ ("a", some "id0") ∷ ("", some "root") ∷ []

abbrev tree : Entry
tree = directory "a" (
    batch (cons (file photo) nil)
      (batch (cons (directory "b" (batch (cons (file notes) nil) done)) nil) done))

complete_example : (process_entry tree "" ≡ map place (files_of [] tree)) × (hangs tree ≡ false)
unfolding IsRead
complete_example = process_entry_complete tree (
  (λ e. absurd (ground (arith, eq_iff "a" ""))),
  (tt, tt, (((λ e. absurd (ground (arith, eq_iff "b" ""))), (tt, tt, tt)), tt, tt)),
)

abbrev sent : List Upload
sent =
    record { file = notes; folder_id = some "id1" }
    ∷ record { file = photo; folder_id = some "id0" }
    ∷ []

dropped-IsPathed : All IsPathed dropped
unfolding split
dropped-IsPathed = (
  inr (
    (λ e. absurd (ground (arith, eq_iff "a/b" ""))),
    (λ e. absurd (ground (arith, eq_iff "a" ""))),
  ),
  (
    inr (
      (λ e. absurd (ground (arith, eq_iff "a" ""))),
      (λ e. absurd (ground (arith, eq_iff "a" ""))),
    ),
    tt,
  ),
)

drop-IsPlaced_example :
    (m : IdMap) × (sent
      ≡ map
          (λ (f : FileWithPath). record { file = f.file; folder_id = get f.relative_path m })
          dropped)
    × IsPlaced numbered
        (some "root")
        m
        0
        (extract_folder_paths dropped)
        (drop_items numbered (some "root") dropped).1
    × All (λ f. f.relative_path ≢ "" → get f.relative_path m ≢ none) dropped
unfolding drop_items create_folders create_each split join init extract_folder_paths collect
    add_parts sort_by_depth insert get
drop-IsPlaced_example =
    drop_items-IsPlaced numbered (some "root") dropped sent dropped-IsPathed refl refl
