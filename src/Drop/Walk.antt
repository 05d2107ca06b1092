-- ===== src/Drop/Walk.antt =====
-- Reading what is dropped: `processFileEntry`, `processDirectoryEntry` and `processDroppedItems`.
pub mod Laws
use Prim.Native.String
use safebucket.Prelude.{
  Bool, true, false, ◌==◌, ◌||◌, Option, none, some, List, [], ◌∷◌, ◌++◌, String, if◌then◌else◌,
}
use safebucket.Drop.Folders.{File, FileWithPath, below}

-- An entry of the file system API. A directory is what the calls of its reader's `readEntries`
-- yield, one batch after another; the first empty batch is the last one that is read. `other` is an
-- entry that is neither a file nor a directory. `unreadable` is a file, and `broken` a call of
-- `readEntries`, that fails: no callback for that is given, so that the promise never settles.
mutual
  pub data Entry : Type 0 where
    file : File → Entry
    directory : String → Batches → Entry
    other : Entry
    unreadable : Entry

  pub data Batches : Type 0 where
    done : Batches
    broken : Batches
    batch : Entries → Batches → Batches

  pub data Entries : Type 0 where
    nil : Entries
    cons : Entry → Entries → Entries

-- Whether the promise of an entry never settles, since one that is waited for on the way does not.
unfoldable mutual
  pub hangs : Entry → Bool
  hangs (file f) = false
  hangs (directory name batches) = hangs_batches batches
  hangs other = false
  hangs unreadable = true

  pub hangs_batches : Batches → Bool
  hangs_batches done = false
  hangs_batches broken = true
  hangs_batches (batch nil batches) = false
  hangs_batches (batch (cons e es) batches) = hangs e || hangs_entries es || hangs_batches batches

  pub hangs_entries : Entries → Bool
  hangs_entries nil = false
  hangs_entries (cons e es) = hangs e || hangs_entries es

-- `processDirectoryEntry`, its loop over the batches, and the loop over one batch. The path is
-- extended as `newPath` is. This is what the promise yields, where it settles.
unfoldable mutual
  pub process_entry : Entry → String → List FileWithPath
  process_entry (file f) current_path = record { file = f; relative_path = current_path } ∷ []
  process_entry (directory name batches) current_path =
      read_batches batches (below current_path name)
  process_entry other current_path = []
  process_entry unreadable current_path = []

  pub read_batches : Batches → String → List FileWithPath
  read_batches done new_path = []
  read_batches broken new_path = []
  read_batches (batch nil batches) new_path = []
  read_batches (batch (cons e es) batches) new_path =
      (process_entry e new_path ++ read_entries es new_path) ++ read_batches batches new_path

  pub read_entries : Entries → String → List FileWithPath
  read_entries nil new_path = []
  read_entries (cons e es) new_path = process_entry e new_path ++ read_entries es new_path

-- `DataTransferItem`: its kind is `file` or not, and `webkitGetAsEntry` may yield `null`.
pub record Item : Type 0 where
  pub is_file : Bool
  pub entry : Option Entry

abbrev and_then : List FileWithPath → Option (List FileWithPath) → Option (List FileWithPath)
and_then files none = none
and_then files (some more) = some (files ++ more)

-- `processDroppedItems`, `none` where its promise never settles. It waits for each entry while it
-- goes through the list of the event, and `lasts` tells whether that list can still be read then:
-- the HTML standard empties it when the event is over, so that `items.length` is 0 after the first
-- wait.
unfoldable pub process_dropped_items : Bool → List Item → Option (List FileWithPath)
unfolding process_entry hangs
process_dropped_items lasts [] = some []
process_dropped_items lasts (i ∷ is) =
    let rest = process_dropped_items lasts is in
    if i.is_file
    then elim i.entry [
      | none ↦ rest
      | some e ↦
          if hangs e then none else and_then (process_entry e "") (if lasts then rest else some [])
    ]
    else rest
