-- ===== src/Drop/Walk/Laws.antt =====
-- Every file of a dropped tree is found once, with the path of the folders that it lies in.
use Prim.Native.String
use mathlib.Core.List.{map-append}
use text.Mathlib.TextLemmas.{append_assoc}
use safebucket.Prelude.{
  ◌≡◌, ◌≢◌, All, All-append, refl, sym, ap, false, ◌∙◌, List, [], ◌∷◌, ◌++◌, String, map, join,
  join-nil, join-one, join-cons,
}
use safebucket.Drop.Folders.{File, FileWithPath, below}
use safebucket.Drop.Folders.Complete.{slash-ne-empty, below_of_ne}
use safebucket.Drop.Walk.{
  Entry, file, directory, other, unreadable, Batches, done, broken, batch, Entries, nil, cons,
  hangs, hangs_batches, hangs_entries, process_entry, read_batches, read_entries,
}

-- The tree as it is: the files below an entry, each with the names of the folders on the way down.
mutual
  pub files_of : List String → Entry → List (List String × File)
  files_of folders (file f) = (folders, f) ∷ []
  files_of folders (directory name batches) = files_of_batches (folders ++ name ∷ []) batches
  files_of folders other = []
  files_of folders unreadable = []

  pub files_of_batches : List String → Batches → List (List String × File)
  files_of_batches folders done = []
  files_of_batches folders broken = []
  files_of_batches folders (batch es batches) =
      files_of_entries folders es ++ files_of_batches folders batches

  pub files_of_entries : List String → Entries → List (List String × File)
  files_of_entries folders nil = []
  files_of_entries folders (cons e es) = files_of folders e ++ files_of_entries folders es

-- Everything can be read, no empty batch comes before the end, and no folder's name is empty.
unfoldable mutual
  pub IsRead : Entry → Type 0
  IsRead (file f) = Unit
  IsRead (directory name batches) = (name ≢ "") × AreRead batches
  IsRead other = Unit
  IsRead unreadable = ⊥

  pub AreRead : Batches → Type 0
  AreRead done = Unit
  AreRead broken = ⊥
  AreRead (batch nil batches) = ⊥
  AreRead (batch (cons e es) batches) = IsRead e × AllRead es × AreRead batches

  pub AllRead : Entries → Type 0
  AllRead nil = Unit
  AllRead (cons e es) = IsRead e × AllRead es

join-concat :
    (folder : String) (folders : List String) (name : String)
    → join (folder ∷ folders ++ name ∷ [])
      ≡ String.◌++◌ (join (folder ∷ folders)) (String.◌++◌ "/" name)
join-concat folder [] name = rw (join-cons, join-one, join-one)
join-concat folder (next ∷ folders) name =
    join-cons folder next (folders ++ name ∷ [])
    ∙ simp (join-concat next folders name, join-cons, append_assoc)

join-ne-empty :
    (folder : String) (folders : List String) → folder ≢ "" → join (folder ∷ folders) ≢ ""
join-ne-empty folder [] h = rw join-one h
join-ne-empty folder (next ∷ folders) h =
    rw join-cons (slash-ne-empty folder (join (next ∷ folders)))

-- `newPath` is the path of the folders with one more.
below-join :
    (folders : List String) (name : String)
    → All (λ f. f ≢ "") folders
    → below (join folders) name ≡ join (folders ++ name ∷ [])
below-join [] name h = rw join-nil (rw join-one refl)
below-join (folder ∷ folders) name (k, h) =
    below_of_ne (join (folder ∷ folders)) name (join-ne-empty folder folders k)
    ∙ sym (join-concat folder folders name)

abbrev pub place : List String × File → FileWithPath
place (folders, f) = record { file = f; relative_path = join folders }

mutual
  unfolding files_of IsRead process_entry

  process_entry-files :
      (e : Entry) (folders : List String)
      → All (λ f. f ≢ "") folders
      → IsRead e
      → process_entry e (join folders) ≡ map place (files_of folders e)
  process_entry-files (file f) folders h r = refl
  process_entry-files (directory name batches) folders h (given, r) =
      rw (below-join folders name h) (
        read_batches-files batches (folders ++ name ∷ [])
          (All-append _ folders (name ∷ []) h (given, tt)) r)
  process_entry-files other folders h r = refl
  process_entry-files unreadable folders h r = absurd r

  read_batches-files :
      (bs : Batches) (folders : List String)
      → All (λ f. f ≢ "") folders
      → AreRead bs
      → read_batches bs (join folders) ≡ map place (files_of_batches folders bs)
  read_batches-files done folders h r = refl
  read_batches-files broken folders h r = absurd r
  read_batches-files (batch nil bs) folders h r = absurd r
  read_batches-files (batch (cons e es) bs) folders h (k, l, r) =
      rw (process_entry-files e folders h k) (
        rw (read_entries-files es folders h l)
          (rw (read_batches-files bs folders h r) (simp map-append)))

  read_entries-files :
      (es : Entries) (folders : List String)
      → All (λ f. f ≢ "") folders
      → AllRead es
      → read_entries es (join folders) ≡ map place (files_of_entries folders es)
  read_entries-files nil folders h r = refl
  read_entries-files (cons e es) folders h (k, l) =
      rw (process_entry-files e folders h k)
        (rw (read_entries-files es folders h l) (simp map-append))

mutual
  unfolding IsRead hangs

  settles : (e : Entry) → IsRead e → hangs e ≡ false
  settles (file f) r = refl
  settles (directory name batches) (given, r) = batches-settle batches r
  settles other r = refl
  settles unreadable r = absurd r

  batches-settle : (bs : Batches) → AreRead bs → hangs_batches bs ≡ false
  batches-settle done r = refl
  batches-settle broken r = absurd r
  batches-settle (batch nil bs) r = absurd r
  batches-settle (batch (cons e es) bs) (k, l, r) =
      rw (settles e k) (rw (entries-settle es l) (batches-settle bs r))

  entries-settle : (es : Entries) → AllRead es → hangs_entries es ≡ false
  entries-settle nil r = refl
  entries-settle (cons e es) (k, l) = rw (settles e k) (entries-settle es l)

-- Each file below a dropped entry is found once, in the order of the reader, with the names of the
-- folders on the way to it, joined, as its path, and the promise settles; if everything below the
-- entry can be read, no batch but the last is empty and no folder's name is.
pub process_entry_complete :
    (e : Entry) → IsRead e → (process_entry e "" ≡ map place (files_of [] e)) × (hangs e ≡ false)
process_entry_complete e r = (
  ap (λ (path : String). process_entry e path) (sym join-nil) ∙ process_entry-files e [] tt r,
  settles e r,
)
