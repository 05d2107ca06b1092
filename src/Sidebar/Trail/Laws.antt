-- ===== src/Sidebar/Trail/Laws.antt =====
-- Addresses, trails and breadcrumbs fit together.
use Prim.Native.String
use text.Mathlib.TextLemmas.{nil-append, append_assoc}
use safebucket.Prelude.{
  ℕ, zero, suc, ◌≡◌, ◌≢◌, refl, ap, sym, ◌∙◌, true, not, ◌==◌, eq_iff, Option-cases, inl, inr,
  Option, none, some, List, [], ◌∷◌, String, present, present_of_ne, filter, find, map, split,
  split-append, split_of_NoSlash, NoSlash, arith, All,
}
use safebucket.Bucket.Items.{Folder, BucketItem, open_folder, is_folder, item_id}
use safebucket.Bucket.Trash.{folder_names}
use safebucket.Sidebar.Trail.{
  segments, place_of, lookup, climb, build_folder_trail, Crumb, trail_crumbs,
}

-- The text can stand for one segment of an address.
abbrev pub IsSegment : String → Type 0
IsSegment s = NoSlash s × (s ≢ "")

abbrev pub folder_address : String → String → String
folder_address bucket_id id = String.◌++◌ "/buckets/" (String.◌++◌ bucket_id (String.◌++◌ "/" id))

kept_segment : (s : String) → s ≢ "" → filter (λ t. not (t == "")) (s ∷ []) ≡ s ∷ []
kept_segment s h = ground (arith, eq_iff s "")

address_parts :
    (t : String)
    → String.◌++◌ "/buckets/" t
      ≡ String.◌++◌ "" (String.◌++◌ "/" (String.◌++◌ "buckets" (String.◌++◌ "/" t)))
address_parts t =
    append_assoc "/" (String.◌++◌ "buckets" "/") t
    ∙ ap (String.◌++◌ "/") (append_assoc "buckets" "/" t)
    ∙ sym (nil-append (String.◌++◌ "/" (String.◌++◌ "buckets" (String.◌++◌ "/" t))))

split_of_address :
    (bucket_id id : String)
    → NoSlash bucket_id
    → NoSlash id
    → split (folder_address bucket_id id) ≡ "" ∷ "buckets" ∷ bucket_id ∷ id ∷ []
unfolding split
split_of_address bucket_id id b i =
    ap split (address_parts (String.◌++◌ bucket_id (String.◌++◌ "/" id)))
    ∙ split-append ""
        (String.◌++◌ "buckets" (String.◌++◌ "/" (String.◌++◌ bucket_id (String.◌++◌ "/" id))))
    ∙ rw (split-append "buckets" (String.◌++◌ bucket_id (String.◌++◌ "/" id))) (
        rw (split-append bucket_id id)
          (rw (split_of_NoSlash bucket_id b) (rw (split_of_NoSlash id i) refl)))

segments_of_address :
    (bucket_id id : String)
    → IsSegment bucket_id
    → IsSegment id
    → segments (folder_address bucket_id id) ≡ "buckets" ∷ bucket_id ∷ id ∷ []
unfolding segments
segments_of_address bucket_id id (b, b_given) (i, i_given) =
    ap (filter (λ s. not (s == ""))) (split_of_address bucket_id id b i)
    ∙ ground (arith, eq_iff bucket_id "", eq_iff id "")

-- A folder that is opened is the place that the sidebar shows: reading the address that `openFolder`
-- goes to gives the bucket and the folder back, if neither id is empty or has a slash in it.
pub place_of-open_folder :
    (bucket_id : String) (item : BucketItem)
    → IsSegment bucket_id
    → IsSegment (item_id item)
    → is_folder item ≡ true
    → (address : String) × (open_folder bucket_id item ≡ some address)
      × ((place_of (segments address)).bucket_id ≡ some bucket_id)
      × ((place_of (segments address)).folder_id ≡ some (item_id item))
unfolding open_folder place_of
place_of-open_folder bucket_id item b i is = (
  folder_address bucket_id (item_id item),
  rw is refl,
  rw (segments_of_address bucket_id (item_id item) b i) refl,
  rw (segments_of_address bucket_id (item_id item) b i) refl,
)

abbrev pub names_of : Option (List Folder) → Option (List String)
names_of none = none
names_of (some fs) = some (map (λ (f : Folder). f.name) fs)

lookup-some :
    (folders : List Folder) (id : String)
    → id ≢ ""
    → lookup folders (some id) ≡ find (λ f. f.id == id) folders
lookup-some folders id given = rw (lookup, present_of_ne id given) refl

-- The loop of the breadcrumbs is that of the trash, with folders in place of their names.
names_of-climb :
    (fuel : ℕ) (folders : List Folder) (o : Option String) (trail : List Folder)
    → names_of (climb fuel folders (lookup folders o) trail)
      ≡ folder_names fuel folders o (map (λ (f : Folder). f.name) trail)
unfolding climb folder_names
names_of-climb zero folders o trail = refl
names_of-climb (suc fuel) folders o trail = elim (Option-cases (present o)) [
  | inl absent ↦ ground arith
  | inr (id, given) ↦ elim (Option-cases (find (λ f. f.id == id) folders)) [
    | inl unknown ↦ ground arith
    | inr (f, found) ↦ ground (arith, names_of-climb fuel folders f.folder_id (f ∷ trail))
  ]
]

-- The names in the breadcrumbs of a folder, whose id is not empty, are those of the path that the
-- trash shows for it, on whatever fuel.
pub names_of-build_folder_trail :
    (fuel : ℕ) (folders : List Folder) (id : String)
    → id ≢ ""
    → names_of (build_folder_trail fuel folders id) ≡ folder_names fuel folders (some id) []
unfolding build_folder_trail
names_of-build_folder_trail fuel folders id given =
    ap (λ (o : Option Folder). names_of (climb fuel folders o []))
      (sym (lookup-some folders id given))
    ∙ names_of-climb fuel folders (some id) []

-- What each breadcrumb leads to: the last one to nothing, every other one to its folder.
abbrev pub Leads : String → List Folder → List Crumb → Type 0
Leads bucket_id [] [] = Unit
Leads bucket_id (f ∷ []) (c ∷ []) = (c.name ≡ f.name) × (c.link ≡ none)
Leads bucket_id (f ∷ g ∷ fs) (c ∷ cs) =
    (c.name ≡ f.name)
    × ((address : String) × (c.link ≡ some address)
        × ((place_of (segments address)).bucket_id ≡ some bucket_id)
        × ((place_of (segments address)).folder_id ≡ some f.id))
    × Leads bucket_id (g ∷ fs) cs
Leads bucket_id _ _ = ⊥

-- The breadcrumbs of a trail are its folders, from the top down; each but the last links to the
-- address of its folder.
pub trail_crumbs-Leads :
    (bucket_id : String) (trail : List Folder)
    → IsSegment bucket_id
    → All (λ (f : Folder). IsSegment f.id) trail
    → Leads bucket_id trail (trail_crumbs bucket_id trail)
unfolding trail_crumbs place_of
trail_crumbs-Leads bucket_id [] b i = tt
trail_crumbs-Leads bucket_id (f ∷ []) b i = (refl, refl)
trail_crumbs-Leads bucket_id (f ∷ g ∷ fs) b (i, is) = (
  refl,
  (
    folder_address bucket_id f.id,
    refl,
    rw (segments_of_address bucket_id f.id b i) refl,
    rw (segments_of_address bucket_id f.id b i) refl,
  ),
  trail_crumbs-Leads bucket_id (g ∷ fs) b is,
)
