-- ===== src/Drop/Folders/Complete.antt =====
-- Every folder that a dropped file lies in is among those to create.
use Prim.Native.String
use text.Mathlib.TextLemmas.{append_assoc, cons-append, append-ne-nil_of_right_ne-nil, cons-ne-nil}
use mathlib.Core.Path.{subst}
use safebucket.Prelude.{
  ◌++◌, ◌≡◌, ◌≢◌, refl, sym, ◌∙◌, inl, inr, false, ◌==◌, eq_iff, Bool-cases, List, [], ◌∷◌, String,
  arith, split, join, join-split, join-one, join-cons,
}
use safebucket.Drop.Folders.{FileWithPath, add, below, add_parts, collect, extract_folder_paths}
use safebucket.Drop.Folders.Order.{Has, Has-add, Has-add_self}
use safebucket.Drop.Folders.Depth.{any-sort_by_depth}

-- Where the loop over the parts ends.
reach : String → List String → String
reach current [] = current
reach current (part ∷ parts) = reach (below current part) parts

add_parts-keeps :
    (q current : String) (parts set : List String) → Has q set → Has q (add_parts current parts set)
unfolding add_parts
add_parts-keeps q current [] set h = h
add_parts-keeps q current (part ∷ parts) set h =
    add_parts-keeps q (below current part) parts _ (Has-add q (below current part) set h)

add_parts-reach :
    (current part : String) (parts set : List String)
    → Has (reach current (part ∷ parts)) (add_parts current (part ∷ parts) set)
unfolding reach add_parts
add_parts-reach current part [] set = Has-add_self (below current part) set
add_parts-reach current part (next ∷ parts) set =
    add_parts-reach (below current part) next parts (add (below current part) set)

pub slash-ne-empty : (current part : String) → String.◌++◌ current (String.◌++◌ "/" part) ≢ ""
slash-ne-empty current part =
    append-ne-nil_of_right_ne-nil current (λ e. cons-ne-nil _ _ (rw cons-append at e))

pub below_of_ne :
    (current part : String)
    → current ≢ ""
    → below current part ≡ String.◌++◌ current (String.◌++◌ "/" part)
below_of_ne current part h = ground (arith, eq_iff current "")

reach-join :
    (current part : String) (parts : List String)
    → current ≢ ""
    → reach current (part ∷ parts) ≡ String.◌++◌ current (String.◌++◌ "/" (join (part ∷ parts)))
unfolding reach
reach-join current part [] h = rw join-one (below_of_ne current part h)
reach-join current part (next ∷ parts) h = rw (below_of_ne current part h) (
    rw
      (reach-join (String.◌++◌ current (String.◌++◌ "/" part)) next parts
        (slash-ne-empty current part))
      (simp (join-cons, append_assoc)))

-- The first part of a path is not empty: it does not begin with a slash.
abbrev pub IsRelative : List String → Type 0
IsRelative [] = ⊥
IsRelative (part ∷ parts) = part ≢ ""

below_empty : (part : String) → below "" part ≡ part
below_empty part = refl

reach-whole : (parts : List String) → IsRelative parts → reach "" parts ≡ join parts
unfolding reach
reach-whole [] h = absurd h
reach-whole (part ∷ []) h = sym (join-one part)
reach-whole (part ∷ next ∷ parts) h = reach-join part next parts h ∙ sym (join-cons part next parts)

add_parts-Has :
    (parts set : List String) → IsRelative parts → Has (join parts) (add_parts "" parts set)
add_parts-Has [] set h = absurd h
add_parts-Has (part ∷ parts) set h =
    rw (← reach-whole (part ∷ parts) h) (add_parts-reach "" part parts set)

-- A file that lies in a folder of the drop.
abbrev pub IsNested : FileWithPath → Type 0
IsNested f = (f.relative_path ≢ "") × IsRelative (split f.relative_path)

collect-keeps :
    (q : String) (files : List FileWithPath) (set : List String)
    → Has q set
    → Has q (collect files set)
unfolding collect
collect-keeps q [] set h = h
collect-keeps q (f ∷ fs) set h = elim (Bool-cases (f.relative_path == "")) [
  | inl flat ↦ rw flat (collect-keeps q fs set h)
  | inr nested ↦
      rw nested (collect-keeps q fs _ (add_parts-keeps q "" (split f.relative_path) set h))
]

collect-Has :
    (f : FileWithPath) (before after : List FileWithPath) (set : List String)
    → IsNested f
    → Has f.relative_path (collect (before ++ f ∷ after) set)
unfolding collect
collect-Has f [] after set (given, relative) =
    let nested : (f.relative_path == "") ≡ false = ground (arith, eq_iff f.relative_path "") in
    rw (nested, collect)
      (collect-keeps f.relative_path after (add_parts "" (split f.relative_path) set) (
        subst (λ (q : String). Has q (add_parts "" (split f.relative_path) set))
          (join-split f.relative_path) (add_parts-Has (split f.relative_path) set relative)))
collect-Has f (g ∷ before) after set h = collect-Has f before after _ h

-- The folder of each dropped file that lies in one is among those to create, if its path does not
-- begin with a slash.
pub extract_folder_paths-Has :
    (f : FileWithPath) (before after : List FileWithPath)
    → IsNested f
    → Has f.relative_path (extract_folder_paths (before ++ f ∷ after))
unfolding extract_folder_paths
extract_folder_paths-Has f before after h =
    any-sort_by_depth (λ q. q == f.relative_path) (collect (before ++ f ∷ after) [])
    ∙ collect-Has f before after [] h
