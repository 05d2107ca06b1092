-- ===== src/Prelude/Paths.antt =====
-- `split("/")`, `join("/")`, `slice(0, -1)` and the last part, and how they fit together.
use Prim.Native.Char.{Char, code}
use Prim.Native.String
use Prim.Native.String.{String, [], ◌∷◌}
use mathlib.Core.Path.{◌≡◌, refl, ap, ◌∙◌}
use mathlib.Core.Bool.{Bool, true, false}
use mathlib.Core.List.{List, ◌++◌}
use native.Mathlib.Omega.{arith}
use text.Mathlib.TextLemmas.{nil-append, cons-append}
use text.Mathlib.TextEquality.{Char-path}
use safebucket.Prelude.Tests.{eqb}
use safebucket.Prelude.Lists.{All}

-- one character in front of what the rest has been split into
abbrev attach : Bool → Char → List String → List String
attach true c parts = List.◌∷◌ "" parts
attach false c List.[] = List.◌∷◌ (c ∷ []) List.[]
attach false c (List.◌∷◌ part parts) = List.◌∷◌ (c ∷ part) parts

unfoldable pub split : String → List String
split [] = List.◌∷◌ "" List.[]
split (c ∷ s) = attach (eqb (code c) b'/') c (split s)

unfoldable pub join : List String → String
join List.[] = ""
join (List.◌∷◌ part List.[]) = part
join (List.◌∷◌ part (List.◌∷◌ next parts)) =
    String.◌++◌ part (String.◌++◌ "/" (join (List.◌∷◌ next parts)))

-- `slice(0, -1)`
unfoldable pub init : List String → List String
init List.[] = List.[]
init (List.◌∷◌ part List.[]) = List.[]
init (List.◌∷◌ part (List.◌∷◌ next parts)) = List.◌∷◌ part (init (List.◌∷◌ next parts))

-- `parts[parts.length - 1]`, of a list that is not empty
unfoldable pub last : List String → String
last List.[] = ""
last (List.◌∷◌ part List.[]) = part
last (List.◌∷◌ part (List.◌∷◌ next parts)) = last (List.◌∷◌ next parts)

abbrev pub NoSlash : String → Type 0
NoSlash [] = Unit
NoSlash (c ∷ s) = (eqb (code c) b'/' ≡ false) × NoSlash s

abbrev IsCons : List String → Type 0
IsCons List.[] = ⊥
IsCons (List.◌∷◌ _ _) = Unit

attach-IsCons : (b : Bool) (c : Char) (parts : List String) → IsCons (attach b c parts)
attach-IsCons true c parts = tt
attach-IsCons false c List.[] = tt
attach-IsCons false c (List.◌∷◌ part parts) = tt

split-IsCons : (s : String) → IsCons (split s)
unfolding split
split-IsCons [] = tt
split-IsCons (c ∷ s) = attach-IsCons (eqb (code c) b'/') c (split s)

attach-append :
    (b : Bool) (c : Char) (xs ys : List String)
    → IsCons xs
    → attach b c (xs ++ ys) ≡ attach b c xs ++ ys
attach-append true c xs ys h = refl
attach-append false c List.[] ys h = absurd h
attach-append false c (List.◌∷◌ x xs) ys h = refl

-- A path and a further part are split apart at the slash between them.
pub split-append : (s t : String) → split (String.◌++◌ s (String.◌++◌ "/" t)) ≡ split s ++ split t
unfolding split
split-append [] t = rw nil-append (rw cons-append (rw nil-append refl))
split-append (c ∷ s) t = rw cons-append (
    rw (split-append s t)
      (attach-append (eqb (code c) b'/') c (split s) (split t) (split-IsCons s)))

pub split_of_NoSlash : (s : String) → NoSlash s → split s ≡ List.◌∷◌ s List.[]
unfolding split
split_of_NoSlash [] h = refl
split_of_NoSlash (c ∷ s) (plain, h) = rw plain (rw (split_of_NoSlash s h) refl)

attach-NoSlash :
    (b : Bool) (c : Char) (parts : List String)
    → eqb (code c) b'/' ≡ b
    → All NoSlash parts
    → All NoSlash (attach b c parts)
attach-NoSlash true c parts e h = (tt, h)
attach-NoSlash false c List.[] e h = ((e, tt), tt)
attach-NoSlash false c (List.◌∷◌ part parts) e (k, h) = ((e, k), h)

pub split-NoSlash : (s : String) → All NoSlash (split s)
unfolding split
split-NoSlash [] = (tt, tt)
split-NoSlash (c ∷ s) = attach-NoSlash (eqb (code c) b'/') c (split s) refl (split-NoSlash s)

join-attach :
    (b : Bool) (c : Char) (parts : List String)
    → eqb (code c) b'/' ≡ b
    → IsCons parts
    → join (attach b c parts) ≡ c ∷ join parts
unfolding join
join-attach b c List.[] e h = absurd h
join-attach true c (List.◌∷◌ x xs) e h =
    let slash : c ≡ "/" = Char-path c "/" (ground arith) in
    rw slash (rw nil-append (rw cons-append (rw nil-append refl)))
join-attach false c (List.◌∷◌ x List.[]) e h = refl
join-attach false c (List.◌∷◌ x (List.◌∷◌ y ys)) e h = cons-append c x _

-- Joining what a text was split into gives the text back.
pub join-split : (s : String) → join (split s) ≡ s
unfolding split join
join-split [] = refl
join-split (c ∷ s) =
    join-attach (eqb (code c) b'/') c (split s) refl (split-IsCons s)
    ∙ ap (λ (t : String). c ∷ t) (join-split s)

pub init-concat : (xs : List String) (x : String) → init (xs ++ List.◌∷◌ x List.[]) ≡ xs
unfolding init
init-concat List.[] x = refl
init-concat (List.◌∷◌ y List.[]) x = refl
init-concat (List.◌∷◌ y (List.◌∷◌ z zs)) x =
    ap (λ (l : List String). List.◌∷◌ y l) (init-concat (List.◌∷◌ z zs) x)

-- The path of the folder that holds a path.
abbrev pub parent : String → String
parent path = join (init (split path))

pub parent-append : (s t : String) → NoSlash t → parent (String.◌++◌ s (String.◌++◌ "/" t)) ≡ s
parent-append s t h =
    rw (split-append s t) (rw (split_of_NoSlash t h) (rw (init-concat (split s) t) (join-split s)))

pub parent_of_NoSlash : (t : String) → NoSlash t → parent t ≡ ""
unfolding init join
parent_of_NoSlash t h = rw (split_of_NoSlash t h) refl

pub join-one : (s : String) → join (List.◌∷◌ s List.[]) ≡ s
unfolding join
join-one s = refl

pub join-cons :
    (s t : String) (parts : List String)
    → join (List.◌∷◌ s (List.◌∷◌ t parts))
      ≡ String.◌++◌ s (String.◌++◌ "/" (join (List.◌∷◌ t parts)))
unfolding join
join-cons s t parts = refl

pub join-nil : join List.[] ≡ ""
unfolding join
join-nil = refl
