-- ===== src/Drop/Folders/Order.antt =====
-- Folders come before what they hold.
use safebucket.Prelude.{
  ◌<◌, ◌≡◌, refl, ◌⊎◌, inl, inr, true, false, ◌==◌, eq_iff, eq_refl, Bool-cases, List, [], ◌∷◌,
  ◌++◌, String, arith, any, any-append, length-append, All, All-append, split, parent,
  parent-append, parent_of_NoSlash, split-append, split_of_NoSlash, split-NoSlash, NoSlash,
}
use safebucket.Drop.Folders.{FileWithPath, add, below, add_parts, collect, depth}

abbrev pub Has : String → List String → Type 0
Has path paths = any (λ q. q == path) paths ≡ true

-- The folder that holds a path is the drop's own, or is in the list and less deep.
abbrev pub HasParent : List String → String → Type 0
HasParent set path =
    (parent path ≡ "") ⊎ (Has (parent path) set × (depth (parent path) < depth path))

-- Each path comes after the folder that holds it.
abbrev pub IsOrdered : List String → List String → Type 0
IsOrdered seen [] = Unit
IsOrdered seen (path ∷ paths) =
    ((parent path ≡ "") ⊎ Has (parent path) seen) × IsOrdered (path ∷ seen) paths

-- No path is listed twice.
abbrev pub IsNodup : List String → Type 0
IsNodup [] = Unit
IsNodup (path ∷ paths) = (any (λ q. q == path) paths ≡ false) × IsNodup paths

pub Has-add : (q path : String) (set : List String) → Has q set → Has q (add path set)
Has-add q path set h = ground (arith, any-append (λ r. r == q) set (path ∷ []))

pub Has-add_self : (path : String) (set : List String) → Has path (add path set)
Has-add_self path set = ground (arith, any-append (λ r. r == path) set (path ∷ []), eq_refl path)

HasParent-add : (set : List String) (p q : String) → HasParent set q → HasParent (add p set) q
HasParent-add set p q (inl top) = inl top
HasParent-add set p q (inr (held, deeper)) = inr (Has-add (parent q) p set held, deeper)

All-HasParent-add :
    (set : List String) (p : String) (qs : List String)
    → All (HasParent set) qs
    → All (HasParent (add p set)) qs
All-HasParent-add set p [] h = tt
All-HasParent-add set p (q ∷ qs) (k, h) = (HasParent-add set p q k, All-HasParent-add set p qs h)

pub All-add :
    (P : String → Type 0) (set : List String) (p : String) → All P set → P p → All P (add p set)
All-add P set p h k = elim (Bool-cases (any (λ q. q == p) set)) [
  | inl old ↦ rw old h
  | inr new ↦ rw new (All-append P set (p ∷ []) h (k, tt))
]

IsNodup-concat :
    (set : List String) (p : String)
    → any (λ q. q == p) set ≡ false
    → IsNodup set
    → IsNodup (set ++ p ∷ [])
IsNodup-concat [] p e h = (refl, tt)
IsNodup-concat (q ∷ qs) p e (k, h) =
    ground
      (arith, any-append (λ r. r == q) qs (p ∷ []), eq_iff q p, eq_iff p q, IsNodup-concat qs p)

IsNodup-add : (set : List String) (p : String) → IsNodup set → IsNodup (add p set)
IsNodup-add set p h = elim (Bool-cases (any (λ q. q == p) set)) [
  | inl old ↦ rw old h
  | inr new ↦ rw new (IsNodup-concat set p new h)
]

below-HasParent :
    (set : List String) (current part : String)
    → (current ≡ "") ⊎ Has current set
    → NoSlash part
    → HasParent set (below current part)
below-HasParent set current part known plain = elim (Bool-cases (current == "")) [
  | inl top ↦ rw top (inl (parent_of_NoSlash part plain))
  | inr deep ↦ rw deep (
      inr (
        rw (parent-append current part plain) (ground (arith, eq_iff current "")),
        rw (parent-append current part plain) (
            rw (split-append current part) (
              rw (split_of_NoSlash part plain)
                (omega (arith, length-append {0} (split current) (part ∷ []))))),
      ))
]

-- What holds of the set of folders while it is built.
pub record IsFamily (set : List String) : Type 0 where
  pub parents : All (HasParent set) set
  pub distinct : IsNodup set

add_parts-IsFamily :
    (current : String) (parts set : List String)
    → (current ≡ "") ⊎ Has current set
    → All NoSlash parts
    → IsFamily set
    → IsFamily (add_parts current parts set)
unfolding add_parts
add_parts-IsFamily current [] set known plain v = v
add_parts-IsFamily current (part ∷ parts) set known (k, plain) v =
    let p = below current part in
    add_parts-IsFamily p parts (add p set) (inr (Has-add_self p set)) plain (record {
      parents =
          All-add (HasParent (add p set)) set p (All-HasParent-add set p set v.parents)
            (HasParent-add set p p (below-HasParent set current part known k));
      distinct = IsNodup-add set p v.distinct;
    })

pub collect-IsFamily :
    (files : List FileWithPath) (set : List String) → IsFamily set → IsFamily (collect files set)
unfolding collect
collect-IsFamily [] set v = v
collect-IsFamily (f ∷ fs) set v = elim (Bool-cases (f.relative_path == "")) [
  | inl flat ↦ rw flat (collect-IsFamily fs set v)
  | inr nested ↦ rw nested (
      collect-IsFamily fs (add_parts "" (split f.relative_path) set) (
        add_parts-IsFamily "" (split f.relative_path) set (inl refl) (split-NoSlash f.relative_path)
          v))
]
