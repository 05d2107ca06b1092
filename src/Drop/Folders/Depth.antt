-- ===== src/Drop/Folders/Depth.antt =====
-- Sorting the folders by depth, and what `extractFolderPaths` promises.
use safebucket.Prelude.{
  ℕ, ◌≤◌, ◌<◌, ◌≡◌, refl, ap, ◌∙◌, ◌⊎◌, inl, inr, Bool, false, ◌||◌, ◌==◌, eq_iff, Bool-cases, List,
  [], ◌∷◌, String, arith, leb, any, All, parent,
}
use safebucket.Drop.Folders.Order.{Has, HasParent, IsOrdered, IsNodup, collect-IsFamily}
use safebucket.Drop.Folders.{
  FileWithPath, collect, depth, insert, sort_by_depth, extract_folder_paths,
}

-- Less deep folders first.
abbrev pub IsSorted : List String → Type 0
IsSorted [] = Unit
IsSorted (p ∷ ps) = All (λ q. depth p ≤ depth q) ps × IsSorted ps

any-insert :
    (f : String → Bool) (p : String) (qs : List String) → any f (insert p qs) ≡ (f p || any f qs)
unfolding insert
any-insert f p [] = refl
any-insert f p (q ∷ qs) = ground (arith, any-insert f p qs)

pub any-sort_by_depth : (f : String → Bool) (ps : List String) → any f (sort_by_depth ps) ≡ any f ps
unfolding sort_by_depth
any-sort_by_depth f [] = refl
any-sort_by_depth f (p ∷ ps) =
    ground (arith, any-insert f p (sort_by_depth ps), any-sort_by_depth f ps)

All-insert :
    (P : String → Type 0) (p : String) (qs : List String) → P p → All P qs → All P (insert p qs)
unfolding insert
All-insert P p [] k h = (k, tt)
All-insert P p (q ∷ qs) k (l, h) = elim (Bool-cases (leb (depth p) (depth q))) [
  | inl first ↦ rw first (k, (l, h))
  | inr later ↦ rw later (l, All-insert P p qs k h)
]

pub All-sort_by_depth :
    (P : String → Type 0) (ps : List String) → All P ps → All P (sort_by_depth ps)
unfolding sort_by_depth
All-sort_by_depth P [] h = tt
All-sort_by_depth P (p ∷ ps) (k, h) = All-insert P p (sort_by_depth ps) k (All-sort_by_depth P ps h)

All-le_trans :
    {n m : ℕ} (qs : List String) → n ≤ m → All (λ q. m ≤ depth q) qs → All (λ q. n ≤ depth q) qs
All-le_trans [] k h = tt
All-le_trans (q ∷ qs) k (l, h) = (omega arith, All-le_trans qs k h)

IsSorted-insert : (p : String) (qs : List String) → IsSorted qs → IsSorted (insert p qs)
unfolding insert
IsSorted-insert p [] h = (tt, tt)
IsSorted-insert p (q ∷ qs) (k, h) = elim (Bool-cases (leb (depth p) (depth q))) [
  | inl first ↦
      let below_q : depth p ≤ depth q = ground arith in
      rw first ((below_q, All-le_trans qs below_q k), (k, h))
  | inr later ↦
      rw later (All-insert (λ r. depth q ≤ depth r) p qs (ground arith) k, IsSorted-insert p qs h)
]

IsSorted-sort_by_depth : (ps : List String) → IsSorted (sort_by_depth ps)
unfolding sort_by_depth
IsSorted-sort_by_depth [] = tt
IsSorted-sort_by_depth (p ∷ ps) = IsSorted-insert p (sort_by_depth ps) (IsSorted-sort_by_depth ps)

IsNodup-insert :
    (p : String) (qs : List String)
    → any (λ q. q == p) qs ≡ false
    → IsNodup qs
    → IsNodup (insert p qs)
unfolding insert
IsNodup-insert p [] e h = (refl, tt)
IsNodup-insert p (q ∷ qs) e (k, h) =
    ground (arith, eq_iff p q, eq_iff q p, any-insert (λ r. r == q) p qs, IsNodup-insert p qs)

IsNodup-sort_by_depth : (ps : List String) → IsNodup ps → IsNodup (sort_by_depth ps)
unfolding sort_by_depth
IsNodup-sort_by_depth [] h = tt
IsNodup-sort_by_depth (p ∷ ps) (e, h) =
    IsNodup-insert p (sort_by_depth ps) (any-sort_by_depth (λ q. q == p) ps ∙ e)
      (IsNodup-sort_by_depth ps h)

-- A list sorted by depth that has every parent has it in time.
not-Has_of_deep :
    (r : String) (qs : List String) → All (λ q. depth r < depth q) qs → any (λ q. q == r) qs ≡ false
not-Has_of_deep r [] h = refl
not-Has_of_deep r (q ∷ qs) (k, h) = elim (Bool-cases (q == r)) [
  | inl same ↦ absurd (omega (arith, ap depth ((eq_iff q r).0 same)))
  | inr other ↦ rw other (not-Has_of_deep r qs h)
]

All-lt-of_le :
    (p : String) {n : ℕ} (qs : List String)
    → n < depth p
    → All (λ q. depth p ≤ depth q) qs
    → All (λ q. n < depth q) qs
All-lt-of_le p [] k h = tt
All-lt-of_le p (q ∷ qs) k (l, h) = (omega arith, All-lt-of_le p qs k h)

IsOrdered-of_IsSorted :
    (all seen rest : List String)
    → ((q : String) → any (λ r. r == q) all ≡ (any (λ r. r == q) seen || any (λ r. r == q) rest))
    → IsSorted rest
    → All (HasParent all) rest
    → IsOrdered seen rest
IsOrdered-of_IsSorted all seen [] e h k = tt
IsOrdered-of_IsSorted all seen (p ∷ ps) e (s, h) (k, l) =
    (placed k, IsOrdered-of_IsSorted all (p ∷ seen) ps (λ q. ground (arith, e q)) h l)
  where
    placed : HasParent all p → (parent p ≡ "") ⊎ Has (parent p) seen
    placed (inl top) = inl top
    placed (inr (held, deeper)) =
        let late = not-Has_of_deep (parent p) (p ∷ ps) (deeper, All-lt-of_le p ps deeper s) in
        inr (ground (arith, e (parent p)))

HasParent-sort :
    (all ps : List String) → All (HasParent all) ps → All (HasParent (sort_by_depth all)) ps
HasParent-sort all [] h = tt
HasParent-sort all (p ∷ ps) (inl top, h) = (inl top, HasParent-sort all ps h)
HasParent-sort all (p ∷ ps) (inr (held, deeper), h) =
    (inr ((any-sort_by_depth (λ q. q == parent p) all ∙ held), deeper), HasParent-sort all ps h)

-- Whatever has been dropped, the folders to create are listed without repetition, and each one
-- comes after the folder that holds it, if that is not the one dropped on.
pub extract_folder_paths-IsOrdered :
    (files : List FileWithPath)
    → IsOrdered [] (extract_folder_paths files) × IsNodup (extract_folder_paths files)
unfolding extract_folder_paths
extract_folder_paths-IsOrdered files =
    let set = collect files [] in
    let v = collect-IsFamily files [] (record { parents = tt; distinct = tt }) in
    let sorted = sort_by_depth set in
    (
      IsOrdered-of_IsSorted sorted [] sorted (λ q. refl) (IsSorted-sort_by_depth set)
          (HasParent-sort set sorted (All-sort_by_depth (HasParent set) set v.parents)),
      IsNodup-sort_by_depth set v.distinct,
    )
