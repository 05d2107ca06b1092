-- ===== src/Drop/Folders/Created.antt =====
-- Each folder is created under the folder of its parent path.
use mathlib.Core.Path.{subst}
use safebucket.Prelude.{
  ℕ, suc, ◌≡◌, ◌≢◌, refl, sym, ap, ◌∙◌, ◌⊎◌, inl, inr, false, ◌==◌, eq_iff, eq_refl, Bool-cases,
  Option, none, some, Option-cases, List, [], ◌∷◌, String, arith, if◌then◌else◌, any, All, split,
  last, parent,
}
use safebucket.Drop.Folders.{IdMap, get, Call, create_each, create_folders}
use safebucket.Drop.Folders.Order.{Has, IsOrdered, IsNodup}

-- Against the final map: the n-th call and those after it each name the last part of a path, and
-- the folder under which it is made is the one of the path's parent, which for a path at the top is
-- the one dropped on; and the path's folder in the map is the id that this call has returned.
abbrev pub IsPlaced :
    (ℕ → Call → Option String) → Option String → IdMap → ℕ → List String → List Call → Type 0
IsPlaced create root m n [] [] = Unit
IsPlaced create root m n (path ∷ paths) (c ∷ calls) =
    (c.name ≡ last (split path))
    × (c.folder_id ≡ (if parent path == "" then root else get (parent path) m))
    × (get path m ≡ create n c)
    × (get path m ≢ none)
    × IsPlaced create root m (suc n) paths calls
IsPlaced create root m n [] (c ∷ calls) = ⊥
IsPlaced create root m n (path ∷ paths) [] = ⊥

module _ (create : ℕ → Call → Option String) (root : Option String) where
  -- Entries that are there stay as they are: later paths are other ones.
  get-create_each :
      (n : ℕ) (q : String) (paths : List String) (m m' : IdMap)
      → any (λ r. r == q) paths ≡ false
      → (create_each create n paths m).0 ≡ some m'
      → get q m' ≡ get q m
  unfolding create_each get
  get-create_each n q [] m m' h e = ground arith
  get-create_each n q (p ∷ ps) m m' h e =
      elim (Option-cases
        (create n (record { name = last (split p); folder_id = get (parent p) m }))) [
          | inl fails ↦ ground arith
          | inr (id, made) ↦
              let ih = get-create_each (suc n) q ps ((p, some id) ∷ m) m' in ground (arith, ih)
        ]

  -- A path that comes later is neither empty nor among those already created.
  abbrev pub IsFresh : List String → String → Type 0
  IsFresh seen q = (q ≢ "") × (any (λ r. r == q) seen ≡ false)

  IsFresh-cons :
      (p : String) (seen ps : List String)
      → any (λ r. r == p) ps ≡ false
      → All (IsFresh seen) ps
      → All (IsFresh (p ∷ seen)) ps
  IsFresh-cons p seen [] e h = tt
  IsFresh-cons p seen (q ∷ qs) e ((k, l), h) =
      ((k, ground (arith, eq_iff p q, eq_iff q p)), IsFresh-cons p seen qs (ground arith) h)

  not-later :
      (q : String) (seen ps : List String)
      → Has q seen
      → All (IsFresh seen) ps
      → any (λ r. r == q) ps ≡ false
  not-later q seen [] held h = refl
  not-later q seen (p ∷ ps) held ((k, l), h) = elim (Bool-cases (p == q)) [
    | inl same ↦ cc (subst (λ r. any (λ t. t == r) seen ≡ false) ((eq_iff p q).0 same) l, held)
    | inr other ↦ rw other (not-later q seen ps held h)
  ]

  -- The folder of a path's parent does not change any more.
  placed_folder :
      (n : ℕ) (seen : List String) (p : String) (ps : List String) (m m' : IdMap) (id : String)
      → get "" m ≡ root
      → (parent p ≡ "") ⊎ Has (parent p) seen
      → any (λ r. r == p) seen ≡ false
      → All (IsFresh seen) ps
      → (create_each create (suc n) ps ((p, some id) ∷ m)).0 ≡ some m'
      → get (parent p) m ≡ (if parent p == "" then root else get (parent p) m')
  unfolding get
  placed_folder n seen p ps m m' id top before first fresh e = elim (Bool-cases (parent p == "")) [
    | inl at_top ↦ rw at_top (ap (λ q. get q m) ((eq_iff (parent p) "").0 at_top) ∙ top)
    | inr deep ↦
        let held : Has (parent p) seen = known before deep in
        let kept =
          get-create_each (suc n) (parent p) ps ((p, some id) ∷ m) m'
            (not-later (parent p) seen ps held fresh) e in
        rw deep (ground (arith, other held))
  ]
    where
      known : (parent p ≡ "") ⊎ Has (parent p) seen → (parent p == "") ≡ false → Has (parent p) seen
      known (inl top') deep = ground (arith, eq_iff (parent p) "")
      known (inr held) deep = held

      other : Has (parent p) seen → (p == parent p) ≡ false
      other held = elim (Bool-cases (p == parent p)) [
        | inl same ↦
            cc (
              subst (λ r. any (λ t. t == r) seen ≡ false) ((eq_iff p (parent p)).0 same) first,
              held,
            )
        | inr differs ↦ differs
      ]

  create_each-IsPlaced :
      (n : ℕ) (seen paths : List String) (m m' : IdMap)
      → get "" m ≡ root
      → IsOrdered seen paths
      → IsNodup paths
      → All (IsFresh seen) paths
      → (create_each create n paths m).0 ≡ some m'
      → IsPlaced create root m' n paths (create_each create n paths m).1
  unfolding create_each get
  create_each-IsPlaced n seen [] m m' top ordered distinct fresh e = tt
  create_each-IsPlaced n seen (p ∷ ps) m m' top (before, ordered) (once, distinct)
        ((given, first), fresh) e =
      let c : Call = record { name = last (split p); folder_id = get (parent p) m } in
      elim (Option-cases (create n c)) [
        | inl fails ↦ absurd (ground arith)
        | inr (id, made) ↦
            let m₁ : IdMap = (p, some id) ∷ m in
            let rest = create_each create (suc n) ps m₁ in
            let step : create_each create n (p ∷ ps) m ≡ (rest.0, c ∷ rest.1) = ground arith in
            let goes_on : rest.0 ≡ some m' = ground arith in
            let own : get p m' ≡ get p m₁ = get-create_each (suc n) p ps m₁ m' once goes_on in
            let here : get p m₁ ≡ some id = rw (eq_refl p) refl in
            rw step (
              refl,
              placed_folder n seen p ps m m' id top before first fresh goes_on,
              own ∙ here ∙ sym made,
              (λ gone. cc (own, here, gone)),
              create_each-IsPlaced (suc n) (p ∷ seen) ps m₁ m' (ground (arith, eq_iff p "")) ordered
                  distinct (IsFresh-cons p seen ps once fresh) goes_on,
            )
      ]

-- If no call fails, every folder that the drop needs is created once, in the order given, by its
-- own name, under the folder of its parent path, which has been created by then, or under the one
-- dropped on; and the map that is returned has,
-- for each, the id that its call has returned. This is for a list without
-- repetition and without the empty path in which a path comes after its parent.
pub create_folders-IsPlaced :
    (create : ℕ → Call → Option String) (root : Option String) (paths : List String) (m : IdMap)
    → IsOrdered [] paths
    → IsNodup paths
    → All (λ q. q ≢ "") paths
    → (create_folders create paths root).0 ≡ some m
    → IsPlaced create root m 0 paths (create_folders create paths root).1
unfolding create_folders get
create_folders-IsPlaced create root paths m ordered distinct given e =
    create_each-IsPlaced create root 0 [] paths (("", root) ∷ []) m refl ordered distinct
      (fresh_paths paths given) e
  where
    fresh_paths : (ps : List String) → All (λ q. q ≢ "") ps → All (IsFresh create root []) ps
    fresh_paths [] h = tt
    fresh_paths (q ∷ qs) (k, h) = ((k, refl), fresh_paths qs h)
