-- ===== src/Bucket/Members/Keys.antt =====
-- Lists of addresses with their groups, as the list of members and `originalMembersMap` of
-- web/src/components/bucket-members/hooks/useBucketMembersData.ts are read: what is found in them,
-- and when two hold the same.
use safebucket.Prelude.{
  ◌+◌, ◌≤◌, ◌≡◌, ◌≢◌, refl, sym, ◌∙◌, Bool, true, false, not, ◌==◌, eq_iff, eq_refl, Bool-cases,
  inl, inr, Option, none, some, Option-cases, List, [], ◌∷◌, String, map, filter, any, arith,
  length, length-filter-le, All, if◌then◌else◌, length-map,
}

unfoldable pub contains : String → List String → Bool
contains k ks = any (λ j. j == k) ks

abbrev pub Distinct : List String → Type 0
Distinct [] = Unit
Distinct (k ∷ ks) = (contains k ks ≡ false) × Distinct ks

abbrev remove : String → List String → List String
remove k ks = filter (λ j. not (j == k)) ks

length-remove :
    (k : String) (ks : List String) → contains k ks ≡ true → length (remove k ks) + 1 ≤ length ks
unfolding contains
length-remove k [] h = cc
length-remove k (j ∷ ks) h =
    ground (arith, length-remove k ks, length-filter-le (λ (i : String). not (i == k)) ks)

contains-remove :
    (j k : String) (ks : List String)
    → (k == j) ≡ false
    → contains j ks ≡ true
    → contains j (remove k ks) ≡ true
unfolding contains
contains-remove j k [] other h = cc
contains-remove j k (i ∷ ks) other h =
    ground (arith, contains-remove j k ks other, eq_iff i j, eq_iff i k, eq_iff k j)

All-contains-remove :
    (k : String) (js ks : List String)
    → contains k js ≡ false
    → All (λ j. contains j ks ≡ true) js
    → All (λ j. contains j (remove k ks) ≡ true) js
unfolding contains
All-contains-remove k [] ks new h = tt
All-contains-remove k (j ∷ js) ks new (here, h) = (
  contains-remove j k ks (ground (arith, eq_iff j k, eq_iff k j)) here,
  All-contains-remove k js ks (ground arith) h,
)

-- Distinct texts that all stand in a list are no more than it has.
length-Distinct-le :
    (js ks : List String) → Distinct js → All (λ j. contains j ks ≡ true) js → length js ≤ length ks
length-Distinct-le [] ks d h = omega arith
length-Distinct-le (j ∷ js) ks (new, d) (here, h) = omega (
  arith,
  length-remove j ks here,
  length-Distinct-le js (remove j ks) d (All-contains-remove j js ks new h),
)

-- The group that goes with an address in a list of both.
abbrev pub get : String → List (String × String) → Option String
get k [] = none
get k ((e, g) ∷ es) = if e == k then some g else get k es

abbrev pub keys : List (String × String) → List String
keys es = map (λ (e : String × String). e.0) es

pub get-some :
    (k : String) (es : List (String × String)) {g : String}
    → get k es ≡ some g
    → contains k (keys es) ≡ true
unfolding contains
get-some k [] h = cc
get-some k ((e, g') ∷ es) {g} h = ground (arith, get-some k es {g = g})

some-get :
    (k : String) (es : List (String × String))
    → contains k (keys es) ≡ true
    → (g : String) × (get k es ≡ some g)
unfolding contains
some-get k [] h = cc
some-get k ((e, g) ∷ es) h = elim (Bool-cases (e == k)) [
  | inl here ↦ (g, rw here refl)
  | inr later ↦ let (g', found) = some-get k es (ground arith) in (g', rw later found)
]

All-keys :
    (xs ys : List (String × String))
    → All (λ (a : String × String). get a.0 ys ≡ some a.1) xs
    → All (λ j. contains j (keys ys) ≡ true) (keys xs)
All-keys [] ys h = tt
All-keys ((e, g) ∷ xs) ys (here, h) = (get-some e ys here, All-keys xs ys h)

get-All :
    (k : String) (xs ys : List (String × String)) {g : String}
    → All (λ (a : String × String). get a.0 ys ≡ some a.1) xs
    → get k xs ≡ some g
    → get k ys ≡ some g
get-All k [] ys h e = cc
get-All k ((j, f) ∷ xs) ys {g} (here, h) e = elim (Bool-cases (j == k)) [
  | inl same ↦ rw (← (eq_iff j k).0 same) (here ∙ ground arith)
  | inr other ↦ get-All k xs ys h (ground arith)
]

get-none-contains :
    (k : String) (es : List (String × String)) → get k es ≡ none → contains k (keys es) ≡ false
get-none-contains k es gone = elim (Bool-cases (contains k (keys es))) [
  | inr absent ↦ absent
  | inl there ↦ let (g, found) = some-get k es there in absurd (cc)
]

crowded :
    (k : String) (xs ys : List (String × String))
    → Distinct (keys xs)
    → All (λ (a : String × String). get a.0 ys ≡ some a.1) xs
    → get k xs ≡ none
    → contains k (keys ys) ≡ true
    → length xs ≢ length ys
crowded k xs ys d h gone there long = omega (
  arith,
  length-map (λ (e : String × String). e.0) xs,
  length-map (λ (e : String × String). e.0) ys,
  length-remove k (keys ys) there,
  length-Distinct-le (keys xs) (remove k (keys ys)) d
      (All-contains-remove k (keys xs) (keys ys) (get-none-contains k xs gone) (All-keys xs ys h)),
)

-- Two lists of distinct addresses and their groups, xs long xs each other, of which one is contained
-- in the other, hold the same.
pub same_groups :
    (xs ys : List (String × String))
    → Distinct (keys xs)
    → All (λ (a : String × String). get a.0 ys ≡ some a.1) xs
    → length xs ≡ length ys
    → (k : String) → get k xs ≡ get k ys
same_groups xs ys d h long k = elim (Option-cases (get k xs)) [
  | inr (g, here) ↦ here ∙ sym (get-All k xs ys h here)
  | inl gone ↦ elim (Option-cases (get k ys)) [
    | inl absent ↦ gone ∙ sym absent
    | inr (g, there) ↦ absurd (crowded k xs ys d h gone (get-some k ys there) long)
  ]
]

All-cons :
    (e g : String) (xs ys : List (String × String))
    → contains e (keys xs) ≡ false
    → All (λ (a : String × String). get a.0 ys ≡ some a.1) xs
    → All (λ (a : String × String). get a.0 ((e, g) ∷ ys) ≡ some a.1) xs
unfolding contains
All-cons e g [] ys new h = tt
All-cons e g ((j, f) ∷ xs) ys new (here, h) =
    (ground (arith, eq_iff e j, eq_iff j e), All-cons e g xs ys (ground arith) h)

pub Distinct-All :
    (xs : List (String × String))
    → Distinct (keys xs)
    → All (λ (a : String × String). get a.0 xs ≡ some a.1) xs
Distinct-All [] d = tt
Distinct-All ((e, g) ∷ xs) (new, d) =
    (rw (eq_refl e) refl, All-cons e g xs xs new (Distinct-All xs d))

pub All-same :
    (xs ys zs : List (String × String))
    → ((k : String) → get k xs ≡ get k ys)
    → All (λ (a : String × String). get a.0 xs ≡ some a.1) zs
    → All (λ (a : String × String). get a.0 ys ≡ some a.1) zs
All-same xs ys [] same h = tt
All-same xs ys (a ∷ zs) same (here, h) = (sym (same a.0) ∙ here, All-same xs ys zs same h)

-- And lists that hold the same are as long as each other.
pub same_length :
    (xs ys : List (String × String))
    → Distinct (keys xs)
    → Distinct (keys ys)
    → ((k : String) → get k xs ≡ get k ys)
    → length xs ≡ length ys
same_length xs ys d e same = omega (
  arith,
  length-map (λ (e : String × String). e.0) xs,
  length-map (λ (e : String × String). e.0) ys,
  length-Distinct-le (keys xs) (keys ys) d
      (All-keys xs ys (All-same xs ys xs same (Distinct-All xs d))),
  length-Distinct-le (keys ys) (keys xs) e
      (All-keys ys xs (All-same ys xs ys (λ k. sym (same k)) (Distinct-All ys e))),
)
