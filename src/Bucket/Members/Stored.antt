-- ===== src/Bucket/Members/Stored.antt =====
-- The groups that are stored for addresses: `originalMembersMap` of
-- web/src/components/bucket-members/hooks/useBucketMembersData.ts.
use safebucket.Prelude.{
  ◌≡◌, refl, ◌∙◌, ◌||◌, ◌==◌, eq_iff, Bool-cases, inl, inr, Option, none, some, Option-cases, List,
  [], ◌∷◌, String, arith, if◌then◌else◌,
}
use safebucket.Bucket.Members.{BucketMember, put, put_all, original_members_map}
use safebucket.Bucket.Members.Keys.{contains, Distinct, get, keys}

-- `originalMembersMap`
contains-put :
    (j email group : String) (es : List (String × String))
    → contains j (keys (put email group es)) ≡ ((email == j) || contains j (keys es))
unfolding contains put
contains-put j email group [] = refl
contains-put j email group ((e, g) ∷ es) =
    ground (arith, contains-put j email group es, eq_iff e email, eq_iff e j, eq_iff email j)

put-Distinct :
    (email group : String) (es : List (String × String))
    → Distinct (keys es)
    → Distinct (keys (put email group es))
unfolding put contains
put-Distinct email group [] d = (refl, tt)
put-Distinct email group ((e, g) ∷ es) (new, d) = elim (Bool-cases (e == email)) [
  | inl same ↦ rw same (new, d)
  | inr other ↦ rw other (
    ground (arith, contains-put e email group es, eq_iff e email, eq_iff email e),
    put-Distinct email group es d,
  )
]

put_all-Distinct :
    (ms : List BucketMember) (es : List (String × String))
    → Distinct (keys es)
    → Distinct (keys (put_all ms es))
unfolding put_all
put_all-Distinct [] es d = d
put_all-Distinct (m ∷ ms) es d =
    put_all-Distinct ms (put m.email m.group es) (put-Distinct m.email m.group es d)

get-put :
    (k email group : String) (es : List (String × String))
    → get k (put email group es) ≡ (if email == k then some group else get k es)
unfolding put
get-put k email group [] = refl
get-put k email group ((e, g) ∷ es) =
    ground (arith, get-put k email group es, eq_iff e email, eq_iff e k, eq_iff email k)

abbrev pub or_else : Option String → Option String → Option String
or_else (some a) b = some a
or_else none b = b

pub or_none : (o : Option String) → or_else o none ≡ o
or_none none = refl
or_none (some g) = refl

-- The group that is stored for an address: that of the last entry, if it were listed twice.
abbrev pub stored_group : String → List BucketMember → Option String
stored_group k [] = none
stored_group k (m ∷ ms) = or_else (stored_group k ms) (if m.email == k then some m.group else none)

get-put_all :
    (k : String) (ms : List BucketMember) (es : List (String × String))
    → get k (put_all ms es) ≡ or_else (stored_group k ms) (get k es)
unfolding put_all
get-put_all k [] es = refl
get-put_all k (m ∷ ms) es = elim (Option-cases (stored_group k ms)) [
  | inl none_later ↦
      get-put_all k ms (put m.email m.group es)
      ∙ rw none_later (ground (arith, get-put k m.email m.group es))
  | inr (g, later) ↦ get-put_all k ms (put m.email m.group es) ∙ rw later refl
]

abbrev pub stored : String → Option (List BucketMember) → Option String
stored k none = none
stored k (some ms) = stored_group k ms

pub get-original :
    (k : String) (given : Option (List BucketMember))
    → get k (original_members_map given) ≡ stored k given
unfolding original_members_map
get-original k none = refl
get-original k (some ms) = get-put_all k ms [] ∙ or_none (stored_group k ms)

pub original-Distinct :
    (given : Option (List BucketMember)) → Distinct (keys (original_members_map given))
unfolding original_members_map
original-Distinct none = tt
original-Distinct (some ms) = put_all-Distinct ms [] tt
