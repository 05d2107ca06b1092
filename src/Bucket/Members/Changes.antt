-- ===== src/Bucket/Members/Changes.antt =====
-- Whether the list of members has changes: `hasChanges` of
-- web/src/components/bucket-members/hooks/useBucketMembersData.ts, against what is stored.
use safebucket.Prelude.{
  ℕ, ◌≡◌, ◌↔◌, refl, sym, ◌∙◌, Bool, false, not, ◌||◌, eq_iff, some, List, [], ◌∷◌, String, map,
  any, arith, length, All, length-map, eqb,
}
use safebucket.Bucket.Members.{
  BucketMember, MemberState, Form, original_members_map, is_changed, has_changes, has_email,
  members_list,
}
use safebucket.Bucket.Members.Laws.{IsUnique}
use safebucket.Bucket.Members.Keys.{
  contains, Distinct, get, keys, same_groups, same_length, All-same, Distinct-All,
}
use safebucket.Bucket.Members.Stored.{stored, get-original, original-Distinct}

-- The members of the list, each with the group that it has there.
abbrev groups : List MemberState → List (String × String)
groups ms = map (λ (m : MemberState). (m.email, m.group)) ms

contains-has_email :
    (k : String) (ms : List MemberState) → contains k (keys (groups ms)) ≡ has_email k ms
unfolding contains has_email
contains-has_email k [] = refl
contains-has_email k (m ∷ ms) = ground (arith, contains-has_email k ms)

IsUnique-Distinct : (ms : List MemberState) → IsUnique ms → Distinct (keys (groups ms))
IsUnique-Distinct [] h = tt
IsUnique-Distinct (m ∷ ms) (once, h) =
    (contains-has_email m.email ms ∙ once, IsUnique-Distinct ms h)

unchanged-get :
    (m : MemberState) (es : List (String × String))
    → is_changed es m ≡ false
    → get m.email es ≡ some m.group
unchanged-get m [] h = cc
unchanged-get m ((e, g) ∷ es) h = ground (arith, unchanged-get m es, eq_iff g m.group)

get-unchanged :
    (m : MemberState) (es : List (String × String))
    → get m.email es ≡ some m.group
    → is_changed es m ≡ false
get-unchanged m [] h = cc
get-unchanged m ((e, g) ∷ es) h = ground (arith, get-unchanged m es, eq_iff g m.group)

module _ (es : List (String × String)) where
  any-All :
      (ms : List MemberState)
      → any (λ m. m.is_new || is_changed es m) ms ≡ false
      → (any (λ m. m.is_new) ms ≡ false)
        × All (λ (a : String × String). get a.0 es ≡ some a.1) (groups ms)
  any-All [] h = (refl, tt)
  any-All (m ∷ ms) h =
      let (old, rest) = any-All ms (ground arith) in
      (ground arith, (unchanged-get m es (ground arith), rest))

  All-any :
      (ms : List MemberState)
      → any (λ m. m.is_new) ms ≡ false
      → All (λ (a : String × String). get a.0 es ≡ some a.1) (groups ms)
      → any (λ m. m.is_new || is_changed es m) ms ≡ false
  All-any [] old h = refl
  All-any (m ∷ ms) old (here, h) =
      ground (arith, get-unchanged m es here, All-any ms (ground arith) h)

no_changes-cases : (b : Bool) (m n : ℕ) → (b || not (eqb m n)) ≡ false → (b ≡ false) × (m ≡ n)
no_changes-cases b m n h = ground arith

no_changes : (b : Bool) (m n : ℕ) → b ≡ false → m ≡ n → (b || not (eqb m n)) ≡ false
no_changes b m n h e = ground arith

-- In a list where nobody stands twice there is nothing to save exactly when nobody in it is new and
-- it gives every address the group that is stored for it, and no group to an address for which none
-- is stored.
pub has_changes_iff :
    (form : Form)
    → IsUnique form.members_state
    → (has_changes form ≡ false) ↔ (
        (any (λ m. m.is_new) form.members_state ≡ false)
        × ((k : String) → get k (members_list form) ≡ stored k form.data_given))
unfolding has_changes members_list
has_changes_iff form h = (
  (λ unchanged.
      let (quiet, long) = no_changes-cases _ (length es) (length ms) unchanged in
      let (old, found) = any-All es ms quiet in
      (
        old,
        (λ k.
            same_groups (groups ms) es (IsUnique-Distinct ms h) found
              (length-map (λ (m : MemberState). (m.email, m.group)) ms ∙ sym long) k
            ∙ get-original k form.data_given),
      )),
  (λ (old, same).
      let agree = λ (k : String). same k ∙ sym (get-original k form.data_given) in
      no_changes _ (length es) (length ms)
        (All-any es ms old (
          All-same (groups ms) es (groups ms) agree
            (Distinct-All (groups ms) (IsUnique-Distinct ms h))))
        (sym (
            same_length (groups ms) es (IsUnique-Distinct ms h) (original-Distinct form.data_given)
              agree)
          ∙ length-map (λ (m : MemberState). (m.email, m.group)) ms)),
)
  where
    ms : List MemberState
    ms = form.members_state

    es : List (String × String)
    es = original_members_map form.data_given

-- What the API lists, with the groups alone.
abbrev pub given_groups : List BucketMember → List (String × String)
given_groups ms = map (λ (m : BucketMember). (m.email, m.group)) ms
