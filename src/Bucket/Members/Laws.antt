-- ===== src/Bucket/Members/Laws.antt =====
-- The list of members under the operations of the form.
use safebucket.Prelude.{
  ◌≡◌, refl, ◌∙◌, Bool, false, not, ◌||◌, ◌==◌, eq_iff, Bool-cases, inl, inr, Option, none, some,
  List, [], ◌∷◌, ◌++◌, String, map, filter, any-append, any-filter, find, arith,
}
use safebucket.Bucket.Email.{is_email, trim, trim_of_is_email}
use safebucket.Bucket.Members.{
  MemberState, Form, has_email, invitation, regroup, add_member, update_member_role,
}

-- Nobody is listed twice.
abbrev pub IsUnique : List MemberState → Type 0
IsUnique [] = Unit
IsUnique (m ∷ ms) = (has_email m.email ms ≡ false) × IsUnique ms

IsUnique-concat :
    (ms : List MemberState) (m : MemberState)
    → has_email m.email ms ≡ false
    → IsUnique ms
    → IsUnique (ms ++ m ∷ [])
unfolding has_email
IsUnique-concat [] m new h = (refl, tt)
IsUnique-concat (n ∷ ms) m new (once, h) = (
  ground (
    arith,
    any-append (λ k. k.email == n.email) ms (m ∷ []),
    eq_iff n.email m.email,
    eq_iff m.email n.email,
  ),
  IsUnique-concat ms m (ground arith) h,
)

has_email-map :
    (email j group : String) (ms : List MemberState)
    → has_email email (map (regroup j group) ms) ≡ has_email email ms
unfolding has_email
has_email-map email j group [] = refl
has_email-map email j group (m ∷ ms) = ground (arith, has_email-map email j group ms)

IsUnique-map :
    (j group : String) (ms : List MemberState) → IsUnique ms → IsUnique (map (regroup j group) ms)
IsUnique-map j group [] h = tt
IsUnique-map j group (m ∷ ms) (once, h) = elim (Bool-cases (m.email == j)) [
  | inl same ↦ rw same (has_email-map m.email j group ms ∙ once, IsUnique-map j group ms h)
  | inr other ↦ rw other (has_email-map m.email j group ms ∙ once, IsUnique-map j group ms h)
]

IsUnique-filter :
    (p : MemberState → Bool) (ms : List MemberState) → IsUnique ms → IsUnique (filter p ms)
unfolding has_email
IsUnique-filter p [] h = tt
IsUnique-filter p (m ∷ ms) (once, h) = elim (Bool-cases (p m)) [
  | inl keeps ↦ rw keeps (any-filter (λ k. k.email == m.email) p ms once, IsUnique-filter p ms h)
  | inr drops ↦ rw drops (IsUnique-filter p ms h)
]

-- Adding a member keeps the list free of repetitions, if it was: the address that is listed is the trimmed one
-- while the one that is looked up is not, but an address that passes the test is not changed by trimming.
pub add_member-IsUnique :
    (form : Form) → IsUnique form.members_state → IsUnique (add_member form).members_state
unfolding add_member
add_member-IsUnique form h =
    elim (Bool-cases ((trim form.new_member_email == "") || not (is_email form.new_member_email))) [
      | inl invalid ↦ rw (add_member, invalid) h
      | inr valid ↦ elim (Bool-cases (has_email form.new_member_email form.members_state)) [
        | inl listed ↦ rw (add_member, valid, listed) h
        | inr new ↦
            rw (add_member, valid, new, trim_of_is_email form.new_member_email (ground arith))
              (IsUnique-concat form.members_state
                (invitation form.new_member_email form.new_member_group) new h)
      ]
    ]

-- Changing a role or removing a member keeps the list free of repetitions, if it was.
pub update_member_role-IsUnique :
    (current : Option String) (email group : String) (form : Form)
    → IsUnique form.members_state
    → IsUnique (update_member_role current email group form).members_state
unfolding update_member_role
update_member_role-IsUnique current email group form h =
    elim (Bool-cases (elim current [ none ↦ false | some own ↦ email == own ])) [
      | inl own ↦ rw (update_member_role, own) h
      | inr other ↦ elim (Bool-cases (group == "remove")) [
        | inl gone ↦ rw (update_member_role, other, gone) (IsUnique-filter _ form.members_state h)
        | inr kept ↦
            rw (update_member_role, other, kept) (IsUnique-map email group form.members_state h)
      ]
    ]

find-regroup :
    (own email group : String) (ms : List MemberState)
    → (email == own) ≡ false
    → find (λ m. m.email == own) (map (regroup email group) ms) ≡ find (λ m. m.email == own) ms
find-regroup own email group [] other = refl
find-regroup own email group (m ∷ ms) other = ground (
  arith,
  find-regroup own email group ms other,
  eq_iff m.email email,
  eq_iff m.email own,
  eq_iff email own,
)

find-filter :
    (own email : String) (ms : List MemberState)
    → (email == own) ≡ false
    → find (λ m. m.email == own) (filter (λ m. not (m.email == email)) ms)
      ≡ find (λ m. m.email == own) ms
find-filter own email [] other = refl
find-filter own email (m ∷ ms) other = ground (
  arith,
  find-filter own email ms other,
  eq_iff m.email email,
  eq_iff m.email own,
  eq_iff email own,
)

-- Nobody changes or removes their own membership with the form: whichever address and group are
-- given, the entry of the current user stays as it was.
pub update_member_role-keeps_own :
    (own email group : String) (form : Form)
    → find (λ m. m.email == own) (update_member_role (some own) email group form).members_state
      ≡ find (λ m. m.email == own) form.members_state
unfolding update_member_role
update_member_role-keeps_own own email group form = elim (Bool-cases (email == own)) [
  | inl same ↦ rw (update_member_role, same) refl
  | inr other ↦ elim (Bool-cases (group == "remove")) [
    | inl gone ↦
        rw (update_member_role, other, gone) (find-filter own email form.members_state other)
    | inr kept ↦
        rw (update_member_role, other, kept) (find-regroup own email group form.members_state other)
  ]
]
