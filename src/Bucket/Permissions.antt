-- ===== src/Bucket/Permissions.antt =====
-- What the signed-in user may do in a bucket: `useBucketPermissions` of
-- web/src/hooks/usePermissions.ts, on the session and the members that have been loaded.
use mathlib.Core.Path.{subst}
use safebucket.Prelude.{
  ◌≡◌, ◌≢◌, refl, ap, ◌∙◌, ◌⊎◌, inl, inr, Bool, true, false, ◌==◌, eq_iff, ◌||◌, not, Bool-cases,
  Option, none, some, Option-cases, List, String, find, present, arith,
}
use safebucket.Auth.Platform.{Session}

pub data MemberStatus : Type 0 where
  active invited : MemberStatus

-- `IBucketMember`, less what nothing here reads
pub record BucketMember : Type 0 where
  pub email : String
  pub group : String
  pub status : MemberStatus

pub record Permissions : Type 0 where
  pub is_owner : Bool
  pub is_contributor : Bool
  pub is_viewer : Bool

abbrev email_of : Option Session → Option String
email_of none = none
email_of (some s) = present (some s.email)

abbrev if_active : Option BucketMember → Option BucketMember
if_active none = none
if_active (some m) = elim m.status [ active ↦ some m | invited ↦ none ]

-- `membership`
pub membership : Option Session → Option (List BucketMember) → Option BucketMember
membership session members = elim (email_of session) [
  | none ↦ none
  | some email ↦ elim members [
    | none ↦ none
    | some ms ↦ if_active (find (λ m. m.email == email) ms)
  ]
]

-- `userGroup === name`
abbrev is_group : String → Option String → Bool
is_group name none = false
is_group name (some group) = group == name

abbrev has_group : Option String → Bool
has_group none = false
has_group (some group) = not (group == "")

-- the three flags, from `userGroup`
abbrev permissions_of : Option String → Permissions
permissions_of group = record {
  is_owner = is_group "owner" group;
  is_contributor = is_group "contributor" group || is_group "owner" group;
  is_viewer = has_group group;
}

abbrev group_of : Option BucketMember → Option String
group_of none = none
group_of (some m) = some m.group

pub bucket_permissions : Option Session → Option (List BucketMember) → Permissions
unfolding membership
bucket_permissions session members = permissions_of (group_of (membership session members))

-- The first entry under the user's address, if it is active.
pub record IsMember (session : Option Session) (members : Option (List BucketMember))
    (group : String) : Type 0 where
  pub user : Session
  pub listed : List BucketMember
  pub member : BucketMember
  pub signed_in : session ≡ some user
  pub has_address : user.email ≢ ""
  pub loaded : members ≡ some listed
  pub first : find (λ m. m.email == user.email) listed ≡ some member
  pub is_active : member.status ≡ active
  pub in_group : member.group ≡ group

membership-IsMember :
    (session : Option Session) (members : Option (List BucketMember)) {m : BucketMember}
    → membership session members ≡ some m
    → IsMember session members m.group
unfolding membership
membership-IsMember none members h = cc
membership-IsMember (some s) none h = absurd (ground (arith))
membership-IsMember (some s) (some ms) {m} h =
    elim (Option-cases (find (λ k. k.email == s.email) ms)) [
      | inl unlisted ↦ absurd (ground arith)
      | inr (k, found) ↦
          let same : k ≡ m = ground arith in
          record {
            user = s;
            listed = ms;
            member = m;
            signed_in = refl;
            has_address = ground (arith, eq_iff s.email "");
            loaded = refl;
            first = found ∙ ap some same;
            is_active = ground arith;
            in_group = refl;
          }
    ]

-- Each permission holds only for a signed-in user whose first entry among the members is active:
-- an owner's is in the group `owner`, a contributor's in `owner` or `contributor`, a viewer's in
-- any; and an owner is a contributor, who is a viewer.
pub bucket_permissions_sound :
    (session : Option Session) (members : Option (List BucketMember))
    → let p = bucket_permissions session members in
      (p.is_owner ≡ true → IsMember session members "owner" × (p.is_contributor ≡ true))
      × (p.is_contributor ≡ true
          → (IsMember session members "owner" ⊎ IsMember session members "contributor")
            × (p.is_viewer ≡ true))
      × (p.is_viewer ≡ true → (group : String) × IsMember session members group)
unfolding bucket_permissions
bucket_permissions_sound session members = by_case (membership session members) refl
  where
    by_case :
        (o : Option BucketMember)
        → membership session members ≡ o
        → let p = permissions_of (group_of o) in
          (p.is_owner ≡ true → IsMember session members "owner" × (p.is_contributor ≡ true))
          × (p.is_contributor ≡ true
              → (IsMember session members "owner" ⊎ IsMember session members "contributor")
                × (p.is_viewer ≡ true))
          × (p.is_viewer ≡ true → (group : String) × IsMember session members group)
    by_case none e =
        ((λ h. absurd (ground arith)), (λ h. absurd (ground arith)), (λ h. absurd (ground arith)))
    by_case (some m) e =
        let member = membership-IsMember session members e in
        (
          (λ h.
              let owner = (eq_iff m.group "owner").0 h in
              (subst (IsMember session members) owner member, ground arith)),
          (λ h. elim (Bool-cases (m.group == "owner")) [
            | inl owner ↦
                let same = (eq_iff m.group "owner").0 owner in
                (inl (subst (IsMember session members) same member), rw same refl)
            | inr other ↦
                let same : m.group ≡ "contributor" = ground (arith, eq_iff m.group "contributor") in
                (inr (subst (IsMember session members) same member), rw same refl)
          ]),
          (λ h. (m.group, member)),
        )
