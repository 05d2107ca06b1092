-- ===== src/Bucket/Members.antt =====
-- The members of a bucket: web/src/components/bucket-members/hooks/useBucketMembersData.ts.
pub mod Laws
pub mod Keys
pub mod Stored
pub mod Changes
use safebucket.Prelude.{
  ℕ, ◌≡◌, ◌≢◌, refl, ap, ◌∙◌, Bool, true, false, not, ◌&&◌, ◌||◌, ◌==◌, eq_iff, eq_refl, Bool-cases,
  inl, inr, Option, none, some, Option-cases, List, [], ◌∷◌, ◌++◌, String, map, filter, any,
  any-append, any-filter, find, find-eq-none, if◌then◌else◌, arith, length, eqb,
}
use safebucket.Bucket.Email.{is_email, trim, trim_of_is_email}

pub data MemberStatus : Type 0 where
  active invited : MemberStatus

-- `IBucketMember`, what the API lists
pub record BucketMember : Type 0 where
  pub email : String
  pub group : String
  pub first_name : Option String
  pub last_name : Option String
  pub status : MemberStatus

-- `IMemberState`
pub record MemberState : Type 0 where
  pub email : String
  pub group : String
  pub first_name : Option String
  pub last_name : Option String
  pub status : MemberStatus
  pub is_new : Bool

-- The state of the hook; `data` is the answer of the query, `refused` tells that the toast of a
-- repeated address was shown.
pub record Form : Type 0 where
  pub data_given : Option (List BucketMember)
  pub members_state : List MemberState
  pub new_member_email : String
  pub new_member_group : String
  pub is_submitting : Bool
  pub refused : Bool

-- The effect on `data`
pub member_of : BucketMember → MemberState
member_of m = record {
  email = m.email;
  group = m.group;
  first_name = m.first_name;
  last_name = m.last_name;
  status = m.status;
  is_new = false;
}

pub load : Option (List BucketMember) → Form → Form
load none form = record form { data_given = none }
load (some members) form = record form {
  data_given = some members;
  members_state = map member_of members;
}

-- `new Map(…)`: a later entry of a key replaces the value of the earlier one.
pub put : String → String → List (String × String) → List (String × String)
put email group [] = (email, group) ∷ []
put email group ((e, g) ∷ es) = if e == email then (e, group) ∷ es else (e, g) ∷ put email group es

put_all : List BucketMember → List (String × String) → List (String × String)
put_all [] es = es
put_all (m ∷ ms) es = put_all ms (put m.email m.group es)

unfoldable pub original_members_map : Option (List BucketMember) → List (String × String)
unfolding put_all
original_members_map none = []
original_members_map (some members) = put_all members []

-- `originalMembersMap.get(member.email) !== member.group`
abbrev is_changed : List (String × String) → MemberState → Bool
is_changed es m = elim (find (λ e. e.0 == m.email) es) [
  | none ↦ true
  | some e ↦ not (e.1 == m.group)
]

unfoldable pub has_changes : Form → Bool
unfolding original_members_map
has_changes form =
    let es = original_members_map form.data_given in
    any (λ m. m.is_new || is_changed es m) form.members_state
    || not (eqb (length es) (length form.members_state))

unfoldable pub has_email : String → List MemberState → Bool
has_email email = any (λ m. m.email == email)

abbrev pub invitation : String → String → MemberState
invitation email group = record {
  email = email;
  group = group;
  first_name = none;
  last_name = none;
  status = invited;
  is_new = true;
}

-- `addMember`
unfoldable pub add_member : Form → Form
unfolding has_email
add_member form =
    if (trim form.new_member_email == "") || not (is_email form.new_member_email)
    then form
    else (if has_email form.new_member_email form.members_state
        then record form { refused = true }
        else record form {
          members_state =
              form.members_state
              ++ invitation (trim form.new_member_email) form.new_member_group ∷ [];
          new_member_email = "";
          new_member_group = "viewer";
        })

abbrev pub regroup : String → String → MemberState → MemberState
regroup email group m = if m.email == email then record m { group = group } else m

-- `updateMemberRole`; the address of the current user is not known before it is loaded.
pub update_member_role : Option String → String → String → Form → Form
update_member_role current email group form =
    if elim current [ none ↦ false | some own ↦ email == own ]
    then form
    else (if group == "remove"
        then record form { members_state = filter (λ m. not (m.email == email)) form.members_state }
        else record form { members_state = map (regroup email group) form.members_state })

-- `handleUpdateMembers`: the list that is sent, where one is
unfoldable pub members_list : Form → List (String × String)
members_list form = map (λ m. (m.email, m.group)) form.members_state

pub handle_update_members : Form → Option (List (String × String)) × Form
unfolding has_changes members_list
handle_update_members form =
    if not (has_changes form)
    then (none, form)
    else (some (members_list form), record form { is_submitting = true })

-- and what its answer does to the form
pub updated : Bool → Form → Form
updated true form = record form {
  new_member_email = "";
  new_member_group = "viewer";
  is_submitting = false;
}
updated false form = record form { is_submitting = false }
