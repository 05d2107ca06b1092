-- ===== src/Sidebar/Sharing.antt =====
-- The form that shares a bucket: AddMembersInput.tsx, AddMembersList.tsx and AddMembersCard.tsx of
-- web/src/components/app-sidebar/components, on the list of useAddMembers.ts.
pub mod Laws
mod Examples
use Prim.Native.String
use safebucket.Prelude.{
  Bool, true, false, not, ◌==◌, ◌&&◌, ◌||◌, Option, none, some, List, [], ◌∷◌, ◌++◌, String,
  present, filter, find, map, if◌then◌else◌,
}
use safebucket.Ui.{Element, text, icon, separator, link, button, input, select, form}
use safebucket.Bucket.Members.{BucketMember, invited, MemberStatus}
use safebucket.Bucket.Page.{bucket_groups, is_add_disabled, when}
use safebucket.Bucket.Sharing.{Member, Share, add_email, set_group, remove_from_list}

-- The state of `AddMembersInput`.
pub record InviteInput : Type 0 where
  pub email : String
  pub group : String

-- `handleAddEmail`, and `handleKeyPress` of the key Enter: the field is cleared, whatever `onAddEmail`
-- returned.
handle_add_email : InviteInput → Share → InviteInput × Share
handle_add_email s share = (record s { email = "" }, (add_email s.email s.group share).1)

-- `handleKeyPress`
unfoldable pub handle_key_press : String → InviteInput → Share → InviteInput × Share
unfolding handle_add_email
handle_key_press key s share = if key == "Enter" then handle_add_email s share else (s, share)

-- What the handlers of the form do; `removes` is the button, `changes` the role of a member that
-- the bucket has.
pub data ShareAction : Type 0 where
  sets_email : (email : String) → ShareAction
  sets_invite_group : (group : String) → ShareAction
  adds : ShareAction
  changes : (email group : String) → ShareAction
  regroups : (email group : String) → ShareAction
  removes : (email : String) → ShareAction

-- `AddMembersInput`
unfoldable pub add_members_input : InviteInput → List (Element ShareAction)
unfolding is_add_disabled
add_members_input s =
    text "bucket.settings.members.share_with"
    ∷ input s.email false sets_email
    ∷ select s.group false bucket_groups sets_invite_group
    ∷ button "bucket.settings.members.add" (is_add_disabled s.email) adds
    ∷ []

-- `===` of an address and the current user's, which may be missing
abbrev pub is_current : Option String → String → Bool
is_current none email = false
is_current (some own) email = email == own

-- `otherExistingMembers`
other_existing_members : Option String → List BucketMember → List BucketMember
other_existing_members current = filter (λ m. not (is_current current m.email))

abbrev group_of : Option BucketMember → String
group_of none = "owner"
group_of (some m) = m.group

-- the row of the current user
current_user_row :
    (String → String)
    → Bool
    → Option String
    → Option String
    → List BucketMember
    → List (Element ShareAction)
current_user_row upper show_current_user current current_name existing =
    if show_current_user
    then elim (present current) [
      | none ↦ []
      | some own ↦
          text (upper own)
          ∷ text (elim (present current_name) [
            | none ↦ "bucket.settings.members.you"
            | some name ↦ String.◌++◌ name " (bucket.settings.members.you)"
          ])
          ∷ text own
          ∷ select (group_of (find (λ (m : BucketMember). m.email == own) existing)) true
              (("owner", "bucket.settings.members.owner") ∷ []) (changes own)
          ∷ []
    ]
    else []

abbrev name_of : BucketMember → String
name_of m = elim (present m.first_name) [
  | none ↦ m.email
  | some first_name ↦ elim (present m.last_name) [
    | none ↦ m.email
    | some last_name ↦ String.◌++◌ first_name (String.◌++◌ " " last_name)
  ]
]

abbrev is_invited : MemberStatus → Bool
is_invited invited = true
is_invited _ = false

-- the row of a member that the bucket has
existing_member_row : (String → String) → BucketMember → List (Element ShareAction)
existing_member_row upper m =
    text (upper m.email)
      ∷ text (name_of m)
      ∷ text m.email
      ∷ when (is_invited m.status) (text "bucket.settings.members.invited" ∷ [])
    ++ select m.group false bucket_groups (changes m.email) ∷ []

-- the row of a member who is to be invited
pub new_member_row : (String → String) → Member → List (Element ShareAction)
new_member_row upper m =
    text (upper m.email)
    ∷ text m.email
    ∷ select m.group false (bucket_groups ++ ("remove", "Remove") ∷ []) (regroups m.email)
    ∷ button "UserX" false (removes m.email)
    ∷ []

pub rows : {A B : Type 0} → (A → List B) → List A → List B
rows f [] = []
rows f (x ∷ xs) = f x ++ rows f xs

-- `AddMembersList`
pub add_members_list :
    (String → String)
    → Bool
    → Option String
    → Option String
    → List BucketMember
    → List Member
    → List (Element ShareAction)
unfolding other_existing_members current_user_row existing_member_row new_member_row rows
add_members_list upper show_current_user current current_name existing share_with =
    text "bucket.settings.members.people_with_access"
      ∷ current_user_row upper show_current_user current current_name existing
    ++ (rows (existing_member_row upper) (other_existing_members current existing)
        ++ rows (new_member_row upper) share_with)

-- `existingMemberChanges`, the latest change of an address first
abbrev pub Changes : Type 0
Changes = List (String × String)

-- `handleExistingMemberGroupChange`
pub handle_existing_member_group_change : String → String → Changes → Changes
handle_existing_member_group_change email group cs = (email, group) ∷ cs

abbrev chosen : Option (String × String) → Option String
chosen none = none
chosen (some c) = some c.1

-- `existingMemberChanges[member.email] || member.group`
pub group_now : Changes → BucketMember → String
group_now cs m = elim (present (chosen (find (λ (c : String × String). c.0 == m.email) cs))) [
  | none ↦ m.group
  | some group ↦ group
]

-- `existingMembersAsInvites` and `allMembers`
unfoldable pub all_members : Option String → Changes → List BucketMember → List Member → List Member
unfolding other_existing_members group_now
all_members current cs members share_with =
    map (λ m. record { email = m.email; group = group_now cs m })
      (other_existing_members current members)
    ++ share_with

-- The form: what is typed, the list of people to invite, and the changes to members.
pub record Sheet : Type 0 where
  pub invite : InviteInput
  pub share : Share
  pub member_changes : Changes

-- What an action does.
pub perform : ShareAction → Sheet → Sheet
unfolding handle_add_email handle_existing_member_group_change
perform (sets_email email) s = record s { invite = record s.invite { email = email } }
perform (sets_invite_group group) s = record s { invite = record s.invite { group = group } }
perform adds s =
    let (i, share) = handle_add_email s.invite s.share in record s { invite = i; share = share }
perform (changes email group) s = record s {
  member_changes = handle_existing_member_group_change email group s.member_changes;
}
perform (regroups email group) s = record s { share = set_group email group s.share }
perform (removes email) s = record s { share = remove_from_list email s.share }
