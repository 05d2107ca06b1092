-- ===== src/Sidebar/Sharing/Laws.antt =====
-- What the form that shares a bucket does.
use safebucket.Prelude.{
  ◌≡◌, ◌≢◌, ◌⊎◌, refl, true, false, not, ◌==◌, eq_iff, Bool-cases, inl, inr, List, [], ◌∷◌, String,
  filter, map, any, if◌then◌else◌, arith, All,
}
use safebucket.Ui.{Element, select}
use safebucket.Bucket.Members.{BucketMember}
use safebucket.Bucket.Sharing.{Member, set_group, remove_from_list, has_email}
use safebucket.Bucket.Page.{bucket_groups}
use safebucket.Sidebar.Sharing.{
  ShareAction, regroups, removes, new_member_row, Sheet, perform, Changes, group_now,
  handle_existing_member_group_change,
}

-- One of the elements is a select that offers the option, enabled, with that action.
abbrev pub Chooses : String → ShareAction → List (Element ShareAction) → Type 0
Chooses o a [] = ⊥
Chooses o a (select value disabled options f ∷ es) =
    ((disabled ≡ false) × (any (λ (p : String × String). p.0 == o) options ≡ true) × (f o ≡ a))
    ⊎ Chooses o a es
Chooses o a (_ ∷ es) = Chooses o a es

grouped_remove :
    (email : String) (ms : List Member)
    → All
        (λ (k : Member). k.email ≡ email → k.group ≡ "remove")
        (map (λ m. if m.email == email then record m { group = "remove" } else m) ms)
grouped_remove email [] = tt
grouped_remove email (m ∷ ms) = elim (Bool-cases (m.email == email)) [
  | inl same ↦ rw same ((λ p. refl), grouped_remove email ms)
  | inr other ↦
      rw other ((λ p. absurd (ground (arith, eq_iff m.email email))), grouped_remove email ms)
]

has_email-map :
    (email j g : String) (ms : List Member)
    → has_email email (map (λ m. if m.email == j then record m { group = g } else m) ms)
      ≡ has_email email ms
unfolding has_email
has_email-map email j g [] = refl
has_email-map email j g (m ∷ ms) = ground (arith, has_email-map email j g ms)

removed :
    (email : String) (ms : List Member)
    → has_email email (filter (λ m. not (email == m.email)) ms) ≡ false
unfolding has_email
removed email [] = refl
removed email (m ∷ ms) =
    ground (arith, removed email ms, eq_iff email m.email, eq_iff m.email email)

-- Choosing `Remove` for a person to be invited does not remove them: they stay on the list as they
-- were, with the group `remove`, which is no group of a bucket. The button beside it removes them.
pub remove_option_keeps :
    (upper : String → String) (m : Member) (s : Sheet)
    → (any (λ (g : String × String). g.0 == "remove") bucket_groups ≡ false)
      × Chooses "remove" (regroups m.email "remove") (new_member_row upper m)
      × (has_email m.email (perform (regroups m.email "remove") s).share.share_with
          ≡ has_email m.email s.share.share_with)
      × All
          (λ (k : Member). k.email ≡ m.email → k.group ≡ "remove")
          (perform (regroups m.email "remove") s).share.share_with
      × (has_email m.email (perform (removes m.email) s).share.share_with ≡ false)
unfolding new_member_row perform set_group remove_from_list bucket_groups
remove_option_keeps upper m s = (
  refl,
  inl (refl, refl, refl),
  has_email-map m.email m.email "remove" s.share.share_with,
  grouped_remove m.email s.share.share_with,
  removed m.email s.share.share_with,
)

-- The roles that a change is for: the members with that address get it, and no other member's role
-- changes.
pub group_now_after_change :
    (email group : String) (cs : Changes) (m : BucketMember)
    → group ≢ ""
    → let cs' = handle_existing_member_group_change email group cs in
      (m.email ≡ email → group_now cs' m ≡ group)
      × (m.email ≢ email → group_now cs' m ≡ group_now cs m)
unfolding handle_existing_member_group_change group_now
group_now_after_change email group cs m given = (
  (λ same. ground (arith, eq_iff email m.email, eq_iff group "")),
  (λ other. ground (arith, eq_iff email m.email)),
)
