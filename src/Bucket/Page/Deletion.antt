-- ===== src/Bucket/Page/Deletion.antt =====
-- When the page of a bucket offers to delete it: the card of web/src/components/bucket-view among
-- everything else that the page shows.
use safebucket.Prelude.{
  ◌≡◌, ◌↔◌, refl, Bool, true, false, eq_iff, eq_refl, Bool-cases, inl, inr, Option, List, [], ◌∷◌,
  String, if◌then◌else◌, arith, All, All-append,
}
use safebucket.Ui.{Element, Can, Offered, Offered-Can, Offered-append, Offered-here, Offered-split}
use safebucket.Bucket.Members.{MemberState, Form}
use safebucket.Bucket.Requests.{expected_delete_text}
use safebucket.Bucket.Page.{
  BucketViewMode, grid_view, activity_view, trash_view, settings_view, list_view, is_settings,
  PageAction, deletes_bucket, sets_role, Information, PageView, view_options, bucket_view_options,
  bucket_header, bucket_information, bucket_deletion, role_options, bucket_member, member_rows,
  bucket_groups, bucket_members, bucket_settings, bucket_view,
}

-- The action does not delete the bucket.
abbrev Spares : PageAction → Type 0
Spares deletes_bucket = ⊥
Spares _ = Unit

header-Spares : (o c : Bool) → All (Can Spares) (bucket_header o c)
unfolding bucket_header bucket_view_options view_options
header-Spares true true = (
  (λ e. tt),
  (
    (λ e. tt),
    (
      (λ e. tt),
      ((λ e. tt), ((λ e. tt), (tt, ((λ e. tt), ((λ e. tt), ((λ e. tt), ((λ e. tt), tt))))))),
    ),
  ),
)
header-Spares true false = ((λ e. tt), ((λ e. tt), ((λ e. tt), ((λ e. tt), ((λ e. tt), (tt, tt))))))
header-Spares false true = (
  (λ e. tt),
  (
    (λ e. tt),
    ((λ e. tt), ((λ e. tt), (tt, ((λ e. tt), ((λ e. tt), ((λ e. tt), ((λ e. tt), tt))))))),
  ),
)
header-Spares false false = ((λ e. tt), ((λ e. tt), ((λ e. tt), ((λ e. tt), (tt, tt)))))

information-Spares :
    (is_owner : Bool) (name url : String) (i : Information)
    → All (Can Spares) (bucket_information is_owner name url i)
unfolding bucket_information
information-Spares is_owner name url i = elim (Bool-cases i.is_editing_name) [
  | inl editing ↦
      rw editing
        (tt, (tt, ((λ e s. tt), ((λ e. tt), (tt, ((λ e s. tt), ((λ e. tt), ((λ e. tt), tt))))))))
  | inr shown ↦ elim (Bool-cases is_owner) [
    | inl owner ↦
        rw shown
          (rw owner (tt, (tt, ((λ e s. tt), ((λ e. tt), (tt, ((λ e s. tt), ((λ e. tt), tt))))))))
    | inr other ↦
        rw shown (rw other (tt, (tt, ((λ e s. tt), ((λ e. tt), (tt, ((λ e s. tt), tt)))))))
  ]
]

roles-Spare :
    (email : String) (options : List (String × String))
    → All (λ (o : String × String). Spares (sets_role email o.0)) options
roles-Spare email [] = tt
roles-Spare email (o ∷ os) = (tt, roles-Spare email os)

member-Spares :
    (upper : String → String) (is_current_user is_owner : Bool) (m : MemberState)
    → All (Can Spares) (bucket_member upper is_current_user is_owner m)
unfolding bucket_member
member-Spares upper is_current_user is_owner m =
    let roles = λ (enabled : _). roles-Spare m.email (role_options is_current_user is_owner) in
    elim (Bool-cases m.is_new) [
      | inl new ↦ rw new (tt, (tt, (tt, (tt, (roles, tt)))))
      | inr old ↦ rw old (tt, (tt, (tt, (roles, tt))))
    ]

rows-Spare :
    (upper : String → String) (is_owner : Bool) (current : Option String) (ms : List MemberState)
    → All (Can Spares) (member_rows upper is_owner current ms)
unfolding member_rows
rows-Spare upper is_owner current [] = tt
rows-Spare upper is_owner current (m ∷ ms) =
    All-append (Can Spares) (bucket_member upper _ is_owner m) _ (member-Spares upper _ is_owner m)
      (rows-Spare upper is_owner current ms)

members-Spare :
    (upper : String → String) (is_owner : Bool) (current : Option String) (f : Form)
    → All (Can Spares) (bucket_members upper is_owner current f)
unfolding bucket_members bucket_groups
members-Spare upper true current f = (
  tt,
  (
    tt,
    (
      tt,
      (
        (λ e s. tt),
        (
          (λ e. (tt, (tt, (tt, tt)))),
          (
            (λ e. tt),
            (
              tt,
              All-append (Can Spares) (member_rows upper true current f.members_state) _
                  (rows-Spare upper true current f.members_state) ((λ e. tt), tt),
            ),
          ),
        ),
      ),
    ),
  ),
)
members-Spare upper false current f = (
  tt,
  (
    tt,
    (
      tt,
      All-append (Can Spares) (member_rows upper false current f.members_state) []
          (rows-Spare upper false current f.members_state) tt,
    ),
  ),
)

nothing : (es : List (Element PageAction)) → All (Can Spares) es → ¬ Offered deletes_bucket es
nothing es h offered = Offered-Can Spares deletes_bucket es h offered

-- The action does not delete the bucket, unless what is typed is the confirmation.
abbrev Confirms : (name confirmation : String) → PageAction → Type 0
Confirms name confirmation deletes_bucket = confirmation ≡ expected_delete_text name
Confirms name confirmation _ = Unit

card-Confirms :
    (name confirmation : String)
    → All (Can (Confirms name confirmation)) (bucket_deletion name confirmation)
unfolding bucket_deletion
card-Confirms name confirmation = (
  tt,
  (
    tt,
    (
      tt,
      (
        tt,
        (
          tt,
          (
            (λ e s. tt),
            ((λ enabled. (eq_iff confirmation (expected_delete_text name)).0 (ground arith)), tt),
          ),
        ),
      ),
    ),
  ),
)

deletion_card :
    (name confirmation : String)
    → Offered deletes_bucket (bucket_deletion name confirmation)
      ↔ (confirmation ≡ expected_delete_text name)
unfolding bucket_deletion
deletion_card name confirmation = (
  (λ offered.
      Offered-Can (Confirms name confirmation) deletes_bucket (bucket_deletion name confirmation)
        (card-Confirms name confirmation) offered),
  (λ typed. rw typed (
      inr
        (inr (inr (inr (inr (inr (inl (rw (eq_refl (expected_delete_text name)) refl, refl))))))))),
)

module _ (upper : String → String) (is_owner is_contributor : Bool) (current : Option String)
    (name url confirmation : String) (i : Information) (f : Form) where
  abbrev settings : List (Element PageAction)
  settings = bucket_settings upper is_owner current name url confirmation i f

  settings_card : Offered deletes_bucket settings ↔ (confirmation ≡ expected_delete_text name)
  unfolding bucket_settings
  settings_card = (
    (λ offered.
        elim (Offered-split deletes_bucket (bucket_information is_owner name url i) _ offered) [
          | inl above ↦ absurd (
              nothing (bucket_information is_owner name url i)
                (information-Spares is_owner name url i) above)
          | inr below ↦
              elim (Offered-split deletes_bucket (bucket_deletion name confirmation)
                (bucket_members upper is_owner current f) below) [
                  | inl card ↦ (deletion_card name confirmation).0 card
                  | inr members ↦ absurd (
                      nothing (bucket_members upper is_owner current f)
                        (members-Spare upper is_owner current f) members)
                ]
        ]),
    (λ typed. Offered-append deletes_bucket (bucket_information is_owner name url i) _ (
        Offered-here deletes_bucket (bucket_deletion name confirmation)
          (bucket_members upper is_owner current f) ((deletion_card name confirmation).1 typed))),
  )

  by_view :
      (mode : BucketViewMode)
      → Offered deletes_bucket (if is_settings mode then settings else [])
        ↔ ((mode ≡ settings_view) × (confirmation ≡ expected_delete_text name))
  by_view settings_view =
      ((λ offered. (refl, settings_card.0 offered)), (λ (at, typed). settings_card.1 typed))
  by_view grid_view = ((λ offered. absurd offered), (λ (at, typed). absurd (cc)))
  by_view list_view = ((λ offered. absurd offered), (λ (at, typed). absurd (cc)))
  by_view activity_view = ((λ offered. absurd offered), (λ (at, typed). absurd (cc)))
  by_view trash_view = ((λ offered. absurd offered), (λ (at, typed). absurd (cc)))

  -- The header and the settings offer the deletion of the bucket exactly while the settings are
  -- shown and the text of the confirmation is typed; who the user is makes no difference, so that a
  -- user who is not the owner is offered it too, wherever the view is that of the settings.
  pub deletion-Offered :
      (s : PageView)
      → Offered deletes_bucket (bucket_view is_owner is_contributor (λ mode. []) settings s)
        ↔ ((s.view ≡ settings_view) × (confirmation ≡ expected_delete_text name))
  unfolding bucket_view
  deletion-Offered s = (
    (λ offered.
        elim (Offered-split deletes_bucket (bucket_header is_owner is_contributor) _ offered) [
          | inl above ↦ absurd (
              nothing (bucket_header is_owner is_contributor)
                (header-Spares is_owner is_contributor) above)
          | inr below ↦ (by_view s.view).0 below
        ]),
    (λ h.
        Offered-append deletes_bucket (bucket_header is_owner is_contributor) _
          ((by_view s.view).1 h)),
  )
