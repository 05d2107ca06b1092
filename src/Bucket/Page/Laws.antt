-- ===== src/Bucket/Page/Laws.antt =====
-- Who may do what on the page of a bucket.
use safebucket.Prelude.{
  ◌≡◌, ◌≢◌, ◌⊎◌, refl, suc, ◌∙◌, Bool, true, false, not, ◌==◌, ◌||◌, Bool-cases, inl, inr, Option,
  some, List, [], ◌∷◌, String, if◌then◌else◌, arith, All, All-append, length, length-append,
}
use safebucket.Ui.{Element, Can}
use safebucket.Bucket.Members.{MemberState, Form, add_member, has_email}
use safebucket.Bucket.Page.{
  BucketViewMode, settings_view, is_settings, PageAction, sets_view, copies, sets_role, PageView,
  view_options, bucket_view_options, bucket_header, role_options, bucket_member, is_add_disabled,
  member_rows, bucket_members, bucket_view,
}

-- The action changes nothing of the bucket, and does not lead to its settings.
abbrev pub IsReading : PageAction → Type 0
IsReading (sets_view mode) = mode ≢ settings_view
IsReading (copies what field) = Unit
IsReading _ = ⊥

viewer_header : All (Can IsReading) (bucket_header false false)
unfolding bucket_header bucket_view_options view_options
viewer_header = ((λ e p. cc), ((λ e p. cc), ((λ e p. cc), ((λ e p. cc), (tt, tt)))))

-- Away from the settings, a user who is neither the owner nor a contributor finds no control around
-- the view that changes the bucket, and none that leads to its settings; so the page has none, if
-- the view has none.
pub viewer_page_only_reads :
    (views : BucketViewMode → List (Element PageAction)) (settings : List (Element PageAction))
    (s : PageView)
    → s.view ≢ settings_view
    → ((mode : BucketViewMode) → All (Can IsReading) (views mode))
    → All (Can IsReading) (bucket_view false false views settings s)
unfolding bucket_view
viewer_page_only_reads views settings s away read =
    All-append (Can IsReading) (bucket_header false false) _ viewer_header
      (by_view s.view away (read s.view))
  where
    by_view :
        (mode : BucketViewMode)
        → mode ≢ settings_view
        → All (Can IsReading) (views mode)
        → All (Can IsReading) (if is_settings mode then settings else views mode)
    by_view settings_view other h = absurd (other refl)
    by_view BucketViewMode.grid_view other h = h
    by_view BucketViewMode.list_view other h = h
    by_view BucketViewMode.activity_view other h = h
    by_view BucketViewMode.trash_view other h = h

-- An element at which nothing can be done.
abbrev pub IsIdle : Element PageAction → Type 0
IsIdle e = Can (λ a. ⊥) e

member-IsIdle :
    (upper : String → String) (is_current_user : Bool) (m : MemberState)
    → All IsIdle (bucket_member upper is_current_user false m)
unfolding bucket_member
member-IsIdle upper true m = elim (Bool-cases m.is_new) [
  | inl new ↦ rw new (tt, (tt, (tt, (tt, ((λ e. absurd (cc)), tt)))))
  | inr old ↦ rw old (tt, (tt, (tt, ((λ e. absurd (cc)), tt))))
]
member-IsIdle upper false m = elim (Bool-cases m.is_new) [
  | inl new ↦ rw new (tt, (tt, (tt, (tt, ((λ e. absurd (cc)), tt)))))
  | inr old ↦ rw old (tt, (tt, (tt, ((λ e. absurd (cc)), tt))))
]

rows-IsIdle :
    (upper : String → String) (current : Option String) (ms : List MemberState)
    → All IsIdle (member_rows upper false current ms)
unfolding member_rows
rows-IsIdle upper current [] = tt
rows-IsIdle upper current (m ∷ ms) =
    All-append IsIdle (bucket_member upper _ false m) _ (member-IsIdle upper _ m)
      (rows-IsIdle upper current ms)

-- Who is not the owner of a bucket can change nothing about its members: the card lists them, and
-- every control on it is disabled.
pub members-IsIdle :
    (upper : String → String) (current : Option String) (f : Form)
    → All IsIdle (bucket_members upper false current f)
unfolding bucket_members
members-IsIdle upper current f = (
  tt,
  (
    tt,
    (
      tt,
      All-append IsIdle (member_rows upper false current f.members_state) []
          (rows-IsIdle upper current f.members_state) tt,
    ),
  ),
)

-- The action does not set the role of that user.
abbrev pub SparesRole : String → PageAction → Type 0
SparesRole own (sets_role email group) = (email == own) ≡ false
SparesRole own _ = Unit

roles_spare :
    (own email : String) (options : List (String × String))
    → (email == own) ≡ false
    → All (λ (o : String × String). SparesRole own (sets_role email o.0)) options
roles_spare own email [] other = tt
roles_spare own email (o ∷ os) other = (other, roles_spare own email os other)

select_spares :
    (upper : String → String) (own : String) (is_owner : Bool) (m : MemberState)
    → All (Can (SparesRole own)) (bucket_member upper (m.email == own) is_owner m)
unfolding bucket_member
select_spares upper own is_owner m = elim (Bool-cases m.is_new) [
  | inl new ↦ rw new (tt, (tt, (tt, (tt, (spared (role_options (m.email == own) is_owner), tt)))))
  | inr old ↦ rw old (tt, (tt, (tt, (spared (role_options (m.email == own) is_owner), tt))))
]
  where
    spared :
        (options : List (String × String))
        → ((m.email == own) || not is_owner) ≡ false
        → All (λ (o : String × String). SparesRole own (sets_role m.email o.0)) options
    spared options enabled = roles_spare own m.email options (ground arith)

rows_spare :
    (upper : String → String) (own : String) (is_owner : Bool) (ms : List MemberState)
    → All (Can (SparesRole own)) (member_rows upper is_owner (some own) ms)
unfolding member_rows
rows_spare upper own is_owner [] = tt
rows_spare upper own is_owner (m ∷ ms) =
    All-append (Can (SparesRole own)) (bucket_member upper (m.email == own) is_owner m) _
      (select_spares upper own is_owner m) (rows_spare upper own is_owner ms)

-- No control on the card of the members lets a user set his own role, an owner included: the one in
-- his row is disabled.
pub members_spare_own :
    (upper : String → String) (own : String) (is_owner : Bool) (f : Form)
    → All (Can (SparesRole own)) (bucket_members upper is_owner (some own) f)
unfolding bucket_members
members_spare_own upper own true f = (
  tt,
  (
    tt,
    (
      tt,
      (
        (λ e s. tt),
        (
          (λ e. (tt, (tt, (tt, tt)))),
          (
            (λ e. tt),
            (
              tt,
              All-append (Can (SparesRole own)) (member_rows upper true (some own) f.members_state)
                  _ (rows_spare upper own true f.members_state) ((λ e. tt), tt),
            ),
          ),
        ),
      ),
    ),
  ),
)
members_spare_own upper own false f = (
  tt,
  (
    tt,
    (
      tt,
      All-append (Can (SparesRole own)) (member_rows upper false (some own) f.members_state) []
          (rows_spare upper own false f.members_state) tt,
    ),
  ),
)

-- The button that adds a member is enabled for exactly the addresses with which adding does
-- something: it adds one member, or refuses one who is listed already.
pub add_button_agrees :
    (f : Form)
    → (is_add_disabled f.new_member_email ≡ true → add_member f ≡ f)
      × (is_add_disabled f.new_member_email ≡ false
          → (add_member f ≡ record f { refused = true })
            ⊎ (length (add_member f).members_state ≡ suc (length f.members_state)))
unfolding is_add_disabled add_member
add_button_agrees f = (
  (λ h. rw h refl),
  (λ h. elim (Bool-cases (has_email f.new_member_email f.members_state)) [
    | inl listed ↦ inl (rw h (rw listed refl))
    | inr new ↦ inr (rw h (rw new (length-append f.members_state _ ∙ omega arith)))
  ]),
)
