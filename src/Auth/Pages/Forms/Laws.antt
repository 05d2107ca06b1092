-- ===== src/Auth/Pages/Forms/Laws.antt =====
-- What a user can do at the forms that sign him in, that ask for a reset, and that enrol him.
use safebucket.Prelude.{
  ◌≡◌, ◌≢◌, Bool, true, false, ◌||◌, ◌==◌, Bool-cases, inl, inr, Option, List, [], ◌∷◌, ◌++◌,
  String, any, present, arith, eq_iff, All, All-append,
}
use safebucket.Ui.{Can, text, input, button}
use safebucket.Auth.Login.{LoginForm}
use safebucket.Auth.Pages.{
  Provider, is_local, LoginPage, RequestForm, is_submit_disabled, submit_label,
}
use safebucket.Auth.Pages.Forms.{
  FormAction, begins, submits, types_email, types_password, hint, alert, password_fields,
  login_fields, login_view, reset_request_foot, reset_request_view, enroll_foot, enroll_fields,
  enroll_view,
}
use safebucket.Bucket.Email.{trim}
use safebucket.Auth.Pages.Forms.Controls.{Offers, ways_in-Can, hint-Can, alert-Can}

-- What the page `Login` lets a user do.
abbrev pub MayLogin : List Provider → LoginForm → LoginPage → FormAction → Type 0
MayLogin ps form s (begins id) = Offers ps id
MayLogin ps form s submits =
    (any is_local ps ≡ true)
    × (s.is_loading ≡ false)
    × (trim form.email ≢ "")
    × (s.show_password ≡ true → form.password ≢ "")
MayLogin ps form s (types_email e) = s.is_loading ≡ false
MayLogin ps form s (types_password e) = (s.is_loading ≡ false) × (s.show_password ≡ true)
MayLogin ps form s _ = ⊥

enabled-MayLogin :
    (form : LoginForm) (s : LoginPage)
    → is_submit_disabled form s ≡ false
    → (s.is_loading ≡ false)
      × (trim form.email ≢ "")
      × (s.show_password ≡ true → form.password ≢ "")
unfolding is_submit_disabled
enabled-MayLogin form s enabled =
    ground (arith, eq_iff (trim form.email) "", eq_iff form.password "")

password-Can :
    (P : FormAction → Type 0) (form : LoginForm) (s : LoginPage)
    → (s.show_password ≡ true → s.is_loading ≡ false → (e : String) → P (types_password e))
    → All (Can P) (password_fields form s)
unfolding password_fields
password-Can P form s h = elim (Bool-cases s.show_password) [
  | inl asked ↦ rw asked (tt, (tt, (h asked, tt)))
  | inr hidden ↦ rw hidden tt
]

-- On the page that signs a user in, a provider's button leads to a provider that signs in elsewhere;
-- the form stands there only if a local provider is listed, and can be submitted only while nothing
-- is under way, with an address that is not blank and, once the password is asked for, a password;
-- nothing can be typed while a sign-in is under way.
pub login_view-MayLogin :
    (ps : List Provider) (form : LoginForm) (s : LoginPage)
    → All (Can (MayLogin ps form s)) (login_view ps form s)
unfolding login_view login_fields
login_view-MayLogin ps form s = (
  tt,
  (
    tt,
    (
      tt,
      ways_in-Can (MayLogin ps form s) ps (login_fields form s) (λ id o. o)
          (λ has_local. (
            tt,
            (
              (λ enabled e. enabled),
              All-append (Can (MayLogin ps form s)) (password_fields form s) _
                  (password-Can (MayLogin ps form s) form s (λ asked enabled e. (enabled, asked)))
                  (All-append (Can (MayLogin ps form s)) (hint (present s.error))
                    (button (submit_label s) (is_submit_disabled form s) submits ∷ [])
                    (hint-Can (MayLogin ps form s) (present s.error))
                    (
                      (λ enabled.
                          let (idle, typed, known) = enabled-MayLogin form s enabled in
                          (has_local, idle, typed, known)),
                      tt,
                    )),
            ),
          )),
    ),
  ),
)

-- What the form that asks for a reset lets a user do.
abbrev pub MayRequest : Bool → RequestForm → FormAction → Type 0
MayRequest is_submitting s submits = (s.is_success ≡ false) × (is_submitting ≡ false)
MayRequest is_submitting s (types_email e) = s.is_success ≡ false
MayRequest is_submitting s _ = ⊥

reset_request_view-Can :
    (P : FormAction → Type 0) (email : String) (is_submitting : Bool) (email_error : Option String)
    (s : RequestForm)
    → (s.is_success ≡ false → (e : String) → P (types_email e))
    → (s.is_success ≡ false → is_submitting ≡ false → P submits)
    → All (Can P) (reset_request_view email is_submitting email_error s)
unfolding reset_request_view reset_request_foot
reset_request_view-Can P email is_submitting email_error s h k = elim (Bool-cases s.is_success) [
  | inl sent ↦ rw sent (tt, (tt, (tt, (tt, (tt, tt)))))
  | inr asked ↦ rw asked (
    tt,
    (
      tt,
      (
        tt,
        All-append (Can P) (alert (present s.error))
            (text "auth.email"
              ∷ input email false types_email
              ∷ (hint email_error ++ reset_request_foot is_submitting))
            (alert-Can P (present s.error))
            (
              tt,
              (
                (λ enabled. h asked),
                All-append (Can P) (hint email_error) (reset_request_foot is_submitting)
                    (hint-Can P email_error) (k asked, (tt, tt)),
              ),
            ),
      ),
    ),
  )
]

-- The form that asks for a reset can be submitted only while nothing is being submitted, and once
-- the reset is on its way nothing can be done at it any more.
pub reset_request_view-MayRequest :
    (email : String) (is_submitting : Bool) (email_error : Option String) (s : RequestForm)
    → All (Can (MayRequest is_submitting s)) (reset_request_view email is_submitting email_error s)
reset_request_view-MayRequest email is_submitting email_error s =
    reset_request_view-Can (MayRequest is_submitting s) email is_submitting email_error s
      (λ asked e. asked) (λ asked enabled. (asked, enabled))

-- What the form of an invited user lets him do.
abbrev pub MayEnroll : List Provider → String → Bool → FormAction → Type 0
MayEnroll ps email is_submitting (begins id) = Offers ps id
MayEnroll ps email is_submitting submits =
    (any is_local ps ≡ true) × (is_submitting ≡ false) × (trim email ≢ "")
MayEnroll ps email is_submitting (types_email e) = any is_local ps ≡ true
MayEnroll ps email is_submitting _ = ⊥

enabled-MayEnroll :
    (email : String) (is_submitting : Bool)
    → (is_submitting || (trim email == "")) ≡ false
    → (is_submitting ≡ false) × (trim email ≢ "")
enabled-MayEnroll email is_submitting enabled = ground (arith, eq_iff (trim email) "")

-- An invited user can only begin at a provider that signs in elsewhere, or, if a local provider is
-- listed, type an address and submit one that is not blank, while nothing is being submitted; once a
-- code is sent to him he can do nothing more there.
pub enroll_view-MayEnroll :
    (ps : List Provider) (email : String) (is_submitting : Bool) (email_error : Option String)
    (s : RequestForm)
    → All
        (Can (MayEnroll ps email is_submitting))
        (enroll_view ps email is_submitting email_error s)
      × (s.is_success ≡ true
          → All (Can (λ a. ⊥)) (enroll_view ps email is_submitting email_error s))
unfolding enroll_view enroll_fields enroll_foot
enroll_view-MayEnroll ps email is_submitting email_error s = elim (Bool-cases s.is_success) [
  | inl sent ↦ rw sent ((tt, (tt, (tt, (tt, tt)))), (λ h. (tt, (tt, (tt, (tt, tt))))))
  | inr open_still ↦ rw open_still (
    (
      tt,
      (
        tt,
        (
          tt,
          ways_in-Can (MayEnroll ps email is_submitting) ps
              (enroll_fields email is_submitting email_error s) (λ id o. o)
              (λ has_local.
                All-append (Can (MayEnroll ps email is_submitting)) (alert (present s.error))
                  (text "invites.smart_enrollment.email_label"
                    ∷ input email false types_email
                    ∷ (hint email_error ++ enroll_foot email is_submitting))
                  (alert-Can (MayEnroll ps email is_submitting) (present s.error))
                  (
                    tt,
                    (
                      (λ enabled e. has_local),
                      All-append (Can (MayEnroll ps email is_submitting)) (hint email_error)
                          (enroll_foot email is_submitting)
                          (hint-Can (MayEnroll ps email is_submitting) email_error)
                          (
                            (λ enabled.
                                let (idle, typed) = enabled-MayEnroll email is_submitting enabled in
                                (has_local, idle, typed)),
                            (tt, tt),
                          ),
                    ),
                  )),
        ),
      ),
    ),
    (λ h. absurd (cc)),
  )
]
