-- ===== src/Auth/Pages/Examples.antt =====
-- Examples of the pages that sign a user in.
use safebucket.Prelude.{
  ◌≡◌, ◌⊎◌, refl, Bool, true, false, Option, none, some, List, [], ◌∷◌, String, All,
}
use safebucket.Ui.{Can}
use safebucket.Auth.Platform.{Failure}
use safebucket.Auth.Login.{login_with_provider, FormState}
use safebucket.Auth.Pages.{
  Provider, oidc, local, has_at, check_email_domain, LoginPage, submit_login,
}
use safebucket.Auth.Pages.Laws.{submit_login_first}
use safebucket.Auth.Pages.Forms.{login_view}
use safebucket.Auth.Pages.Forms.Laws.{MayLogin, login_view-MayLogin}
use safebucket.Auth.Pages.Forms.Challenge.{
  ChallengeForm, Rules, challenge_view, confirm_password_rules, password_reset_challenge, Sends,
  challenge_view-Sends,
}
use safebucket.Auth.Examples.{generous, page, login_form}

abbrev providers : List Provider
providers =
    record { id = "local"; name = "Local"; provider_type = local; domains = [] }
    ∷ record { id = "corp"; name = "Corp"; provider_type = oidc; domains = "example.com" ∷ [] }
    ∷ []

abbrev login_page : LoginPage
login_page = record { show_password = false; error = none; is_loading = false }

abbrev lower : String → String
lower s = s

abbrev message_of : Failure → String
message_of f = "failure"

submit_login_first_example :
    let (s', st') =
      submit_login generous lower message_of providers none login_form login_page (page []) in
    (st'.sent ≡ [])
    × (st'.jar ≡ [])
    × (s'.show_password ≡ true
        → (has_at "ada@example.com" ≡ true)
          × (check_email_domain lower "ada@example.com" providers ≡ none))
    × ((st' ≡ page [])
        ⊎ ((q : Provider) × (check_email_domain lower "ada@example.com" providers ≡ some q)
            × (st' ≡ login_with_provider generous q.id (page []))))
submit_login_first_example =
    submit_login_first generous lower message_of providers none login_form login_page (page []) refl

login_view-MayLogin_example :
    All
      (Can (MayLogin providers login_form login_page))
      (login_view providers login_form login_page)
login_view-MayLogin_example = login_view-MayLogin providers login_form login_page

-- a field whose value is checked by its own rule alone
abbrev is_none : Option String → Bool
is_none none = true
is_none (some message) = false

accepts : Rules → String → Bool
accepts r value = is_none (r.validate value)

accepts-validate : (r : Rules) (value : String) → accepts r value ≡ true → r.validate value ≡ none
unfolding accepts
accepts-validate r value h = from_none (r.validate value) h
  where
    from_none : (o : Option String) → is_none o ≡ true → o ≡ none
    from_none none h = refl
    from_none (some message) h = absurd (cc)

abbrev challenge : ChallengeForm
challenge = record {
  code = "123456";
  new_password = "correct horse";
  confirm_password = "correct horse";
  new_password_error = none;
  confirm_password_error = none;
  is_submitting = false;
}

abbrev fresh : FormState
fresh = record { error = none; is_validated = false }

accepted :
    accepts (confirm_password_rules password_reset_challenge "correct horse") "correct horse" ≡ true
unfolding accepts confirm_password_rules
accepted = refl

challenge_view-Sends_example :
    All
      (Can (
        Sends generous password_reset_challenge "/auth/reset-password/c1/validate" challenge fresh
          (page [])))
      (challenge_view password_reset_challenge challenge fresh)
challenge_view-Sends_example =
    challenge_view-Sends generous accepts accepts-validate password_reset_challenge
      "/auth/reset-password/c1/validate" challenge fresh (page []) accepted
