-- ===== src/Auth/Pages/Laws.antt =====
-- Where an address leads, and when a password is asked for.
use Prim.Native.String
use text.Mathlib.TextLemmas.{nil-append, cons-append}
use safebucket.Prelude.{
  ◌≡◌, ◌⊎◌, refl, true, false, not, ◌||◌, ◌==◌, Bool-cases, Option-cases, inl, inr, Option, none,
  some, List, [], ◌∷◌, String, find, any, arith,
}
use safebucket.Auth.Platform.{Platform, Store, Failure}
use safebucket.Auth.Login.{LoginForm, login_with_provider}
use safebucket.Auth.Pages.{
  Provider, has_at, up_to_at, domain_of, provider_of, check_email_domain, LoginPage,
  handle_continue, submit_login,
}

abbrev pub NoAt : String → Type 0
NoAt s = has_at s ≡ false

up_to_at-NoAt : (s : String) → NoAt s → up_to_at s ≡ s
up_to_at-NoAt String.[] h = refl
up_to_at-NoAt (String.◌∷◌ c s) h = ground (arith, up_to_at-NoAt s)

-- the address `user@domain`
abbrev pub address : String → String → String
address user domain = String.◌++◌ user (String.◌++◌ "@" domain)

domain_of-address :
    (user domain : String)
    → NoAt user
    → NoAt domain
    → (domain_of (address user domain) ≡ domain) × (has_at (address user domain) ≡ true)
domain_of-address String.[] domain h k = (
  rw nil-append (rw cons-append (rw nil-append (up_to_at-NoAt domain k))),
  rw nil-append (rw cons-append refl),
)
domain_of-address (String.◌∷◌ c s) domain h k =
    let rest = domain_of-address s domain (ground arith) k in
    (rw cons-append (ground (arith, rest.0)), rw cons-append (ground (arith, rest.1)))

module _ (lower : String → String) where
  provider_of-find :
      (domain : String) (ps : List Provider)
      → provider_of lower domain ps
        ≡ find (λ (p : Provider). any (λ d. lower d == domain) p.domains) ps
  unfolding provider_of
  provider_of-find domain [] = refl
  provider_of-find domain (p ∷ ps) = ground (arith, provider_of-find domain ps)

  -- The provider of an address `user@domain` is the first one that lists the domain, in whatever
  -- case; there is none, if none lists it.
  pub check_email_domain-find :
      (user domain : String) (ps : List Provider)
      → NoAt user
      → NoAt domain
      → check_email_domain lower (address user domain) ps
        ≡ find (λ (p : Provider). any (λ d. lower d == lower domain) p.domains) ps
  unfolding check_email_domain
  check_email_domain-find user domain ps h k =
      let (same, at) = domain_of-address user domain h k in
      rw at (rw same (provider_of-find (lower domain) ps))

module _ (p : Platform) (lower : String → String) (message_of : Failure → String) where
  -- As long as no password is asked for, submitting the login form sends nothing and keeps the
  -- cookies; a password is asked for afterwards only if the address has an `@` and no provider
  -- lists its domain; and the page is left only for the provider that lists it.
  pub submit_login_first :
      (providers : List Provider) (redirect : Option String) (form : LoginForm) (s : LoginPage)
      (st : Store p.Jar)
      → s.show_password ≡ false
      → let (s', st') = submit_login p lower message_of providers redirect form s st in
        (st'.sent ≡ st.sent)
        × (st'.jar ≡ st.jar)
        × (s'.show_password ≡ true
            → (has_at form.email ≡ true) × (check_email_domain lower form.email providers ≡ none))
        × ((st' ≡ st)
            ⊎ ((q : Provider) × (check_email_domain lower form.email providers ≡ some q)
                × (st' ≡ login_with_provider p q.id st)))
  unfolding submit_login handle_continue
  submit_login_first providers redirect form s st hidden =
      elim (Bool-cases ((form.email == "") || not (has_at form.email))) [
        | inl unusable ↦ rw hidden (rw unusable (refl, refl, (λ shown. absurd (cc)), inl refl))
        | inr usable ↦ elim (Option-cases (check_email_domain lower form.email providers)) [
          | inl unclaimed ↦
              rw hidden
                (rw usable (rw unclaimed (refl, refl, (λ shown. (ground arith, refl)), inl refl)))
          | inr (q, claimed) ↦
              rw hidden
                (rw usable (rw claimed (refl, refl, (λ shown. absurd (cc)), inr (q, refl, refl))))
        ]
      ]
