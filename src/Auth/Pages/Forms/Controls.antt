-- ===== src/Auth/Pages/Forms/Controls.antt =====
-- What the parts of a form let a user do, for whatever is said of the actions.
use safebucket.Prelude.{
  ◌≡◌, refl, true, ◌&&◌, ◌==◌, Bool-cases, Option-cases, inl, inr, Option, none, some, List, [],
  ◌∷◌, String, find, filter, any, arith, eq_refl, All, All-append, find-eq-some,
}
use safebucket.Ui.{Element, Can}
use safebucket.Auth.Pages.{Provider, is_oidc, is_local}
use safebucket.Auth.Pages.Forms.{
  FormAction, begins, auth_providers_buttons, hint, alert, divider, ways_in,
}

-- One of the providers signs in elsewhere, under the id.
abbrev pub Offers : List Provider → String → Type 0
Offers ps id = any (λ p. is_oidc p && (p.id == id)) ps ≡ true

offered :
    (Q : String → Type 0) (ps : List Provider)
    → ((id : String) → Offers ps id → Q id)
    → All (λ (q : Provider). Q q.id) (filter is_oidc ps)
offered Q [] h = tt
offered Q (p ∷ ps) h =
    let rest = offered Q ps (λ id o. h id (ground (arith, o))) in
    elim (Bool-cases (is_oidc p)) [
      | inl there ↦ rw there (h p.id (rw there (rw eq_refl refl)), rest)
      | inr here ↦ rw here rest
    ]

module _ (P : FormAction → Type 0) where
  buttons-Can :
      (ps : List Provider)
      → All (λ (q : Provider). P (begins q.id)) ps
      → All (Can P) (auth_providers_buttons ps)
  unfolding auth_providers_buttons
  buttons-Can [] h = tt
  buttons-Can (p ∷ ps) (h, k) = (tt, ((λ enabled. h), buttons-Can ps k))

  divider-Can : (ps : List Provider) → All (Can P) (divider ps)
  divider-Can [] = tt
  divider-Can (p ∷ ps) = (tt, tt)

  pub ways_in-Can :
      (ps : List Provider) (fields : List (Element FormAction))
      → ((id : String) → Offers ps id → P (begins id))
      → (any is_local ps ≡ true → All (Can P) fields)
      → All (Can P) (ways_in ps fields)
  unfolding ways_in
  ways_in-Can ps fields h k =
      All-append (Can P) (auth_providers_buttons (filter is_oidc ps)) _
        (buttons-Can (filter is_oidc ps) (offered (λ id. P (begins id)) ps h))
        (elim (Option-cases (find is_local ps)) [
          | inl none_found ↦ rw none_found tt
          | inr (q, found) ↦ rw found (
              All-append (Can P) (divider (filter is_oidc ps)) fields
                (divider-Can (filter is_oidc ps)) (k (find-eq-some is_local ps found).1))
        ])

  pub hint-Can : (o : Option String) → All (Can P) (hint o)
  hint-Can none = tt
  hint-Can (some message) = (tt, tt)

  pub alert-Can : (o : Option String) → All (Can P) (alert o)
  alert-Can none = tt
  alert-Can (some error) = (tt, (tt, tt))
