-- ===== src/Auth/Login/Laws.antt =====
-- When a sign-in succeeds, and what it leaves.
use safebucket.Prelude.{
  ◌≡◌, ◌≢◌, refl, ap, true, false, ◌==◌, eq_iff, none, some, String, arith, eqb, text_length,
  Bool-cases, inl, inr, ◌⊎◌,
}
use safebucket.Auth.Platform.{Platform, Json, Store, Result, ok, err, Payload, Session, clock}
use safebucket.Auth.Cookies.{
  get_access_token, get_refresh_token, get_auth_provider, set_all, get-set_all, get-clear_all,
}
use safebucket.Auth.Session.{
  get_current_session, get_current_session_complete, IsLive, HasSession, require_auth,
}
use safebucket.Auth.Api.{api_post}
use safebucket.Auth.Login.{
  tokens_of, store_tokens, sign_in_by, LoginForm, login_with_credentials, refresh_session,
  login_local, sign_out, FormState, submit_challenge, FormTexts, report, challenge_body,
  credentials,
}

module _ (p : Platform) where
  -- The cookies of a user who has signed in with the application's own password.
  pub record IsLocal (jar : p.Jar) : Type 0 where
    pub access : String
    pub refresh : String
    pub has_access : get_access_token p jar ≡ some access
    pub has_refresh : get_refresh_token p jar ≡ some refresh
    pub has_provider : get_auth_provider p jar ≡ some "local"

  store_tokens-ok :
      (answer : Result Json) (s : Store p.Jar) {s' : Store p.Jar}
      → store_tokens p answer s ≡ (ok tt, s')
      → IsLocal s'.jar
  unfolding store_tokens
  store_tokens-ok (err e) s h = cc
  store_tokens-ok (ok json) s {s'} h = by_case (tokens_of json) refl
    where
      by_case : (r : Result (String × String)) → tokens_of json ≡ r → IsLocal s'.jar
      by_case (err e) t = ground arith
      by_case (ok (access, refresh)) t =
          let same : set_all p access refresh "local" s.jar ≡ s'.jar = ground arith in
          let (a, r, v) = get-set_all p access refresh "local" s.jar in
          record {
            access = access;
            refresh = refresh;
            has_access = rw (← same) a;
            has_refresh = rw (← same) r;
            has_provider = rw (← same) v;
          }

  pub sign_in_by-ok :
      (url : String) (body : Json) (s : Store p.Jar) {s' : Store p.Jar}
      → sign_in_by p url body s ≡ (ok tt, s')
      → IsLocal s'.jar
  unfolding sign_in_by
  sign_in_by-ok url body s h =
      store_tokens-ok (api_post p url (some body) s).0 (api_post p url (some body) s).1 h

  -- A sign-in that reports success has stored both tokens, under the provider `local`; then the
  -- session that the page gets is the one of those cookies.
  pub login_local-ok :
      (form : LoginForm) (s : Store p.Jar) {s' : Store p.Jar}
      → login_local p form s ≡ (ok tt, s')
      → IsLocal s'.jar × (s'.session ≡ get_current_session p s')
  unfolding login_local login_with_credentials refresh_session
  login_local-ok form s {s'} h = by_case (login_with_credentials p form s) refl
    where
      by_case :
          (r : Result Unit × Store p.Jar)
          → login_with_credentials p form s ≡ r
          → IsLocal s'.jar × (s'.session ≡ get_current_session p s')
      by_case (err e, u) t = ground arith
      by_case (ok _, u) t =
          let same : refresh_session p u ≡ s' = ground arith in
          rw (← same) (sign_in_by-ok "/auth/login" (credentials form) s t, refl)

  -- A user who has signed in with a token that is still live has a session of that token, and the
  -- guarded routes let the user in; once signed out, they send the user to the login page.
  pub guarded_routes :
      (href : String) (s : Store p.Jar) (c : Payload)
      → (local : IsLocal s.jar) → local.access ≢ ""
      → IsLive p (clock p s) local.access c
      → (require_auth p href (refresh_session p s) ≡ none)
        × (require_auth p href (sign_out p (refresh_session p s)) ≡ some href)
        × (get_current_session p (sign_out p (refresh_session p s)) ≡ none)
  unfolding require_auth get_current_session refresh_session sign_out
  guarded_routes href s c local given live =
      let x : Session = record {
        user_id = c.user_id;
        email = c.email;
        role = c.role;
        auth_provider = "local";
      } in
      let held : HasSession p s x = record {
        token = local.access;
        claims = c;
        stored = local.has_access;
        token_given = given;
        provider = local.has_provider;
        provider_given = ground (arith, eq_iff "local" "");
        live = live;
        user_id = refl;
        email = refl;
        role = refl;
      } in
      let found = get_current_session_complete p s held in
      let (gone, _, _) = get-clear_all p s.jar in (rw (found, require_auth), refl, rw gone refl)

module _ (p : Platform) (texts : FormTexts) (url code new confirm : String) (f : FormState) where
  -- What a submission must have seen to show the form as accepted.
  abbrev pub IsAccepted : FormState × Store p.Jar → Type 0
  IsAccepted (f', s') = (text_length code ≡ 6) × (new ≡ confirm) × IsLocal p s'.jar

  report-IsAccepted :
      (r : Result Unit × Store p.Jar)
      → f.is_validated ≡ false
      → (report texts f r).0.is_validated ≡ true
      → (r.0 ≡ ok tt)
  report-IsAccepted (ok _, s) fresh shown = refl
  report-IsAccepted (err _, s) fresh shown = cc

  report-store : (r : Result Unit × Store p.Jar) → (report texts f r).1 ≡ r.1
  report-store (ok _, s) = refl
  report-store (err _, s) = refl

  submitted :
      (s : Store p.Jar)
      → text_length code ≡ 6
      → new ≡ confirm
      → submit_challenge p texts url code new confirm f s
        ≡ report texts f (sign_in_by p url (challenge_body code new) s)
  unfolding submit_challenge
  submitted s six same = ground (arith, eq_iff new confirm)

  accepted_post :
      (s : Store p.Jar)
      → f.is_validated ≡ false
      → text_length code ≡ 6
      → new ≡ confirm
      → (submit_challenge p texts url code new confirm f s).0.is_validated ≡ true
      → IsLocal p (submit_challenge p texts url code new confirm f s).1.jar
  accepted_post s fresh six same shown =
      let e = submitted s six same in
      let r = sign_in_by p url (challenge_body code new) s in
      let okay = report-IsAccepted r fresh (rw e at shown) in
      rw (e, report-store r)
        (sign_in_by-ok p url (challenge_body code new) s (ap (λ (x : Result Unit). (x, r.1)) okay))

  guards_stop :
      (s : Store p.Jar)
      → (text_length code ≢ 6) ⊎ (new ≢ confirm)
      → ((submit_challenge p texts url code new confirm f s).1 ≡ s)
        × ((submit_challenge p texts url code new confirm f s).0.is_validated ≡ f.is_validated)
  unfolding submit_challenge
  guards_stop s bad = ground (arith, eq_iff new confirm)

  -- A form that asks for a code and a new password is shown as accepted, when it was not before,
  -- only if the code has six characters, the two passwords agree and both tokens are stored. With
  -- another code or with passwords that differ nothing is sent and no cookie changes.
  pub submit_challenge_sound :
      (s : Store p.Jar)
      → f.is_validated ≡ false
      → let r = submit_challenge p texts url code new confirm f s in
        (r.0.is_validated ≡ true → IsAccepted r)
        × ((text_length code ≢ 6) ⊎ (new ≢ confirm) → r.1 ≡ s)
  submit_challenge_sound s fresh = (
    (λ shown. elim (Bool-cases (eqb (text_length code) 6)) [
      | inl six ↦ elim (Bool-cases (new == confirm)) [
        | inl same ↦
            let six' : text_length code ≡ 6 = ground arith in
            let same' = (eq_iff new confirm).0 same in
            (six', same', accepted_post s fresh six' same' shown)
        | inr other ↦
            let stopped = guards_stop s (inr (λ e. ground (arith, eq_iff new confirm))) in
            cc (stopped.1)
      ]
      | inr short ↦ let stopped = guards_stop s (inl (λ e. ground arith)) in cc (stopped.1)
    ]),
    (λ bad. (guards_stop s bad).0),
  )
