-- ===== src/Auth/Refresh/Laws.antt =====
-- What a refresh does to the session.
use safebucket.Prelude.{
  ℕ, suc, ◌≤◌, ◌≡◌, ◌≢◌, refl, sym, ap, ◌∙◌, inl, inr, Bool, true, false, Option, none, some, ◌∷◌,
  String, arith, length, present, present_of_ne, eq_iff, Bool-cases, Option-cases,
}
use safebucket.Auth.Platform.{Response, Platform, Store, settled, clock}
use safebucket.Auth.Cookies.{
  get_access_token, get_refresh_token, get_auth_provider, set_access_token, get-set_access_token,
}
use safebucket.Auth.Session.{DecodedToken, decode_token, get_current_session}
use safebucket.Auth.Refresh.{
  last_reply, renewed, refresh_request, refresh_access_token, live_session, resume,
  get_current_session_with_refresh,
}

-- No refresh is under way.
abbrev pub IsIdle : {Jar : Type 0} → Store Jar → Type 0
IsIdle s = s.refresh_promise ≡ none

pub renewed-ne-empty : (reply : Option Response) {t : String} → renewed reply ≡ some t → t ≢ ""
renewed-ne-empty reply {t} e = ground (arith, eq_iff t "")

module _ (p : Platform) where
  -- What one refresh does, by its outcome: no refresh token, refused by the server, or accepted.
  pub data Refreshed (s : Store p.Jar) (r : Bool × Store p.Jar) : Type 0 where
    no_token :
        present (get_refresh_token p s.jar) ≡ none
        → r ≡ (false, record s { refresh_promise = some (settled false) })
        → Refreshed s r
    refused :
        (token : String)
        → present (get_refresh_token p s.jar) ≡ some token
        → renewed (last_reply p (refresh_request p token s ∷ s.sent)) ≡ none
        → r
          ≡ (false, record s { refresh_promise = none; sent = refresh_request p token s ∷ s.sent })
        → Refreshed s r
    accepted :
        (token fresh : String)
        → present (get_refresh_token p s.jar) ≡ some token
        → renewed (last_reply p (refresh_request p token s ∷ s.sent)) ≡ some fresh
        → r ≡ (
          true,
          record s {
            refresh_promise = none;
            sent = refresh_request p token s ∷ s.sent;
            jar = set_access_token p fresh s.jar;
          },
        )
        → Refreshed s r

  -- With no refresh under way, one of three things happens: there is no refresh token, and a
  -- settled promise stays behind; the server refuses, and only the request is new; or the server
  -- renews the access token, and that cookie and the request are what is new.
  pub refresh_access_token-cases :
      (s : Store p.Jar) → IsIdle s → Refreshed s (refresh_access_token p s)
  unfolding refresh_access_token
  refresh_access_token-cases s idle = elim (Option-cases (present (get_refresh_token p s.jar))) [
    | inl missing ↦ no_token missing (ground arith)
    | inr (token, given) ↦
        elim (Option-cases (renewed (last_reply p (refresh_request p token s ∷ s.sent)))) [
          | inl refusal ↦ refused token given refusal (ground arith)
          | inr (fresh, renewal) ↦ accepted token fresh given renewal (ground arith)
        ]
  ]

  pub refresh_access_token-accepted :
      (s : Store p.Jar) {token fresh : String}
      → IsIdle s
      → present (get_refresh_token p s.jar) ≡ some token
      → renewed (last_reply p (refresh_request p token s ∷ s.sent)) ≡ some fresh
      → refresh_access_token p s ≡ (
        true,
        record s {
          refresh_promise = none;
          sent = refresh_request p token s ∷ s.sent;
          jar = set_access_token p fresh s.jar;
        },
      )
  unfolding refresh_access_token
  refresh_access_token-accepted s idle given renewal = ground arith

  -- A refresh that succeeds leaves a non-empty access token, and the same refresh token and
  -- provider; no refresh is under way then.
  pub refreshed_cookies :
      (s : Store p.Jar) {s' : Store p.Jar}
      → IsIdle s
      → refresh_access_token p s ≡ (true, s')
      → (present (get_access_token p s'.jar) ≢ none)
        × (get_refresh_token p s'.jar ≡ get_refresh_token p s.jar)
        × (get_auth_provider p s'.jar ≡ get_auth_provider p s.jar)
        × IsIdle s'
  refreshed_cookies s {s'} idle e = by_case (refresh_access_token-cases s idle)
    where
      by_case :
          Refreshed s (refresh_access_token p s)
          → (present (get_access_token p s'.jar) ≢ none)
            × (get_refresh_token p s'.jar ≡ get_refresh_token p s.jar)
            × (get_auth_provider p s'.jar ≡ get_auth_provider p s.jar)
            × IsIdle s'
      by_case (no_token _ r) = cc
      by_case (refused _ _ _ r) = cc
      by_case (accepted token fresh _ renewal r) =
          let same = ap (λ (x : Bool × Store p.Jar). x.1) (sym e ∙ r) in
          let (stored, kept, kept') = get-set_access_token p fresh s.jar in
          let given =
            present_of_ne fresh
              (renewed-ne-empty (last_reply p (refresh_request p token s ∷ s.sent)) renewal) in
          rw same ((λ gone. cc (ap present stored ∙ given)), kept, kept', refl)

  -- With the provider at hand, `getCurrentSession` reads the token alone.
  live_session_lem :
      (provider : String) (s : Store p.Jar)
      → present (get_auth_provider p s.jar) ≡ some provider
      → get_current_session p s ≡ live_session p provider (clock p s) s.jar
  unfolding get_current_session
  live_session_lem provider s e = ground arith

  -- Time does not run backwards.
  abbrev pub IsMonotone : (ℕ → ℕ) → Type 0
  IsMonotone now = (n : ℕ) → now n ≤ now (suc n)

  still_expired :
      (provider token : String) (d : DecodedToken) (now now' : ℕ) (jar : p.Jar)
      → now ≤ now'
      → present (get_access_token p jar) ≡ some token
      → decode_token p now token ≡ some d
      → d.is_expired ≡ true
      → live_session p provider now' jar ≡ none
  unfolding decode_token
  still_expired provider token d now now' jar later given decodes expired = ground arith

  resume_refreshed :
      (provider token : String) (d : DecodedToken) (s : Store p.Jar)
      → IsIdle s
      → IsMonotone p.now
      → present (get_access_token p s.jar) ≡ some token
      → present (get_auth_provider p s.jar) ≡ some provider
      → decode_token p (clock p s) token ≡ some d
      → d.is_expired ≡ true
      → let (found, s') = resume p provider (some d) s in get_current_session p s' ≡ found
  resume_refreshed provider token d s idle mono given is_provider decodes expired =
      by_case (refresh_access_token-cases s idle)
    where
      by_case :
          Refreshed s (refresh_access_token p s)
          → let (found, s') = resume p provider (some d) s in get_current_session p s' ≡ found
      by_case (no_token _ r) =
          let s' : Store p.Jar = record s { refresh_promise = some (settled false) } in
          rw (expired, r)
            (live_session_lem provider s' is_provider
              ∙ still_expired provider token d (clock p s) (clock p s) s.jar (omega arith) given
                  decodes expired)
      by_case (refused t _ _ r) =
          let s' : Store p.Jar = record s {
            refresh_promise = none;
            sent = refresh_request p t s ∷ s.sent;
          } in
          rw (expired, r)
            (live_session_lem provider s' is_provider
              ∙ still_expired provider token d (clock p s) (clock p s') s.jar (mono (length s.sent))
                  given decodes expired)
      by_case (accepted t fresh _ renewal r) =
          let s' : Store p.Jar = record s {
            refresh_promise = none;
            sent = refresh_request p t s ∷ s.sent;
            jar = set_access_token p fresh s.jar;
          } in
          let (_, _, kept) = get-set_access_token p fresh s.jar in
          rw (expired, r) (live_session_lem provider s' (ap present kept ∙ is_provider))

  -- Past its guards the function is its last two steps.
  get_current_session_with_refresh-resume :
      (provider token : String) (s : Store p.Jar)
      → present (get_access_token p s.jar) ≡ some token
      → present (get_auth_provider p s.jar) ≡ some provider
      → get_current_session_with_refresh p s
        ≡ resume p provider (decode_token p (clock p s) token) s
  unfolding get_current_session_with_refresh
  get_current_session_with_refresh-resume provider token s given is_provider = ground arith

  resume_agrees :
      (provider token : String) (o : Option DecodedToken) (s : Store p.Jar)
      → IsIdle s
      → IsMonotone p.now
      → present (get_access_token p s.jar) ≡ some token
      → present (get_auth_provider p s.jar) ≡ some provider
      → decode_token p (clock p s) token ≡ o
      → let (found, s') = resume p provider o s in get_current_session p s' ≡ found
  unfolding get_current_session
  resume_agrees provider token none s idle mono given is_provider e = ground arith
  resume_agrees provider token (some d) s idle mono given is_provider e =
      elim (Bool-cases d.is_expired) [
        | inl expired ↦ resume_refreshed provider token d s idle mono given is_provider e expired
        | inr live ↦ rw live (ground arith)
      ]

  -- The session that `getCurrentSessionWithRefresh` yields, or its absence, is what
  -- `getCurrentSession` says of the cookies that it leaves, if no refresh was under way and the
  -- clock does not run backwards.
  pub get_current_session_with_refresh_agrees :
      (s : Store p.Jar)
      → IsIdle s
      → IsMonotone p.now
      → let (found, s') = get_current_session_with_refresh p s in get_current_session p s' ≡ found
  unfolding get_current_session get_current_session_with_refresh
  get_current_session_with_refresh_agrees s idle mono =
      elim (Option-cases (present (get_access_token p s.jar))) [
        | inl signed_out ↦ ground arith
        | inr (token, given) ↦ elim (Option-cases (present (get_auth_provider p s.jar))) [
          | inl no_provider ↦ ground arith
          | inr (provider, is_provider) ↦
              rw (get_current_session_with_refresh-resume provider token s given is_provider)
                (resume_agrees provider token _ s idle mono given is_provider refl)
        ]
      ]
