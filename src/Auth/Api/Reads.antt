-- ===== src/Auth/Api/Reads.antt =====
-- Which requests a call of the API adds to those sent before: its own, and renewals of the token.
use mathlib.Core.List.{append_assoc}
use safebucket.Prelude.{
  ◌≡◌, ◌⊎◌, ◌∙◌, sym, ap, refl, Bool-cases, Option-cases, inl, inr, some, List, [], ◌∷◌, ◌++◌,
  String, All, All-append, arith, eqb,
}
use safebucket.Auth.Platform.{Platform, Store, Request, Response}
use safebucket.Auth.Session.{logout}
use safebucket.Auth.Refresh.{refresh_access_token, refresh_request}
use safebucket.Auth.Refresh.Laws.{
  Refreshed, no_token, refused, accepted, refresh_access_token-cases,
}
use safebucket.Auth.Api.Laws.{
  asked, first_reply, sent-refresh_busy, fetch_api-unanswered, fetch_api-answered,
  fetch_api-forbidden,
}
use safebucket.Auth.Api.{
  RequestOptions, no_options, request_of, fetch_api_last, retried, fetch_api, api_get,
}

-- The request reads, or it renews the access token.
abbrev pub IsHarmless : (p : Platform) → Request → Type 0
IsHarmless p r =
    (r.method ≡ "GET") ⊎ ((token : String) × (s : Store p.Jar) × (r ≡ refresh_request p token s))

-- Only requests for which `H` holds have been added to those before.
abbrev pub Adds : (Request → Type 0) → List Request → List Request → Type 0
Adds H before after = (new : List Request) × (after ≡ new ++ before) × All H new

module _ (H : Request → Type 0) where
  pub Adds-refl : (sent : List Request) → Adds H sent sent
  Adds-refl sent = ([], refl, tt)

  Adds-cons : (r : Request) (sent : List Request) → H r → Adds H sent (r ∷ sent)
  Adds-cons r sent h = (r ∷ [], refl, (h, tt))

  pub Adds-trans : (a b c : List Request) → Adds H a b → Adds H b c → Adds H a c
  Adds-trans a b c (new, e, h) (more, f, k) = (
    more ++ new,
    f ∙ ap (λ l. more ++ l) e ∙ sym (append_assoc more new a),
    All-append H more new k h,
  )

-- A renewal of the access token is such a request.
module _ (p : Platform) (H : Request → Type 0)
    (renews : (token : String) (s : Store p.Jar) → H (refresh_request p token s)) where
  refresh-Adds : (s : Store p.Jar) → Adds H s.sent (refresh_access_token p s).1.sent
  refresh-Adds s = elim (Option-cases s.refresh_promise) [
    | inl idle ↦ by_case (refresh_access_token-cases p s idle)
    | inr (flight, busy) ↦ rw (sent-refresh_busy p flight s busy) (Adds-refl H s.sent)
  ]
    where
      by_case :
          Refreshed p s (refresh_access_token p s) → Adds H s.sent (refresh_access_token p s).1.sent
      by_case (no_token _ e) = rw e (Adds-refl H s.sent)
      by_case (refused t _ _ e) = rw e (Adds-cons H (refresh_request p t s) s.sent (renews t s))
      by_case (accepted t fresh _ _ e) =
          rw e (Adds-cons H (refresh_request p t s) s.sent (renews t s))

  module _ (url : String) (options : RequestOptions)
      (calls : (s : Store p.Jar) → H (request_of p url options s)) where
    sent-last :
        (s : Store p.Jar)
        → (fetch_api_last p url options s).1.sent ≡ request_of p url options s ∷ s.sent
    unfolding fetch_api_last
    sent-last s = ground arith

    last-Adds : (s : Store p.Jar) → Adds H s.sent (fetch_api_last p url options s).1.sent
    last-Adds s = rw (sent-last s) (Adds-cons H (request_of p url options s) s.sent (calls s))

    retried-Adds :
        (r : Response) (s : Store p.Jar) → Adds H s.sent (retried p url options r s).1.sent
    unfolding logout
    retried-Adds r s = elim (Bool-cases (refresh_access_token p s).0) [
      | inl again ↦ rw again (
          Adds-trans H s.sent (refresh_access_token p s).1.sent _ (refresh-Adds s)
            (last-Adds (refresh_access_token p s).1))
      | inr over ↦ rw over (refresh-Adds s)
    ]

    -- A call of the API adds its own request, once or twice, and such as renew the access token.
    pub fetch_api-Adds : (s : Store p.Jar) → Adds H s.sent (fetch_api p url options s).1.sent
    fetch_api-Adds s = elim (Option-cases (first_reply p url options s)) [
      | inl lost ↦ rw (fetch_api-unanswered p url options s lost) (first s)
      | inr (r, e) ↦ elim (Bool-cases (eqb r.status 403)) [
        | inl forbidden ↦ rw (fetch_api-forbidden p url options s e forbidden) (
            Adds-trans H s.sent (asked p url options s).sent _ (first s)
              (retried-Adds r (asked p url options s)))
        | inr other ↦ rw (fetch_api-answered p url options s e other) (first s)
      ]
    ]
      where
        first : (t : Store p.Jar) → Adds H t.sent (asked p url options t).sent
        first t = Adds-cons H (request_of p url options t) t.sent (calls t)

-- A GET adds requests that read, and such as renew the access token.
pub api_get-Adds :
    (p : Platform) (url : String) (s : Store p.Jar)
    → Adds (IsHarmless p) s.sent (api_get p url s).1.sent
unfolding request_of
api_get-Adds p url =
    fetch_api-Adds p (IsHarmless p) (λ token s. inr (token, s, refl)) url
      (record no_options { method = some "GET" }) (λ s. inl refl)
