-- ===== src/Auth/Api/Laws.antt =====
-- Which requests a call makes, and how it ends on 403.
use Prim.Native.String
use safebucket.Prelude.{
  suc, ◌≡◌, ◌≢◌, ◌⊎◌, refl, true, false, Bool-cases, Option-cases, inl, inr, Option, none, some, [],
  ◌∷◌, ◌++◌, String, arith, eqb, length, present, present_of_ne,
}
use safebucket.Auth.Platform.{
  Json, Request, Response, Platform, Store, Result, ok, err, Failure, get_field, network, api_error,
  type_error, bad_json, Flight, pending,
}
use safebucket.Auth.Cookies.{
  get_access_token, get_refresh_token, get_auth_provider, set_access_token, get-set_access_token,
}
use safebucket.Auth.Session.{logout, get_current_session, logout_ends}
use safebucket.Auth.Refresh.{
  refresh_access_token, renewed, last_reply, refresh_request, start_refresh, finish_refresh,
}
use safebucket.Auth.Refresh.Laws.{
  IsIdle, Refreshed, no_token, refused, accepted, renewed-ne-empty, refresh_access_token-accepted,
  refresh_access_token-cases,
}
use safebucket.Auth.Api.{
  RequestOptions, item_0, thrown, read_error, request_of, read_response, fetch_api_last, retried,
  fetch_api,
}

pub sent-refresh_busy :
    (p : Platform) (flight : Flight) (s : Store p.Jar)
    → s.refresh_promise ≡ some flight
    → (refresh_access_token p s).1.sent ≡ s.sent
unfolding refresh_access_token start_refresh finish_refresh
sent-refresh_busy p flight s busy = ground arith

other_status :
    {reply : Option Response} {r q : Response}
    → reply ≡ some r
    → reply ≡ some q
    → eqb r.status 403 ≡ false
    → q.status ≡ 403
    → ⊥
other_status e answered other status = ground arith

module _ (p : Platform) (url : String) (options : RequestOptions) where
  -- The state after the first request.
  abbrev pub asked : Store p.Jar → Store p.Jar
  asked s = record s { sent = request_of p url options s ∷ s.sent }

  abbrev pub first_reply : Store p.Jar → Option Response
  first_reply s = p.fetch (suc (length s.sent)) (request_of p url options s)

  pub fetch_api-unanswered :
      (s : Store p.Jar) → first_reply s ≡ none → fetch_api p url options s ≡ (err network, asked s)
  unfolding fetch_api
  fetch_api-unanswered s e = ground arith

  pub fetch_api-answered :
      (s : Store p.Jar) {r : Response}
      → first_reply s ≡ some r
      → eqb r.status 403 ≡ false
      → fetch_api p url options s ≡ (read_response r, asked s)
  unfolding fetch_api
  fetch_api-answered s {r} e other = rw (e, fetch_api) (ground arith)

  pub fetch_api-forbidden :
      (s : Store p.Jar) {r : Response}
      → first_reply s ≡ some r
      → eqb r.status 403 ≡ true
      → fetch_api p url options s ≡ retried p url options r (asked s)
  unfolding fetch_api
  fetch_api-forbidden s {r} e forbidden = ground arith

  abbrev pub IsForbidden : Option Response → Type 0
  IsForbidden reply = (r : Response) × (reply ≡ some r) × (r.status ≡ 403)

  -- One refresh after the first request sends nothing more, or its own request.
  abbrev pub RenewsOnce : Store p.Jar → Store p.Jar → Type 0
  RenewsOnce s u =
      (u.sent ≡ (asked s).sent)
      ⊎ ((token : String) × (u.sent ≡ refresh_request p token s ∷ (asked s).sent))

  refresh-RenewsOnce : (s : Store p.Jar) → RenewsOnce s (refresh_access_token p (asked s)).1
  refresh-RenewsOnce s = elim (Option-cases s.refresh_promise) [
    | inl idle ↦ by_case (refresh_access_token-cases p (asked s) idle)
    | inr (flight, busy) ↦ inl (sent-refresh_busy p flight (asked s) busy)
  ]
    where
      by_case :
          Refreshed p (asked s) (refresh_access_token p (asked s))
          → RenewsOnce s (refresh_access_token p (asked s)).1
      by_case (no_token _ e) = inl (rw e refl)
      by_case (refused t _ _ e) = inr (t, rw e refl)
      by_case (accepted t fresh _ _ e) = inr (t, rw e refl)

  sent-retried :
      (r : Response) (s : Store p.Jar)
      → let (refreshed, u) = refresh_access_token p s in
        ((refreshed ≡ false) × ((retried p url options r s).1.sent ≡ u.sent))
        ⊎ ((refreshed ≡ true)
            × ((retried p url options r s).1.sent ≡ request_of p url options u ∷ u.sent))
  unfolding fetch_api_last logout
  sent-retried r s = elim (Bool-cases (refresh_access_token p s).0) [
    | inl again ↦ inr (again, rw again (ground arith))
    | inr over ↦ inl (over, rw over refl)
  ]

  -- What a call of the API sends, where no refresh waits for its answer: its request; and if that is
  -- answered 403, and only then, a refresh, which sends at most its own request, and after one that
  -- succeeds, and only then, the request once more with the cookies that the refresh leaves.
  pub fetch_api_requests :
      (s : Store p.Jar)
      → s.refresh_promise ≢ some pending
      → let sent = (fetch_api p url options s).1.sent in
        let (refreshed, u) = refresh_access_token p (asked s) in
        ((¬ IsForbidden (first_reply s)) × (sent ≡ (asked s).sent))
        ⊎ (IsForbidden (first_reply s)
            × RenewsOnce s u
            × (((refreshed ≡ false) × (sent ≡ u.sent))
                ⊎ ((refreshed ≡ true) × (sent ≡ request_of p url options u ∷ u.sent))))
  fetch_api_requests s waits = elim (Option-cases (first_reply s)) [
    | inl lost ↦
        inl ((λ (r, answered, status). cc (lost, answered)), rw (fetch_api-unanswered s lost) refl)
    | inr (r, e) ↦ elim (Bool-cases (eqb r.status 403)) [
      | inl forbidden ↦ inr (
        (r, e, ground arith),
        refresh-RenewsOnce s,
        rw (fetch_api-forbidden s e forbidden) (sent-retried r (asked s)),
      )
      | inr other ↦ inl (
        (λ (q, answered, status). other_status e answered other status),
        rw (fetch_api-answered s e other) refl,
      )
    ]
  ]

thrown-fails : {A : Type 0} (r : Result (Option Json)) → (e : Failure) × (thrown {A = A} r ≡ err e)
thrown-fails (ok message) = (api_error message, refl)
thrown-fails (err e) = (e, refl)

read_error-fails :
    {A : Type 0} (body : Option Json) → (e : Failure) × (read_error {A = A} body ≡ err e)
unfolding read_error
read_error-fails none = (bad_json, refl)
read_error-fails (some Json.null) = (type_error, refl)
read_error-fails (some (Json.obj fields)) = thrown-fails (item_0 (get_field "error" fields))
read_error-fails (some other) = (type_error, refl)

forbidden-fails :
    (r : Response) → eqb r.status 403 ≡ true → (e : Failure) × (read_response r ≡ err e)
unfolding read_response
forbidden-fails r forbidden =
    let (e, fails) = read_error-fails {A = Json} r.body in
    let status : r.status ≡ 403 = ground arith in (e, rw status fails)

module _ (p : Platform) (url : String) (options : RequestOptions) where
  -- A call that is answered 403, and whose refresh does not succeed, fails, and signs the user out:
  -- no session is left, and no cookie.
  pub fetch_api_signs_out :
      (s : Store p.Jar) {r : Response}
      → first_reply p url options s ≡ some r
      → r.status ≡ 403
      → (refresh_access_token p (asked p url options s)).0 ≡ false
      → let (result, s') = fetch_api p url options s in
        ((e : Failure) × (result ≡ err e))
        × (get_current_session p s' ≡ none)
        × (get_access_token p s'.jar ≡ none)
        × (get_refresh_token p s'.jar ≡ none)
        × (get_auth_provider p s'.jar ≡ none)
  fetch_api_signs_out s {r} answered status lost =
      let forbidden : eqb r.status 403 ≡ true = ground arith in
      rw (fetch_api-forbidden p url options s answered forbidden) (
        rw lost (
          let (no_session, no_access, no_refresh, no_provider, _) =
            logout_ends p (refresh_access_token p (asked p url options s)).1 in
          (forbidden-fails r forbidden, no_session, no_access, no_refresh, no_provider)))

  -- The request of a retry is the first one with the fresh token.
  abbrev pub retry_of : String → Store p.Jar → Request
  retry_of fresh s = record (request_of p url options s) {
    headers =
        ("Content-Type", "application/json") ∷ ("Accept", "application/json") ∷ options.headers
        ++ ("Authorization", String.◌++◌ "Bearer " fresh) ∷ [];
  }

  last_call :
      (u : Store p.Jar) {fresh : String}
      → get_access_token p u.jar ≡ some fresh
      → present (some fresh) ≡ some fresh
      → let (result, s') = fetch_api_last p url options u in
        (s'.sent ≡ retry_of fresh u ∷ u.sent)
        × (get_access_token p s'.jar ≡ some fresh)
        × (result ≡ elim (last_reply p (retry_of fresh u ∷ u.sent)) [
          | none ↦ err network
          | some second ↦ read_response second
        ])
  unfolding fetch_api_last request_of
  last_call u {fresh} stored given = ground arith

  -- A call that is answered 403, where no refresh is under way and none has left its promise behind,
  -- and with a refresh token that the server renews, makes the same request once more with the fresh
  -- access token, and its outcome is that of the second answer, a second 403 included. Those three
  -- requests are all that is sent.
  pub fetch_api_retries :
      (s : Store p.Jar) {r : Response} {token fresh : String}
      → IsIdle s
      → first_reply p url options s ≡ some r
      → r.status ≡ 403
      → present (get_refresh_token p s.jar) ≡ some token
      → renewed (last_reply p (refresh_request p token s ∷ request_of p url options s ∷ s.sent))
        ≡ some fresh
      → let (result, s') = fetch_api p url options s in
        let before = refresh_request p token s ∷ request_of p url options s ∷ s.sent in
        (s'.sent ≡ retry_of fresh s ∷ before)
        × (get_access_token p s'.jar ≡ some fresh)
        × (result ≡ elim (last_reply p (retry_of fresh s ∷ before)) [
          | none ↦ err network
          | some second ↦ read_response second
        ])
  unfolding request_of
  fetch_api_retries s {r} {token} {fresh} idle answered status given renewal =
      let forbidden : eqb r.status 403 ≡ true = ground arith in
      let u : Store p.Jar = record s {
        refresh_promise = none;
        sent = refresh_request p token s ∷ request_of p url options s ∷ s.sent;
        jar = set_access_token p fresh s.jar;
      } in
      let (stored, _, _) = get-set_access_token p fresh s.jar in
      rw (fetch_api-forbidden p url options s answered forbidden) (
        rw (refresh_access_token-accepted p (asked p url options s) idle given renewal) (
          last_call u stored (
            present_of_ne fresh (
              renewed-ne-empty
                (last_reply p (refresh_request p token s ∷ request_of p url options s ∷ s.sent))
                renewal))))
