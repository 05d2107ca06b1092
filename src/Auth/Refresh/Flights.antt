-- ===== src/Auth/Refresh/Flights.antt =====
-- Several callers of `refreshAccessToken` at once: the single-flight promise, as a step relation.
-- Between two steps anything else may rewrite the cookies.
use safebucket.Prelude.{
  ℕ, ◌+◌, ◌-◌, ◌≤◌, ◌≡◌, ◌≢◌, inl, inr, Bool, false, Option, none, some, List, [], ◌∷◌, ◌++◌, map,
  arith, length, present, Option-cases,
}
use safebucket.Auth.Platform.{Platform, Store, Response, Flight, pending, settled}
use safebucket.Auth.Cookies.{get_refresh_token}
use safebucket.Auth.Refresh.{start_refresh, finish_refresh, renewed}

-- `waiting` are the callers that await the promise, `answers` what callers have received, the
-- latest first; `posted` and `replied` count the requests to `/auth/refresh` and their answers.
pub record Page (Jar : Type 0) : Type 0 where
  pub store : Store Jar
  pub waiting : List ℕ
  pub answers : List (ℕ × Bool)
  pub posted : ℕ
  pub replied : ℕ

module _ (p : Platform) where
  -- A caller runs `refreshAccessToken` up to its `await`.
  pub call : ℕ → Page p.Jar → Page p.Jar
  unfolding start_refresh
  call i g =
      let (flight, s) = start_refresh p g.store in
      let posts = length s.sent - length g.store.sent in
      elim flight [
        | settled b ↦ record g {
          store = s;
          answers = (i, b) ∷ g.answers;
          posted = g.posted + posts;
        }
        | pending ↦ record g { store = s; waiting = i ∷ g.waiting; posted = g.posted + posts }
      ]

  -- The answer arrives: the inner function ends, and all that await its promise get its result.
  pub answer : Option Response → Page p.Jar → Page p.Jar
  unfolding finish_refresh
  answer reply g =
      let (b, s) = finish_refresh p reply g.store in
      record g {
        store = s;
        waiting = [];
        answers = map (λ i. (i, b)) g.waiting ++ g.answers;
        replied = g.replied + 1;
      }

  pub data Step : Page p.Jar → Page p.Jar → Type 0 where
    calls : (i : ℕ) (g : Page p.Jar) → Step g (call i g)
    answers :
        (reply : Option Response) (g : Page p.Jar)
        → g.store.refresh_promise ≡ some pending
        → Step g (answer reply g)
    rewrites :
        (jar : p.Jar) (g : Page p.Jar) → Step g (record g { store = record g.store { jar = jar } })

  pub data Reach (g : Page p.Jar) : Page p.Jar → Type 0 where
    here : Reach g g
    next : {h k : Page p.Jar} → Reach g h → Step h k → Reach g k

  abbrev pub at_rest : Option Bool → Option Flight
  at_rest none = none
  at_rest (some b) = some (settled b)

  -- One request is unanswered while the promise is pending, and none otherwise; only then does
  -- anybody wait.
  pub data IsSingle (g : Page p.Jar) : Type 0 where
    flying : g.store.refresh_promise ≡ some pending → g.posted ≡ g.replied + 1 → IsSingle g
    resting :
        (o : Option Bool)
        → g.store.refresh_promise ≡ at_rest o
        → g.posted ≡ g.replied
        → g.waiting ≡ []
        → IsSingle g

  call-IsSingle : (i : ℕ) (g : Page p.Jar) → IsSingle g → IsSingle (call i g)
  unfolding call
  call-IsSingle i g (flying e n) = flying (ground arith) (ground arith)
  call-IsSingle i g (resting none e n w) =
      elim (Option-cases (present (get_refresh_token p g.store.jar))) [
        | inl missing ↦ resting (some false) (ground arith) (ground arith) (ground arith)
        | inr (token, given) ↦ flying (ground arith) (ground arith)
      ]
  call-IsSingle i g (resting (some b) e n w) =
      resting (some b) (ground arith) (ground arith) (ground arith)

  answer-IsSingle :
      (reply : Option Response) (g : Page p.Jar)
      → g.store.refresh_promise ≡ some pending
      → IsSingle g
      → IsSingle (answer reply g)
  unfolding answer
  answer-IsSingle reply g e (flying _ n) = elim (Option-cases (renewed reply)) [
    | inl refusal ↦ resting none (ground arith) (ground arith) (ground arith)
    | inr (token, renewal) ↦ resting none (ground arith) (ground arith) (ground arith)
  ]
  answer-IsSingle reply g e (resting none e' _ _) = cc
  answer-IsSingle reply g e (resting (some b) e' _ _) = cc

  Step-IsSingle : {g h : Page p.Jar} → Step g h → IsSingle g → IsSingle h
  Step-IsSingle (calls i g) v = call-IsSingle i g v
  Step-IsSingle (answers reply g e) v = answer-IsSingle reply g e v
  Step-IsSingle (rewrites jar g) (flying e n) = flying e n
  Step-IsSingle (rewrites jar g) (resting o e n w) = resting o e n w

  Reach-IsSingle : {g h : Page p.Jar} → Reach g h → IsSingle g → IsSingle h
  Reach-IsSingle here v = v
  Reach-IsSingle (next r st) v = Step-IsSingle st (Reach-IsSingle r v)

  -- From a page where no refresh is under way and nobody waits, however callers, answers and
  -- changes of the cookies follow each other: at most one request to `/auth/refresh` is without an
  -- answer, and callers wait only while there is one.
  pub single_flight :
      {g h : Page p.Jar}
      → g.store.refresh_promise ≡ none
      → g.waiting ≡ []
      → g.posted ≡ g.replied
      → Reach g h
      → (h.posted ≤ h.replied + 1) × (h.waiting ≢ [] → h.posted ≡ h.replied + 1)
  single_flight {g} {h} e w n r = by_case (Reach-IsSingle r (resting none e n w))
    where
      by_case :
          IsSingle h → (h.posted ≤ h.replied + 1) × (h.waiting ≢ [] → h.posted ≡ h.replied + 1)
      by_case (flying _ k) = (omega arith, λ _. k)
      by_case (resting _ _ k none_waits) = (omega arith, λ some_wait. absurd (some_wait none_waits))
