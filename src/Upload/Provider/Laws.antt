-- ===== src/Upload/Provider/Laws.antt =====
-- What the events of one upload may do, to it and to the others.
use mathlib.Core.Path.{subst}
use mathlib.Core.List.{append-nil}
use safebucket.Prelude.{
  ◌≡◌, ◌≢◌, refl, ap, ◌∙◌, inl, inr, true, false, not, ◌==◌, eq_iff, eq_refl, Bool-cases, Option,
  none, some, List, [], ◌∷◌, ◌++◌, String, filter, any, any-append, any-filter, any-filter-not,
  arith, All,
}
use safebucket.Upload.Provider.{
  Upload, Provider, change_upload, forget, cancel_upload, Event, starts, progresses, settles,
  succeeds, forgets, fails, cancels, handle, run,
}

-- The upload is listed.
abbrev pub IsListed : String → Provider → Type 0
IsListed id s = any (λ u. u.id == id) s.uploads ≡ true

abbrev pub IsGone : String → Provider → Type 0
IsGone id s = any (λ u. u.id == id) s.uploads ≡ false

-- Which upload an event is about, and whether it starts it.
abbrev pub starts_id : Event → Option String
starts_id (starts id name) = some id
starts_id _ = none

abbrev pub subject : Event → String
subject (starts id name) = id
subject (progresses id n) = id
subject (settles id) = id
subject (succeeds id) = id
subject (forgets id) = id
subject (fails id message) = id
subject (cancels id) = id

-- A change of the entries keeps their ids.
any-change_upload :
    (id j : String) (change : Upload → Upload) (us : List Upload)
    → ((u : Upload) → (change u).id ≡ u.id)
    → any (λ u. u.id == id) (change_upload j change us) ≡ any (λ u. u.id == id) us
unfolding change_upload
any-change_upload id j change [] same = refl
any-change_upload id j change (u ∷ us) same =
    ground (arith, same u, any-change_upload id j change us same)

starts_other : (id j : String) → some j ≢ some id → (j == id) ≡ false
starts_other id j other = elim (Bool-cases (j == id)) [
  | inl same ↦ absurd (other (ap some ((eq_iff j id).0 same)))
  | inr differs ↦ differs
]

pub handle-IsGone :
    (id : String) (e : Event) (s : Provider)
    → starts_id e ≢ some id
    → IsGone id s
    → IsGone id (handle e s)
unfolding handle
handle-IsGone id (starts j name) s other h =
    any-append (λ u. u.id == id) s.uploads _ ∙ rw h (rw (starts_other id j other) refl)
handle-IsGone id (progresses j n) s other h = any-change_upload id j _ s.uploads (λ u. refl) ∙ h
handle-IsGone id (settles j) s other h = h
handle-IsGone id (succeeds j) s other h = any-change_upload id j _ s.uploads (λ u. refl) ∙ h
handle-IsGone id (forgets j) s other h = any-filter _ _ s.uploads h
handle-IsGone id (fails j message) s other h = any-change_upload id j _ s.uploads (λ u. refl) ∙ h
handle-IsGone id (cancels j) s other h = elim (Bool-cases (any (λ k. k == j) s.controllers)) [
  | inl held ↦ rw held (any-filter _ _ s.uploads h)
  | inr missing ↦ rw missing (any-filter _ _ s.uploads h)
]

run-IsGone :
    (id : String) (es : List Event) (s : Provider)
    → All (λ e. starts_id e ≢ some id) es
    → IsGone id s
    → IsGone id (run es s)
unfolding run
run-IsGone id [] s other h = h
run-IsGone id (e ∷ es) s (k, other) h =
    run-IsGone id es (handle e s) other (handle-IsGone id e s k h)

pub cancel_upload-IsGone : (id : String) (s : Provider) → IsGone id (cancel_upload id s)
unfolding cancel_upload
cancel_upload-IsGone id s = elim (Bool-cases (any (λ k. k == id) s.controllers)) [
  | inl held ↦ rw held (any-filter-not (λ u. u.id == id) s.uploads)
  | inr missing ↦ rw missing (any-filter-not (λ u. u.id == id) s.uploads)
]

-- A cancelled upload stays cancelled: whatever its transfer, its promise and its timers still do,
-- and whatever happens to other uploads, it is not listed again unless an upload is started
-- under its id; and no controller is left for it.
pub cancel_is_final :
    (id : String) (es : List Event) (s : Provider)
    → All (λ e. starts_id e ≢ some id) es
    → IsGone id (run es (cancel_upload id s))
      × (any (λ k. k == id) (cancel_upload id s).controllers ≡ false)
unfolding cancel_upload
cancel_is_final id es s other = (
  run-IsGone id es (cancel_upload id s) other (cancel_upload-IsGone id s),
  elim (Bool-cases (any (λ k. k == id) s.controllers)) [
    | inl held ↦ rw held (any-filter-not (λ k. k == id) s.controllers)
    | inr missing ↦ rw missing missing
  ],
)

-- The uploads under other ids.
abbrev pub others : String → List Upload → List Upload
others id = filter (λ u. not (u.id == id))

others-change_upload :
    (id : String) (change : Upload → Upload) (us : List Upload)
    → ((u : Upload) → (change u).id ≡ u.id)
    → others id (change_upload id change us) ≡ others id us
unfolding change_upload
others-change_upload id change [] same = refl
others-change_upload id change (u ∷ us) same =
    ground (arith, same u, others-change_upload id change us same)

others-append :
    (id : String) (us vs : List Upload) → others id (us ++ vs) ≡ others id us ++ others id vs
others-append id [] vs = refl
others-append id (u ∷ us) vs = ground (arith, others-append id us vs)

others_idem : (id : String) (us : List Upload) → others id (others id us) ≡ others id us
others_idem id [] = refl
others_idem id (u ∷ us) = ground (arith, others_idem id us)

others_of_gone :
    (id : String) (us : List Upload) → any (λ u. u.id == id) us ≡ false → others id us ≡ us
others_of_gone id [] h = refl
others_of_gone id (u ∷ us) h = ground (arith, others_of_gone id us)

-- An event is about one upload: all others stay as they are.
pub handle-others :
    (e : Event) (s : Provider)
    → others (subject e) (handle e s).uploads ≡ others (subject e) s.uploads
unfolding handle
handle-others (starts id name) s = others-append id s.uploads _ ∙ rw (eq_refl id) (append-nil _)
handle-others (progresses id n) s = others-change_upload id _ s.uploads (λ u. refl)
handle-others (settles id) s = refl
handle-others (succeeds id) s = others-change_upload id _ s.uploads (λ u. refl)
handle-others (forgets id) s = others_idem id s.uploads
handle-others (fails id message) s = others-change_upload id _ s.uploads (λ u. refl)
handle-others (cancels id) s = elim (Bool-cases (any (λ k. k == id) s.controllers)) [
  | inl held ↦ rw held (others_idem id s.uploads)
  | inr missing ↦ rw missing (others_idem id s.uploads)
]

run-others :
    (id : String) (es : List Event) (s : Provider)
    → All (λ e. subject e ≡ id) es
    → others id (run es s).uploads ≡ others id s.uploads
unfolding run
run-others id [] s about = refl
run-others id (e ∷ es) s (k, about) =
    run-others id es (handle e s) about
    ∙ subst (λ j. others j (handle e s).uploads ≡ others j s.uploads) k (handle-others e s)

-- Whatever an upload has gone through, from its start on and in whatever order, once its entry is
-- forgotten the list is the one from before, if no upload had its id then.
pub forget_restores :
    (id : String) (es : List Event) (s : Provider)
    → IsGone id s
    → All (λ e. subject e ≡ id) es
    → (forget id (run es s)).uploads ≡ s.uploads
unfolding forget
forget_restores id es s gone about = run-others id es s about ∙ others_of_gone id s.uploads gone
