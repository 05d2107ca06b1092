-- ===== src/Upload/Life/Cancel.antt =====
-- What `cancelUpload` stops, and what it does not stop: `on_cancel` and the steps after it.
use mathlib.Core.Path.{subst}
use safebucket.Prelude.{
  ℕ, ◌≡◌, ◌≤◌, ◌<◌, refl, inl, inr, ◌∙◌, sym, Bool-cases, true, false, ◌==◌, none, some, List, [],
  ◌∷◌, String, any, arith,
}
use Prim.Native.String
use safebucket.Auth.Platform.{Json, Result, ok, Failure}
use safebucket.Toast as Toast
use safebucket.Upload.Provider.{cancel_upload}
use safebucket.Upload.Provider.Laws.{IsGone, cancel_upload-IsGone}
use safebucket.Upload.Transfer as Transfer
use safebucket.Upload.Transfer.{
  Signal, cancelled, progress, loadend, failed, aborted, Settled, resolved, upload_cancelled,
  on_signal,
}
use safebucket.Upload.Life.{
  Job, Phase, creating, transferring, refused, Life, Input, cancels, created, hears, told, over,
  is_presigned, answered, on_created, hear, on_cancel, on_hears, succeeded, step, steps,
}
use safebucket.Upload.Life.Laws.{IsTrace-IsGone, hear-IsTrace, steps-IsTrace}

-- The transfer has been given up.
abbrev pub HasStopped : Phase → Type 0
HasStopped (transferring x) = x.outcome ≡ some upload_cancelled
HasStopped _ = ⊥

-- Nothing more is announced.
abbrev pub IsSilent : Life → Life → Type 0
IsSilent l m = HasStopped m.phase × (m.toasts ≡ l.toasts) × (m.invalidated ≡ l.invalidated)

-- cancelled, then created, then stored
abbrev pub cancelled_too_early : Json → ℕ → List Input
cancelled_too_early json status = cancels ∷ created (ok json) ∷ hears (loadend 4 status) ∷ []

module _ (message_of : Failure → String) (digits : ℕ → String) (job : Job) where
  step_cancels-IsGone :
      (p : Phase) (l : Life) → IsGone job.upload_id (on_cancel message_of digits job p l).provider
  unfolding on_cancel
  step_cancels-IsGone creating l = cancel_upload-IsGone job.upload_id l.provider
  step_cancels-IsGone refused l = cancel_upload-IsGone job.upload_id l.provider
  step_cancels-IsGone (transferring x) l =
      let l' = record l { provider = cancel_upload job.upload_id l.provider } in
      elim (Bool-cases (any (λ k. k == job.upload_id) l.provider.controllers)) [
        | inl held ↦ rw held (
            IsTrace-IsGone job.upload_id (hear-IsTrace message_of digits job cancelled x l')
              (cancel_upload-IsGone job.upload_id l.provider))
        | inr missing ↦ rw missing (cancel_upload-IsGone job.upload_id l.provider)
      ]

  -- Once the user has cancelled an upload it is not listed again, whenever that was and whatever
  -- the API, the transfer and the timers of the upload still bring.
  pub steps_cancels-IsGone :
      (is : List Input) (l : Life)
      → IsGone job.upload_id (steps message_of digits job (cancels ∷ is) l).provider
  unfolding steps step
  steps_cancels-IsGone is l =
      IsTrace-IsGone job.upload_id
        (steps-IsTrace message_of digits job is (step message_of digits job cancels l))
        (step_cancels-IsGone l.phase l)

  on_signal_stopped :
      (e : Signal) (x : Transfer.Transfer)
      → x.outcome ≡ some upload_cancelled
      → (on_signal e x).outcome ≡ some upload_cancelled
  unfolding on_signal
  on_signal_stopped cancelled x h = ground arith
  on_signal_stopped (progress c l t) x h = ground arith
  on_signal_stopped (loadend r st) x h = ground arith
  on_signal_stopped failed x h = ground arith
  on_signal_stopped aborted x h = ground arith

  stopped_not_succeeded : (p : Phase) → HasStopped p → succeeded p ≡ false
  unfolding succeeded
  stopped_not_succeeded (transferring x) h = rw h refl
  stopped_not_succeeded creating h = absurd h
  stopped_not_succeeded refused h = absurd h

  on_hears-IsSilent :
      (e : Signal) (p : Phase) (l : Life)
      → l.phase ≡ p
      → HasStopped p
      → IsSilent l (on_hears message_of digits job e p l)
  unfolding on_hears hear
  on_hears-IsSilent cancelled (transferring x) l at h = (subst HasStopped (sym at) h, refl, refl)
  on_hears-IsSilent (progress b n t) (transferring x) l at h = (on_signal_stopped _ x h, refl, refl)
  on_hears-IsSilent (loadend r st) (transferring x) l at h = (on_signal_stopped _ x h, refl, refl)
  on_hears-IsSilent failed (transferring x) l at h = (on_signal_stopped _ x h, refl, refl)
  on_hears-IsSilent aborted (transferring x) l at h = (on_signal_stopped _ x h, refl, refl)
  on_hears-IsSilent e creating l at h = absurd h
  on_hears-IsSilent e refused l at h = absurd h

  on_cancel-IsSilent :
      (p : Phase) (l : Life)
      → l.phase ≡ p
      → HasStopped p
      → IsSilent l (on_cancel message_of digits job p l)
  unfolding on_cancel hear
  on_cancel-IsSilent (transferring x) l at h =
      elim (Bool-cases (any (λ k. k == job.upload_id) l.provider.controllers)) [
        | inl held ↦ rw held (on_signal_stopped cancelled x h, refl, refl)
        | inr missing ↦ rw missing (subst HasStopped (sym at) h, refl, refl)
      ]
  on_cancel-IsSilent creating l at h = absurd h
  on_cancel-IsSilent refused l at h = absurd h

  answered-IsSilent :
      (answer : Result Json) (p : Phase) (l : Life)
      → l.phase ≡ p
      → HasStopped p
      → IsSilent l (answered message_of digits job answer p l)
  unfolding answered
  answered-IsSilent answer (transferring x) l at h = (subst HasStopped (sym at) h, refl, refl)
  answered-IsSilent answer creating l at h = absurd h
  answered-IsSilent answer refused l at h = absurd h

  step-IsSilent :
      (i : Input) (l : Life) → HasStopped l.phase → IsSilent l (step message_of digits job i l)
  unfolding step
  step-IsSilent cancels l h = on_cancel-IsSilent l.phase l refl h
  step-IsSilent (created answer) l h = answered-IsSilent answer l.phase l refl h
  step-IsSilent (hears e) l h = on_hears-IsSilent e l.phase l refl h
  step-IsSilent told l h = rw (stopped_not_succeeded l.phase h) (h, refl, refl)
  step-IsSilent over l h = rw (stopped_not_succeeded l.phase h) (h, refl, refl)

  steps-IsSilent :
      (is : List Input) (l : Life)
      → HasStopped l.phase
      → IsSilent l (steps message_of digits job is l)
  unfolding steps
  steps-IsSilent [] l h = (h, refl, refl)
  steps-IsSilent (i ∷ is) l h =
      let now = step-IsSilent i l h in
      let rest = steps-IsSilent is (step message_of digits job i l) now.0 in
      (rest.0, rest.1 ∙ now.1, rest.2 ∙ now.2)

  on_cancel_stops :
      (x : Transfer.Transfer) (l : Life)
      → x.outcome ≡ none
      → any (λ k. k == job.upload_id) l.provider.controllers ≡ true
      → IsSilent l (on_cancel message_of digits job (transferring x) l)
  unfolding on_cancel hear on_signal
  on_cancel_stops x l pending held = rw held ((rw pending refl), refl, refl)

  -- An upload that the user cancels while its transfer is under way stops: its promise is rejected,
  -- and whatever comes then, nothing more is announced and no query is invalidated.
  pub steps_cancels-IsSilent :
      (is : List Input) (l : Life) {x : Transfer.Transfer}
      → l.phase ≡ transferring x
      → x.outcome ≡ none
      → any (λ k. k == job.upload_id) l.provider.controllers ≡ true
      → IsSilent l (steps message_of digits job (cancels ∷ is) l)
  unfolding steps step
  steps_cancels-IsSilent is l {x} at pending held =
      let now =
        subst (λ p. IsSilent l (on_cancel message_of digits job p l)) (sym at)
          (on_cancel_stops x l pending held) in
      let rest = steps-IsSilent is (step message_of digits job cancels l) now.0 in
      (rest.0, rest.1 ∙ now.1, rest.2 ∙ now.2)

  too_early_succeeded :
      (json : Json) (status : ℕ) (l : Life)
      → l.phase ≡ creating
      → is_presigned json ≡ true
      → 200 ≤ status
      → status < 300
      → succeeded (steps message_of digits job (cancelled_too_early json status) l).phase ≡ true
  unfolding steps step on_cancel answered on_created on_hears hear on_signal succeeded
  too_early_succeeded json status l at good lo hi = rw at (rw good (ground arith))

  told_announces :
      (l : Life)
      → succeeded l.phase ≡ true
      → (step message_of digits job told l).toasts
        ≡ Toast.success_toast (String.◌++◌ "Upload completed for " job.file_name) l.toasts
  unfolding step
  told_announces l done = rw done refl

  -- An upload that the user cancels before its file is created at the server does not stop: when it
  -- is created and the storage then answers with a status of success, the mutation has succeeded,
  -- and the timer announces that the upload is complete; but its entry is not listed.
  pub cancel_while_creating :
      (json : Json) (status : ℕ) (l : Life)
      → l.phase ≡ creating
      → is_presigned json ≡ true
      → 200 ≤ status
      → status < 300
      → let m = steps message_of digits job (cancelled_too_early json status) l in
        (succeeded m.phase ≡ true)
        × IsGone job.upload_id m.provider
        × ((step message_of digits job told m).toasts
            ≡ Toast.success_toast (String.◌++◌ "Upload completed for " job.file_name) m.toasts)
  cancel_while_creating json status l at good lo hi = (
    too_early_succeeded json status l at good lo hi,
    steps_cancels-IsGone (created (ok json) ∷ hears (loadend 4 status) ∷ []) l,
    told_announces _ (too_early_succeeded json status l at good lo hi),
  )
