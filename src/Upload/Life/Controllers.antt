-- ===== src/Upload/Life/Controllers.antt =====
-- The controllers of `abortControllersRef`: the `finally` of the mutation deletes each.
use mathlib.Core.Path.{subst}
use safebucket.Prelude.{
  ℕ, ◌≡◌, ◌≢◌, refl, inl, inr, sym, Bool-cases, true, false, ◌==◌, Option, none, some, List, [],
  ◌∷◌, String, any, any-filter-not,
}
use safebucket.Auth.Platform.{Json, Result, ok, err, Failure, type_error}
use safebucket.Upload.Provider.{
  Provider, on_success, settle, on_error, cancel_upload, forget, on_progress,
}
use safebucket.Upload.Transfer as Transfer
use safebucket.Upload.Transfer.{
  Signal, cancelled, progress, loadend, failed, aborted, Settled, resolved, on_signal,
}
use safebucket.Upload.Life.{
  Job, Phase, creating, transferring, refused, Life, Input, cancels, created, hears, told, over,
  is_presigned, begin, rejection, finish, answered, on_created, reported, resumed, hear, on_cancel,
  on_hears, succeeded, step, steps,
}

-- No controller is left under the id.
abbrev pub IsFreed : String → Provider → Type 0
IsFreed id s = any (λ k. k == id) s.controllers ≡ false

cancel_upload-IsFreed : (id : String) (s : Provider) → IsFreed id (cancel_upload id s)
unfolding cancel_upload
cancel_upload-IsFreed id s = elim (Bool-cases (any (λ k. k == id) s.controllers)) [
  | inl held ↦ rw held (any-filter-not (λ k. k == id) s.controllers)
  | inr missing ↦ rw missing missing
]

module _ (message_of : Failure → String) (digits : ℕ → String) (job : Job) where
  -- An upload that waits for nothing has no controller.
  abbrev pub IsClean : Phase → Provider → Type 0
  IsClean creating s = Unit
  IsClean refused s = IsFreed job.upload_id s
  IsClean (transferring x) s = x.outcome ≢ none → IsFreed job.upload_id s

  finish-IsFreed :
      (o : Option String) (s : Provider) → IsFreed job.upload_id (finish message_of digits job o s)
  unfolding finish settle on_success on_error
  finish-IsFreed none s = any-filter-not (λ k. k == job.upload_id) s.controllers
  finish-IsFreed (some message) s = any-filter-not (λ k. k == job.upload_id) s.controllers

  reported-IsFreed :
      (e : Signal) (s : Provider)
      → IsFreed job.upload_id s
      → IsFreed job.upload_id (reported message_of digits job e s)
  unfolding reported on_progress
  reported-IsFreed (progress true n t) s h = h
  reported-IsFreed (progress false n t) s h = h
  reported-IsFreed cancelled s h = h
  reported-IsFreed (loadend r st) s h = h
  reported-IsFreed failed s h = h
  reported-IsFreed aborted s h = h

  resumed-IsClean :
      (before after : Option Settled) (s : Provider)
      → (before ≢ none → IsFreed job.upload_id s)
      → after ≢ none
      → IsFreed job.upload_id (resumed message_of digits job before after s)
  unfolding resumed
  resumed-IsClean none none s h k = absurd (k refl)
  resumed-IsClean none (some r) s h k = finish-IsFreed (rejection message_of digits job r) s
  resumed-IsClean (some q) after s h k = h (λ p. cc)

  hear-IsClean :
      (e : Signal) (x : Transfer.Transfer) (l : Life)
      → IsClean (transferring x) l.provider
      → IsClean (hear message_of digits job e x l).phase (hear message_of digits job e x l).provider
  unfolding hear
  hear-IsClean e x l h k =
      resumed-IsClean x.outcome _ _ (λ n. reported-IsFreed e l.provider (h n)) k

  on_cancel-IsClean :
      (p : Phase) (l : Life)
      → l.phase ≡ p
      → IsClean p l.provider
      → let m = on_cancel message_of digits job p l in IsClean m.phase m.provider
  unfolding on_cancel
  on_cancel-IsClean creating l at h =
      subst (λ p. IsClean p (cancel_upload job.upload_id l.provider)) (sym at) tt
  on_cancel-IsClean refused l at h =
      subst (λ p. IsClean p (cancel_upload job.upload_id l.provider)) (sym at)
        (cancel_upload-IsFreed job.upload_id l.provider)
  on_cancel-IsClean (transferring x) l at h =
      let l' = record l { provider = cancel_upload job.upload_id l.provider } in
      elim (Bool-cases (any (λ k. k == job.upload_id) l.provider.controllers)) [
        | inl held ↦
            rw held
              (hear-IsClean cancelled x l' (λ k. cancel_upload-IsFreed job.upload_id l.provider))
        | inr missing ↦ rw missing (
            subst (λ p. IsClean p l'.provider) (sym at)
              (λ k. cancel_upload-IsFreed job.upload_id l.provider))
      ]

  answered-IsClean :
      (answer : Result Json) (p : Phase) (l : Life)
      → l.phase ≡ p
      → IsClean p l.provider
      → let m = answered message_of digits job answer p l in IsClean m.phase m.provider
  unfolding answered on_created
  answered-IsClean (err e) creating l at h = finish-IsFreed (some (message_of e)) l.provider
  answered-IsClean (ok json) creating l at h = elim (Bool-cases (is_presigned json)) [
    | inl good ↦ rw good (λ k. absurd (k refl))
    | inr bad ↦ rw bad (finish-IsFreed (some (message_of type_error)) l.provider)
  ]
  answered-IsClean answer (transferring x) l at h = subst (λ p. IsClean p l.provider) (sym at) h
  answered-IsClean answer refused l at h = subst (λ p. IsClean p l.provider) (sym at) h

  on_hears-IsClean :
      (e : Signal) (p : Phase) (l : Life)
      → l.phase ≡ p
      → IsClean p l.provider
      → let m = on_hears message_of digits job e p l in IsClean m.phase m.provider
  unfolding on_hears
  on_hears-IsClean cancelled p l at h = subst (λ p. IsClean p l.provider) (sym at) h
  on_hears-IsClean (progress b n t) (transferring x) l at h = hear-IsClean _ x l h
  on_hears-IsClean (loadend r st) (transferring x) l at h = hear-IsClean _ x l h
  on_hears-IsClean failed (transferring x) l at h = hear-IsClean _ x l h
  on_hears-IsClean aborted (transferring x) l at h = hear-IsClean _ x l h
  on_hears-IsClean (progress b n t) creating l at h = subst (λ p. IsClean p l.provider) (sym at) h
  on_hears-IsClean (loadend r st) creating l at h = subst (λ p. IsClean p l.provider) (sym at) h
  on_hears-IsClean failed creating l at h = subst (λ p. IsClean p l.provider) (sym at) h
  on_hears-IsClean aborted creating l at h = subst (λ p. IsClean p l.provider) (sym at) h
  on_hears-IsClean (progress b n t) refused l at h = subst (λ p. IsClean p l.provider) (sym at) h
  on_hears-IsClean (loadend r st) refused l at h = subst (λ p. IsClean p l.provider) (sym at) h
  on_hears-IsClean failed refused l at h = subst (λ p. IsClean p l.provider) (sym at) h
  on_hears-IsClean aborted refused l at h = subst (λ p. IsClean p l.provider) (sym at) h

  forget-IsClean : (p : Phase) (s : Provider) → IsClean p s → IsClean p (forget job.upload_id s)
  unfolding forget
  forget-IsClean creating s h = tt
  forget-IsClean refused s h = h
  forget-IsClean (transferring x) s h = h

  step-IsClean :
      (i : Input) (l : Life)
      → IsClean l.phase l.provider
      → let m = step message_of digits job i l in IsClean m.phase m.provider
  unfolding step
  step-IsClean cancels l h = on_cancel-IsClean l.phase l refl h
  step-IsClean (created answer) l h = answered-IsClean answer l.phase l refl h
  step-IsClean (hears e) l h = on_hears-IsClean e l.phase l refl h
  step-IsClean told l h = elim (Bool-cases (succeeded l.phase)) [
    | inl done ↦ rw done h
    | inr pending ↦ rw pending h
  ]
  step-IsClean over l h = elim (Bool-cases (succeeded l.phase)) [
    | inl done ↦ rw done (forget-IsClean l.phase l.provider h)
    | inr pending ↦ rw pending h
  ]

  steps_keep-IsClean :
      (is : List Input) (l : Life)
      → IsClean l.phase l.provider
      → let m = steps message_of digits job is l in IsClean m.phase m.provider
  unfolding steps
  steps_keep-IsClean [] l h = h
  steps_keep-IsClean (i ∷ is) l h =
      steps_keep-IsClean is (step message_of digits job i l) (step-IsClean i l h)

  -- At every moment of an upload's life: when its file was refused, or its transfer is settled in
  -- whatever way, no controller is left under its id.
  pub steps-IsClean :
      (is : List Input) (l : Life)
      → let m = steps message_of digits job is (begin message_of digits job l) in
        IsClean m.phase m.provider
  unfolding begin
  steps-IsClean is l = steps_keep-IsClean is (begin message_of digits job l) tt
