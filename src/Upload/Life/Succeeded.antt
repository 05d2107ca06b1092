-- ===== src/Upload/Life/Succeeded.antt =====
-- An upload that has succeeded stays so.
use safebucket.Prelude.{
  ℕ, ◌≡◌, refl, ap, ◌∙◌, inl, inr, true, ◌==◌, Bool-cases, some, List, [], ◌∷◌, String, any, arith,
}
use safebucket.Auth.Platform.{Json, Result, Failure}
use safebucket.Upload.Provider.{cancel_upload}
use safebucket.Upload.Transfer as Transfer
use safebucket.Upload.Transfer.{
  Signal, cancelled, progress, loadend, failed, aborted, Settled, resolved, on_signal,
}
use safebucket.Upload.Life.{
  Job, Phase, creating, transferring, refused, Life, Input, cancels, created, hears, told, over,
  answered, hear, on_hears, on_cancel, succeeded, step, steps,
}

resolved_kept :
    (e : Signal) (x : Transfer.Transfer)
    → x.outcome ≡ some resolved
    → (on_signal e x).outcome ≡ some resolved
unfolding on_signal
resolved_kept cancelled x h = ground arith
resolved_kept (progress c l t) x h = ground arith
resolved_kept (loadend r st) x h = ground arith
resolved_kept failed x h = ground arith
resolved_kept aborted x h = ground arith

module _ (message_of : Failure → String) (digits : ℕ → String) (job : Job) where
  succeeded-outcome :
      (x : Transfer.Transfer) → succeeded (transferring x) ≡ true → x.outcome ≡ some resolved
  unfolding succeeded
  succeeded-outcome x h = ground arith

  succeeded-hear :
      (e : Signal) (x : Transfer.Transfer) (l : Life)
      → succeeded (transferring x) ≡ true
      → succeeded (hear message_of digits job e x l).phase ≡ true
  unfolding hear succeeded
  succeeded-hear e x l h = rw (resolved_kept e x (succeeded-outcome x h)) refl

  succeeded-on_cancel :
      (p : Phase) (l : Life)
      → l.phase ≡ p
      → succeeded p ≡ true
      → succeeded (on_cancel message_of digits job p l).phase ≡ true
  unfolding on_cancel
  succeeded-on_cancel creating l e h = ap succeeded e ∙ h
  succeeded-on_cancel refused l e h = ap succeeded e ∙ h
  succeeded-on_cancel (transferring x) l e h =
      elim (Bool-cases (any (λ k. k == job.upload_id) l.provider.controllers)) [
        | inl held ↦ rw held (
            succeeded-hear cancelled x
              (record l { provider = cancel_upload job.upload_id l.provider }) h)
        | inr missing ↦ rw missing (ap succeeded e ∙ h)
      ]

  succeeded-answered :
      (answer : Result Json) (p : Phase) (l : Life)
      → l.phase ≡ p
      → succeeded p ≡ true
      → succeeded (answered message_of digits job answer p l).phase ≡ true
  unfolding answered succeeded
  succeeded-answered answer creating l e h = absurd (cc)
  succeeded-answered answer refused l e h = absurd (cc)
  succeeded-answered answer (transferring x) l e h = rw e h

  succeeded-on_hears :
      (s : Signal) (p : Phase) (l : Life)
      → l.phase ≡ p
      → succeeded p ≡ true
      → succeeded (on_hears message_of digits job s p l).phase ≡ true
  unfolding on_hears
  succeeded-on_hears cancelled p l e h = ap succeeded e ∙ h
  succeeded-on_hears (progress b m t) (transferring x) l e h = succeeded-hear _ x l h
  succeeded-on_hears (loadend r st) (transferring x) l e h = succeeded-hear _ x l h
  succeeded-on_hears failed (transferring x) l e h = succeeded-hear _ x l h
  succeeded-on_hears aborted (transferring x) l e h = succeeded-hear _ x l h
  succeeded-on_hears (progress b m t) creating l e h = ap succeeded e ∙ h
  succeeded-on_hears (loadend r st) creating l e h = ap succeeded e ∙ h
  succeeded-on_hears failed creating l e h = ap succeeded e ∙ h
  succeeded-on_hears aborted creating l e h = ap succeeded e ∙ h
  succeeded-on_hears (progress b m t) refused l e h = ap succeeded e ∙ h
  succeeded-on_hears (loadend r st) refused l e h = ap succeeded e ∙ h
  succeeded-on_hears failed refused l e h = ap succeeded e ∙ h
  succeeded-on_hears aborted refused l e h = ap succeeded e ∙ h

  succeeded-step :
      (i : Input) (l : Life)
      → succeeded l.phase ≡ true
      → succeeded (step message_of digits job i l).phase ≡ true
  unfolding step
  succeeded-step cancels l h = succeeded-on_cancel l.phase l refl h
  succeeded-step (created answer) l h = succeeded-answered answer l.phase l refl h
  succeeded-step (hears e) l h = succeeded-on_hears e l.phase l refl h
  succeeded-step told l h = rw h h
  succeeded-step over l h = rw h h

  pub succeeded-steps :
      (is : List Input) (l : Life)
      → succeeded l.phase ≡ true
      → succeeded (steps message_of digits job is l).phase ≡ true
  unfolding steps
  succeeded-steps [] l h = h
  succeeded-steps (i ∷ is) l h = succeeded-steps is _ (succeeded-step i l h)
