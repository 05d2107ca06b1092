-- ===== src/Upload/Life/Complete.antt =====
-- An upload that is left to itself: created, transferred, announced and forgotten; and the
-- controllers of `abortControllersRef`, which do not outlive their uploads.
use Prim.Native.String
use safebucket.Prelude.{
  ℕ, ◌≡◌, ◌≤◌, ◌<◌, refl, inl, inr, ◌∙◌, sym, ap, Bool-cases, true, none, List, [], ◌∷◌, ◌++◌,
  String, map, arith, All,
}
use safebucket.Auth.Platform.{Json, ok, Failure}
use safebucket.Toast as Toast
use safebucket.Upload.Provider.{Provider, Event, starts, forgets, forget, run}
use safebucket.Upload.Provider as Provider_of
use safebucket.Upload.Provider.Laws.{IsGone, subject, starts_id, forget_restores}
use safebucket.Upload.Transfer.{
  Signal, cancelled, progress, loadend, failed, aborted, on_signal, IsQuiet,
}
use safebucket.Upload.Life.{
  Job, Phase, creating, transferring, refused, Life, Input, created, hears, told, over,
  is_presigned, begin, answered, on_created, hear, on_hears, succeeded, step, steps,
}
use safebucket.Upload.Life.Laws.{IsTrace, steps-IsTrace}

own_subjects :
    (id : String) (es : List Event)
    → All (λ e. (subject e ≡ id) × (starts_id e ≡ none)) es
    → All (λ e. subject e ≡ id) es
own_subjects id [] own = tt
own_subjects id (e ∷ es) ((same, starts_none), own) = (same, own_subjects id es own)

-- Signals that settle nothing leave the transfer pending.
IsPending : Phase → Type 0
IsPending (transferring x) = x.outcome ≡ none
IsPending _ = ⊥

-- the signals of a transfer that ends well
abbrev pub stored : Json → List Signal → ℕ → List Input
stored json es status = created (ok json) ∷ map hears es ++ hears (loadend 4 status) ∷ []

module _ (message_of : Failure → String) (digits : ℕ → String) (job : Job) where
  steps-append :
      (is js : List Input) (l : Life)
      → steps message_of digits job (is ++ js) l
        ≡ steps message_of digits job js (steps message_of digits job is l)
  unfolding steps
  steps-append [] js l = refl
  steps-append (i ∷ is) js l = steps-append is js (step message_of digits job i l)

  forgotten_restores :
      (s t : Provider)
      → IsGone job.upload_id s
      → IsTrace job.upload_id (Provider_of.start_upload job.upload_id job.file_name s) t
      → (forget job.upload_id t).uploads ≡ s.uploads
  unfolding run Provider_of.handle
  forgotten_restores s t gone h =
      ap (λ (p : Provider). (forget job.upload_id p).uploads) h.reaches
      ∙ forget_restores job.upload_id (starts job.upload_id job.file_name ∷ h.events) s gone
          (refl, own_subjects job.upload_id h.events h.own)

  over_forgets :
      (l : Life)
      → succeeded l.phase ≡ true
      → (step message_of digits job over l).provider ≡ forget job.upload_id l.provider
  unfolding step
  over_forgets l done = rw done refl

  -- Whatever has come since the upload was started: when it has succeeded, its last timer leaves
  -- the list of uploads as it was before, if none had the id that was drawn.
  pub over_restores :
      (is : List Input) (l : Life)
      → IsGone job.upload_id l.provider
      → succeeded (steps message_of digits job is (begin message_of digits job l)).phase ≡ true
      → (steps message_of digits job
          (is ++ over ∷ [])
          (begin message_of digits job l)).provider.uploads
        ≡ l.provider.uploads
  unfolding steps begin
  over_restores is l gone done =
      let l' = begin message_of digits job l in
      ap (λ (m : Life). m.provider.uploads) (steps-append is (over ∷ []) l')
      ∙ ap (λ (p : Provider). p.uploads) (over_forgets (steps message_of digits job is l') done)
      ∙ forgotten_restores l.provider (steps message_of digits job is l').provider gone
          (steps-IsTrace message_of digits job is l')

  quiet_hears :
      (e : Signal) (p : Phase) (l : Life)
      → IsQuiet e
      → IsPending p
      → IsPending (on_hears message_of digits job e p l).phase
        × ((on_hears message_of digits job e p l).toasts ≡ l.toasts)
  unfolding on_hears hear on_signal IsPending
  quiet_hears (progress b n t) (transferring x) l q h = (ground arith, refl)
  quiet_hears (loadend r st) (transferring x) l q h = (ground arith, refl)
  quiet_hears cancelled p l q h = absurd q
  quiet_hears failed p l q h = absurd q
  quiet_hears aborted p l q h = absurd q
  quiet_hears (progress b n t) creating l q h = absurd h
  quiet_hears (progress b n t) refused l q h = absurd h
  quiet_hears (loadend r st) creating l q h = absurd h
  quiet_hears (loadend r st) refused l q h = absurd h

  quiet_steps :
      (es : List Signal) (l : Life)
      → All IsQuiet es
      → IsPending l.phase
      → IsPending (steps message_of digits job (map hears es) l).phase
  unfolding steps step
  quiet_steps [] l q h = h
  quiet_steps (e ∷ es) l (k, q) h =
      quiet_steps es (on_hears message_of digits job e l.phase l) q (quiet_hears e l.phase l k h).0

  stored_succeeds :
      (status : ℕ) (p : Phase) (l : Life)
      → 200 ≤ status
      → status < 300
      → IsPending p
      → succeeded (on_hears message_of digits job (loadend 4 status) p l).phase ≡ true
  unfolding on_hears hear on_signal succeeded IsPending
  stored_succeeds status (transferring x) l lo hi h = rw h (ground arith)
  stored_succeeds status creating l lo hi h = absurd h
  stored_succeeds status refused l lo hi h = absurd h

  created-IsPending :
      (json : Json) (l : Life)
      → is_presigned json ≡ true
      → IsPending (on_created message_of digits job (ok json) l).phase
  unfolding on_created IsPending
  created-IsPending json l good = rw good refl

  stored-succeeded :
      (json : Json) (es : List Signal) (status : ℕ) (l : Life)
      → is_presigned json ≡ true
      → All IsQuiet es
      → 200 ≤ status
      → status < 300
      → succeeded
          (steps message_of digits job
            (stored json es status)
            (begin message_of digits job l)).phase
        ≡ true
  unfolding steps step begin answered
  stored-succeeded json es status l good q lo hi =
      let m = on_created message_of digits job (ok json) (begin message_of digits job l) in
      let n = steps message_of digits job (map hears es) m in
      ap (λ (k : Life). succeeded k.phase)
        (steps-append (map hears es) (hears (loadend 4 status) ∷ []) m)
      ∙ stored_succeeds status n.phase n lo hi
          (quiet_steps es m q (created-IsPending json (begin message_of digits job l) good))

  told-provider : (l : Life) → (step message_of digits job told l).provider ≡ l.provider
  unfolding step
  told-provider l = elim (Bool-cases (succeeded l.phase)) [
    | inl done ↦ rw done refl
    | inr pending ↦ rw pending refl
  ]

  -- An upload that is started, whose file is created, and whose request ends, after any number of
  -- quiet signals, with a status of success, has succeeded; its first timer announces that, and
  -- its second one leaves the list of uploads as it was before, if none had the id drawn.
  pub upload_completes :
      (json : Json) (es : List Signal) (status : ℕ) (l : Life)
      → is_presigned json ≡ true
      → All IsQuiet es
      → 200 ≤ status
      → status < 300
      → IsGone job.upload_id l.provider
      → let m =
          steps message_of digits job (stored json es status) (begin message_of digits job l) in
        ((step message_of digits job told m).toasts
          ≡ Toast.success_toast (String.◌++◌ "Upload completed for " job.file_name) m.toasts)
        × ((step message_of digits job over m).provider.uploads ≡ l.provider.uploads)
  unfolding step steps
  upload_completes json es status l good q lo hi gone =
      let done = stored-succeeded json es status l good q lo hi in
      let m = steps message_of digits job (stored json es status) (begin message_of digits job l) in
      (
        rw done refl,
        ap (λ (k : Life). k.provider.uploads)
              (sym
                (steps-append (stored json es status) (over ∷ []) (begin message_of digits job l)))
            ∙ over_restores (stored json es status) l gone done,
      )
