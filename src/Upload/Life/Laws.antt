-- ===== src/Upload/Life/Laws.antt =====
-- The life of an upload as events of the provider, and what cancelling stops.
use mathlib.Core.Path.{subst}
use safebucket.Prelude.{
  ℕ, ◌≡◌, refl, inl, inr, ◌∙◌, sym, ap, Bool-cases, true, false, ◌==◌, Option, none, some, List, [],
  ◌∷◌, ◌++◌, String, any, All, All-append,
}
use safebucket.Auth.Platform.{Json, Result, ok, err, Failure, type_error}
use safebucket.Upload.Provider.{
  Provider, on_success, settle, on_error, cancel_upload, start_upload, on_progress, forget, Event,
  starts, progresses, settles, succeeds, forgets, fails, handle, run,
}
use safebucket.Upload.Provider as Provider_of
use safebucket.Upload.Provider.Laws.{IsGone, subject, starts_id, handle-IsGone}
use safebucket.Upload.Transfer as Transfer
use safebucket.Upload.Transfer.{
  Signal, cancelled, progress, loadend, failed, aborted, Settled, resolved, upload_cancelled,
  on_signal, percentage,
}
use safebucket.Upload.Life.{
  Job, Phase, creating, transferring, refused, Life, Input, cancels, created, hears, told, over,
  is_presigned, rejection, finish, answered, on_created, reported, resumed, hear, on_cancel,
  on_hears, succeeded, step, steps,
}

-- A provider comes from another by events of one upload, none of which starts it.
pub record IsTrace (id : String) (s t : Provider) : Type 0 where
  pub events : List Event
  pub reaches : t ≡ run events s
  pub own : All (λ e. (subject e ≡ id) × (starts_id e ≡ none)) events

run-append : (es fs : List Event) (s : Provider) → run (es ++ fs) s ≡ run fs (run es s)
unfolding run
run-append [] fs s = refl
run-append (e ∷ es) fs s = run-append es fs (handle e s)

module _ (id : String) where
  pub IsTrace-refl : (s : Provider) → IsTrace id s s
  unfolding run
  IsTrace-refl s = record { events = []; reaches = refl; own = tt }

  pub IsTrace-trans : {s t u : Provider} → IsTrace id s t → IsTrace id t u → IsTrace id s u
  IsTrace-trans {s} h k = record {
    events = h.events ++ k.events;
    reaches = k.reaches ∙ ap (run k.events) h.reaches ∙ sym (run-append h.events k.events s);
    own = All-append _ h.events k.events h.own k.own;
  }

  pub IsTrace-one :
      (e : Event) (s : Provider) → subject e ≡ id → starts_id e ≡ none → IsTrace id s (handle e s)
  unfolding run
  IsTrace-one e s same fresh_start = record {
    events = e ∷ [];
    reaches = refl;
    own = ((same, fresh_start), tt);
  }

  run-IsGone :
      (es : List Event) (s : Provider)
      → All (λ e. (subject e ≡ id) × (starts_id e ≡ none)) es
      → IsGone id s
      → IsGone id (run es s)
  unfolding run
  run-IsGone [] s own h = h
  run-IsGone (e ∷ es) s ((same, starts_none), own) h =
      run-IsGone es (handle e s) own (handle-IsGone id e s (λ p. cc) h)

  pub IsTrace-IsGone : {s t : Provider} → IsTrace id s t → IsGone id s → IsGone id t
  IsTrace-IsGone {s} h gone = subst (IsGone id) (sym h.reaches) (run-IsGone h.events s h.own gone)

module _ (message_of : Failure → String) (digits : ℕ → String) (job : Job) where
  abbrev id : String
  id = job.upload_id

  finish-IsTrace :
      (o : Option String) (s : Provider) → IsTrace id s (finish message_of digits job o s)
  unfolding finish handle
  finish-IsTrace none s =
      IsTrace-trans id (IsTrace-one id (settles id) s refl refl)
        (IsTrace-one id (succeeds id) (settle id s) refl refl)
  finish-IsTrace (some message) s =
      IsTrace-trans id (IsTrace-one id (settles id) s refl refl)
        (IsTrace-one id (fails id message) (settle id s) refl refl)

  reported-IsTrace : (e : Signal) (s : Provider) → IsTrace id s (reported message_of digits job e s)
  unfolding reported handle
  reported-IsTrace (progress true loaded total) s =
      IsTrace-one id (progresses id (percentage loaded total)) s refl refl
  reported-IsTrace (progress false loaded total) s = IsTrace-refl id s
  reported-IsTrace cancelled s = IsTrace-refl id s
  reported-IsTrace (loadend state status) s = IsTrace-refl id s
  reported-IsTrace failed s = IsTrace-refl id s
  reported-IsTrace aborted s = IsTrace-refl id s

  resumed-IsTrace :
      (before after : Option Settled) (s : Provider)
      → IsTrace id s (resumed message_of digits job before after s)
  unfolding resumed
  resumed-IsTrace none none s = IsTrace-refl id s
  resumed-IsTrace none (some r) s = finish-IsTrace (rejection message_of digits job r) s
  resumed-IsTrace (some q) after s = IsTrace-refl id s

  pub hear-IsTrace :
      (e : Signal) (x : Transfer.Transfer) (l : Life)
      → IsTrace id l.provider (hear message_of digits job e x l).provider
  unfolding hear
  hear-IsTrace e x l =
      IsTrace-trans id (reported-IsTrace e l.provider) (resumed-IsTrace x.outcome _ _)

  cancels-IsTrace : (s : Provider) → IsTrace id s (cancel_upload id s)
  unfolding handle
  cancels-IsTrace s = IsTrace-one id (Provider_of.cancels id) s refl refl

  on_cancel-IsTrace :
      (p : Phase) (l : Life) → IsTrace id l.provider (on_cancel message_of digits job p l).provider
  unfolding on_cancel
  on_cancel-IsTrace creating l = cancels-IsTrace l.provider
  on_cancel-IsTrace refused l = cancels-IsTrace l.provider
  on_cancel-IsTrace (transferring x) l =
      elim (Bool-cases (any (λ k. k == id) l.provider.controllers)) [
        | inl held ↦ rw held (
            IsTrace-trans id (cancels-IsTrace l.provider)
              (hear-IsTrace cancelled x (record l { provider = cancel_upload id l.provider })))
        | inr missing ↦ rw missing (cancels-IsTrace l.provider)
      ]

  on_created-IsTrace :
      (answer : Result Json) (l : Life)
      → IsTrace id l.provider (on_created message_of digits job answer l).provider
  unfolding on_created
  on_created-IsTrace (err e) l = finish-IsTrace (some (message_of e)) l.provider
  on_created-IsTrace (ok json) l = elim (Bool-cases (is_presigned json)) [
    | inl good ↦ rw good (IsTrace-refl id l.provider)
    | inr bad ↦ rw bad (finish-IsTrace (some (message_of type_error)) l.provider)
  ]

  on_hears-IsTrace :
      (e : Signal) (p : Phase) (l : Life)
      → IsTrace id l.provider (on_hears message_of digits job e p l).provider
  unfolding on_hears
  on_hears-IsTrace cancelled p l = IsTrace-refl id l.provider
  on_hears-IsTrace (progress b loaded total) (transferring x) l = hear-IsTrace _ x l
  on_hears-IsTrace (loadend state status) (transferring x) l = hear-IsTrace _ x l
  on_hears-IsTrace failed (transferring x) l = hear-IsTrace _ x l
  on_hears-IsTrace aborted (transferring x) l = hear-IsTrace _ x l
  on_hears-IsTrace (progress b loaded total) creating l = IsTrace-refl id l.provider
  on_hears-IsTrace (loadend state status) creating l = IsTrace-refl id l.provider
  on_hears-IsTrace failed creating l = IsTrace-refl id l.provider
  on_hears-IsTrace aborted creating l = IsTrace-refl id l.provider
  on_hears-IsTrace (progress b loaded total) refused l = IsTrace-refl id l.provider
  on_hears-IsTrace (loadend state status) refused l = IsTrace-refl id l.provider
  on_hears-IsTrace failed refused l = IsTrace-refl id l.provider
  on_hears-IsTrace aborted refused l = IsTrace-refl id l.provider

  answered-IsTrace :
      (answer : Result Json) (p : Phase) (l : Life)
      → IsTrace id l.provider (answered message_of digits job answer p l).provider
  unfolding answered
  answered-IsTrace answer creating l = on_created-IsTrace answer l
  answered-IsTrace answer (transferring x) l = IsTrace-refl id l.provider
  answered-IsTrace answer refused l = IsTrace-refl id l.provider

  step-IsTrace :
      (i : Input) (l : Life) → IsTrace id l.provider (step message_of digits job i l).provider
  unfolding step handle
  step-IsTrace cancels l = on_cancel-IsTrace l.phase l
  step-IsTrace (created answer) l = answered-IsTrace answer l.phase l
  step-IsTrace (hears e) l = on_hears-IsTrace e l.phase l
  step-IsTrace told l = elim (Bool-cases (succeeded l.phase)) [
    | inl done ↦ rw done (IsTrace-refl id l.provider)
    | inr not_done ↦ rw not_done (IsTrace-refl id l.provider)
  ]
  step-IsTrace over l = elim (Bool-cases (succeeded l.phase)) [
    | inl done ↦ rw done (IsTrace-one id (forgets id) l.provider refl refl)
    | inr not_done ↦ rw not_done (IsTrace-refl id l.provider)
  ]

  -- The provider goes through events of this upload alone, and none of them starts it again.
  pub steps-IsTrace :
      (is : List Input) (l : Life)
      → IsTrace id l.provider (steps message_of digits job is l).provider
  unfolding steps
  steps-IsTrace [] l = IsTrace-refl id l.provider
  steps-IsTrace (i ∷ is) l =
      IsTrace-trans id (step-IsTrace i l) (steps-IsTrace is (step message_of digits job i l))
