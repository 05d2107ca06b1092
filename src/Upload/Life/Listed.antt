-- ===== src/Upload/Life/Listed.antt =====
-- What may happen to other uploads and to the list while an upload is under way.
use mathlib.Core.Path.{subst}
use safebucket.Prelude.{
  ℕ, ◌≡◌, refl, sym, ap, ◌∙◌, ◌⊎◌, inl, inr, Bool, true, false, ◌==◌, Bool-cases, Option, none,
  some, List, [], ◌∷◌, String, map, any,
}
use safebucket.Auth.Platform.{Json, Result, ok, err, Failure, type_error}
use safebucket.Upload.Provider.{
  Upload, Provider, change_upload, on_progress, settle, on_success, on_error,
}
use safebucket.Upload.Transfer as Transfer
use safebucket.Upload.Transfer.{
  Signal, cancelled, progress, loadend, failed, aborted, Settled, resolved, on_signal,
}
use safebucket.Upload.Life.{
  Job, Phase, creating, transferring, refused, Life, Input, cancels, created, hears, told, over,
  is_presigned, finish, answered, on_created, reported, resumed, hear, on_hears, succeeded, step,
  steps,
}
use safebucket.Upload.Life.Laws.{steps-IsTrace}
use safebucket.Upload.Life.Frame.{KeepsOthers, run-KeepsOthers}
use safebucket.Upload.Life.Succeeded.{succeeded-steps}

-- The uploads that are listed, with their names.
abbrev pub entry : Upload → String × String
entry u = (u.id, u.name)

abbrev pub listed : Provider → List (String × String)
listed s = map entry s.uploads

listed-change_upload :
    (id : String) (change : Upload → Upload) (us : List Upload)
    → ((u : Upload) → entry (change u) ≡ entry u)
    → map entry (change_upload id change us) ≡ map entry us
unfolding change_upload
listed-change_upload id change [] same = refl
listed-change_upload id change (u ∷ us) same = elim (Bool-cases (u.id == id)) [
  | inl own ↦
      rw own (rw (same u) (ap (λ es. entry u ∷ es) (listed-change_upload id change us same)))
  | inr other ↦ rw other (ap (λ es. entry u ∷ es) (listed-change_upload id change us same))
]

abbrev pub is_cancel : Input → Bool
is_cancel cancels = true
is_cancel _ = false

module _ (message_of : Failure → String) (digits : ℕ → String) (job : Job) where
  listed-finish :
      (o : Option String) (s : Provider) → listed (finish message_of digits job o s) ≡ listed s
  unfolding finish on_success on_error settle
  listed-finish none s = listed-change_upload job.upload_id _ s.uploads (λ u. refl)
  listed-finish (some m) s = listed-change_upload job.upload_id _ s.uploads (λ u. refl)

  listed-reported :
      (e : Signal) (s : Provider) → listed (reported message_of digits job e s) ≡ listed s
  unfolding reported on_progress
  listed-reported (progress true l t) s = listed-change_upload job.upload_id _ s.uploads (λ u. refl)
  listed-reported (progress false l t) s = refl
  listed-reported cancelled s = refl
  listed-reported (loadend r st) s = refl
  listed-reported failed s = refl
  listed-reported aborted s = refl

  listed-resumed :
      (before after : Option Settled) (s : Provider)
      → listed (resumed message_of digits job before after s) ≡ listed s
  unfolding resumed
  listed-resumed none none s = refl
  listed-resumed none (some r) s = listed-finish _ s
  listed-resumed (some q) after s = refl

  listed-hear :
      (e : Signal) (x : Transfer.Transfer) (l : Life)
      → listed (hear message_of digits job e x l).provider ≡ listed l.provider
  unfolding hear
  listed-hear e x l = listed-resumed x.outcome _ _ ∙ listed-reported e l.provider

  listed-answered :
      (answer : Result Json) (p : Phase) (l : Life)
      → listed (answered message_of digits job answer p l).provider ≡ listed l.provider
  unfolding answered on_created
  listed-answered (err e) creating l = listed-finish (some (message_of e)) l.provider
  listed-answered (ok json) creating l = elim (Bool-cases (is_presigned json)) [
    | inl good ↦ rw good refl
    | inr bad ↦ rw bad (listed-finish (some (message_of type_error)) l.provider)
  ]
  listed-answered answer (transferring x) l = refl
  listed-answered answer refused l = refl

  listed-on_hears :
      (e : Signal) (p : Phase) (l : Life)
      → listed (on_hears message_of digits job e p l).provider ≡ listed l.provider
  unfolding on_hears
  listed-on_hears cancelled p l = refl
  listed-on_hears (progress b m t) (transferring x) l = listed-hear _ x l
  listed-on_hears (loadend r st) (transferring x) l = listed-hear _ x l
  listed-on_hears failed (transferring x) l = listed-hear _ x l
  listed-on_hears aborted (transferring x) l = listed-hear _ x l
  listed-on_hears (progress b m t) creating l = refl
  listed-on_hears (loadend r st) creating l = refl
  listed-on_hears failed creating l = refl
  listed-on_hears aborted creating l = refl
  listed-on_hears (progress b m t) refused l = refl
  listed-on_hears (loadend r st) refused l = refl
  listed-on_hears failed refused l = refl
  listed-on_hears aborted refused l = refl

  listed-step :
      (i : Input) (l : Life)
      → is_cancel i ≡ false
      → succeeded l.phase ≡ false
      → listed (step message_of digits job i l).provider ≡ listed l.provider
  unfolding step
  listed-step cancels l h k = absurd (cc)
  listed-step (created answer) l h k = listed-answered answer l.phase l
  listed-step (hears e) l h k = listed-on_hears e l.phase l
  listed-step told l h k = rw k refl
  listed-step over l h k = rw k refl

  -- The entries are those of before, or the user has cancelled, or the upload has succeeded.
  abbrev pub KeepsListed : List Input → Life → Life → Type 0
  KeepsListed is l m =
      (listed m.provider ≡ listed l.provider)
      ⊎ (any is_cancel is ≡ true)
      ⊎ (succeeded m.phase ≡ true)

  steps-KeepsListed :
      (is : List Input) (l : Life) → KeepsListed is l (steps message_of digits job is l)
  unfolding steps
  steps-KeepsListed [] l = inl refl
  steps-KeepsListed (i ∷ is) l = elim (Bool-cases (succeeded l.phase)) [
    | inl done ↦ inr (inr (succeeded-steps message_of digits job (i ∷ is) l done))
    | inr waits ↦ elim (Bool-cases (is_cancel i)) [
      | inl gone ↦ inr (inl (rw gone refl))
      | inr stays ↦ rw stays (elim (steps-KeepsListed is (step message_of digits job i l)) [
        | inl same ↦ inl (same ∙ listed-step i l stays waits)
        | inr other ↦ inr other
      ])
    ]
  ]

  -- Whatever comes while an upload is under way, in whatever order: every other upload keeps its
  -- entry as it is, its controller, and whether that is aborted; and which uploads are listed, and
  -- under which names, does not change until the user has cancelled this one or it has succeeded.
  pub steps_frame :
      (is : List Input) (l : Life)
      → let m = steps message_of digits job is l in
        KeepsOthers job.upload_id l.provider m.provider × KeepsListed is l m
  steps_frame is l =
      let trace = steps-IsTrace message_of digits job is l in
      (
        subst (KeepsOthers job.upload_id l.provider) (sym trace.reaches)
            (run-KeepsOthers job.upload_id trace.events l.provider trace.own),
        steps-KeepsListed is l,
      )
