-- ===== src/Upload/Transfer.antt =====
-- The transfer of one file: `uploadToStorage` of web/src/components/upload/helpers/api.ts. Its
-- promise is settled by the first call of `resolve` or `reject`; later calls have no effect.
use safebucket.Prelude.{
  ℕ, ◌+◌, ◌*◌, ◌/◌, ◌≤◌, ◌<◌, ◌≡◌, ◌≢◌, ◌⊎◌, Bool, ◌&&◌, Option, none, some, List, [], ◌∷◌, ◌++◌,
  leb, ltb, eqb, if◌then◌else◌, arith, All, ◌∙◌,
}

-- What the browser tells the transfer; `loadend` has the ready state and the status.
pub data Signal : Type 0 where
  cancelled : Signal
  progress : Bool → (loaded total : ℕ) → Signal
  loadend : (ready_state status : ℕ) → Signal
  failed : Signal
  aborted : Signal

pub data Settled : Type 0 where
  resolved : Settled
  upload_cancelled : Settled
  network_error : Settled
  failed_with_status : ℕ → Settled

pub record Transfer : Type 0 where
  pub outcome : Option Settled
  pub shown : List ℕ

-- `Math.round((loaded / total) * 100)`, of the exact quotient
pub percentage : ℕ → ℕ → ℕ
percentage loaded total = (200 * loaded + total) / (2 * total)

-- A promise is settled once.
abbrev pub settle : Settled → Option Settled → Option Settled
settle r none = some r
settle r (some first) = some first

-- `xhr.status >= 200 && xhr.status < 300`
abbrev pub is_success : ℕ → Bool
is_success status = leb 200 status && ltb status 300

-- The listeners: the abort signal's, then `progress`, `loadend`, `error` and `abort` of the request.
unfoldable pub on_signal : Signal → Transfer → Transfer
unfolding percentage
on_signal cancelled x = record x { outcome = settle upload_cancelled x.outcome }
on_signal (progress computable loaded total) x =
    if computable then record x { shown = x.shown ++ percentage loaded total ∷ [] } else x
on_signal (loadend ready_state status) x =
    if eqb ready_state 4
    then record x {
      outcome =
          settle (if is_success status then resolved else failed_with_status status) x.outcome;
    }
    else x
on_signal failed x = record x { outcome = settle network_error x.outcome }
on_signal aborted x = record x { outcome = settle upload_cancelled x.outcome }

pub upload_to_storage : List Signal → Transfer → Transfer
unfolding on_signal
upload_to_storage [] x = x
upload_to_storage (e ∷ es) x = upload_to_storage es (on_signal e x)

-- The progress shown is at most 100, if no more is loaded than the total, which is not 0.
pub percentage-le : (loaded total : ℕ) → 0 < total → loaded ≤ total → percentage loaded total ≤ 100
unfolding percentage
percentage-le loaded total pos h = grind arith

kept :
    (es : List Signal) (x : Transfer) {r : Settled}
    → x.outcome ≡ some r
    → (upload_to_storage es x).outcome ≡ some r
unfolding upload_to_storage
kept [] x h = h
kept (cancelled ∷ es) x h = kept es _ (ground arith)
kept (progress c l t ∷ es) x h = kept es _ (ground arith)
kept (loadend r st ∷ es) x h = kept es _ (ground arith)
kept (failed ∷ es) x h = kept es _ (ground arith)
kept (aborted ∷ es) x h = kept es _ (ground arith)

-- A signal that settles nothing.
abbrev pub IsQuiet : Signal → Type 0
IsQuiet (progress _ _ _) = Unit
IsQuiet (loadend ready_state _) = ready_state ≢ 4
IsQuiet _ = ⊥

-- The signal ends the transfer with that outcome: the promise resolves on a completed request with
-- a status of success alone.
abbrev pub Ends : Signal → Settled → Type 0
Ends cancelled r = r ≡ upload_cancelled
Ends (progress _ _ _) r = ⊥
Ends (loadend ready_state status) r =
    (ready_state ≡ 4)
    × (((200 ≤ status) × (status < 300) × (r ≡ resolved))
        ⊎ ((status < 200) ⊎ (300 ≤ status)) × (r ≡ failed_with_status status))
Ends failed r = r ≡ network_error
Ends aborted r = r ≡ upload_cancelled

quiet_step : (e : Signal) (x : Transfer) → IsQuiet e → (on_signal e x).outcome ≡ x.outcome
unfolding on_signal
quiet_step cancelled x q = absurd q
quiet_step (progress c l t) x q = ground arith
quiet_step (loadend r st) x q = ground arith
quiet_step failed x q = absurd q
quiet_step aborted x q = absurd q

end_step :
    (e : Signal) (x : Transfer) {r : Settled}
    → Ends e r
    → x.outcome ≡ none
    → (on_signal e x).outcome ≡ some r
unfolding on_signal
end_step cancelled x h n = ground arith
end_step (progress c l t) x h n = absurd h
end_step (loadend rs st) x h n = ground arith
end_step failed x h n = ground arith
end_step aborted x h n = ground arith

-- The first signal that ends the transfer settles its promise, whatever quiet signals come before
-- and whatever signals come after; with quiet signals alone it stays pending.
pub upload_to_storage-outcome :
    (before after : List Signal) (e : Signal) (x : Transfer) {r : Settled}
    → x.outcome ≡ none
    → All IsQuiet before
    → Ends e r
    → ((upload_to_storage before x).outcome ≡ none)
      × ((upload_to_storage (before ++ e ∷ after) x).outcome ≡ some r)
unfolding upload_to_storage
upload_to_storage-outcome [] after e x n q h = (n, kept after (on_signal e x) (end_step e x h n))
upload_to_storage-outcome (b ∷ before) after e x n (k, q) h =
    upload_to_storage-outcome before after e (on_signal b x) (quiet_step b x k ∙ n) q h
