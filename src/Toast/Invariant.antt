-- ===== src/Toast/Invariant.antt =====
-- What holds of the notification store however its operations are ordered.
use safebucket.Prelude.{
  ℕ, ◌≤◌, ◌≡◌, refl, Bool, true, false, not, Bool-cases, inl, inr, Option, none, some, List, [],
  ◌∷◌, arith, eqb, length, filter, any, All, All-append, any-append,
}
use safebucket.Toast.{
  ToasterToast, Toast, Patch, Action, add_toast, update_toast, dismiss_toast, remove_toast, Store,
  toast_limit, add_to_remove_queue, reducer, queue_all, queue_removals, notify, dispatch, toast,
  update, dismiss, on_open_change, expire, taken, render, subscribe, drop_first, unsubscribe,
}

-- A toast that is not shown any more has a timer that will remove it.
abbrev pub IsQueued : List ℕ → ToasterToast → Type 0
IsQueued timeouts t = t.shown ≡ false → any (eqb t.id) timeouts ≡ true

pub record IsValid (s : Store) : Type 0 where
  pub bounded : length s.toasts ≤ toast_limit
  pub queued : All (IsQueued s.timeouts) s.toasts
  pub heard : All (λ l. l.1 ≡ s.toasts) s.listeners

-- `update` may be given `open: false`, and then starts no timer: the invariant is about calls
-- that leave `open` alone. A toast that comes between the rendering of a component and its effect is
-- missed by that component: the invariant is about components that have missed none.
pub data Step : Store → Store → Type 0 where
  shows : (p : Toast) (s : Store) → Step s (toast p s).1
  updates : (i : ℕ) (p : Patch) (s : Store) → p.shown ≡ none → Step s (update i p s)
  dismisses : (i : Option ℕ) (s : Store) → Step s (dismiss i s)
  toggles : (i : ℕ) (b : Bool) (s : Store) → Step s (on_open_change i b s)
  expires : (i : ℕ) (s : Store) → Step s (expire i s)
  renders : (k : ℕ) (s : Store) → Step s (render k s)
  mounts : (k : ℕ) (s : Store) → taken k s.mounting ≡ some s.toasts → Step s (subscribe k s)
  leaves : (k : ℕ) (s : Store) → Step s (unsubscribe k s)

pub data Reach (s : Store) : Store → Type 0 where
  here : Reach s s
  next : {t u : Store} → Reach s t → Step t u → Reach s u

pub notify-heard :
    (ts : List ToasterToast) (ls : List (ℕ × List ToasterToast))
    → All (λ l. l.1 ≡ ts) (notify ts ls)
unfolding notify
notify-heard ts [] = tt
notify-heard ts (l ∷ ls) = (refl, notify-heard ts ls)

drop_first-heard :
    (k : ℕ) (ts : List ToasterToast) (ls : List (ℕ × List ToasterToast))
    → All (λ l. l.1 ≡ ts) ls
    → All (λ l. l.1 ≡ ts) (drop_first k ls)
unfolding drop_first
drop_first-heard k ts [] h = tt
drop_first-heard k ts (l ∷ ls) (e, h) = ground (arith, drop_first-heard k ts ls h)

-- A timer that runs keeps running when another is started, and the one that is asked for runs.
any-add_to_remove_queue :
    (i j : ℕ) (timeouts : List ℕ)
    → any (eqb j) timeouts ≡ true
    → any (eqb j) (add_to_remove_queue i timeouts) ≡ true
unfolding add_to_remove_queue
any-add_to_remove_queue i j ts h = ground (arith, any-append (eqb j) ts (i ∷ []))

pub add_to_remove_queue_self :
    (i : ℕ) (timeouts : List ℕ) → any (eqb i) (add_to_remove_queue i timeouts) ≡ true
unfolding add_to_remove_queue
add_to_remove_queue_self i ts = ground (arith, any-append (eqb i) ts (i ∷ []))

any-queue_all :
    (ts : List ToasterToast) (j : ℕ) (timeouts : List ℕ)
    → any (eqb j) timeouts ≡ true
    → any (eqb j) (queue_all ts timeouts) ≡ true
unfolding queue_all
any-queue_all [] j timeouts h = h
any-queue_all (t ∷ ts) j timeouts h =
    any-queue_all ts j (add_to_remove_queue t.id timeouts)
      (any-add_to_remove_queue t.id j timeouts h)

any-eqb-filter_ne :
    (i j : ℕ) (timeouts : List ℕ)
    → eqb j i ≡ false
    → any (eqb j) timeouts ≡ true
    → any (eqb j) (filter (λ k. not (eqb k i)) timeouts) ≡ true
any-eqb-filter_ne i j [] e h = h
any-eqb-filter_ne i j (k ∷ ks) e h = ground (arith, any-eqb-filter_ne i j ks e)

-- The list holds at most one toast, so a property of the list is one of its head.
pub reducer-bounded :
    (ts : List ToasterToast) (a : Action)
    → length ts ≤ toast_limit
    → length (reducer ts a) ≤ toast_limit
unfolding reducer
reducer-bounded [] (add_toast t) h = omega arith
reducer-bounded (x ∷ ts) (add_toast t) h = omega arith
reducer-bounded [] (remove_toast (some i)) h = omega arith
reducer-bounded (x ∷ []) (remove_toast (some i)) h = ground arith
reducer-bounded (x ∷ y ∷ ts) (remove_toast (some i)) h = absurd (omega arith)
reducer-bounded ts (remove_toast none) h = omega arith
reducer-bounded [] (update_toast p) h = h
reducer-bounded (x ∷ []) (update_toast p) h = omega arith
reducer-bounded (x ∷ y ∷ ts) (update_toast p) h = absurd (omega arith)
reducer-bounded [] (dismiss_toast i) h = h
reducer-bounded (x ∷ []) (dismiss_toast i) h = omega arith
reducer-bounded (x ∷ y ∷ ts) (dismiss_toast i) h = absurd (omega arith)

update-IsQueued :
    (ts : List ToasterToast) (p : Patch) (timeouts : List ℕ)
    → p.shown ≡ none
    → All (IsQueued timeouts) ts
    → All (IsQueued timeouts) (reducer ts (update_toast p))
unfolding reducer
update-IsQueued [] p timeouts e h = tt
update-IsQueued (t ∷ ts) p timeouts e (q, h) =
    let later = update-IsQueued ts p timeouts e h in
    elim (Bool-cases (eqb t.id p.id)) [
      | inl same ↦ rw same ((λ hidden. ground (arith, q)), later)
      | inr other ↦ rw other (q, later)
    ]

dismiss_one-IsQueued :
    (ts : List ToasterToast) (i : ℕ) (timeouts : List ℕ)
    → All (IsQueued timeouts) ts
    → All (IsQueued (add_to_remove_queue i timeouts)) (reducer ts (dismiss_toast (some i)))
unfolding reducer
dismiss_one-IsQueued [] i timeouts h = tt
dismiss_one-IsQueued (t ∷ ts) i timeouts (q, h) =
    let later = dismiss_one-IsQueued ts i timeouts h in
    elim (Bool-cases (eqb t.id i)) [
      | inl same ↦ rw same ((λ hidden. ground (arith, add_to_remove_queue_self i timeouts)), later)
      | inr other ↦ rw other ((λ hidden. any-add_to_remove_queue i t.id timeouts (q hidden)), later)
    ]

dismiss-All-IsQueued :
    (ts : List ToasterToast) (timeouts : List ℕ)
    → All (IsQueued (queue_all ts timeouts)) (reducer ts (dismiss_toast none))
unfolding reducer queue_all
dismiss-All-IsQueued [] timeouts = tt
dismiss-All-IsQueued (t ∷ ts) timeouts = (
  (λ hidden.
      any-queue_all ts t.id (add_to_remove_queue t.id timeouts)
        (add_to_remove_queue_self t.id timeouts)),
  dismiss-All-IsQueued ts (add_to_remove_queue t.id timeouts),
)

expire-IsQueued :
    (ts : List ToasterToast) (i : ℕ) (timeouts : List ℕ)
    → All (IsQueued timeouts) ts
    → All (IsQueued (filter (λ j. not (eqb j i)) timeouts)) (reducer ts (remove_toast (some i)))
unfolding reducer
expire-IsQueued [] i timeouts h = tt
expire-IsQueued (t ∷ ts) i timeouts (q, h) =
    let later = expire-IsQueued ts i timeouts h in
    elim (Bool-cases (eqb t.id i)) [
      | inl same ↦ rw same later
      | inr other ↦ rw other ((λ hidden. any-eqb-filter_ne i t.id timeouts other (q hidden)), later)
    ]

pub dismiss-IsValid : (i : Option ℕ) (s : Store) → IsValid s → IsValid (dismiss i s)
unfolding dismiss dispatch queue_removals
dismiss-IsValid (some i) s v = record {
  bounded = reducer-bounded s.toasts (dismiss_toast (some i)) v.bounded;
  queued = dismiss_one-IsQueued s.toasts i s.timeouts v.queued;
  heard = notify-heard _ s.listeners;
}
dismiss-IsValid none s v = record {
  bounded = reducer-bounded s.toasts (dismiss_toast none) v.bounded;
  queued = dismiss-All-IsQueued s.toasts s.timeouts;
  heard = notify-heard _ s.listeners;
}

-- Every operation of the notifications keeps the store valid.
pub Step-IsValid : {s t : Store} → Step s t → IsValid s → IsValid t
unfolding toast update on_open_change expire render subscribe unsubscribe dispatch queue_removals
    reducer
Step-IsValid (shows p s) v = record {
  bounded = omega arith;
  queued = ((λ e. cc), tt);
  heard = notify-heard _ s.listeners;
}
Step-IsValid (updates i p s e) v = record {
  bounded = reducer-bounded s.toasts (update_toast (record p { id = i })) v.bounded;
  queued = update-IsQueued s.toasts (record p { id = i }) s.timeouts e v.queued;
  heard = notify-heard _ s.listeners;
}
Step-IsValid (dismisses i s) v = dismiss-IsValid i s v
Step-IsValid (toggles i true s) v = v
Step-IsValid (toggles i false s) v = dismiss-IsValid (some i) s v
Step-IsValid (expires i s) v = record {
  bounded = reducer-bounded s.toasts (remove_toast (some i)) v.bounded;
  queued = expire-IsQueued s.toasts i s.timeouts v.queued;
  heard = notify-heard _ s.listeners;
}
Step-IsValid (renders k s) v = record { bounded = v.bounded; queued = v.queued; heard = v.heard }
Step-IsValid (mounts k s current) v =
    rw (current, subscribe)
      (record {
        bounded = v.bounded;
        queued = v.queued;
        heard = All-append _ s.listeners _ v.heard (refl, tt);
      })
Step-IsValid (leaves k s) v = record {
  bounded = v.bounded;
  queued = v.queued;
  heard = drop_first-heard k s.toasts s.listeners v.heard;
}
