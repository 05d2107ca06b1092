-- ===== src/Toast/Laws.antt =====
-- The lifetime of a notification.
use safebucket.Prelude.{
  ℕ, suc, ◌<◌, ◌≡◌, refl, true, false, not, some, List, [], ◌∷◌, arith, eqb, filter, any,
  any-filter-not,
}
use safebucket.Toast.{
  ToasterToast, Toast, Patch, update_toast, dismiss_toast, remove_toast, Store, gen_id,
  max_safe_integer, reducer, dispatch, toast, update, dismiss, expire, queue_removals,
}
use safebucket.Toast.Invariant.{add_to_remove_queue_self}

-- After `toast` the one toast held is the new one, open, under the id that is returned; what was
-- shown before is gone. No timer is started.
pub toast_replaces :
    (p : Toast) (s : Store)
    → let (id, s') = toast p s in
      (s'.toasts
        ≡ record {
          id = id;
          title = p.title;
          description = p.description;
          variant = p.variant;
          shown = true;
        }
          ∷ [])
      × (s'.timeouts ≡ s.timeouts)
      × (s'.count ≡ id)
unfolding toast dispatch reducer queue_removals
toast_replaces p s = (refl, refl, refl)

-- Ids are fresh: until the count wraps around, each is above all earlier ones.
pub toast-id_grows :
    (p : Toast) (s : Store) → suc s.count < max_safe_integer → s.count < (toast p s).0
unfolding toast gen_id
toast-id_grows p s h = omega arith

remove-gone :
    (i : ℕ) (ts : List ToasterToast)
    → any (λ t. eqb t.id i) (reducer ts (remove_toast (some i))) ≡ false
unfolding reducer
remove-gone i ts = any-filter-not (λ t. eqb t.id i) ts

-- Dismissing a toast starts the timer that removes it, and when that timer fires neither the
-- toast nor the timer is left: at once, or after any other operation in between.
pub dismiss_then_expire :
    (i : ℕ) (s u : Store)
    → (any (eqb i) (dismiss (some i) s).timeouts ≡ true)
      × (any (λ t. eqb t.id i) (expire i u).toasts ≡ false)
      × (any (λ j. eqb j i) (expire i u).timeouts ≡ false)
unfolding dismiss expire dispatch queue_removals
dismiss_then_expire i s u = (
  add_to_remove_queue_self i s.timeouts,
  remove-gone i u.toasts,
  any-filter-not (λ j. eqb j i) u.timeouts,
)

update-others :
    (i : ℕ) (p : Patch) (ts : List ToasterToast)
    → filter (λ t. not (eqb t.id i)) (reducer ts (update_toast (record p { id = i })))
      ≡ filter (λ t. not (eqb t.id i)) ts
unfolding reducer
update-others i p [] = refl
update-others i p (t ∷ ts) = ground (arith, update-others i p ts)

dismiss-others :
    (i : ℕ) (ts : List ToasterToast)
    → filter (λ t. not (eqb t.id i)) (reducer ts (dismiss_toast (some i)))
      ≡ filter (λ t. not (eqb t.id i)) ts
unfolding reducer
dismiss-others i [] = refl
dismiss-others i (t ∷ ts) = ground (arith, dismiss-others i ts)

-- `update`, `dismiss` and the timer of one toast leave every other toast as it is.
pub others_untouched :
    (i : ℕ) (p : Patch) (s : Store)
    → let others = filter {A = ToasterToast} (λ t. not (eqb t.id i)) in
      (others (update i p s).toasts ≡ others s.toasts)
      × (others (dismiss (some i) s).toasts ≡ others s.toasts)
      × ((expire i s).toasts ≡ others s.toasts)
unfolding update dismiss expire dispatch reducer
others_untouched i p s = (update-others i p s.toasts, dismiss-others i s.toasts, refl)
