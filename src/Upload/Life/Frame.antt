-- ===== src/Upload/Life/Frame.antt =====
-- What an upload leaves alone while it is under way.
use mathlib.Core.Path.{subst}
use safebucket.Prelude.{
  ◌≡◌, refl, ◌∙◌, ◌==◌, eq_refl, Bool-cases, inl, inr, none, List, [], ◌∷◌, String, any, All, arith,
}
use safebucket.Upload.Provider.{
  Provider, delete_controller, Event, handle, run, starts, progresses, settles, succeeds, forgets,
  fails, cancels,
}
use safebucket.Upload.Provider.Laws.{subject, starts_id, others, handle-others}

delete_controller_idem :
    (id : String) (ks : List String)
    → delete_controller id (delete_controller id ks) ≡ delete_controller id ks
delete_controller_idem id [] = refl
delete_controller_idem id (k ∷ ks) = ground (arith, delete_controller_idem id ks)

-- An event of one upload that does not start it leaves the controllers of the others.
handle-controllers :
    (e : Event) (s : Provider)
    → starts_id e ≡ none
    → (delete_controller (subject e) (handle e s).controllers
        ≡ delete_controller (subject e) s.controllers)
      × (delete_controller (subject e) (handle e s).aborted
          ≡ delete_controller (subject e) s.aborted)
unfolding handle
handle-controllers (starts id name) s h = absurd (cc)
handle-controllers (progresses id n) s h = (refl, refl)
handle-controllers (settles id) s h = (delete_controller_idem id s.controllers, refl)
handle-controllers (succeeds id) s h = (refl, refl)
handle-controllers (forgets id) s h = (refl, refl)
handle-controllers (fails id m) s h = (refl, refl)
handle-controllers (cancels id) s h = elim (Bool-cases (any (λ k. k == id) s.controllers)) [
  | inl held ↦ rw held (delete_controller_idem id s.controllers, rw (eq_refl id) refl)
  | inr missing ↦ rw missing (refl, refl)
]

-- The uploads under other ids, their controllers, and which of them are aborted, are the same.
abbrev pub KeepsOthers : String → Provider → Provider → Type 0
KeepsOthers id s t =
    (others id t.uploads ≡ others id s.uploads)
    × (delete_controller id t.controllers ≡ delete_controller id s.controllers)
    × (delete_controller id t.aborted ≡ delete_controller id s.aborted)

pub run-KeepsOthers :
    (id : String) (es : List Event) (s : Provider)
    → All (λ e. (subject e ≡ id) × (starts_id e ≡ none)) es
    → KeepsOthers id s (run es s)
unfolding run
run-KeepsOthers id [] s own = (refl, refl, refl)
run-KeepsOthers id (e ∷ es) s ((about, no_start), own) =
    let (more, more', more'') = run-KeepsOthers id es (handle e s) own in
    let (controllers, aborts) = handle-controllers e s no_start in
    let (kept, kept', kept'') =
      subst (λ j. KeepsOthers j s (handle e s)) about (handle-others e s, controllers, aborts) in
    (more ∙ kept, more' ∙ kept', more'' ∙ kept'')
