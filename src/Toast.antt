-- ===== src/Toast.antt =====
-- Notifications: web/src/components/ui/hooks/use-toast.ts.
-- The module's variables are the fields of `Store`; a function that writes them returns the new
-- store. An id, in the source the decimal text of `count`, is the number itself: the text of a
-- number is never empty, so every id is truthy, and equal texts are equal numbers. A node that
-- React renders (`title`, `description`) is a text.
pub mod Invariant
pub mod Laws
mod Examples
use safebucket.Prelude.{
  ℕ, ◌+◌, ◌%◌, Bool, true, false, not, Option, none, some, List, [], ◌∷◌, ◌++◌, map, String, eqb,
  if◌then◌else◌, take, filter, any,
}

-- TOAST_LIMIT
abbrev pub toast_limit : ℕ
toast_limit = 1

-- Number.MAX_SAFE_INTEGER
abbrev pub max_safe_integer : ℕ
max_safe_integer = 9007199254740991

pub data Variant : Type 0 where
  default destructive success : Variant

pub record ToasterToast : Type 0 where
  pub id : ℕ
  pub title : Option String
  pub description : Option String
  pub variant : Variant
  pub shown : Bool

-- `Toast`: what a caller of `toast` gives
pub record Toast : Type 0 where
  pub title : Option String
  pub description : Option String
  pub variant : Variant

-- `Partial<ToasterToast>`: `none` is a key that is absent, and the field is left as it is.
pub record Patch : Type 0 where
  pub id : ℕ
  pub title : Option (Option String)
  pub description : Option (Option String)
  pub variant : Option Variant
  pub shown : Option Bool

pub data Action : Type 0 where
  add_toast : ToasterToast → Action
  update_toast : Patch → Action
  dismiss_toast : Option ℕ → Action
  remove_toast : Option ℕ → Action

-- `toasts` is `memoryState.toasts`; `timeouts` has the keys of `toastTimeouts`; a listener is the
-- state that it was last called with, under the number of its component; `mounting` has the components
-- that are rendered and whose effect has not run yet, with the state that `useState` took.
pub record Store : Type 0 where
  pub count : ℕ
  pub timeouts : List ℕ
  pub toasts : List ToasterToast
  pub mounting : List (ℕ × List ToasterToast)
  pub listeners : List (ℕ × List ToasterToast)

abbrev pub initial : Store
initial = record { count = 0; timeouts = []; toasts = []; mounting = []; listeners = [] }

-- `genId`: the next count, which is the id too
pub gen_id : ℕ → ℕ
gen_id count = (count + 1) % max_safe_integer

-- `addToRemoveQueue`: a timer is started unless one is running
pub add_to_remove_queue : ℕ → List ℕ → List ℕ
add_to_remove_queue toast_id timeouts =
    if any (eqb toast_id) timeouts then timeouts else timeouts ++ toast_id ∷ []

abbrev pub given {ℓ} : {A : Type ℓ} → Option A → A → A
given none old = old
given (some new) old = new

-- `{ ...t, ...action.toast }`
abbrev pub overlay : Patch → ToasterToast → ToasterToast
overlay p t = record {
  id = p.id;
  title = given p.title t.title;
  description = given p.description t.description;
  variant = given p.variant t.variant;
  shown = given p.shown t.shown;
}

abbrev pub hide : ToasterToast → ToasterToast
hide t = record t { shown = false }

-- `t.id === toastId || toastId === undefined`
abbrev pub is_dismissed : Option ℕ → ToasterToast → Bool
is_dismissed none t = true
is_dismissed (some i) t = eqb t.id i

-- `reducer`, its value; the timers that its third case starts are those of `queue_removals`
pub reducer : List ToasterToast → Action → List ToasterToast
reducer toasts (add_toast t) = take toast_limit (t ∷ toasts)
reducer toasts (update_toast p) = map (λ t. if eqb t.id p.id then overlay p t else t) toasts
reducer toasts (dismiss_toast i) = map (λ t. if is_dismissed i t then hide t else t) toasts
reducer toasts (remove_toast none) = []
reducer toasts (remove_toast (some i)) = filter (λ t. not (eqb t.id i)) toasts

-- `state.toasts.forEach((toast) => addToRemoveQueue(toast.id))`
pub queue_all : List ToasterToast → List ℕ → List ℕ
queue_all [] timeouts = timeouts
queue_all (t ∷ ts) timeouts = queue_all ts (add_to_remove_queue t.id timeouts)

pub queue_removals : List ToasterToast → Action → List ℕ → List ℕ
queue_removals toasts (dismiss_toast (some i)) timeouts = add_to_remove_queue i timeouts
queue_removals toasts (dismiss_toast none) timeouts = queue_all toasts timeouts
queue_removals toasts (add_toast t) timeouts = timeouts
queue_removals toasts (update_toast p) timeouts = timeouts
queue_removals toasts (remove_toast i) timeouts = timeouts

-- `listeners.forEach((listener) => listener(memoryState))`
pub notify : List ToasterToast → List (ℕ × List ToasterToast) → List (ℕ × List ToasterToast)
notify toasts [] = []
notify toasts ((k, _) ∷ ls) = (k, toasts) ∷ notify toasts ls

pub dispatch : Action → Store → Store
unfolding notify
dispatch a s =
    let toasts = reducer s.toasts a in
    record s {
      timeouts = queue_removals s.toasts a s.timeouts;
      toasts = toasts;
      listeners = notify toasts s.listeners;
    }

-- `toast`: the new store and the id that it returns
pub toast : Toast → Store → ℕ × Store
toast props s =
    let id = gen_id s.count in
    let new : ToasterToast = record {
      id = id;
      title = props.title;
      description = props.description;
      variant = props.variant;
      shown = true;
    } in
    (id, dispatch (add_toast new) (record s { count = id }))

-- the closure `update` that `toast` returns: `{ ...props, id }`
pub update : ℕ → Patch → Store → Store
update id props = dispatch (update_toast (record props { id = id }))

-- `dismiss`: of `toast` with its id, of `useToast` with an optional one
pub dismiss : Option ℕ → Store → Store
dismiss i = dispatch (dismiss_toast i)

-- `onOpenChange` of a toast that `toast` has made
pub on_open_change : ℕ → Bool → Store → Store
on_open_change id open_now s = if open_now then s else dismiss (some id) s

-- the callback of the timer that `addToRemoveQueue` sets
pub expire : ℕ → Store → Store
expire i s =
    dispatch (remove_toast (some i))
      (record s { timeouts = filter (λ j. not (eqb j i)) s.timeouts })

-- `useToast`: a component that is rendered for the first time takes the state,
unfoldable pub render : ℕ → Store → Store
render k s = record s { mounting = s.mounting ++ (k, s.toasts) ∷ [] }

abbrev pub taken : ℕ → List (ℕ × List ToasterToast) → Option (List ToasterToast)
taken k [] = none
taken k (l ∷ ls) = if eqb l.0 k then some l.1 else taken k ls

unfoldable pub drop_first : ℕ → List (ℕ × List ToasterToast) → List (ℕ × List ToasterToast)
drop_first k [] = []
drop_first k (l ∷ ls) = if eqb l.0 k then ls else l ∷ drop_first k ls

-- its effect, which runs later, lists it with the state that it has taken,
pub subscribe : ℕ → Store → Store
unfolding drop_first
subscribe k s = elim (taken k s.mounting) [
  | none ↦ s
  | some toasts ↦ record s {
    mounting = drop_first k s.mounting;
    listeners = s.listeners ++ (k, toasts) ∷ [];
  }
]

-- and `splice` takes the first entry of it out when it leaves. After a change of its state the
-- effect does both at once, which only moves the entry to the end.
pub unsubscribe : ℕ → Store → Store
unsubscribe k s = record s { listeners = drop_first k s.listeners }

pub success_toast : String → Store → Store
success_toast message s =
    (toast (record { title = some "Success"; description = some message; variant = success }) s).1

pub error_toast : String → Store → Store
error_toast message s =
    (toast (record { title = some "Error"; description = some message; variant = destructive }) s).1
