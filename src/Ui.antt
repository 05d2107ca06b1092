-- ===== src/Ui.antt =====
-- What a component renders, as far as a user can read or use it: texts (the keys of translations
-- included) and the elements of web/src/components/ui that call a handler. `A` is what the
-- handlers of the component do; styles are left out.
use safebucket.Prelude.{◌≡◌, ◌⊎◌, inl, inr, Bool, false, List, [], ◌∷◌, ◌++◌, String, All, map}
use mathlib.Core.Path.{subst}

pub data Element (A : Type 0) : Type 0 where
  text : String → Element A
  icon : String → Element A
  separator : Element A
  link : (label : String) → (is_active : Bool) → (address : String) → Element A
  button : (label : String) → (disabled : Bool) → A → Element A
  input : (value : String) → (disabled : Bool) → (String → A) → Element A
  select :
      (value : String)
      → (disabled : Bool) → (options : List (String × String)) → (String → A)
      → Element A
  form : (title : String) → (fields : List String) → (confirm : String) → (String → A) → Element A
  files :
      (title : String) → (fields : List String) → (confirm : String) → (List String → A) → Element A

-- `Can P e`: all that a user can do at `e` satisfies `P`.
abbrev pub Can : {A : Type 0} → (A → Type 0) → Element A → Type 0
Can P (text s) = Unit
Can P (icon s) = Unit
Can P separator = Unit
Can P (link label is_active address) = Unit
Can P (button label disabled a) = disabled ≡ false → P a
Can P (input value disabled a) = disabled ≡ false → (s : String) → P (a s)
Can P (select value disabled options a) =
    disabled ≡ false → All (λ (o : String × String). P (a o.0)) options
Can P (form title fields confirm a) = (s : String) → P (a s)
Can P (files title fields confirm a) = (l : List String) → P (a l)

-- The elements of a component, where a page around it does `f a` for what the component calls `a`.
unfoldable pub embed : {A B : Type 0} → (A → B) → Element A → Element B
embed f (text s) = text s
embed f (icon s) = icon s
embed f separator = separator
embed f (link label is_active address) = link label is_active address
embed f (button label disabled a) = button label disabled (f a)
embed f (input value disabled a) = input value disabled (λ s. f (a s))
embed f (select value disabled options a) = select value disabled options (λ s. f (a s))
embed f (form title fields confirm a) = form title fields confirm (λ s. f (a s))
embed f (files title fields confirm a) = files title fields confirm (λ l. f (a l))

Can-embed :
    {A B : Type 0} (P : B → Type 0) (f : A → B) (e : Element A)
    → Can (λ a. P (f a)) e
    → Can P (embed f e)
unfolding embed
Can-embed P f (text s) h = tt
Can-embed P f (icon s) h = tt
Can-embed P f separator h = tt
Can-embed P f (link label is_active address) h = tt
Can-embed P f (button label disabled a) h = h
Can-embed P f (input value disabled a) h = h
Can-embed P f (select value disabled options a) h = h
Can-embed P f (form title fields confirm a) h = h
Can-embed P f (files title fields confirm a) h = h

pub All-embed :
    {A B : Type 0} (P : B → Type 0) (f : A → B) (es : List (Element A))
    → All (Can (λ a. P (f a))) es
    → All (Can P) (map (embed f) es)
All-embed P f [] h = tt
All-embed P f (e ∷ es) (h, k) = (Can-embed P f e h, All-embed P f es k)

-- One of the options is `a`.
abbrev Chooses : {A : Type 0} → A → (String → A) → List (String × String) → Type 0
Chooses a f [] = ⊥
Chooses a f (o ∷ os) = (f o.0 ≡ a) ⊎ Chooses a f os

-- A user can do `a` at the element.
abbrev pub Does : {A : Type 0} → A → Element A → Type 0
Does a (text s) = ⊥
Does a (icon s) = ⊥
Does a separator = ⊥
Does a (link label is_active address) = ⊥
Does a (button label disabled b) = (disabled ≡ false) × (b ≡ a)
Does a (input value disabled f) = (disabled ≡ false) × ((s : String) × (f s ≡ a))
Does a (select value disabled options f) = (disabled ≡ false) × Chooses a f options
Does a (form title fields confirm f) = (s : String) × (f s ≡ a)
Does a (files title fields confirm f) = (l : List String) × (f l ≡ a)

-- And at one of the elements.
abbrev pub Offered : {A : Type 0} → A → List (Element A) → Type 0
Offered a [] = ⊥
Offered a (e ∷ es) = Does a e ⊎ Offered a es

Chooses-All :
    {A : Type 0} (P : A → Type 0) (a : A) (f : String → A) (os : List (String × String))
    → All (λ (o : String × String). P (f o.0)) os
    → Chooses a f os
    → P a
Chooses-All P a f [] h c = absurd c
Chooses-All P a f (o ∷ os) (h, k) (inl e) = subst P e h
Chooses-All P a f (o ∷ os) (h, k) (inr c) = Chooses-All P a f os k c

Does-Can : {A : Type 0} (P : A → Type 0) (a : A) (e : Element A) → Can P e → Does a e → P a
Does-Can P a (text s) h d = absurd d
Does-Can P a (icon s) h d = absurd d
Does-Can P a separator h d = absurd d
Does-Can P a (link label is_active address) h d = absurd d
Does-Can P a (button label disabled b) h (enabled, e) = subst P e (h enabled)
Does-Can P a (input value disabled f) h (enabled, (s, e)) = subst P e (h enabled s)
Does-Can P a (select value disabled options f) h (enabled, c) =
    Chooses-All P a f options (h enabled) c
Does-Can P a (form title fields confirm f) h (s, e) = subst P e (h s)
Does-Can P a (files title fields confirm f) h (l, e) = subst P e (h l)

-- What is offered is what can be done.
pub Offered-Can :
    {A : Type 0} (P : A → Type 0) (a : A) (es : List (Element A))
    → All (Can P) es
    → Offered a es
    → P a
Offered-Can P a [] h d = absurd d
Offered-Can P a (e ∷ es) (h, k) (inl d) = Does-Can P a e h d
Offered-Can P a (e ∷ es) (h, k) (inr d) = Offered-Can P a es k d

-- What is offered by a list is offered by a part of it.
pub Offered-append :
    {A : Type 0} (a : A) (es fs : List (Element A)) → Offered a fs → Offered a (es ++ fs)
Offered-append a [] fs h = h
Offered-append a (e ∷ es) fs h = inr (Offered-append a es fs h)

pub Offered-split :
    {A : Type 0} (a : A) (es fs : List (Element A))
    → Offered a (es ++ fs)
    → Offered a es ⊎ Offered a fs
Offered-split a [] fs h = inr h
Offered-split a (e ∷ es) fs (inl d) = inl (inl d)
Offered-split a (e ∷ es) fs (inr h) = elim (Offered-split a es fs h) [
  | inl here ↦ inl (inr here)
  | inr there ↦ inr there
]

pub Offered-here :
    {A : Type 0} (a : A) (es fs : List (Element A)) → Offered a es → Offered a (es ++ fs)
Offered-here a [] fs h = absurd h
Offered-here a (e ∷ es) fs (inl d) = inl d
Offered-here a (e ∷ es) fs (inr h) = inr (Offered-here a es fs h)

-- Whatever is shown, something can be done there.
anything : (os : List (String × String)) → All (λ (o : String × String). Unit {0}) os
anything [] = tt
anything (o ∷ os) = (tt, anything os)

any-Can : {A : Type 0} (e : Element A) → Can (λ a. Unit {0}) e
any-Can (text s) = tt
any-Can (icon s) = tt
any-Can separator = tt
any-Can (link label is_active address) = tt
any-Can (button label disabled a) = λ e. tt
any-Can (input value disabled f) = λ e s. tt
any-Can (select value disabled options f) = λ e. anything options
any-Can (form title fields confirm f) = λ s. tt
any-Can (files title fields confirm f) = λ l. tt

pub All-Can : {A : Type 0} (es : List (Element A)) → All (Can (λ a. Unit {0})) es
All-Can [] = tt
All-Can (e ∷ es) = (any-Can e, All-Can es)
