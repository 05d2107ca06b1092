-- ===== src/Settings/Style.antt =====
-- The style sheet of a theme: `loadTheme` of web/src/components/theme/helpers/themes.ts, an async
-- function with one wait, the import of the sheet. Calls of it may overlap, as the effect that
-- calls it awaits nothing; `begin` is what runs before the wait and `finish` what runs after it.
-- `currentThemeLink` is never set, so that its branch is left out.
use safebucket.Prelude.{
  ℕ, suc, ◌≡◌, ◌⊎◌, refl, not, eqb, Option-cases, inl, inr, Option, none, some, List, [], ◌∷◌, ◌++◌,
  filter, map, arith,
}
use mathlib.Core.List.{append_assoc, map-append}
use safebucket.Settings.Theme.{ColorTheme}

-- A style element, told apart from others by the number of its making.
pub record Style : Type 0 where
  pub made : ℕ
  pub theme : ColorTheme

-- The styles in the head of the document, the latest last, and `currentThemeStyle`.
pub record Head : Type 0 where
  pub styles : List Style
  pub current : Option ℕ
  pub count : ℕ

abbrev pub no_styles : Head
no_styles = record { styles = []; current = none; count = 0 }

-- `currentThemeStyle.remove()`, and the rest up to the wait
unfoldable pub begin : Head → Head
begin h = elim h.current [
  | none ↦ h
  | some n ↦ record h { styles = filter (λ s. not (eqb s.made n)) h.styles; current = none }
]

-- what follows the import, where it succeeds; where it fails, nothing does
unfoldable pub finish : ColorTheme → Head → Head
finish t h = record {
  styles = h.styles ++ record { made = h.count; theme = t } ∷ [];
  current = some h.count;
  count = suc h.count;
}

-- `loadTheme`, with no other call in between
load_theme : ColorTheme → Head → Head
unfolding begin finish
load_theme t h = finish t (begin h)

load_themes : List ColorTheme → Head → Head
unfolding load_theme
load_themes [] h = h
load_themes (t ∷ ts) h = load_themes ts (load_theme t h)

-- The themes of the styles, of which the browser lets the last one win.
abbrev pub themes_of : Head → List ColorTheme
themes_of h = map (λ (s : Style). s.theme) h.styles

-- At most one style, which is the current one.
abbrev pub IsTidy : Head → Type 0
IsTidy h =
    ((h.styles ≡ []) × (h.current ≡ none))
    ⊎ ((s : Style) × (h.styles ≡ s ∷ []) × (h.current ≡ some s.made))

begin_of_tidy : (h : Head) → IsTidy h → (begin h).styles ≡ []
unfolding begin
begin_of_tidy h (inl (empty, no_current)) = ground arith
begin_of_tidy h (inr (s, one, current)) = ground arith

-- Where no two calls overlap, the head holds one style once a theme is loaded, that of the theme
-- loaded last, whatever was loaded before.
load_theme-IsTidy :
    (t : ColorTheme) (h : Head)
    → IsTidy h
    → IsTidy (load_theme t h) × (themes_of (load_theme t h) ≡ t ∷ [])
unfolding load_theme finish
load_theme-IsTidy t h tidy = (
  inr (record { made = (begin h).count; theme = t }, rw (begin_of_tidy h tidy) refl, refl),
  rw (begin_of_tidy h tidy) refl,
)

load_themes-IsTidy : (ts : List ColorTheme) (h : Head) → IsTidy h → IsTidy (load_themes ts h)
unfolding load_themes
load_themes-IsTidy [] h tidy = tidy
load_themes-IsTidy (t ∷ ts) h tidy =
    load_themes-IsTidy ts (load_theme t h) (load_theme-IsTidy t h tidy).0

begin_current : (h : Head) → (begin h).current ≡ none
unfolding begin
begin_current h = elim (Option-cases h.current) [
  | inl unset ↦ ground arith
  | inr (n, set) ↦ ground arith
]

begin_untouched : (h : Head) → h.current ≡ none → begin h ≡ h
unfolding begin
begin_untouched h unset = ground arith

begin_twice : (h : Head) → begin (begin h) ≡ begin h
begin_twice h = begin_untouched (begin h) (begin_current h)

-- Two calls of which both take off what stands there before an import of theirs comes leave the
-- styles of both, after those that were not taken off, if there are any. The import that comes last
-- has the last style: if it is that of the first call, the theme that was chosen first is shown, not
-- the one chosen last.
pub overlapping_loads :
    (first second : ColorTheme) (h : Head)
    → (themes_of (finish first (finish second (begin (begin h))))
        ≡ themes_of (begin h) ++ second ∷ first ∷ [])
      × (themes_of (finish second (finish first (begin (begin h))))
          ≡ themes_of (begin h) ++ first ∷ second ∷ [])
unfolding finish
overlapping_loads first second h = (
  rw (begin_twice h) (simp (map-append, append_assoc)),
  rw (begin_twice h) (simp (map-append, append_assoc)),
)
