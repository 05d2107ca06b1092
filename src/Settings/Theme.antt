-- ===== src/Settings/Theme.antt =====
-- The look of the page: web/src/components/theme/context/ThemeProvider.tsx, the selector
-- web/src/components/theme/components/ThemeSelector.tsx, and PreferencesTab.tsx of
-- web/src/components/settings-view/components.
use safebucket.Prelude.{
  ◌≡◌, ◌⊎◌, refl, ◌∙◌, Bool, true, false, not, ◌==◌, ◌||◌, eq_iff, inl, inr, Option, none, some,
  List, [], ◌∷◌, ◌++◌, String, present, filter, any, if◌then◌else◌, arith,
}
use safebucket.Ui.{Element, text, icon, button, select}

-- `localStorage`, with its documented behaviour: a text that is set is read as such, and no other
-- one changes.
pub record Storage : Type 1 where
  pub Kept : Type 0
  pub get_item : String → Kept → Option String
  pub set_item : String → String → Kept → Kept
  pub get_item-set_item :
      (k j v : String) (kept : Kept)
      → get_item j (set_item k v kept) ≡ (if k == j then some v else get_item j kept)

-- `ThemeMode`, and its text
pub data ThemeMode : Type 0 where
  light dark system : ThemeMode

abbrev pub mode_text : ThemeMode → String
mode_text light = "light"
mode_text dark = "dark"
mode_text system = "system"

-- `ColorTheme`, and its text
pub data ColorTheme : Type 0 where
  default darkmatter quantum_rose ocean_breeze elegant_luxury neo_brutalism : ColorTheme

abbrev pub theme_text : ColorTheme → String
theme_text default = "default"
theme_text darkmatter = "darkmatter"
theme_text quantum_rose = "quantum_rose"
theme_text ocean_breeze = "ocean_breeze"
theme_text elegant_luxury = "elegant_luxury"
theme_text neo_brutalism = "neo_brutalism"

abbrev or_else : String → Option String → String
or_else fallback none = fallback
or_else fallback (some s) = s

-- `actualTheme`, where the browser prefers dark colours or not
actual_theme : Bool → String → String
actual_theme prefers_dark mode =
    if mode == "system" then (if prefers_dark then "dark" else "light") else mode

-- `updateTheme`: the classes of the root
update_theme : Bool → String → List String → List String
unfolding actual_theme
update_theme prefers_dark mode classes =
    let theme = actual_theme prefers_dark mode in
    let kept = filter (λ c. not ((c == "light") || (c == "dark"))) classes in
    if any (λ c. c == theme) kept then kept else kept ++ theme ∷ []

-- `languages` and `themeModes` of the preferences, with what their selects call
pub data Preference : Type 0 where
  sets_mode : (mode : String) → Preference
  sets_color_theme : ColorTheme → Preference
  changes_language : (language : String) → Preference

abbrev pub color_themes : List (ColorTheme × String)
color_themes =
    (default, "Default")
    ∷ (darkmatter, "Darkmatter")
    ∷ (quantum_rose, "Quantum Rose")
    ∷ (ocean_breeze, "Ocean Breeze")
    ∷ (elegant_luxury, "Elegant Luxury")
    ∷ (neo_brutalism, "Neo Brutalism")
    ∷ []

-- `ThemeSelector`: a button for each theme, and a mark on the one that is chosen
pub theme_selector : String → List (ColorTheme × String) → List (Element Preference)
theme_selector value [] = []
theme_selector value ((t, label) ∷ ts) =
    button label false (sets_color_theme t)
    ∷ (if value == theme_text t
        then icon "Check" ∷ theme_selector value ts
        else theme_selector value ts)

abbrev languages : List (String × String)
languages = ("en", "settings.language.english") ∷ ("fr", "settings.language.french") ∷ []

abbrev theme_modes : List (String × String)
theme_modes =
    ("light", "settings.appearance.theme_mode.light")
    ∷ ("dark", "settings.appearance.theme_mode.dark")
    ∷ ("system", "settings.appearance.theme_mode.system")
    ∷ []

-- `PreferencesTab`
pub preferences_tab : String → String → String → List (Element Preference)
unfolding theme_selector
preferences_tab mode color_theme language =
    text "settings.appearance.title"
      ∷ text "settings.appearance.description"
      ∷ text "settings.appearance.theme_mode.label"
      ∷ select mode false theme_modes sets_mode
      ∷ text "settings.appearance.color_theme.label"
      ∷ theme_selector color_theme color_themes
    ++ text "settings.language.label"
      ∷ text "settings.language.description"
      ∷ text "settings.language.label"
      ∷ select language false languages changes_language
      ∷ []

module _ (storage : Storage) where
  -- The state of `ThemeProvider`; what is kept is the browser's.
  pub record Look : Type 0 where
    pub mode : String
    pub color_theme : String
    pub kept : storage.Kept

  -- the initial state, when the page is loaded
  pub start : storage.Kept → Look
  start kept = record {
    mode = or_else "system" (present (storage.get_item "theme-mode" kept));
    color_theme = or_else "default" (present (storage.get_item "color-theme" kept));
    kept = kept;
  }

  -- `setMode`
  set_mode : ThemeMode → Look → Look
  set_mode m l = record l {
    mode = mode_text m;
    kept = storage.set_item "theme-mode" (mode_text m) l.kept;
  }

  -- `setColorTheme`
  set_color_theme : ColorTheme → Look → Look
  set_color_theme t l = record l {
    color_theme = theme_text t;
    kept = storage.set_item "color-theme" (theme_text t) l.kept;
  }

  -- What the user does in the preferences, one thing after the other.
  pub choose : List (ThemeMode ⊎ ColorTheme) → Look → Look
  unfolding set_mode set_color_theme
  choose [] l = l
  choose (inl m ∷ cs) l = choose cs (set_mode m l)
  choose (inr t ∷ cs) l = choose cs (set_color_theme t l)

  -- What is shown is what is kept.
  abbrev pub IsKept : Look → Type 0
  IsKept l =
      (or_else "system" (present (storage.get_item "theme-mode" l.kept)) ≡ l.mode)
      × (or_else "default" (present (storage.get_item "color-theme" l.kept)) ≡ l.color_theme)

  set_mode-IsKept : (m : ThemeMode) (l : Look) → IsKept l → IsKept (set_mode m l)
  unfolding set_mode
  set_mode-IsKept m l (h, k) = (
    rw (storage.get_item-set_item "theme-mode" "theme-mode" (mode_text m) l.kept) (said m),
    rw (storage.get_item-set_item "theme-mode" "color-theme" (mode_text m) l.kept) k,
  )
    where
      said : (n : ThemeMode) → or_else "system" (present (some (mode_text n))) ≡ mode_text n
      said light = refl
      said dark = refl
      said system = refl

  set_color_theme-IsKept : (t : ColorTheme) (l : Look) → IsKept l → IsKept (set_color_theme t l)
  unfolding set_color_theme
  set_color_theme-IsKept t l (h, k) = (
    rw (storage.get_item-set_item "color-theme" "theme-mode" (theme_text t) l.kept) h,
    rw (storage.get_item-set_item "color-theme" "color-theme" (theme_text t) l.kept) (said t),
  )
    where
      said : (n : ColorTheme) → or_else "default" (present (some (theme_text n))) ≡ theme_text n
      said default = refl
      said darkmatter = refl
      said quantum_rose = refl
      said ocean_breeze = refl
      said elegant_luxury = refl
      said neo_brutalism = refl

  choose-IsKept : (cs : List (ThemeMode ⊎ ColorTheme)) (l : Look) → IsKept l → IsKept (choose cs l)
  unfolding choose
  choose-IsKept [] l h = h
  choose-IsKept (inl m ∷ cs) l h = choose-IsKept cs (set_mode m l) (set_mode-IsKept m l h)
  choose-IsKept (inr t ∷ cs) l h =
      choose-IsKept cs (set_color_theme t l) (set_color_theme-IsKept t l h)

  -- The look survives a reload: whatever the user has chosen since the page was loaded, loading it
  -- again from what is kept gives the same look.
  pub start-choose :
      (cs : List (ThemeMode ⊎ ColorTheme)) (kept : storage.Kept)
      → let l = choose cs (start kept) in
        ((start l.kept).mode ≡ l.mode) × ((start l.kept).color_theme ≡ l.color_theme)
  unfolding start
  start-choose cs kept = let h = choose-IsKept cs (start kept) (refl, refl) in (h.0, h.1)

mode_class :
    (prefers_dark : Bool) (m : ThemeMode)
    → ((actual_theme prefers_dark (mode_text m) == "light")
        || (actual_theme prefers_dark (mode_text m) == "dark"))
      ≡ true
unfolding actual_theme
mode_class true light = refl
mode_class false light = refl
mode_class true dark = refl
mode_class false dark = refl
mode_class true system = refl
mode_class false system = refl

abbrev pub is_mode_class : String → Bool
is_mode_class c = (c == "light") || (c == "dark")

mode_classes_gone :
    (cs : List String) → filter is_mode_class (filter (λ c. not (is_mode_class c)) cs) ≡ []
mode_classes_gone [] = refl
mode_classes_gone (c ∷ cs) = ground (arith, mode_classes_gone cs)

filter-append :
    (p : String → Bool) (cs ds : List String) → filter p (cs ++ ds) ≡ filter p cs ++ filter p ds
filter-append p [] ds = refl
filter-append p (c ∷ cs) ds = ground (arith, filter-append p cs ds)

not_among :
    (theme : String) (cs : List String)
    → is_mode_class theme ≡ true
    → any (λ c. c == theme) (filter (λ c. not (is_mode_class c)) cs) ≡ false
not_among theme [] h = refl
not_among theme (c ∷ cs) h = ground (arith, not_among theme cs h, eq_iff c theme)

-- The root of the document has exactly one class for the mode, light or dark, whatever classes it
-- had before: that of the mode chosen, or the one that the browser prefers.
update_theme-classes :
    (prefers_dark : Bool) (m : ThemeMode) (classes : List String)
    → filter is_mode_class (update_theme prefers_dark (mode_text m) classes)
      ≡ actual_theme prefers_dark (mode_text m) ∷ []
unfolding update_theme
update_theme-classes prefers_dark m classes =
    let theme = actual_theme prefers_dark (mode_text m) in
    let known = mode_class prefers_dark m in
    rw (not_among theme classes known) (
      filter-append is_mode_class (filter (λ c. not (is_mode_class c)) classes) (theme ∷ [])
      ∙ rw (mode_classes_gone classes) (rw known refl))
