-- ===== src/Settings/Examples.antt =====
-- Examples of the settings.
use safebucket.Prelude.{
  ◌≡◌, ◌⊎◌, inl, inr, refl, true, ◌==◌, Option, none, some, List, [], ◌∷◌, ◌++◌, String,
  if◌then◌else◌,
}
use safebucket.Auth.Platform.{Failure}
use safebucket.Auth.Examples.{Jar, page}
use safebucket.Toast as Toast
use safebucket.Bucket.Requests.{View}
use safebucket.Settings.Theme.{
  Storage, ThemeMode, dark, ColorTheme, darkmatter, ocean_breeze, start, choose, start-choose,
}
use safebucket.Settings.Style.{Head, no_styles, themes_of, begin, finish, overlapping_loads}
use safebucket.Settings.Profile.{PasswordField}

-- a storage that is a function
abbrev memory : Storage
memory = record {
  Kept = String → Option String;
  get_item = λ k kept. kept k;
  set_item = λ k v kept j. if k == j then some v else kept j;
  get_item-set_item = λ k j v kept. refl;
}

abbrev choices : List (ThemeMode ⊎ ColorTheme)
choices = inl dark ∷ inr darkmatter ∷ inr ocean_breeze ∷ []

start-choose_example :
    let l = choose memory choices (start memory (λ _. none)) in
    ((start memory l.kept).mode ≡ l.mode) × ((start memory l.kept).color_theme ≡ l.color_theme)
start-choose_example = start-choose memory choices (λ _. none)

-- what two calls that overlapped have left
abbrev crowded : Head
crowded = finish ocean_breeze (finish darkmatter (begin (begin no_styles)))

overlapping_loads_example :
    (themes_of (finish darkmatter (finish ocean_breeze (begin (begin crowded))))
      ≡ themes_of (begin crowded) ++ ocean_breeze ∷ darkmatter ∷ [])
    × (themes_of (finish ocean_breeze (finish darkmatter (begin (begin crowded))))
        ≡ themes_of (begin crowded) ++ darkmatter ∷ ocean_breeze ∷ [])
overlapping_loads_example = overlapping_loads darkmatter ocean_breeze crowded

abbrev message_of : Failure → String
message_of f = "failure"

abbrev view : View Jar
view = record { store = page []; toasts = Toast.initial; invalidated = [] }

abbrev typed : PasswordField
typed = record {
  is_editing = true;
  old_password = "secret";
  new_password = "long enough";
  confirm_password = "long enough";
  error = "";
}
