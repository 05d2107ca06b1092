-- ===== src/Toast/Examples.antt =====
-- Examples of notifications.
use safebucket.Prelude.{none, some}
use safebucket.Toast.{default, destructive, Toast, Patch, Store, initial, toast, render, subscribe}

abbrev hello : Toast
hello = record { title = some "Hello"; description = none; variant = default }

abbrev failure : Toast
failure = record { title = some "Error"; description = some "FORBIDDEN"; variant = destructive }

abbrev listening : Store
listening = subscribe 7 (render 7 initial)

abbrev greeted : Store
greeted = (toast hello listening).1

abbrev patch : Patch
patch = record { id = 0; title = some none; description = none; variant = none; shown = none }
