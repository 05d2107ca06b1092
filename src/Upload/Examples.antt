-- ===== src/Upload/Examples.antt =====
-- Examples of uploads.
use safebucket.Prelude.{◌≡◌, false, ◌==◌, [], ◌∷◌, any}
use safebucket.Upload.Provider.{
  Provider, empty, start_upload, cancel_upload, progresses, settles, fails, run,
}
use safebucket.Upload.Provider.Laws.{IsGone, cancel_is_final}

abbrev two : Provider
two = start_upload "u2" "b.txt" (start_upload "u1" "a.txt" empty)

-- The transfer of a cancelled upload still reports progress and a failure.
cancel_is_final_example :
    IsGone "u1" (
      run
        (progresses "u1" 40 ∷ settles "u1" ∷ fails "u1" "Upload cancelled" ∷ [])
        (cancel_upload "u1" two))
    × (any (λ k. k == "u1") (cancel_upload "u1" two).controllers ≡ false)
cancel_is_final_example =
    cancel_is_final "u1" (progresses "u1" 40 ∷ settles "u1" ∷ fails "u1" "Upload cancelled" ∷ [])
      two ((λ e. cc), ((λ e. cc), ((λ e. cc), tt)))
