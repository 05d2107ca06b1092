-- ===== src/Activity/Examples.antt =====
-- Examples of the time that is shown with an activity.
use Prim.Native.String
use safebucket.Prelude.{◌≡◌, refl, String, none, some, arith}
use safebucket.Activity.{pos, month, time_ago}
use safebucket.Activity.Format.{
  Log, format_message, replace, expand, split_at, strip_prefix, format_message_dollar,
}
use safebucket.Activity.Laws.{time_ago-zero_months}

zero_months_example : time_ago (pos 2505600000000000) ≡ (pos 0, month)
zero_months_example = time_ago-zero_months 2505600000000000 (omega arith) (omega arith)

abbrev log : Log
log = record {
  first_name = "Ada";
  last_name = "Byron";
  bucket_name = some "docs";
  file_name = some (String.◌++◌ "$&" "x");
  bucket_member_email = none;
}

-- the message `activity.messages.file_trashed` of web/src/locales/en.json
abbrev trashed : String
trashed = "Moved a file '%%FILE_NAME%%' to trash on the bucket '%%BUCKET_NAME%%'."

format_message_dollar_example :
    format_message trashed log
    ≡ String.◌++◌ "Moved a file '"
        (String.◌++◌ (String.◌++◌ "%%FILE_NAME%%" "x") "' to trash on the bucket 'docs'.")
unfolding split_at strip_prefix replace expand
format_message_dollar_example =
    format_message_dollar trashed "x" "Moved a file '" "' to trash on the bucket 'docs'." log refl
      (refl, tt) refl refl
