-- ===== src/Activity/Format.antt =====
-- The text of an activity: `formatMessage` of web/src/components/activity-view/helpers/utils.ts,
-- with `String.prototype.replace` of a text by a text, as the language defines it. In the
-- replacement `$$` stands for `$`, `$&` for what is replaced, and a dollar with a backtick or a
-- quote for what stands before and after it.
use Prim.Native.Char.{Char, code}
use Prim.Native.String
use Prim.Native.String.{String, [], ◌∷◌}
use text.Mathlib.TextLemmas.{nil-append, cons-append}
use safebucket.Prelude.{◌≡◌, refl, ap, Bool, true, false, Option, none, some, eqb, if◌then◌else◌}

-- what is left of a text once a prefix is taken off
unfoldable pub strip_prefix : String → String → Option String
strip_prefix [] s = some s
strip_prefix (c ∷ p) [] = none
strip_prefix (c ∷ p) (d ∷ s) =
    let rest = strip_prefix p s in if eqb (code c) (code d) then rest else none

abbrev put_before : Char → Option (String × String) → Option (String × String)
put_before c none = none
put_before c (some (before, after)) = some (c ∷ before, after)

abbrev found_here : Option String → Option (String × String) → Option (String × String)
found_here none later = later
found_here (some after) later = some ("", after)

-- what stands before and after the first place of a pattern
unfoldable pub split_at : String → String → Option (String × String)
unfolding strip_prefix
split_at pattern [] = found_here (strip_prefix pattern []) none
split_at pattern (c ∷ s) =
    found_here (strip_prefix pattern (c ∷ s)) (put_before c (split_at pattern s))

-- The replacement, written out; the flag is that a dollar has been read.
unfoldable pub expand : String → String → String → Bool → String → String
expand pattern before after false [] = ""
expand pattern before after true [] = "$"
expand pattern before after false (c ∷ s) =
    let rest = expand pattern before after (eqb (code c) b'$') s in
    if eqb (code c) b'$' then rest else c ∷ rest
expand pattern before after true (c ∷ s) =
    let rest = expand pattern before after false s in
    if eqb (code c) b'$'
    then String.◌++◌ "$" rest
    else (if eqb (code c) b'&'
        then String.◌++◌ pattern rest
        else (if eqb (code c) 96
            then String.◌++◌ before rest
            else (if eqb (code c) 39 then String.◌++◌ after rest else String.◌++◌ "$" (c ∷ rest))))

abbrev written : String → String → String → Option (String × String) → String
written pattern replacement s none = s
written pattern replacement s (some (before, after)) =
    String.◌++◌ before (String.◌++◌ (expand pattern before after false replacement) after)

-- `s.replace(pattern, replacement)`
unfoldable pub replace : String → String → String → String
unfolding split_at expand
replace pattern replacement s = written pattern replacement s (split_at pattern s)

-- What an activity tells of: `IActivity`, as far as its message names it.
pub record Log : Type 0 where
  pub first_name : String
  pub last_name : String
  pub bucket_name : Option String
  pub file_name : Option String
  pub bucket_member_email : Option String

abbrev or_empty : Option String → String
or_empty none = ""
or_empty (some s) = s

-- `formatMessage`, given the translated text of the message
pub format_message : String → Log → String
unfolding replace
format_message message log = replace "%%BUCKET_MEMBER_EMAIL%%" (or_empty log.bucket_member_email) (
    replace "%%FILE_NAME%%" (or_empty log.file_name) (
      replace "%%BUCKET_NAME%%" (or_empty log.bucket_name) (
        replace "%%USERNAME%%" (String.◌++◌ log.first_name (String.◌++◌ " " log.last_name))
          message)))

abbrev pub NoDollar : String → Type 0
NoDollar [] = Unit
NoDollar (c ∷ s) = (eqb (code c) b'$' ≡ false) × NoDollar s

expand-NoDollar :
    (pattern before after s : String) → NoDollar s → expand pattern before after false s ≡ s
unfolding expand
expand-NoDollar pattern before after [] h = refl
expand-NoDollar pattern before after (c ∷ s) (plain, h) =
    rw plain (ap (λ t. c ∷ t) (expand-NoDollar pattern before after s h))

-- A name without a dollar is put where its mark stands, and the rest of the text stays; where there
-- is no mark, the whole text stays.
pub replace-NoDollar :
    (pattern name s : String)
    → NoDollar name
    → (split_at pattern s ≡ none → replace pattern name s ≡ s)
      × ((before after : String)
          → split_at pattern s ≡ some (before, after)
          → replace pattern name s ≡ String.◌++◌ before (String.◌++◌ name after))
unfolding replace
replace-NoDollar pattern name s h = (
  (λ missing. rw missing refl),
  (λ before after found. rw found (rw (expand-NoDollar pattern before after name h) refl)),
)

dollar_text :
    (pattern before after name : String)
    → NoDollar name
    → expand pattern before after false (String.◌++◌ "$&" name) ≡ String.◌++◌ pattern name
unfolding expand
dollar_text pattern before after name h =
    rw cons-append
      (rw cons-append (rw nil-append (rw (expand-NoDollar pattern before after name h) refl)))

replace_dollar :
    (pattern name s before after : String)
    → NoDollar name
    → split_at pattern s ≡ some (before, after)
    → replace pattern (String.◌++◌ "$&" name) s
      ≡ String.◌++◌ before (String.◌++◌ (String.◌++◌ pattern name) after)
unfolding replace
replace_dollar pattern name s before after h found =
    rw found (rw (dollar_text pattern before after name h) refl)

replace_missing : (pattern name s : String) → split_at pattern s ≡ none → replace pattern name s ≡ s
unfolding replace
replace_missing pattern name s missing = rw missing refl

-- The text of the message once the names of the user and of the bucket are put into it.
abbrev pub named : String → Log → String
named message log =
    replace "%%BUCKET_NAME%%" (or_empty log.bucket_name)
      (replace "%%USERNAME%%" (String.◌++◌ log.first_name (String.◌++◌ " " log.last_name)) message)

-- A file whose name is `$&` and then a text without dollars is not shown by its name: where the mark
-- of the file stands, once the names of the user and of the bucket are put in, that mark itself is
-- shown, and then the rest of the name. This is where the text so far has no mark of an address.
pub format_message_dollar :
    (message name before after : String) (log : Log)
    → log.file_name ≡ some (String.◌++◌ "$&" name)
    → NoDollar name
    → split_at "%%FILE_NAME%%" (named message log) ≡ some (before, after)
    → split_at "%%BUCKET_MEMBER_EMAIL%%"
        (String.◌++◌ before (String.◌++◌ (String.◌++◌ "%%FILE_NAME%%" name) after))
      ≡ none
    → format_message message log
      ≡ String.◌++◌ before (String.◌++◌ (String.◌++◌ "%%FILE_NAME%%" name) after)
unfolding format_message
format_message_dollar message name before after log file plain found no_email = rw file (
    rw (replace_dollar "%%FILE_NAME%%" name (named message log) before after plain found)
      (replace_missing "%%BUCKET_MEMBER_EMAIL%%" (or_empty log.bucket_member_email) _ no_email))
