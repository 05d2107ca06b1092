-- ===== src/Upload/Popover.antt =====
-- The list of uploads as it is shown: web/src/components/upload/components/UploadPopover.tsx, and
-- the random ids of web/src/lib/utils.ts (`generateRandomString`).
use Prim.Native.Char.{code}
use Prim.Native.String
use package.text.Mathlib.TextLemmas.{nil-append, cons-append}
use safebucket.Prelude.{
  ℕ, zero, suc, ◌+◌, ◌≡◌, ◌<◌, refl, ◌∙◌, Bool, true, false, not, ◌&&◌, ◌||◌, Option, none, some,
  List, [], ◌∷◌, String, filter, length, map, ltb, leb, if◌then◌else◌, arith, All,
}
use safebucket.Ui.{text}
use safebucket.Upload.Provider.{Upload, UploadStatus, uploading, success, error}
use safebucket.Upload.Status.{Icon, get_status_icon, get_status_text}

abbrev pub is_success : Upload → Bool
is_success u = elim u.status [ success ↦ true | _ ↦ false ]

abbrev pub is_error : Upload → Bool
is_error u = elim u.status [ error ↦ true | _ ↦ false ]

abbrev pub is_uploading : Upload → Bool
is_uploading u = elim u.status [ uploading ↦ true | _ ↦ false ]

-- `activeUploads.length`, `completedCount` and `failedCount`
pub active_count : List Upload → ℕ
active_count us = length (filter (λ u. not (is_success u)) us)

pub completed_count : List Upload → ℕ
completed_count us = length (filter is_success us)

pub failed_count : List Upload → ℕ
failed_count us = length (filter is_error us)

-- the line above the list: the counts that are shown
pub record Summary : Type 0 where
  pub completed : Option ℕ
  pub failed : Option ℕ
  pub has_dot : Bool
  pub active : ℕ

abbrev shown : ℕ → Option ℕ
shown n = if ltb 0 n then some n else none

pub summary : List Upload → Option Summary
unfolding active_count completed_count failed_count
summary us =
    if ltb 0 (completed_count us) || ltb 0 (failed_count us)
    then some (record {
      completed = shown (completed_count us);
      failed = shown (failed_count us);
      has_dot = ltb 0 (completed_count us) && ltb 0 (failed_count us);
      active = active_count us;
    })
    else none

-- one upload in the list; the bar is shown while it is transferred
pub record Row : Type 0 where
  pub status_icon : Icon
  pub name : String
  pub path : String
  pub bar : Option ℕ
  pub status_text : String

pub upload_row : (ℕ → String) → (String → String) → Upload → Row
unfolding get_status_icon get_status_text
upload_row percent t u = record {
  status_icon = get_status_icon u.status u.progress;
  name = u.name;
  path = u.path;
  bar = if is_uploading u then some u.progress else none;
  status_text = get_status_text percent u.status u.progress (some t);
}

-- `UploadPopover`: the number on its button, the summary and the rows
pub record Popover : Type 0 where
  pub badge : Option ℕ
  pub heading : Option Summary
  pub rows : List Row

pub upload_popover : (ℕ → String) → (String → String) → List Upload → Popover
unfolding summary upload_row
upload_popover percent t us = record {
  badge = shown (length us);
  heading = summary us;
  rows = map (upload_row percent t) us;
}

-- Every upload is either completed or active; those that have failed are among the active ones.
pub counts_agree :
    (us : List Upload)
    → (completed_count us + active_count us ≡ length us)
      × (active_count us ≡ failed_count us + length (filter is_uploading us))
unfolding completed_count active_count failed_count
counts_agree [] = (omega arith, omega arith)
counts_agree (u ∷ us) = by_status u.status refl (counts_agree us)
  where
    by_status :
        (s : UploadStatus)
        → u.status ≡ s
        → (completed_count us + active_count us ≡ length us)
          × (active_count us ≡ failed_count us + length (filter is_uploading us))
        → (completed_count (u ∷ us) + active_count (u ∷ us) ≡ length (u ∷ us))
          × (active_count (u ∷ us) ≡ failed_count (u ∷ us) + length (filter is_uploading (u ∷ us)))
    by_status uploading e (h, k) = rw e (omega (arith, h), omega (arith, k))
    by_status success e (h, k) = rw e (omega (arith, h), omega (arith, k))
    by_status error e (h, k) = rw e (omega (arith, h), omega (arith, k))

-- `chars`, and `chars.charAt(i)`
abbrev pub chars : String
chars = "ABCDEFGHIJKLMNOPQRSTUVWXYZabcdefghijklmnopqrstuvwxyz0123456789"

pub char_at : String → ℕ → String
char_at String.[] i = ""
char_at (String.◌∷◌ c s) zero = String.◌∷◌ c String.[]
char_at (String.◌∷◌ c s) (suc i) = char_at s i

-- `generateRandomString`: `draws` are the values of `Math.floor(Math.random() * chars.length)`.
pub generate_random_string : List ℕ → String
unfolding char_at
generate_random_string [] = ""
generate_random_string (i ∷ is) = String.◌++◌ (char_at chars i) (generate_random_string is)

abbrev count_chars : String → ℕ
count_chars String.[] = 0
count_chars (String.◌∷◌ c s) = suc (count_chars s)

abbrev is_alphanumeric : ℕ → Bool
is_alphanumeric c =
    (leb b'A' c && leb c b'Z') || ((leb b'a' c && leb c b'z') || (leb b'0' c && leb c b'9'))

abbrev all_chars : (ℕ → Bool) → String → Bool
all_chars p String.[] = true
all_chars p (String.◌∷◌ c s) = p (code c) && all_chars p s

count_chars-append : (s t : String) → count_chars (String.◌++◌ s t) ≡ count_chars s + count_chars t
count_chars-append String.[] t = rw nil-append (omega arith)
count_chars-append (String.◌∷◌ c s) t = rw cons-append (omega (arith, count_chars-append s t))

all_chars-append :
    (p : ℕ → Bool) (s t : String)
    → all_chars p s ≡ true
    → all_chars p t ≡ true
    → all_chars p (String.◌++◌ s t) ≡ true
all_chars-append p String.[] t h k = rw nil-append k
all_chars-append p (String.◌∷◌ c s) t h k =
    rw cons-append (ground (arith, all_chars-append p s t (ground arith) k))

char_at_one :
    (p : ℕ → Bool) (s : String) (i : ℕ)
    → i < count_chars s
    → all_chars p s ≡ true
    → (count_chars (char_at s i) ≡ 1) × (all_chars p (char_at s i) ≡ true)
unfolding char_at
char_at_one p String.[] i h k = absurd (omega arith)
char_at_one p (String.◌∷◌ c s) zero h k = (refl, ground arith)
char_at_one p (String.◌∷◌ c s) (suc i) h k = char_at_one p s i (omega arith) (ground arith)

-- An id has as many characters as numbers are drawn, each a letter or a digit, if each number is
-- less than 62, as that of `Math.random` is.
pub generate_random_string-IsAlphanumeric :
    (draws : List ℕ)
    → All (λ i. i < 62) draws
    → (count_chars (generate_random_string draws) ≡ length draws)
      × (all_chars is_alphanumeric (generate_random_string draws) ≡ true)
unfolding generate_random_string
generate_random_string-IsAlphanumeric [] h = (refl, refl)
generate_random_string-IsAlphanumeric (i ∷ is) (small, h) =
    let (one, plain) = char_at_one is_alphanumeric chars i small refl in
    let (rest, plain_rest) = generate_random_string-IsAlphanumeric is h in
    (
      count_chars-append (char_at chars i) (generate_random_string is) ∙ omega (arith, one, rest),
      all_chars-append is_alphanumeric (char_at chars i) (generate_random_string is) plain
          plain_rest,
    )
