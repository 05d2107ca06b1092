-- ===== src/Bucket/Sharing.antt =====
-- The list of people to share a new bucket with: web/src/components/app-sidebar/hooks/useAddMembers.ts.
use safebucket.Prelude.{
  ◌≡◌, refl, ◌∙◌, Bool, true, false, not, ◌&&◌, ◌==◌, eq_iff, Bool-cases, inl, inr, List, [], ◌∷◌,
  ◌++◌, String, map, filter, any, any-append, any-filter, if◌then◌else◌, arith,
}
use safebucket.Bucket.Email.{is_email}

-- `IMembers`
pub record Member : Type 0 where
  pub email : String
  pub group : String

-- `email` and `shareWith`
pub record Share : Type 0 where
  pub email : String
  pub share_with : List Member

unfoldable pub has_email : String → List Member → Bool
has_email email = any (λ m. m.email == email)

-- `addEmail`, with what it returns
pub add_email : String → String → Share → Bool × Share
unfolding has_email
add_email email group s =
    if is_email email && not (has_email email s.share_with)
    then (
      true,
      record {
        email = "";
        share_with = s.share_with ++ record { email = email; group = group } ∷ [];
      },
    )
    else (false, s)

-- `setGroup`
unfoldable pub set_group : String → String → Share → Share
set_group email group s = record s {
  share_with = map (λ m. if m.email == email then record m { group = group } else m) s.share_with;
}

-- `removeFromList`
unfoldable pub remove_from_list : String → Share → Share
remove_from_list email s = record s {
  share_with = filter (λ m. not (email == m.email)) s.share_with;
}

-- `resetShareWith`
pub reset_share_with : Share → Share
reset_share_with s = record { email = ""; share_with = [] }

-- Nobody is listed twice, and every address passes the test.
abbrev pub IsRoster : List Member → Type 0
IsRoster [] = Unit
IsRoster (m ∷ ms) = (has_email m.email ms ≡ false) × (is_email m.email ≡ true) × IsRoster ms

pub IsRoster-concat :
    (ms : List Member) (m : Member)
    → has_email m.email ms ≡ false
    → is_email m.email ≡ true
    → IsRoster ms
    → IsRoster (ms ++ m ∷ [])
unfolding has_email
IsRoster-concat [] m new valid h = (refl, valid, tt)
IsRoster-concat (n ∷ ms) m new valid (once, ok, h) = (
  ground (
    arith,
    any-append (λ k. k.email == n.email) ms (m ∷ []),
    eq_iff n.email m.email,
    eq_iff m.email n.email,
  ),
  ok,
  IsRoster-concat ms m (ground arith) valid h,
)

has_email-map :
    (email j group : String) (ms : List Member)
    → has_email email (map (λ m. if m.email == j then record m { group = group } else m) ms)
      ≡ has_email email ms
unfolding has_email
has_email-map email j group [] = refl
has_email-map email j group (m ∷ ms) = ground (arith, has_email-map email j group ms)

IsRoster-map :
    (j group : String) (ms : List Member)
    → IsRoster ms
    → IsRoster (map (λ m. if m.email == j then record m { group = group } else m) ms)
IsRoster-map j group [] h = tt
IsRoster-map j group (m ∷ ms) (once, ok, h) = elim (Bool-cases (m.email == j)) [
  | inl same ↦ rw same (has_email-map m.email j group ms ∙ once, ok, IsRoster-map j group ms h)
  | inr other ↦ rw other (has_email-map m.email j group ms ∙ once, ok, IsRoster-map j group ms h)
]

pub IsRoster-filter : (p : Member → Bool) (ms : List Member) → IsRoster ms → IsRoster (filter p ms)
unfolding has_email
IsRoster-filter p [] h = tt
IsRoster-filter p (m ∷ ms) (once, ok, h) = elim (Bool-cases (p m)) [
  | inl keeps ↦
      rw keeps (any-filter (λ k. k.email == m.email) p ms once, ok, IsRoster-filter p ms h)
  | inr drops ↦ rw drops (IsRoster-filter p ms h)
]

pub data Step : Share → Share → Type 0 where
  adds : (email group : String) (s : Share) → Step s (add_email email group s).1
  sets : (email group : String) (s : Share) → Step s (set_group email group s)
  removes : (email : String) (s : Share) → Step s (remove_from_list email s)
  resets : (s : Share) → Step s (reset_share_with s)

-- Every operation of the form keeps the list free of repetitions and of malformed addresses.
pub Step-IsRoster : {s t : Share} → Step s t → IsRoster s.share_with → IsRoster t.share_with
unfolding add_email set_group remove_from_list reset_share_with
Step-IsRoster (adds email group s) h =
    elim (Bool-cases (is_email email && not (has_email email s.share_with))) [
      | inl accepted ↦
          rw (accepted, add_email)
            (IsRoster-concat s.share_with (record { email = email; group = group }) (ground arith)
              (ground arith) h)
      | inr refused ↦ rw (refused, add_email) h
    ]
Step-IsRoster (sets email group s) h = IsRoster-map email group s.share_with h
Step-IsRoster (removes email s) h = IsRoster-filter _ s.share_with h
Step-IsRoster (resets s) h = tt
