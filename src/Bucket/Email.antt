-- ===== src/Bucket/Email.antt =====
-- `EMAIL_REGEX` of web/src/types/bucket.ts, and the `trim` of the member form.
use Prim.Native.Char.{Char, code}
use Prim.Native.String.{String, [], ◌∷◌}
use safebucket.Prelude.{
  ℕ, ◌≡◌, refl, ap, ◌∙◌, Bool, true, false, not, ◌&&◌, ◌||◌, Bool-cases, inl, inr, leb, eqb,
  if◌then◌else◌, arith,
}

-- `\s`, and what `trim` takes off: white space and line terminators
pub is_space : ℕ → Bool
is_space c =
    (leb 9 c && leb c 13)
    || eqb c 32
    || eqb c 160
    || eqb c 0x1680
    || (leb 0x2000 c && leb c 0x200a)
    || eqb c 0x2028
    || eqb c 0x2029
    || eqb c 0x202f
    || eqb c 0x205f
    || eqb c 0x3000
    || eqb c 0xfeff

-- `[^\s@]`
abbrev pub is_atom : ℕ → Bool
is_atom c = not (is_space c) && not (eqb c b'@')

-- `[^\s@]+`, and then the rest of the expression
pub atoms : (String → Bool) → String → Bool
atoms rest [] = false
atoms rest (c ∷ s) = is_atom (code c) && (rest s || atoms rest s)

-- one character, and then the rest
pub literal : ℕ → (String → Bool) → String → Bool
literal d rest [] = false
literal d rest (c ∷ s) = eqb (code c) d && rest s

-- `$`
pub at_end : String → Bool
at_end [] = true
at_end (c ∷ s) = false

-- `/^[^\s@]+@[^\s@]+\.[^\s@]+$/.test(email)`
unfoldable pub is_email : String → Bool
unfolding atoms literal at_end is_space
is_email = atoms (literal b'@' (atoms (literal b'.' (atoms at_end))))

-- `trimStart` and `trimEnd`
pub trim_start : String → String
trim_start [] = []
trim_start (c ∷ s) = let rest = trim_start s in if is_space (code c) then rest else c ∷ s

abbrev put_unless_blank : Char → String → String
put_unless_blank c [] = if is_space (code c) then [] else c ∷ []
put_unless_blank c (d ∷ s) = c ∷ d ∷ s

pub trim_end : String → String
trim_end [] = []
trim_end (c ∷ s) = put_unless_blank c (trim_end s)

pub trim : String → String
unfolding trim_start trim_end is_space
trim s = trim_end (trim_start s)

abbrev pub NoSpace : String → Type 0
NoSpace [] = Unit
NoSpace (c ∷ s) = (is_space (code c) ≡ false) × NoSpace s

atoms-NoSpace :
    (rest : String → Bool) (s : String)
    → ((t : String) → rest t ≡ true → NoSpace t)
    → atoms rest s ≡ true
    → NoSpace s
unfolding atoms
atoms-NoSpace rest [] sound h = tt
atoms-NoSpace rest (c ∷ s) sound h = elim (Bool-cases (rest s)) [
  | inl matched ↦ (ground arith, sound s matched)
  | inr missed ↦ (ground arith, atoms-NoSpace rest s sound (ground arith))
]

literal-NoSpace :
    (d : ℕ) (rest : String → Bool) (s : String)
    → is_space d ≡ false
    → ((t : String) → rest t ≡ true → NoSpace t)
    → literal d rest s ≡ true
    → NoSpace s
unfolding literal
literal-NoSpace d rest [] plain sound h = tt
literal-NoSpace d rest (c ∷ s) plain sound h =
    let same : code c ≡ d = ground arith in (ap is_space same ∙ plain, sound s (ground arith))

at_end-NoSpace : (s : String) → at_end s ≡ true → NoSpace s
unfolding at_end
at_end-NoSpace [] h = tt
at_end-NoSpace (c ∷ s) h = cc

at_sign : is_space b'@' ≡ false
unfolding is_space
at_sign = refl

dot : is_space b'.' ≡ false
unfolding is_space
dot = refl

-- An address that passes the test has no white space anywhere.
pub is_email-NoSpace : (s : String) → is_email s ≡ true → NoSpace s
unfolding is_email
is_email-NoSpace s h =
    atoms-NoSpace _ s
      (λ t. literal-NoSpace b'@' _ t at_sign (λ u.
        atoms-NoSpace _ u
          (λ v. literal-NoSpace b'.' _ v dot (λ w. atoms-NoSpace at_end w at_end-NoSpace))))
      h

trim_start_of_NoSpace : (s : String) → NoSpace s → trim_start s ≡ s
unfolding trim_start
trim_start_of_NoSpace [] h = refl
trim_start_of_NoSpace (c ∷ s) (k, h) = rw k refl

trim_end_of_NoSpace : (s : String) → NoSpace s → trim_end s ≡ s
unfolding trim_end
trim_end_of_NoSpace [] h = refl
trim_end_of_NoSpace (c ∷ []) (k, h) = rw k refl
trim_end_of_NoSpace (c ∷ d ∷ s) (k, h) = ap (put_unless_blank c) (trim_end_of_NoSpace (d ∷ s) h)

-- Trimming an address that passes the test of the form changes nothing.
pub trim_of_is_email : (s : String) → is_email s ≡ true → trim s ≡ s
unfolding trim
trim_of_is_email s h =
    let plain = is_email-NoSpace s h in
    rw (trim_start_of_NoSpace s plain) (trim_end_of_NoSpace s plain)
