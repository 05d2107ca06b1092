-- ===== src/Prelude/Text.antt =====
-- Texts as the program uses them: whole texts compared by `==`, and walked character by character.
use Prim.Native.Char.{code}
use Prim.Native.Nat.{ℕ, ◌+◌}
use Prim.Native.String.{String, [], ◌∷◌}
use safebucket.Prelude.Tests.{ltb, if◌then◌else◌}

-- `s.length`: a character beyond the first plane counts twice
abbrev pub text_length : String → ℕ
text_length [] = 0
text_length (c ∷ s) = (if ltb (code c) 65536 then 1 else 2) + text_length s

-- A predicate on every character.
abbrev pub AllChars : (ℕ → Type 0) → String → Type 0
AllChars P [] = Unit
AllChars P (c ∷ s) = P (code c) × AllChars P s
