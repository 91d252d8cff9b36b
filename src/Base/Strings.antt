-- ===== src/Base/Strings.antt =====
-- C strings as lists of bytes, literals and comparison.
use Prim.Native.Nat.{ℕ, ◌+◌}
use Prim.Native.Char.{code}
use Prim.Native.String.{String}
use mathlib.Core.Bool.{Bool, true, false, ◌&&◌}
use filtergen.Base.Tests.{◌==◌, leb, if◌then◌else◌}
use mathlib.Core.List.{List, [], ◌∷◌, ◌++◌}

-- The bytes of a string, without the NUL that ends it.
abbrev pub Text : Type 0
Text = List ℕ

abbrev pub codes : String → Text
codes String.[] = []
codes (String.◌∷◌ c s) = code c ∷ codes s

-- `!strcmp(s, t)`.
unfoldable pub text_eq : Text → Text → Bool
text_eq [] [] = true
text_eq [] (_ ∷ _) = false
text_eq (_ ∷ _) [] = false
text_eq (a ∷ s) (b ∷ t) = a == b && text_eq s t

-- Several strings, one behind the other.
abbrev pub concat : List Text → Text
concat [] = []
concat (s ∷ ss) = s ++ concat ss

-- `strcasecmp`, for the letters of ASCII.
abbrev pub lower : ℕ → ℕ
lower c = if leb 65 c && leb c 90 then c + 32 else c

abbrev pub lowered : Text → Text
lowered [] = []
lowered (c ∷ s) = lower c ∷ lowered s
