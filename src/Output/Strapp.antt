-- ===== src/Output/Strapp.antt =====
-- fg-util.c, util.h and oputs.c: growing a line, and writing it.
use filtergen.Base.{
  Bool, true, false, if◌then◌else◌, Option, none, some, List, [], ◌∷◌, ◌++◌, Text, codes, length,
  length-snoc, ◌+◌, ◌≡◌,
}

-- A `char *` that is null or a string.
abbrev pub Line : Type 0
Line = Option Text

-- `strapp`.
unfoldable pub strapp : Line → Line → Line
strapp s none = s
strapp none (some n) = some n
strapp (some s) (some n) = some (s ++ n)

-- `APP(l, s)`, `APP2`, `APPS` and `APPSS2` of util.h.
abbrev pub app : Line → Text → Line
app l s = strapp l (some s)

abbrev pub apps : Line → Line → Line
apps l s = strapp (app l (codes " ")) s

abbrev pub app_word : Line → Text → Line
app_word l s = apps l (some s)

abbrev pub app_words : Line → Text → Line → Line
app_words l s t = apps (app_word l s) t

-- What has been written, line by line.
abbrev pub Written : Type 0
Written = List Text

-- `oputs(s)`: the string and a newline, or nothing for a null pointer.
unfoldable pub oputs : Line → Written → Written
oputs none out = out
oputs (some s) out = out ++ s ∷ []

pub oputs-length : (s : Text) (out : Written) → length (oputs (some s) out) ≡ length out + 1
unfolding oputs
oputs-length s out = length-snoc out s

-- A line that has a word is not null.
abbrev pub HasText : Line → Type 0
HasText none = ⊥
HasText (some _) = Unit {0}

pub HasText-strapp : (l n : Line) → HasText l → HasText (strapp l n)
unfolding strapp
HasText-strapp none n h = absurd h
HasText-strapp (some s) none h = tt
HasText-strapp (some s) (some n) h = tt

pub HasText-app : (l : Line) (s : Text) → HasText (app l s)
unfolding strapp
HasText-app none s = tt
HasText-app (some l) s = tt

pub length-oputs : (l : Line) (out : Written) → HasText l → length (oputs l out) ≡ length out + 1
length-oputs none out h = absurd h
length-oputs (some s) out h = oputs-length s out

pub HasText-if : (b : Bool) (l n : Line) → HasText l → HasText n → HasText (if b then l else n)
HasText-if true l n hl hn = hl
HasText-if false l n hl hn = hn
