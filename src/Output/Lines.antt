-- ===== src/Output/Lines.antt =====
-- Lists of lines that are written or left out, for the back ends that write several for an entry.
use filtergen.Base.{
  ℕ, ◌+◌, Bool, true, false, List, [], ◌∷◌, ◌++◌, Text, length, ◌==◌, if◌then◌else◌, ◌≡◌, refl,
  arith,
}

-- Lines that are written if a flag is set.
abbrev pub optional : Bool → List Text → List Text
optional b lines = if b then lines else []

abbrev pub All : (Text → Type 0) → List Text → Type 0
All P [] = Unit {0}
All P (l ∷ ls) = P l × All P ls

pub All-append : (P : Text → Type 0) (a b : List Text) → All P a → All P b → All P (a ++ b)
All-append P [] b ha hb = hb
All-append P (l ∷ a) b (h, ha) hb = (h, All-append P a b ha hb)

pub All-optional :
    (P : Text → Type 0) (b : Bool) (a : List Text) → (b ≡ true → All P a) → All P (optional b a)
All-optional P true a h = h refl
All-optional P false a h = tt

-- How many lines begin with a byte.
abbrev pub begins : ℕ → Text → Bool
begins c [] = false
begins c (a ∷ s) = a == c

abbrev pub beginning : ℕ → List Text → ℕ
beginning c [] = 0
beginning c (l ∷ ls) = (if begins c l then 1 else 0) + beginning c ls

pub beginning-append :
    (c : ℕ) (a b : List Text) → beginning c (a ++ b) ≡ beginning c a + beginning c b
beginning-append c [] b = omega arith
beginning-append c (l ∷ a) b = omega (arith, beginning-append c a b)

pub beginning-All :
    (c : ℕ) (a : List Text) → All (λ l. begins c l ≡ true) a → beginning c a ≡ length a
beginning-All c [] h = refl
beginning-All c (l ∷ a) (h, ha) = rw h (omega (arith, beginning-All c a ha))

pub length-optional :
    (b : Bool) (a : List Text) → length (optional b a) ≡ (if b then length a else 0)
length-optional true a = refl
length-optional false a = refl
