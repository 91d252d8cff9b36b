-- ===== src/Source/Counts.antt =====
-- input/sourcefile.c: what `srcfile_depth` counts.
use mathlib.Core.Path.{subst}
use filtergen.Base.{ℕ, suc, ◌+◌, ◌-◌, some, List, length, length-snoc, ◌≡◌, refl, arith}
use filtergen.Source.{
  Files, no_file, freed, on_top, below, popped, Stack, Refusal, refused, sourcefile_pop,
}

abbrev pub height : Files → ℕ
height no_file = 0
height freed = 0
height (on_top sf fs) = suc (height fs)

-- The files that are open, and the calls that opened none.
abbrev pub IsCounted : Stack → Type 0
IsCounted s = s.depth ≡ height s.files + length s.refusals

pub height-below : (fs : Files) → height (below fs) ≡ height fs
height-below no_file = refl
height-below freed = refl
height-below (on_top sf fs) = refl

pub refused-IsCounted : (why : Refusal) (s : Stack) → IsCounted s → IsCounted (refused why s).1
refused-IsCounted why s h = omega (arith, length-snoc s.refusals why)

popped-IsCounted :
    (fs : Files) (d : ℕ) (rs : List Refusal) (t : Stack)
    → d ≡ height fs + length rs
    → popped fs d rs ≡ some t
    → IsCounted t
popped-IsCounted no_file d rs t h e =
    subst IsCounted {x = record { files = no_file; depth = d; refusals = rs }} {y = t} (cc) h
popped-IsCounted freed d rs t h e = cc
popped-IsCounted (on_top sf next) d rs t h e =
    subst IsCounted {x = record { files = below next; depth = d - 1; refusals = rs }} {y = t} (cc)
      (omega (arith, height-below next))

pub pop-IsCounted : (s t : Stack) → IsCounted s → sourcefile_pop s ≡ some t → IsCounted t
unfolding sourcefile_pop
pop-IsCounted s t h e = popped-IsCounted s.files s.depth s.refusals t h e
