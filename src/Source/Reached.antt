-- ===== src/Source/Reached.antt =====
-- input/sourcefile.c and input/filtergen/include.c, with scanner.l at the end of a file: all that the
-- files being read can come to.
use mathlib.Core.Path.{subst}
use filtergen.Base.{
  ℕ, ◌+◌, ◌-◌, Bool, true, false, Option, none, some, Text, List, [], ◌∷◌, length, ltb,
  if◌then◌else◌, ◌≡◌, refl, ap, ◌∙◌, arith, Bool-cases, inl, inr,
}
use filtergen.Source.{
  Stream, too_many_nested, unreadable, Files, no_file, freed, on_top, below, Refusal, Stack, empty,
  starts_dash, sourcefile_push, sourcefile_pop,
}
use filtergen.Source.Counts.{height, IsCounted, refused-IsCounted, height-below}
use filtergen.Source.Include.{
  FileSystem, IncludeError, Reading, drop_buffer, push_file, include_file, end_of_file,
}
use filtergen.Source.Kept.{Keeps, file-Keeps}
use filtergen.Source.Pushed.{Pushed, too_deep, taken, not_opened, push_file-Pushed}
use filtergen.Source.Stacked.{stacked, push_file-files}

abbrev pub streams : Files → List Stream
streams (on_top sf fs) = sf.f ∷ streams fs
streams _ = []

abbrev pub has_current : Files → Bool
has_current no_file = false
has_current _ = true

-- One thing that the scanner does to the files.
pub data Step (fs : FileSystem) : Reading → Reading → Type 0 where
  includes :
      (fuel : ℕ) (name : Text) {r r' : Reading} (cs cs' : List IncludeError)
      → include_file fs fuel name (r, cs) ≡ some (r', cs')
      → Step fs r r'
  ends : (last : Bool) {r r' : Reading} → end_of_file r ≡ some (last, r') → Step fs r r'

-- `filtergen_source_parser` opens the first file, and the scanner reads it from its own buffer.
pub data Reached (fs : FileSystem) : Reading → Type 0 where
  begins :
      (name : Option Text) {s : Stack}
      → sourcefile_push fs.opens name empty ≡ (true, s)
      → Reached fs record { stack = s; buffers = streams s.files }
  steps : {r r' : Reading} → Reached fs r → Step fs r r' → Reached fs r'

-- The depth counts the open files and the refused ones; the buffers are those of the open files, in
-- their order; a file is current, if perhaps freed.
abbrev pub IsSound : Reading → Type 0
IsSound r =
    IsCounted r.stack × (streams r.stack.files ≡ r.buffers) × (has_current r.stack.files ≡ true)

Pushed-IsSound :
    {fs : FileSystem} {name : Text} {r r' : Reading} → Pushed fs name r r' → IsSound r → IsSound r'
Pushed-IsSound {name = name} {r = r} (too_deep deep) (counted, same, current) =
    (refused-IsCounted (too_many_nested name) r.stack counted, same, current)
Pushed-IsSound (taken {sf} room can is) (counted, same, current) =
    (omega (arith, counted), ap (λ bs. sf.f ∷ bs) same, refl)
Pushed-IsSound {name = name} {r = r} (not_opened room cannot) (counted, same, current) =
    (refused-IsCounted (unreadable name) r.stack counted, same, current)

push_file-IsSound :
    (fs : FileSystem) (name : Text) (r : Reading) → IsSound r → IsSound (push_file fs name r)
push_file-IsSound fs name r sound = Pushed-IsSound (push_file-Pushed fs name r) sound

streams-below : (fs : Files) → streams (below fs) ≡ streams fs
streams-below no_file = refl
streams-below freed = refl
streams-below (on_top sf fs) = refl

below-has_current : (fs : Files) → has_current (below fs) ≡ true
below-has_current no_file = refl
below-has_current freed = refl
below-has_current (on_top sf fs) = refl

ended-IsSound :
    (fs : Files) (d : ℕ) (rs : List Refusal) (bs : List Stream) (last : Bool) (r' : Reading)
    → d ≡ height fs + length rs
    → streams fs ≡ bs
    → has_current fs ≡ true
    → end_of_file record { stack = record { files = fs; depth = d; refusals = rs }; buffers = bs }
      ≡ some (last, r')
    → IsSound r'
unfolding end_of_file sourcefile_pop
ended-IsSound no_file d rs bs last r' counted same current e = cc
ended-IsSound freed d rs bs last r' counted same current e = cc
ended-IsSound (on_top sf next) d rs bs last r' counted same current e =
    subst IsSound
      {x = record {
        stack = record { files = below next; depth = d - 1; refusals = rs };
        buffers = drop_buffer bs;
      }}
      {y = r'} (cc)
      (
        omega (arith, counted, height-below next),
        streams-below next ∙ ap drop_buffer same,
        below-has_current next,
      )

step-IsSound : (fs : FileSystem) (r r' : Reading) → Step fs r r' → IsSound r → IsSound r'
step-IsSound fs r r' (includes fuel name cs cs' e) sound =
    subst (Keeps IsSound) e (file-Keeps fs IsSound (push_file-IsSound fs) fuel name (r, cs) sound)
step-IsSound fs r r' (ends last e) (counted, same, current) =
    ended-IsSound r.stack.files r.stack.depth r.stack.refusals r.buffers last r' counted same
      current e

abbrev IsFirst : Bool × Stack → Type 0
IsFirst (true, s) = IsSound record { stack = s; buffers = streams s.files }
IsFirst (false, s) = Unit {0}

push-IsFirst :
    (fs : FileSystem) (name : Option Text) → IsFirst (sourcefile_push fs.opens name empty)
unfolding sourcefile_push
push-IsFirst fs none = (refl, refl, refl)
push-IsFirst fs (some name) = elim (Bool-cases (starts_dash name)) [
  | inl dash ↦ rw dash (refl, refl, refl)
  | inr path ↦ elim (Bool-cases (fs.opens name)) [
    | inl can ↦ rw (path, can) (refl, refl, refl)
    | inr cannot ↦ rw (path, cannot) tt
  ]
]

-- Whatever files are opened, included and read to their ends: the depth is the number of files that
-- are open and of those that were refused, the scanner's buffers are those of the open files in the
-- order of the stack, and the current file is not null.
pub Reached-IsSound : (fs : FileSystem) (r : Reading) → Reached fs r → IsSound r
Reached-IsSound fs r (begins name e) = subst IsFirst e (push-IsFirst fs name)
Reached-IsSound fs r (steps {r = before} reached step) =
    step-IsSound fs before r step (Reached-IsSound fs before reached)

-- At every point of reading, a name that can be opened is put on the stack if the open and the refused
-- files are at most a hundred; else the files stay as they are, even if none is open.
pub Reached-push_file :
    (fs : FileSystem) (r : Reading) (name : Text)
    → Reached fs r
    → (push_file fs name r).stack.files ≡ (
        if ltb 100 (height r.stack.files + length r.stack.refusals)
        then r.stack.files
        else stacked fs (name ∷ []) r.stack.files)
Reached-push_file fs r name reached =
    (push_file-files fs name r).0
    ∙ ap (λ d. if ltb 100 d then r.stack.files else stacked fs (name ∷ []) r.stack.files)
        (Reached-IsSound fs r reached).0
