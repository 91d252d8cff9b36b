-- ===== src/Source.antt =====
-- input/sourcefile.c: the stack of files being read. Memory is always there, and a file that is open
-- can be closed.
mod Tests
mod Counts
pub mod Include
mod Pushed
mod Lists
mod Order
mod Ends
mod Stacked
mod Kept
mod Reached
use filtergen.Base.{
  ℕ, suc, ◌+◌, ◌-◌, Bool, true, false, Option, none, some, Text, List, [], ◌∷◌, ◌++◌, codes, ltb,
  ◌==◌, if◌then◌else◌,
}

-- `FILE *`.
pub data Stream : Type 0 where
  standard_input : Stream
  file_stream : Text → Stream

pub record SourceFile : Type 0 where
  pub f : Stream
  pub pathname : Text
  pub lineno : ℕ
  pub column : ℕ

-- `current_srcfile`, and what `next` leads to: null, a file, or one that has been freed.
pub data Files : Type 0 where
  no_file freed : Files
  on_top : SourceFile → Files → Files

-- What goes to the standard error stream.
pub data Refusal : Type 0 where
  too_many_nested unreadable : Text → Refusal

pub record Stack : Type 0 where
  pub files : Files
  pub depth : ℕ
  pub refusals : List Refusal

abbrev pub empty : Stack
empty = record { files = no_file; depth = 0; refusals = [] }

abbrev pub max_srcfile_depth : ℕ
max_srcfile_depth = 100

-- `pathname == NULL || strncmp(pathname, "-", 1) == 0`.
abbrev pub starts_dash : Text → Bool
starts_dash [] = false
starts_dash (c ∷ s) = c == b'-'

abbrev pub shown : Option Text → Text
shown none = codes "(null)"
shown (some name) = name

abbrev pub opened_file : Stream → Text → SourceFile
opened_file f pathname = record { f = f; pathname = pathname; lineno = 1; column = 1 }

abbrev pub refused : Refusal → Stack → Bool × Stack
refused why s =
    (false, record { files = s.files; depth = suc s.depth; refusals = s.refusals ++ why ∷ [] })

abbrev pub accepted : SourceFile → Stack → Bool × Stack
accepted sf s =
    (true, record { files = on_top sf s.files; depth = suc s.depth; refusals = s.refusals })

module _ (opens : Text → Bool) where
  abbrev pub open_path : Option Text → Stack → Bool × Stack
  open_path none s = accepted (opened_file standard_input (codes "<stdin>")) s
  open_path (some name) s =
      if starts_dash name
      then accepted (opened_file standard_input (codes "<stdin>")) s
      else if opens name
      then accepted (opened_file (file_stream name) name) s
      else refused (unreadable name) s

  -- The depth is counted before it is known whether a file is file_stream.
  unfoldable pub sourcefile_push : Option Text → Stack → Bool × Stack
  sourcefile_push name s =
      if ltb max_srcfile_depth s.depth
      then refused (too_many_nested (shown name)) s
      else open_path name s

-- The last file is freed and stays the current one. `none` where the code reads and frees a file that
-- has been freed.
abbrev pub below : Files → Files
below no_file = freed
below fs = fs

abbrev pub popped : Files → ℕ → List Refusal → Option Stack
popped no_file d rs = some record { files = no_file; depth = d; refusals = rs }
popped freed d rs = none
popped (on_top sf next) d rs = some record { files = below next; depth = d - 1; refusals = rs }

unfoldable pub sourcefile_pop : Stack → Option Stack
sourcefile_pop s = popped s.files s.depth s.refusals
