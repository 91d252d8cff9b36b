-- ===== src/Source/Include.antt =====
-- input/filtergen/include.c, and what scanner.l does at the end of a file. The C library is a
-- parameter, with the file system it reads; it stays the same while files are included.
use filtergen.Base.{
  ℕ, zero, suc, Bool, true, false, ◌||◌, Option, none, some, Text, List, [], ◌∷◌, ◌++◌, codes,
  text_eq, ◌==◌, if◌then◌else◌,
}
use filtergen.Base.Optional.{◌>>=◌}
use filtergen.Source.{Stream, Files, on_top, Stack, sourcefile_push, sourcefile_pop}

pub data Kind : Type 0 where
  regular link directory special : Kind

-- `stat` fails with ENOENT, fails with another error, or succeeds.
pub data Status : Type 0 where
  missing failing : Status
  is : Kind → Status

-- `glob` and `scandir` fail, or return the names in order.
pub record FileSystem : Type 0 where
  pub opens : Text → Bool
  pub stat : Text → Status
  pub glob : Text → Option (List Text)
  pub scandir : Text → Option (List Text)
  pub basename : Text → Text

-- The messages of `include_file` itself, each with the name it is about.
pub data IncludeError : Type 0 where
  glob_failed stat_failed root_skipped scandir_failed : Text → IncludeError

-- The files being read, and the scanner's buffers for them.
pub record Reading : Type 0 where
  pub stack : Stack
  pub buffers : List Stream

abbrev pub Included : Type 0
Included = Reading × List IncludeError

abbrev pub complain : IncludeError → Included → Included
complain c (r, cs) = (r, cs ++ c ∷ [])

-- `index(name, '*') != NULL || index(name, '?') != NULL || index(name, '[') != NULL`.
abbrev pub is_pattern : Text → Bool
is_pattern [] = false
is_pattern (c ∷ s) = c == b'*' || c == b'?' || c == b'[' || is_pattern s

-- `S_ISREG(st.st_mode) || S_ISLNK(st.st_mode)`.
abbrev pub is_file : Kind → Bool
is_file regular = true
is_file link = true
is_file _ = false

-- `d_name[0] == '.'`.
abbrev pub is_hidden : Text → Bool
is_hidden [] = false
is_hidden (c ∷ s) = c == b'.'

-- A buffer for the file that is current now.
abbrev pub push_buffer : Files → List Stream → List Stream
push_buffer (on_top sf fs) buffers = sf.f ∷ buffers
push_buffer _ buffers = buffers

abbrev pub step_into : Bool × Stack → List Stream → Reading
step_into (true, s) buffers = record { stack = s; buffers = push_buffer s.files buffers }
step_into (false, s) buffers = record { stack = s; buffers = buffers }

-- `"%s/%s"`.
abbrev pub entry_path : Text → Text → Text
entry_path name d = name ++ b'/' ∷ d

module _ (fs : FileSystem) where
  unfoldable pub push_file : Text → Reading → Reading
  unfolding sourcefile_push
  push_file name r = step_into (sourcefile_push fs.opens (some name) r.stack) r.buffers

  abbrev pub include_match : Status → Text → Included → Included
  include_match (is k) name (r, cs) = (if is_file k then push_file name r else r, cs)
  include_match _ name i = complain (stat_failed name) i

  -- From the last name to the first.
  unfoldable pub include_matches : List Text → Included → Included
  unfolding push_file
  include_matches [] i = i
  include_matches (name ∷ names) i = include_match (fs.stat name) name (include_matches names i)

  abbrev pub include_pattern : Option (List Text) → Text → Included → Included
  unfolding include_matches
  include_pattern none name i = complain (glob_failed name) i
  include_pattern (some names) name i = include_matches names i

  module _ (include : Text → Included → Option Included) where
    abbrev pub include_entry : Text → Text → Included → Option Included
    include_entry name d i = if is_hidden d then some i else include (entry_path name d) i

    -- From the last entry to the first.
    unfoldable pub include_entries : Text → List Text → Included → Option Included
    include_entries name [] i = some i
    include_entries name (d ∷ ds) i = do i' ← include_entries name ds i; include_entry name d i'

    abbrev pub include_scanned : Option (List Text) → Text → Included → Option Included
    unfolding include_entries
    include_scanned none name i = some (complain (scandir_failed name) i)
    include_scanned (some ds) name i = include_entries name ds i

    abbrev pub include_directory : Text → Included → Option Included
    include_directory name i =
        if text_eq (codes "/") (fs.basename name)
        then some (complain (root_skipped name) i)
        else include_scanned (fs.scandir name) name i

    unfoldable pub include_status : Status → Text → Included → Option Included
    unfolding include_entries push_file include_matches text_eq
    include_status missing name i = some (
        if is_pattern name
        then include_pattern (fs.glob name) name i
        else complain (stat_failed name) i)
    include_status failing name i = some (complain (stat_failed name) i)
    include_status (is directory) name i = include_directory name i
    include_status (is _) name (r, cs) = some (push_file name r, cs)

  -- On fuel for the directories in directories; `none` is out of fuel.
  unfoldable pub include_file : ℕ → Text → Included → Option Included
  unfolding include_status
  include_file zero name i = none
  include_file (suc fuel) name i = include_status (include_file fuel) (fs.stat name) name i

-- scanner.l at the end of a file: whether that was the last, and what is read on.
abbrev pub drop_buffer : List Stream → List Stream
drop_buffer [] = []
drop_buffer (b ∷ bs) = bs

unfoldable pub end_of_file : Reading → Option (Bool × Reading)
unfolding sourcefile_pop
end_of_file r = do
  s ← sourcefile_pop r.stack
  let left = drop_buffer r.buffers
  some (is_empty left, record { stack = s; buffers = left })
  where
    is_empty : List Stream → Bool
    is_empty [] = true
    is_empty (b ∷ bs) = false
