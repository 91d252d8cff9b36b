-- ===== src/Source/Tests.antt =====
-- A directory of files, included.
use filtergen.Base.{
  ◌+◌, ◌<◌, Bool, true, Option, none, some, Text, List, [], ◌∷◌, codes, length, ltb, text_eq, not,
  ◌||◌, if◌then◌else◌, ◌≡◌, refl, arith,
}
use filtergen.Source.{
  Stack, freed, no_file, on_top, file_stream, opened_file, sourcefile_push, sourcefile_pop,
}
use filtergen.Source.Counts.{height, IsCounted}
use filtergen.Source.Include.{
  regular, directory, Status, missing, failing, is, FileSystem, Reading, Included, push_file,
  include_file, end_of_file,
}
use filtergen.Source.Lists.{Lists, one_file, a_directory, no_more, hidden_entry, an_entry}
use filtergen.Source.Stacked.{stacked, include_file-stacked}
use filtergen.Source.Ends.{include_file-ends}
use filtergen.Source.Reached.{
  Reached, begins, steps, ends, streams, has_current, Reached-IsSound, Reached-push_file,
}

abbrev status : Text → Status
unfolding text_eq
status name =
    if ltb 30 (length name)
    then failing
    else if text_eq name (codes "rules") || text_eq name (codes "rules/more")
    then is directory
    else if text_eq name (codes "none")
    then missing
    else is regular

abbrev names_in : Text → Option (List Text)
unfolding text_eq
names_in name =
    if text_eq name (codes "rules")
    then some (codes "." ∷ codes ".." ∷ codes "base" ∷ codes "more" ∷ codes "secret" ∷ [])
    else some (codes "web" ∷ [])

abbrev can_open : Text → Bool
unfolding text_eq
can_open name = not (text_eq name (codes "rules/secret"))

abbrev disk : FileSystem
unfolding status names_in can_open
disk = record {
  opens = can_open;
  stat = status;
  glob = λ name. none;
  scandir = names_in;
  basename = λ name. name;
}

long_status : (name : Text) → 30 < length name → FileSystem.stat disk name ≡ failing
unfolding disk
long_status name long = let far : ltb 30 (length name) ≡ true = ground arith in rw far refl

abbrev rules_files : List Text
rules_files = codes "rules/base" ∷ codes "rules/more/web" ∷ codes "rules/secret" ∷ []

rules_listed : Lists disk (codes "rules") rules_files
unfolding disk
rules_listed = a_directory refl refl refl (
    hidden_entry refl (
      hidden_entry refl (
        an_entry refl (one_file refl refl) (
          an_entry refl (a_directory refl refl refl (an_entry refl (one_file refl refl) no_more))
            (an_entry refl (one_file refl refl) no_more)))))

abbrev main_stack : Stack
main_stack = record {
  files = on_top (opened_file (file_stream (codes "main")) (codes "main")) no_file;
  depth = 1;
  refusals = [];
}

abbrev main_reading : Reading
main_reading = record { stack = main_stack; buffers = file_stream (codes "main") ∷ [] }

include_file-stacked_example :
    (i : Included) × (include_file disk 32 (codes "rules") (main_reading, []) ≡ some i)
    × (i.0.stack.files ≡ stacked disk rules_files main_stack.files)
    × (i.0.stack.depth ≡ main_stack.depth + 3)
include_file-stacked_example =
    include_file-stacked disk 30 long_status (codes "rules") rules_files main_reading []
      rules_listed (omega arith)

include_file-ends_example :
    (i : Included) × (include_file disk 32 (codes "rules") (main_reading, []) ≡ some i)
include_file-ends_example = include_file-ends disk 30 long_status (codes "rules") (main_reading, [])

abbrev main_read : Reading
main_read = record { stack = record { files = freed; depth = 0; refusals = [] }; buffers = [] }

main_read-Reached : Reached disk main_read
unfolding sourcefile_push sourcefile_pop end_of_file disk
main_read-Reached = steps (begins (some (codes "main")) {s = main_stack} refl) (ends true refl)

Reached-IsSound_example :
    IsCounted main_read.stack
    × (streams main_read.stack.files ≡ main_read.buffers)
    × (has_current main_read.stack.files ≡ true)
Reached-IsSound_example = Reached-IsSound disk main_read main_read-Reached

Reached-push_file_example : (push_file disk (codes "next") main_read).stack.files ≡ (
    if ltb 100 (height main_read.stack.files + length main_read.stack.refusals)
    then main_read.stack.files
    else stacked disk (codes "next" ∷ []) main_read.stack.files)
Reached-push_file_example = Reached-push_file disk main_read (codes "next") main_read-Reached

-- The last file is freed twice if there is one more end of a file.
freed_again : end_of_file main_read ≡ none
unfolding end_of_file sourcefile_pop
freed_again = refl
