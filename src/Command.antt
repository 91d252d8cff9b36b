-- ===== src/Command.antt =====
-- filtergen.c, the options, the tables and `main`, with `filtergen_source_parser` of glue.c.
-- Messages on the standard error output are not modelled.
pub mod Options
pub mod Tables
pub mod Results
pub mod Flushing
pub mod Whole
mod Tests
use filtergen.Base.{
  ℕ, Bool, true, false, not, Option, none, some, Text, List, [], ◌∷◌, codes, is_set, text_eq,
  if◌then◌else◌,
}
use filtergen.Base.Outcome.{Outcome, Fault, ok, fault, null_pointer, ◌>>=◌}
use filtergen.Filter.Types.{FilterType}
use filtergen.Filter.Tree.{Filter}
use filtergen.Gen.Entry.{Flags, Count, failed, aborted, rules}
use filtergen.Output.Strapp.{Written}
use filtergen.Command.Options.{
  Opt, Settings, defaults, Parsing, proceed, leave, read_options, defaulted,
}
use filtergen.Command.Tables.{System, SourceParser, Filtyp, find_parser, find_type}

-- How the program ends: with a status, with what it wrote and whether it then removed the output
-- file, or in a way that it did not choose. What is written before such an end is not kept.
pub data Ending : Type 0 where
  exits : (status : ℕ) → Written → (removed : Bool) → Ending
  crashes : Fault → Ending
  aborts : Ending

abbrev pub stopped : ℕ → Ending
stopped status = exits status [] false

-- From `close_outfile` on.
abbrev pub report : Option Text → Written × Count → Ending
report ofn (out, failed) = exits 1 out (is_set ofn)
report ofn (out, aborted) = aborts
report ofn (out, rules n) = exits 0 out false

abbrev pub report_outcome : Option Text → Outcome (Written × Count) → Ending
report_outcome ofn (fault e) = crashes e
report_outcome ofn (ok r) = report ofn r

-- `l = ft->flusher(flushpol)`, whether the pointer is null or not.
abbrev pub flush_with :
    Option (FilterType → Written → Written × Count) → FilterType → Outcome (Written × Count)
flush_with none policy = fault null_pointer
flush_with (some flusher) policy = ok (flusher policy [])

abbrev pub from_stdin : Text → Option Text
from_stdin filename = if text_eq filename (codes "-") then none else some filename

-- `f = sp->parser(filename, flags, &o); l = ft->compiler(f, flags);`
abbrev pub compile_file : SourceParser → Filtyp → Option Text → Flags → Outcome (Written × Count)
compile_file sp ft filename flags = do
  f ← SourceParser.parser sp filename flags ft.family
  Filtyp.compiler ft f flags []

-- What to do, then, with the tables' entries found.
abbrev pub perform : SourceParser → Filtyp → Settings → Option Text → Ending
perform sp ft s none = report_outcome s.ofn (flush_with ft.flusher s.flushpol)
perform sp ft s (some filename) =
    report_outcome s.ofn (compile_file sp ft (from_stdin filename) s.flags)

abbrev pub with_type : SourceParser → Option Filtyp → Settings → Option Text → Ending
with_type sp none s input = stopped 1
with_type sp (some ft) s input = perform sp ft s input

abbrev pub with_parser : Option SourceParser → Option Filtyp → Settings → Option Text → Ending
with_parser none ft s input = stopped 1
with_parser (some sp) ft s input = with_type sp ft s input

-- Behind the loop over the options: the input is taken from the arguments that are left, unless the
-- filter is only flushed, and the output file is opened.
module _ (system : System) where
  abbrev pub opened : Settings → Option Text → Ending
  opened s input =
      if system.open_outfile s.ofn
      then with_parser (find_parser system (defaulted (codes "filtergen") s.source_name))
          (find_type system (defaulted (codes "iptables") s.ftn)) s input
      else stopped 1

  abbrev pub with_arguments : Settings → List Text → Ending
  with_arguments s [] = stopped 1
  with_arguments s (filename ∷ _) = opened s (some filename)

  abbrev pub after_options : Settings → List Text → Ending
  after_options s arguments = if s.flags.flush then opened s none else with_arguments s arguments

  abbrev pub act : Parsing → List Text → Ending
  act (leave status) arguments = stopped status
  act (proceed s) arguments = after_options s arguments

  -- `main`, for what `getopt_long` makes of the command line: its results in order, and the
  -- arguments that are not options.
  unfoldable pub main : List Opt → List Text → Ending
  unfolding read_options find_parser find_type
  main options arguments = act (read_options options defaults) arguments
