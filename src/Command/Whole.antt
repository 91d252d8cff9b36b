-- ===== src/Command/Whole.antt =====
-- filtergen.c, `main`, from the file that is read to the rules of ipfilter that are written.
use filtergen.Base.{Bool, true, false, none, some, Text, List, [], ◌∷◌, codes, ◌≡◌, ap, ◌∙◌}
use filtergen.Filter.Types.{af_inet}
use filtergen.Filter.Tree.{Filter, Leaf}
use filtergen.Filter.Trails.{trails}
use filtergen.Filter.Packets.{meant, selects}
use filtergen.Filter.Negation.Operand.{IsNegatable}
use filtergen.Filter.Groups.{filter_nogroup}
use filtergen.Filter.Targets.Steady.{IsSteady}
use filtergen.Gen.Entry.{zero_ent}
use filtergen.Gen.Apply.Paths.{run_trails}
use filtergen.Output.Ipfilter.{cb_ipfilter}
use filtergen.Glue.Ast.{Ast}
use filtergen.Glue.Policy.{parsed, fg_ipfilter-trails}
use filtergen.Command.{main, report, report_outcome, from_stdin}
use filtergen.Command.Options.{Opt, Settings, defaults, proceed, read_options}
use filtergen.Command.Results.{main_opens}
use filtergen.Command.Tables.{System, resolved, filtergen_source_parser, find_parser, find_type}

module _ (system : System) (options : List Opt) (filename : Text) (more : List Text) (s : Settings)
    (ast : Ast) where
  -- The tree of the file that is compiled for a back end of IPv4.
  abbrev pub policy : Filter
  policy = parsed system.libc af_inet (resolved system s.flags af_inet ast) 0

  -- If the options ask for no flush, name the target ipfilter, no source and an output that can be
  -- opened, and the file can be parsed into a policy whose negations stand over single conditions
  -- and whose targets stand last, then no fault occurs before the walk, and the program ends
  -- exactly as the run of the paths of a tree does, in order and each from an empty entry, with the
  -- rule function of ipfilter. If the run returns a count, the program writes what the run has
  -- written and ends with status 0. If a path fails, it writes what the run has written until then,
  -- ends with status 1, and removes the output file if that has a name. If a path ends the program,
  -- as one does that gives a routing type a second time, the program is killed. The paths select
  -- exactly the packets that the policy means, its names resolved unless the options say otherwise.
  pub main_ipfilter :
      read_options options defaults ≡ proceed s
      → s.flags.flush ≡ false
      → system.open_outfile s.ofn ≡ true
      → s.source_name ≡ none
      → s.ftn ≡ some (codes "ipfilter")
      → system.parse (from_stdin filename) ≡ some (some ast)
      → IsNegatable (filter_nogroup policy)
      → IsSteady (filter_nogroup policy)
      → (f' : Filter) × (main system options (filename ∷ more)
          ≡ report s.ofn (run_trails (cb_ipfilter s.flags) (trails f') zero_ent []))
        × ((v : Leaf → Bool) → selects v (trails f') ≡ meant v policy)
  unfolding find_parser find_type filtergen_source_parser
  main_ipfilter read unflushed opens source target parses negatable steady =
      let (f', e, means) =
        fg_ipfilter-trails system.libc af_inet (resolved system s.flags af_inet ast) 0 negatable
          steady s.flags [] in
      (
        f',
        main_opens system options filename more s read unflushed
            ∙ rw (opens, source, target, parses) (ap (report_outcome s.ofn) e),
        means,
      )
